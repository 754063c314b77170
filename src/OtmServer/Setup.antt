-- ===== src/OtmServer/Setup.antt =====
-- network/one-to-many/server.c: creating the server.
use chats.Prelude.{
  ℕ, Bool, not, Option, none, some, List, [], ◌∷◌, ◌++◌, ◌==◌, if◌then◌else◌, ◌>>=◌,
}
use chats.Prelude.Int.{ℤ, pos, ltb_ℤ}
use chats.Network.Endpoints.{EndpointType, translate_endpoint}
use chats.Network.{Net}
use chats.LinkedList.{Ptr, null, LinkedList, Memory, Allocation, list_init, list_deinit}
use chats.Sockets.{Candidate, Bound, bind_loop, close}
use chats.OtmServer.{OtmServerTcp, default_connection_backlog, sizeof_connection}

-- What `otm_server_tcp_init` gives: the server, `none` for NULL, the sockets that it closed itself,
-- and the memory of lists.
pub record Started (E : Type 0) : Type 0 where
  pub server : Option (OtmServerTcp E)
  pub closed : List ℕ
  pub memory : Memory

-- What its calls come to: the allocations of the server, `none` where it fails, and of the list, the
-- addresses that `getaddrinfo` finds, and whether `listen` fails with a backlog.
pub record Calls (E : Type 0) : Type 0 where
  pub allocated : Option (OtmServerTcp E)
  pub list : Allocation LinkedList
  pub addr_info : Option (List Candidate)
  pub listen_fails : ℤ → Bool

module _ {E : Type 0} where
  -- The label `fail` where a server and its list are there.
  abbrev pub fail_with : (l : Ptr) → Memory → (closed : List ℕ) → Option (Started E)
  fail_with l memory closed = do
    memory' ← list_deinit l memory
    some (record { server = none; closed = closed; memory = memory' })

  -- Behind the loop over the addresses.
  unfoldable pub listen_on :
      (raw : OtmServerTcp E)
      → (l : Ptr) → Memory
      → (listen_fails : Bool) → (reuse_addr : ℕ) → Net E
      → Bound
      → (closed : List ℕ) → Option (Started E)
  listen_on raw l memory listen_fails reuse_addr net Bound.exhausted closed =
      fail_with l memory closed
  listen_on raw l memory listen_fails reuse_addr net (Bound.option_refused sfd) closed =
      fail_with l memory (close raw.local.skt closed)
  listen_on raw l memory listen_fails reuse_addr net (Bound.bound sfd addr) closed =
      if listen_fails
      then fail_with l memory (closed ++ sfd ∷ [])
      else some (record {
        server = some (record raw {
          reuse_addr = reuse_addr;
          mutex = 0;
          net = net;
          local = record {
            skt = some sfd;
            ep =
                translate_endpoint
                  (record raw.local.ep { ep_type = EndpointType.tcp; addr = addr });
          };
          remotes_list = l;
          memory = memory;
          closed = closed;
        });
        closed = closed;
        memory = memory;
      })

  -- `given` says that neither the service, nor the address, nor the port is NULL.
  unfoldable pub otm_server_tcp_init :
      Calls E
      → (given : Bool) → (connection_backlog : ℤ) → (reuse_addr : ℕ) → Net E
      → Memory
      → Option (Started E)
  otm_server_tcp_init calls given connection_backlog reuse_addr net memory =
      let nothing : Started E = record { server = none; closed = []; memory = memory } in
      let backlog =
        if ltb_ℤ (pos 0) connection_backlog
        then connection_backlog
        else default_connection_backlog in
      let (l, memory1) = list_init calls.list sizeof_connection memory in
      if not given then some nothing else elim calls.allocated [
        | none ↦ some nothing
        | some raw ↦ if l == null then some nothing else elim calls.addr_info [
          | none ↦ fail_with l memory1 []
          | some addr_info ↦
              let (b, closed) = bind_loop addr_info in
              listen_on raw l memory1 (calls.listen_fails backlog) reuse_addr net b closed
        ]
      ]
