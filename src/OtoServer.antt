-- ===== src/OtoServer.antt =====
-- network/one-to-one/server.c: a server with at most one connection.
-- `server` is NULL or the address of the object, which is the state here. A result is `none` where an
-- assertion stops the program.
pub mod Connected
mod Tests
use chats.Prelude.{
  ℕ, ◌+◌, ◌-◌, Bool, true, false, not, Option, none, some, List, [], ◌∷◌, ◌++◌, ◌==◌, ◌||◌,
  if◌then◌else◌, ◌>>=◌,
}
use chats.IoService.{io_service_post_job}
use chats.IoService.Elements.{Op}
use chats.LinkedList.{Ptr, null}
use chats.Network.Endpoints.{
  EndpointClass, EndpointType, Sockaddr, Endpoint, EndpointSocket, translate_endpoint,
}
use chats.Network.{SrbOp, Srb, Net}
use chats.Network.Operate.{Jobs, Kernel}
use chats.Sockets.{
  Candidate, Bound, bind_loop, close, Transfer, has_data, lock, unlock, transfer, Connection,
  Acceptor, connected_to,
}

-- `struct oto_server_tcp`, with the sockets that it has closed, in order. `mutex` counts the locks
-- held, and `net` has the service `master`.
pub record OtoServerTcp (E : Type 0) : Type 0 where
  pub connected : Bool
  pub reuse_addr : ℕ
  pub mutex : ℕ
  pub net : Net E
  pub local : EndpointSocket
  pub remote : Connection
  pub closed : List ℕ

module _ {E : Type 0} where
  abbrev pub locked : OtoServerTcp E → OtoServerTcp E
  locked s = record s { mutex = lock s.mutex }

  abbrev pub unlocked : OtoServerTcp E → OtoServerTcp E
  unlocked s = record s { mutex = unlock s.mutex }

  abbrev pub close_remote : OtoServerTcp E → OtoServerTcp E
  close_remote s = record s { closed = close s.remote.ep_skt.skt s.closed }

-- A callback that is told of the connection: what it does to the server, and whether it keeps the
-- connection.
abbrev pub Callback : Type 0 → Type 0
Callback E = (cb err ctx : ℕ) → OtoServerTcp E → OtoServerTcp E × Bool

module _ {E : Type 0} where
  -- The end of `oto_tcp_acceptor`, behind the callback.
  unfoldable pub answered : OtoServerTcp E × Bool → OtoServerTcp E
  answered (s, kept) =
      if kept then unlocked s else unlocked (record (close_remote s) { connected = false })

module _ {E : Type 0} (call : Callback E) where
  -- `accepted` is the socket and the address that `accept` gives.
  unfoldable pub oto_tcp_acceptor :
      (accepted : Option (ℕ × Sockaddr)) → Acceptor → OtoServerTcp E → Option (OtoServerTcp E)
  oto_tcp_acceptor accepted acceptor s = do
    (afd, addr) ← accepted
    let s1 : OtoServerTcp E = record (locked s) {
      connected = true;
      remote = connected_to acceptor.host afd addr s.remote;
    }
    some (answered (call acceptor.connection_cb 0 acceptor.connection_ctx s1))

  unfoldable pub oto_server_tcp_listen_sync :
      (server : Ptr)
      → (allocated : Bool) → (accepted : Option (ℕ × Sockaddr)) → (cb ctx : ℕ) → OtoServerTcp E
      → Option (OtoServerTcp E)
  oto_server_tcp_listen_sync server allocated accepted cb ctx s =
      if server == null
      then some s
      else if s.connected
      then some (unlocked (locked s))
      else if not allocated
      then none
      else do
        s1 ←
            oto_tcp_acceptor accepted
              (record { host = server; connection_cb = cb; connection_ctx = ctx }) (locked s)
        some (unlocked s1)

module _ {E : Type 0} where
  -- `acceptor` is the address of the `struct connection_acceptor`, NULL where its allocation fails,
  -- and `tpl` that of `oto_tcp_acceptor`.
  unfoldable pub oto_server_tcp_listen_async :
      (tpl : ℕ) → (server acceptor : Ptr) → OtoServerTcp E → Option (OtoServerTcp E)
  oto_server_tcp_listen_async tpl server acceptor s =
      if server == null
      then some s
      else if s.connected
      then some (unlocked (locked s))
      else if acceptor == null
      then none
      else do
        fd ← s.local.skt
        some (
            unlocked (record (locked s) {
              net = record s.net {
                service = io_service_post_job s.net.service fd Op.read true tpl acceptor;
              };
            }))

  unfoldable pub oto_server_tcp_disconnect : (server : Ptr) → OtoServerTcp E → OtoServerTcp E
  oto_server_tcp_disconnect server s =
      if server == null then s else unlocked (close_remote (locked s))

  -- The object is freed; what is left is what it did before.
  unfoldable pub oto_server_tcp_deinit : (server : Ptr) → OtoServerTcp E → OtoServerTcp E
  oto_server_tcp_deinit server s =
      if server == null
      then s
      else let s0 = locked s in
        let s1 = if s.connected then oto_server_tcp_disconnect server s0 else s0 in
        unlocked (record s1 { closed = close s1.local.skt s1.closed })

  unfoldable pub oto_server_tcp_local_ep :
      (server : Ptr)
      → (ep : Option EndpointSocket) → OtoServerTcp E
      → Option EndpointSocket × OtoServerTcp E
  oto_server_tcp_local_ep server none s = (none, s)
  oto_server_tcp_local_ep server (some ep) s =
      if server == null then (some ep, s) else (some s.local, unlocked (locked s))

  -- The code does not test `ep` for NULL.
  unfoldable pub oto_server_tcp_remote_ep :
      (server : Ptr) → (ep : EndpointSocket) → OtoServerTcp E → EndpointSocket × OtoServerTcp E
  oto_server_tcp_remote_ep server ep s =
      if server == null
      then (ep, s)
      else let s1 = locked s in
        (
          if s1.connected then s1.remote.ep_skt else record ep {
            ep = record ep.ep { ep_type = EndpointType.none; ep_class = EndpointClass.none };
          },
          unlocked s1,
        )

  module _ (jobs : Jobs) (k : Kernel) (allocated : Option Srb) (server : Ptr) (t : Transfer)
      (s : OtoServerTcp E) where
    -- The body of the four transfers.
    abbrev pub transfer_remote : SrbOp → (has_iosvc : Bool) → Option (OtoServerTcp E)
    transfer_remote op has_iosvc =
        if (server == null) || not (has_data t.buffer) then some s else do
          net ← transfer jobs k allocated EndpointType.tcp op has_iosvc s.remote.ep_skt t s.net
          some (unlocked (record (locked s) { net = net }))

    unfoldable pub oto_server_tcp_send_sync : Option (OtoServerTcp E)
    oto_server_tcp_send_sync = transfer_remote SrbOp.send false

    unfoldable pub oto_server_tcp_send_async : Option (OtoServerTcp E)
    oto_server_tcp_send_async = transfer_remote SrbOp.send true

    unfoldable pub oto_server_tcp_recv_sync : Option (OtoServerTcp E)
    oto_server_tcp_recv_sync = transfer_remote SrbOp.recv false

    unfoldable pub oto_server_tcp_recv_async : Option (OtoServerTcp E)
    oto_server_tcp_recv_async = transfer_remote SrbOp.recv true

-- What `oto_server_tcp_init` gives: the server, `none` for NULL, and the sockets that it closed.
pub record Started (E : Type 0) : Type 0 where
  pub server : Option (OtoServerTcp E)
  pub closed : List ℕ

module _ {E : Type 0} where
  -- Behind the loop over the addresses; `zero` is the memory that `memset` sets to 0.
  unfoldable pub listen_on :
      (raw : OtoServerTcp E)
      → (zero : Connection) → (listen_fails : Bool) → (reuse_addr : ℕ) → Net E
      → Bound
      → (closed : List ℕ) → Started E
  listen_on raw zero listen_fails reuse_addr net Bound.exhausted closed = record {
    server = none;
    closed = closed;
  }
  listen_on raw zero listen_fails reuse_addr net (Bound.option_refused sfd) closed = record {
    server = none;
    closed = close raw.local.skt closed;
  }
  listen_on raw zero listen_fails reuse_addr net (Bound.bound sfd addr) closed =
      if listen_fails then record { server = none; closed = closed ++ sfd ∷ [] } else record {
        server = some (record raw {
          connected = false;
          reuse_addr = reuse_addr;
          mutex = 0;
          net = net;
          local = record {
            skt = some sfd;
            ep =
                translate_endpoint
                  (record raw.local.ep { ep_type = EndpointType.tcp; addr = addr });
          };
          remote = zero;
          closed = closed;
        });
        closed = closed;
      }

  -- `given` says that neither the service, nor the address, nor the port is NULL; `allocated` is the
  -- memory of the server, and `addr_info` what `getaddrinfo` finds.
  unfoldable pub oto_server_tcp_init :
      (allocated : Option (OtoServerTcp E))
      → (addr_info : Option (List Candidate)) → (zero : Connection) → (given listen_fails : Bool)
      → (reuse_addr : ℕ) → Net E
      → Started E
  oto_server_tcp_init allocated addr_info zero given listen_fails reuse_addr net =
      let nothing : Started E = record { server = none; closed = [] } in
      if not given then nothing else elim allocated [
        | none ↦ nothing
        | some raw ↦ elim addr_info [
          | none ↦ nothing
          | some cs ↦
              let (b, closed) = bind_loop cs in
              listen_on raw zero listen_fails reuse_addr net b closed
        ]
      ]
