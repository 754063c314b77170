-- ===== src/OtmServer/Starting.antt =====
-- network/one-to-many/server.c: what `otm_server_tcp_init` gives, and what it leaves open.
use mathlib.Core.List.{append-nil}
use chats.Prelude.{
  ℕ, ◌≡◌, ◌≢◌, refl, sym, ◌∙◌, Bool, true, false, Option, none, some, List, [], ◌∷◌, ◌++◌,
  if◌then◌else◌,
}
use chats.Prelude.Int.{ℤ, pos, ltb_ℤ}
use chats.LinkedList.{Ptr, null, Memory, list_init, put_list}
use chats.LinkedList.Chain.{IsList}
use chats.LinkedList.Freeing.{list_deinit-Freed}
use chats.LinkedList.Links.{not_null}
use chats.LinkedList.Making.{list_init-IsList}
use chats.Network.Endpoints.{EndpointType, translate_endpoint}
use chats.Network.{Net}
use chats.Sockets.{Candidate, Bound, bind_loop, close}
use chats.Sockets.Binding.{opened, Settled, bind_loop-Settled}
use chats.OtmServer.{OtmServerTcp, sizeof_connection}
use chats.OtmServer.Setup.{Calls, Started, fail_with, otm_server_tcp_init, listen_on}

-- No server, and every socket opened closed again.
pub record Failed {E : Type 0} (cs : List Candidate) (r : Started E) : Type 0 where
  pub server : r.server ≡ none
  pub closed : r.closed ≡ opened cs

-- A server with the socket `sfd`, no connections, and all other sockets opened closed again.
pub record Running {E : Type 0} (cs : List Candidate) (sfd : ℕ) (net : Net E) (r : Started E)
    : Type 0 where
  pub it : OtmServerTcp E
  pub server : r.server ≡ some it
  pub socket : it.local.skt ≡ some sfd
  pub listed : IsList it.memory it.remotes_list []
  pub mutex : it.mutex ≡ 0
  pub master : it.net ≡ net
  pub closed : r.closed ++ sfd ∷ [] ≡ opened cs

-- No server, and the socket `sfd` left open: in its place the one is closed that the memory held.
pub record Leaked {E : Type 0} (cs : List Candidate) (sfd : ℕ) (stale : Option ℕ) (r : Started E)
    : Type 0 where
  pub server : r.server ≡ none
  pub others : List ℕ
  pub opened_ones : opened cs ≡ others ++ sfd ∷ []
  pub closed : r.closed ≡ close stale others

abbrev pub Outcome :
    {E : Type 0}
    → List Candidate
    → Bound
    → (listen_fails : Bool) → (stale : Option ℕ) → Net E
    → Started E
    → Type 0
Outcome cs Bound.exhausted listen_fails stale net r = Failed cs r
Outcome cs (Bound.option_refused sfd) listen_fails stale net r = Leaked cs sfd stale r
Outcome cs (Bound.bound sfd addr) true stale net r = Failed cs r
Outcome cs (Bound.bound sfd addr) false stale net r = Running cs sfd net r

module _ {E : Type 0} (cs : List Candidate) (raw : OtmServerTcp E) (l : Ptr) (memory : Memory)
    (is : IsList memory l []) (reuse_addr : ℕ) (net : Net E) where
  fail_with_lem :
      (closed : List ℕ)
      → (s : Memory) × (fail_with {E = E} l memory closed
          ≡ some (record { server = none; closed = closed; memory = s }))
  fail_with_lem closed =
      let (nothing, (s, done, freed)) = list_deinit-Freed l memory [] is in
      (put_list l none s, rw done refl)

  listen_on-Outcome :
      (b : Bound) (closed : List ℕ) (listen_fails : Bool)
      → Settled cs (b, closed)
      → (r : Started E) × (listen_on raw l memory listen_fails reuse_addr net b closed ≡ some r)
        × Outcome cs b listen_fails raw.local.skt net r
  unfolding listen_on
  listen_on-Outcome Bound.exhausted closed listen_fails settled =
      let (s, done) = fail_with_lem closed in
      (
        record { server = none; closed = closed; memory = s },
        done,
        record { server = refl; closed = sym (append-nil closed) ∙ sym settled.closed },
      )
  listen_on-Outcome (Bound.option_refused sfd) closed listen_fails settled =
      let (s, done) = fail_with_lem (close raw.local.skt closed) in
      (
        record { server = none; closed = close raw.local.skt closed; memory = s },
        done,
        record { server = refl; others = closed; opened_ones = settled.closed; closed = refl },
      )
  listen_on-Outcome (Bound.bound sfd addr) closed true settled =
      let (s, done) = fail_with_lem (closed ++ sfd ∷ []) in
      (
        record { server = none; closed = closed ++ sfd ∷ []; memory = s },
        done,
        record { server = refl; closed = sym settled.closed },
      )
  listen_on-Outcome (Bound.bound sfd addr) closed false settled =
      let it : OtmServerTcp E = record raw {
        reuse_addr = reuse_addr;
        mutex = 0;
        net = net;
        local = record {
          skt = some sfd;
          ep = translate_endpoint (record raw.local.ep { ep_type = EndpointType.tcp; addr = addr });
        };
        remotes_list = l;
        memory = memory;
        closed = closed;
      } in
      (
        record { server = some it; closed = closed; memory = memory },
        refl,
        record {
          it = it;
          server = refl;
          socket = refl;
          listed = is;
          mutex = refl;
          master = refl;
          closed = sym settled.closed;
        },
      )

-- `otm_server_tcp_init`, its arguments given, its allocations successful and the address resolved:
-- with a socket bound and listening it gives a server at that socket with no connections; otherwise
-- NULL. It closes each other socket that it opened, but for one that refuses the option: that stays
-- open, and the descriptor is closed that the memory of the server happens to hold. A backlog that is
-- not positive is the default one.
pub otm_server_tcp_init-Outcome :
    {E : Type 0} (calls : Calls E) (backlog : ℤ) (reuse_addr : ℕ) (net : Net E) (memory : Memory)
    (raw : OtmServerTcp E) (cs : List Candidate)
    → calls.allocated ≡ some raw
    → calls.list.address ≢ null
    → calls.addr_info ≡ some cs
    → (r : Started E) × (otm_server_tcp_init calls true backlog reuse_addr net memory ≡ some r)
      × Outcome cs
          (bind_loop cs).0
          (calls.listen_fails (if ltb_ℤ (pos 0) backlog then backlog else pos 50))
          raw.local.skt
          net
          r
unfolding otm_server_tcp_init
otm_server_tcp_init-Outcome calls backlog reuse_addr net memory raw cs given n resolved =
    let (at_, is) = list_init-IsList calls.list sizeof_connection memory n in
    let (r, done, outcome) =
      listen_on-Outcome cs raw calls.list.address (list_init calls.list sizeof_connection memory).1
        is reuse_addr net (bind_loop cs).0 (bind_loop cs).1
        (calls.listen_fails (if ltb_ℤ (pos 0) backlog then backlog else pos 50))
        (bind_loop-Settled cs) in
    (r, simp (at_, not_null calls.list.address n, given, resolved) done, outcome)
