-- ===== src/OtoServer/Connected.antt =====
-- network/one-to-one/server.c: when the server holds itself to be connected.
use chats.Prelude.{
  ℕ, ◌+◌, ◌-◌, ◌≡◌, ◌≢◌, refl, Bool, true, false, Option, some, [], ◌∷◌, ◌++◌, arith, if◌then◌else◌,
  ap, ◌∙◌,
}
use chats.LinkedList.{Ptr, null}
use chats.LinkedList.Links.{not_null}
use chats.Network.Endpoints.{EndpointClass, EndpointType, Sockaddr, EndpointSocket}
use chats.Sockets.{close, Acceptor, connected_to}
use chats.OtoServer.{
  OtoServerTcp, Callback, answered, locked, unlocked, close_remote, oto_tcp_acceptor,
  oto_server_tcp_listen_sync, oto_server_tcp_listen_async, oto_server_tcp_disconnect,
  oto_server_tcp_deinit, oto_server_tcp_remote_ep,
}

-- The server as the callback finds it.
abbrev pub told : {E : Type 0} → Acceptor → (afd : ℕ) → Sockaddr → OtoServerTcp E → OtoServerTcp E
told a afd addr s = record (locked s) {
  connected = true;
  remote = connected_to a.host afd addr s.remote;
}

-- What the answer `kept` of the callback makes of the connection.
pub record Accepted {E : Type 0} (kept : Bool) (a : Acceptor) (afd : ℕ) (addr : Sockaddr)
    (s s' : OtoServerTcp E) : Type 0 where
  pub connected : s'.connected ≡ kept
  pub remote : s'.remote ≡ connected_to a.host afd addr s.remote
  pub closed : s'.closed ≡ (if kept then s.closed else s.closed ++ afd ∷ [])
  pub mutex : s'.mutex ≡ s.mutex
  pub net : s'.net ≡ s.net

if_of_true {ℓ} : {A : Type ℓ} (b : Bool) (x y : A) → b ≡ true → (if b then x else y) ≡ x
if_of_true b x y h = rw h refl

unlocked-locked : {E : Type 0} (s : OtoServerTcp E) → unlocked (locked s) ≡ s
unlocked-locked s = λ i. record s { mutex = back s.mutex i }
  where
    back : (n : ℕ) → n + 1 - 1 ≡ n
    back n = omega arith

answered-Accepted :
    {E : Type 0} (kept : Bool) (a : Acceptor) (afd : ℕ) (addr : Sockaddr) (s : OtoServerTcp E)
    → Accepted kept a afd addr s (answered (told a afd addr s, kept))
unfolding answered
answered-Accepted true a afd addr s = record {
  connected = refl;
  remote = refl;
  closed = refl;
  mutex = omega arith;
  net = refl;
}
answered-Accepted false a afd addr s = record {
  connected = refl;
  remote = refl;
  closed = refl;
  mutex = omega arith;
  net = refl;
}

-- `oto_tcp_acceptor`, where `accept` succeeds and the callback leaves the server as it is: the server
-- is connected exactly if the callback keeps the connection, the remote end is the new socket with
-- its address translated, and the socket is closed if the callback does not keep it.
pub oto_tcp_acceptor-Accepted :
    {E : Type 0} (call : Callback E) (a : Acceptor) (afd : ℕ) (addr : Sockaddr) (s : OtoServerTcp E)
    → ((cb err ctx : ℕ) (s : OtoServerTcp E) → (call cb err ctx s).0 ≡ s)
    → (s' : OtoServerTcp E) × (oto_tcp_acceptor call (some (afd, addr)) a s ≡ some s')
      × Accepted (call a.connection_cb 0 a.connection_ctx (told a afd addr s)).1 a afd addr s s'
unfolding oto_tcp_acceptor
oto_tcp_acceptor-Accepted call a afd addr s untouched =
    let answer = (call a.connection_cb 0 a.connection_ctx (told a afd addr s)).1 in
    (
      answered (told a afd addr s, answer),
      ap (λ (u : OtoServerTcp _). some (answered (u, answer)))
          (untouched a.connection_cb 0 a.connection_ctx (told a afd addr s)),
      answered-Accepted answer a afd addr s,
    )

-- A connected server with the remote socket `fd`, once it is disconnected: it holds itself to be
-- connected still. Neither way of listening does anything then, the remote end is reported as before,
-- and to disconnect once more, as `oto_server_tcp_deinit` does, closes the same descriptor again.
pub oto_server_tcp_disconnect-connected :
    {E : Type 0} (call : Callback E) (server acceptor : Ptr) (allocated : Bool)
    (accepted : Option (ℕ × Sockaddr)) (tpl cb ctx fd : ℕ) (ep : EndpointSocket)
    (s : OtoServerTcp E)
    → server ≢ null
    → s.connected ≡ true
    → s.remote.ep_skt.skt ≡ some fd
    → (s' : OtoServerTcp E) × (oto_server_tcp_disconnect server s ≡ s')
      × (s'.closed ≡ s.closed ++ fd ∷ [])
      × (oto_server_tcp_listen_async tpl server acceptor s' ≡ some s')
      × (oto_server_tcp_listen_sync call server allocated accepted cb ctx s' ≡ some s')
      × (oto_server_tcp_remote_ep server ep s' ≡ (s.remote.ep_skt, s'))
      × ((oto_server_tcp_deinit server s').closed
          ≡ close s.local.skt ((s.closed ++ fd ∷ []) ++ fd ∷ []))
unfolding oto_server_tcp_disconnect oto_server_tcp_listen_async oto_server_tcp_listen_sync
    oto_server_tcp_remote_ep oto_server_tcp_deinit
oto_server_tcp_disconnect-connected call server acceptor allocated accepted tpl cb ctx fd ep s n
      connected open_ =
    let there = not_null server n in
    let s' : OtoServerTcp _ = unlocked (close_remote (locked s)) in
    let same = unlocked-locked s' in
    let blank : EndpointSocket = record ep {
      ep = record ep.ep { ep_type = EndpointType.none; ep_class = EndpointClass.none };
    } in
    (
      s',
      rw there refl,
      simp open_ refl,
      rw there (if_of_true s.connected _ _ connected ∙ ap some same),
      rw there (if_of_true s.connected _ _ connected ∙ ap some same),
      rw there (λ i. (if_of_true s.connected s.remote.ep_skt blank connected i, same i)),
      simp (there, connected, open_) refl,
    )
