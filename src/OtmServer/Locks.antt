-- ===== src/OtmServer/Locks.antt =====
-- network/one-to-many/server.c: the locks of each operation.
use chats.Prelude.{
  zero, suc, ℕ, ◌+◌, ◌-◌, ◌≡◌, Bool, true, false, not, Option, none, some, arith, ◌==◌, ◌||◌, ◌⊎◌,
  if◌then◌else◌, ◌>>=◌, Bool-cases, inl, inr, Holds, Holds-bind, Holds-some,
}
use chats.Network.Endpoints.{EndpointSocket, Sockaddr, EndpointType}
use chats.Network.{Srb, SrbOp, Net}
use chats.Network.Operate.{Jobs, Kernel}
use chats.LinkedList.{
  Ptr, null, ListElement, Memory, Allocation, list_remove_element, list_remove_next,
  list_first_element,
}
use chats.LinkedList.Adding.{list_append}
use chats.Sockets.{Transfer, transfer}
use chats.OtmServer.{
  otm_server_tcp_local_ep, otm_server_tcp_deinit, close_all, close_connection, OtmServerTcp,
  Callback, answered, put_connection, locked, refuses, tcp_acceptor, otm_server_tcp_listen_sync,
  otm_server_tcp_listen_async, otm_server_tcp_disconnect,
}
use chats.Sockets.{Acceptor, connected_to}

-- A callback that gives back the locks that it takes.
abbrev pub IsBalanced : {E : Type 0} → Callback E → Type 0
IsBalanced {E} call =
    (cb : ℕ) (connection : Ptr) (err ctx : ℕ) (s : OtmServerTcp E)
    → (call cb connection err ctx s).0.mutex ≡ s.mutex

-- As many locks are held behind an operation as before it, where it comes to its end.
abbrev pub KeepsLocks : {E : Type 0} → ℕ → OtmServerTcp E → Option (OtmServerTcp E) → Type 0
KeepsLocks more s o = Holds (λ (s' : OtmServerTcp _). s'.mutex ≡ s.mutex + more) o

pub unlock-lock : (n : ℕ) → n + 1 - 1 ≡ n + 0
unlock-lock n = omega arith

pub if_same : (b : Bool) → ◌≡◌ {A = ℕ} (if b then 0 else 0) 0
if_same b = ground arith

mutex-answered :
    {E : Type 0} (p : Ptr) (s : OtmServerTcp E) (kept : Bool) (n : ℕ)
    → s.mutex ≡ n + 1
    → Holds (λ (s' : OtmServerTcp E). s'.mutex ≡ n) (answered p (s, kept))
unfolding answered
mutex-answered p s true n h = omega arith
mutex-answered p s false n h =
    Holds-bind _ (list_remove_element s.remotes_list p s.memory) _ (λ memory e. omega arith)

module _ {E : Type 0} (fall_off : Ptr → Ptr) (call : Callback E) (balanced : IsBalanced call) where
  pub tcp_acceptor-KeepsLocks :
      (m : Allocation ListElement) (accepted : Option (ℕ × Sockaddr)) (a : Acceptor)
      (s : OtmServerTcp E)
      → KeepsLocks 0 s (tcp_acceptor fall_off call m accepted a s)
  unfolding tcp_acceptor
  tcp_acceptor-KeepsLocks m accepted a s =
      Holds-bind _ (list_append fall_off m s.remotes_list s.memory) _
        λ r e. go r (Bool-cases (r.0 == null))
    where
      told : (r : Ptr × Memory) (q : ℕ × Sockaddr) → OtmServerTcp E
      told r q =
          put_connection r.0 (connected_to a.host q.0 q.1 (s.connections r.0))
            (record (locked s) { memory = r.1 })

      go :
          (r : Ptr × Memory)
          → ((r.0 == null) ≡ true) ⊎ ((r.0 == null) ≡ false)
          → KeepsLocks 0 s (
              if r.0 == null
              then none
              else (accepted >>= λ (q : ℕ × Sockaddr).
                  answered r.0 (call a.connection_cb r.0 0 a.connection_ctx (told r q))))
      go r (inl failed) = rw failed tt
      go r (inr there) = rw there (
          Holds-bind _ accepted _ λ (q : ℕ × Sockaddr) f.
            mutex-answered r.0 (call a.connection_cb r.0 0 a.connection_ctx (told r q)).0
              (call a.connection_cb r.0 0 a.connection_ctx (told r q)).1 (s.mutex + 0)
              (omega (arith, balanced a.connection_cb r.0 0 a.connection_ctx (told r q))))

  pub listen_sync-KeepsLocks :
      (server : Ptr) (allocated : Bool) (m : Allocation ListElement)
      (accepted : Option (ℕ × Sockaddr)) (cb ctx : ℕ) (s : OtmServerTcp E)
      → KeepsLocks 0 s
          (otm_server_tcp_listen_sync fall_off call server allocated m accepted cb ctx s)
  unfolding otm_server_tcp_listen_sync
  listen_sync-KeepsLocks server allocated m accepted cb ctx s = elim (Bool-cases (server == null)) [
    | inl gone ↦ rw gone (omega arith)
    | inr there ↦ rw there (elim (Bool-cases allocated) [
      | inl given ↦
          let a : Acceptor = record { host = server; connection_cb = cb; connection_ctx = ctx } in
          rw given (
            Holds-bind _ (tcp_acceptor fall_off call m accepted a (locked s)) _ λ s1 e.
              let same : s1.mutex ≡ s.mutex + 1 + 0 =
                Holds-some (λ (s' : OtmServerTcp E). s'.mutex ≡ s.mutex + 1 + 0) e
                  (tcp_acceptor-KeepsLocks m accepted a (locked s)) in
              omega (arith, same))
      | inr failed ↦ rw failed tt
    ])
  ]

module _ {E : Type 0} where
  pub listen_async-KeepsLocks :
      (tpl : ℕ) (server acceptor : Ptr) (s : OtmServerTcp E)
      → KeepsLocks 0 s (otm_server_tcp_listen_async tpl server acceptor s)
  unfolding otm_server_tcp_listen_async
  listen_async-KeepsLocks tpl server acceptor s = elim (Bool-cases (server == null)) [
    | inl gone ↦ rw gone (omega arith)
    | inr there ↦ rw there (elim (Bool-cases (acceptor == null)) [
      | inl failed ↦ rw failed tt
      | inr given ↦ rw given (Holds-bind _ s.local.skt _ (λ fd e. omega arith))
    ])
  ]

  pub disconnect-KeepsLocks :
      (server connection : Ptr) (s : OtmServerTcp E)
      → KeepsLocks 0 s (otm_server_tcp_disconnect server connection s)
  unfolding otm_server_tcp_disconnect
  disconnect-KeepsLocks server connection s =
      elim (Bool-cases (
        (server == null)
        || (connection == null)
        || not ((s.connections connection).host == server))) [
          | inl refused ↦ rw refused (omega arith)
          | inr there ↦ rw there (
              Holds-bind _ (list_remove_element s.remotes_list connection s.memory) _
                (λ memory e. omega arith))
        ]

  -- The transfers, whose bodies are one but for the last call.
  module _ (jobs : Jobs) (k : Kernel) (srb : Option Srb) (server connection : Ptr) (t : Transfer)
      (s : OtmServerTcp E) where
    pub transfer-KeepsLocks :
        (op : SrbOp) (has_iosvc : Bool) (more : ℕ) (last : OtmServerTcp E → OtmServerTcp E)
        → ((net : Net E) → (last (record (locked s) { net = net })).mutex ≡ s.mutex + more)
        → KeepsLocks (if refuses server connection t s then 0 else more) s (
            if refuses server connection t s
            then some s
            else (transfer jobs k srb EndpointType.tcp op has_iosvc
                  (s.connections connection).ep_skt
                  t
                  s.net
                >>= λ (net : Net E). some (last (record (locked s) { net = net }))))
    transfer-KeepsLocks op has_iosvc more last h =
        elim (Bool-cases (refuses server connection t s)) [
          | inl refused ↦ rw refused (omega arith)
          | inr fine ↦ rw fine (
              Holds-bind _
                (transfer jobs k srb EndpointType.tcp op has_iosvc (s.connections connection).ep_skt
                  t s.net)
                _ (λ net e. h net))
        ]

module _ {E : Type 0} where
  pub local_ep-KeepsLocks :
      (server : Ptr) (ep : Option EndpointSocket) (s : OtmServerTcp E)
      → (otm_server_tcp_local_ep server ep s).1.mutex ≡ s.mutex + 0
  unfolding otm_server_tcp_local_ep
  local_ep-KeepsLocks server none s = omega arith
  local_ep-KeepsLocks server (some ep) s = elim (Bool-cases (server == null)) [
    | inl gone ↦ rw gone (omega arith)
    | inr there ↦ rw there (omega arith)
  ]

  -- The loop over the connections leaves the mutex as it is.
  mutex-close_all :
      (rounds : ℕ) (connection : Ptr) (s : OtmServerTcp E)
      → Holds (λ (s' : OtmServerTcp E). s'.mutex ≡ s.mutex) (close_all rounds connection s)
  unfolding close_all
  mutex-close_all zero connection s = tt
  mutex-close_all (suc rounds) connection s = elim (Bool-cases (connection == null)) [
    | inl done ↦ rw (done, close_all) (omega arith)
    | inr there ↦
        rw (there, close_all)
          (Holds-bind _ (list_remove_next s.remotes_list connection s.memory) _ λ r e.
            mutex-close_all rounds r.0
              (record (close_connection (s.connections connection) s) { memory = r.1 }))
  ]

  pub deinit-KeepsLocks :
      (rounds : ℕ) (server : Ptr) (s : OtmServerTcp E)
      → KeepsLocks 0 s (otm_server_tcp_deinit rounds server s)
  unfolding otm_server_tcp_deinit
  deinit-KeepsLocks rounds server s = elim (Bool-cases (server == null)) [
    | inl gone ↦ rw gone (omega arith)
    | inr there ↦ rw there (
        Holds-bind _ (list_first_element s.remotes_list s.memory) _ λ first e.
          Holds-bind _ (close_all rounds first (locked s)) _ λ s1 e1.
            let same : s1.mutex ≡ s.mutex + 1 =
              Holds-some (λ (s' : OtmServerTcp E). s'.mutex ≡ s.mutex + 1) e1
                (mutex-close_all rounds first (locked s)) in
            omega (arith, same))
  ]
