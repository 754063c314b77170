-- ===== src/Client/Connecting.antt =====
-- network/client/client.c: what `client_tcp_connect_sync` comes to with the addresses that it tries.
use chats.Prelude.{
  ℕ, ◌≡◌, ◌≢◌, refl, true, false, none, some, List, [], ◌∷◌, ◌++◌, arith, ◌==◌, if◌then◌else◌,
  Bool-cases, inl, inr,
}
use chats.LinkedList.{Ptr, null}
use chats.LinkedList.Links.{not_null}
use chats.Network.Endpoints.{
  EndpointClass, EndpointType, Sockaddr, EndpointSocket, translate_endpoint,
}
use chats.Sockets.{close}
use chats.Client.{ClientTcp, Opening, Opened, locked, client_init_socket, client_tcp_disconnect}
use chats.Client.Connections.{
  Attempt, connect_loop, with_remote, finish_connect, client_tcp_connect_sync,
}

-- Attempts that fail, by their addresses and errors.
abbrev pub refused : List (Sockaddr × ℕ) → List Attempt
refused [] = []
refused ((a, e) ∷ fs) = record { addr = a; error = some e } ∷ refused fs

abbrev pub last_error : List (Sockaddr × ℕ) → ℕ → ℕ
last_error [] d = d
last_error ((a, e) ∷ fs) d = last_error fs e

pub connect_loop-refused :
    (fs : List (Sockaddr × ℕ)) (errno : ℕ)
    → connect_loop (refused fs) errno ≡ (none, last_error fs errno)
unfolding connect_loop
connect_loop-refused [] errno = refl
connect_loop-refused ((a, e) ∷ fs) errno = connect_loop-refused fs e

-- A successful attempt leaves `errno` as the failed ones before it did.
connect_loop-connected :
    (fs : List (Sockaddr × ℕ)) (addr : Sockaddr) (rest : List Attempt) (errno : ℕ)
    → connect_loop (refused fs ++ record { addr = addr; error = none } ∷ rest) errno
      ≡ (some addr, last_error fs errno)
unfolding connect_loop
connect_loop-connected [] addr rest errno = refl
connect_loop-connected ((a, e) ∷ fs) addr rest errno = connect_loop-connected fs addr rest e

-- The remote end at the socket and the address connected to.
abbrev pub remote_end : EndpointSocket → Sockaddr → EndpointSocket → EndpointSocket
remote_end local addr before = record {
  skt = local.skt;
  ep = translate_endpoint (record before.ep { ep_type = EndpointType.tcp; addr = addr });
}

-- The client is connected, and the callback has the remote end.
pub record Connected {E : Type 0} (cb ctx : ℕ) (local : EndpointSocket) (addr : Sockaddr)
    (s s' : ClientTcp E) : Type 0 where
  pub connected : s'.connected ≡ true
  pub local_end : s'.local ≡ local
  pub remote : s'.remote ≡ remote_end local addr s.remote
  pub told :
      s'.told
      ≡ s.told
        ++ record { cb = cb; ep = some (remote_end local addr s.remote).ep; err = 0; ctx = ctx }
          ∷ []
  pub mutex : s'.mutex ≡ s.mutex

-- The connection that was made is closed again, and the callback has an error.
pub record Dropped {E : Type 0} (cb ctx err : ℕ) (local : EndpointSocket) (closed : List ℕ)
    (s s' : ClientTcp E) : Type 0 where
  pub connected : s'.connected ≡ false
  pub socket : s'.local.skt ≡ none
  pub closed_last : s'.closed ≡ close local.skt closed
  pub told : s'.told ≡ s.told ++ record { cb = cb; ep = none; err = err; ctx = ctx } ∷ []
  pub mutex : s'.mutex ≡ s.mutex

module _ {E : Type 0} (o : Opening) (opened : Opened) (client : Ptr) (cb ctx : ℕ)
    (s : ClientTcp E) where
  -- The client with its new socket.
  abbrev pub with_socket : ClientTcp E
  with_socket = record (locked s) { local = opened.ep_skt; closed = s.closed ++ opened.closed }

  finish_connect-Connected :
      (addr : Sockaddr)
      → (cb == 0) ≡ false
      → Connected cb ctx opened.ep_skt addr s
          (finish_connect client cb ctx 0 (with_remote addr with_socket))
  unfolding finish_connect
  finish_connect-Connected addr n = record {
    connected = refl;
    local_end = refl;
    remote = refl;
    told = rw n refl;
    mutex = omega arith;
  }

  finish_connect-Dropped :
      (addr : Sockaddr) (errno : ℕ)
      → client ≢ null
      → (cb == 0) ≡ false
      → (errno == 0) ≡ false
      → Dropped cb ctx errno opened.ep_skt
          (s.closed ++ opened.closed)
          s
          (finish_connect client cb ctx errno (with_remote addr with_socket))
  unfolding finish_connect client_tcp_disconnect
  finish_connect-Dropped addr errno there n e =
      let there' = not_null client there in
      record {
        connected = rw (e, there') refl;
        socket = rw (e, there') refl;
        closed_last = rw (e, there') refl;
        told = rw (e, there', n) refl;
        mutex = rw (e, there') (omega arith);
      }

  -- `client_tcp_connect_sync` of a client without a socket, with a callback, where a new socket is
  -- opened and the attempts at the addresses fail but for one, the first to succeed. The client is
  -- connected exactly where the last failure before the success has no error, that is where none
  -- came before it: `errno` of an address that failed before is taken for an error of the
  -- connection, which is closed again and reported as failed. The lock is given back either way.
  pub client_tcp_connect_sync-Connected :
      (fs : List (Sockaddr × ℕ)) (addr : Sockaddr) (rest : List Attempt)
      → client ≢ null
      → (cb == 0) ≡ false
      → s.local.skt ≡ none
      → client_init_socket o EndpointType.tcp EndpointClass.none s.named s.local ≡ some opened
      → opened.success ≡ true
      → (s' : ClientTcp E) × (client_tcp_connect_sync o
            (some (refused fs ++ record { addr = addr; error = none } ∷ rest))
            client
            true
            cb
            ctx
            s
          ≡ some s')
        × (if last_error fs 0 == 0
            then Connected cb ctx opened.ep_skt addr s s'
            else Dropped cb ctx (last_error fs 0) opened.ep_skt (s.closed ++ opened.closed) s s')
  unfolding client_tcp_connect_sync
  client_tcp_connect_sync-Connected fs addr rest there n no_socket opens success =
      let loop = connect_loop-connected fs addr rest 0 in
      let there' = not_null client there in
      (
        finish_connect client cb ctx (last_error fs 0) (with_remote addr with_socket),
        simp (there', no_socket, opens, success, loop) refl,
        elim (Bool-cases (last_error fs 0 == 0)) [
          | inl clean ↦
              let none_before : last_error fs 0 ≡ 0 = ground arith in
              rw none_before (finish_connect-Connected addr n)
          | inr failed ↦ rw failed (finish_connect-Dropped addr (last_error fs 0) there n failed)
        ],
      )
