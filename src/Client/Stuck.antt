-- ===== src/Client/Stuck.antt =====
-- network/client/client.c: what a failed connection leaves, and where the assertions stop the program.
use chats.Prelude.{
  ℕ, ◌+◌, ◌≡◌, ◌≢◌, refl, true, false, not, Option, none, some, List, [], ◌∷◌, ◌++◌, arith, ◌==◌,
  ◌||◌, if◌then◌else◌, ◌>>=◌,
}
use chats.LinkedList.{Ptr, null}
use chats.LinkedList.Links.{not_null}
use chats.Network.Endpoints.{EndpointClass, EndpointType, Sockaddr}
use chats.Client.{
  ClientTcp, Opening, Opened, eisconn, locked, tell, client_init_socket, client_tcp_disconnect,
}
use chats.Client.Connections.{
  Attempt, Flags, client_tcp_connect_sync, client_tcp_connect_async, client_tcp_connector,
}
use chats.Client.Connecting.{refused, last_error, connect_loop-refused, with_socket}

-- A client that holds a socket and is not connected, with `depth` locks of its mutex held.
pub record IsStuck {E : Type 0} (fd depth : ℕ) (s : ClientTcp E) : Type 0 where
  pub connected : s.connected ≡ false
  pub socket : s.local.skt ≡ some fd
  pub mutex : s.mutex ≡ depth

-- A connection that is tried again while the client holds a socket.
connect_again :
    {E : Type 0} (o : Opening) (attempts : Option (List Attempt)) (client : Ptr) (cb ctx fd : ℕ)
    (s : ClientTcp E)
    → client ≢ null
    → (cb == 0) ≡ false
    → s.local.skt ≡ some fd
    → client_tcp_connect_sync o attempts client true cb ctx s
      ≡ some (tell cb ctx (some s.local.ep) eisconn (locked s))
unfolding client_tcp_connect_sync
connect_again o attempts client cb ctx fd s there n holds =
    let there' = not_null client there in simp (there', holds, n) refl

disconnect-IsStuck :
    {E : Type 0} (client : Ptr) (fd depth : ℕ) (s : ClientTcp E)
    → client ≢ null
    → IsStuck fd depth s
    → IsStuck fd depth (client_tcp_disconnect client s)
unfolding client_tcp_disconnect
disconnect-IsStuck client fd depth s there stuck =
    let there' = not_null client there in
    simp (there', stuck.connected)
      (record { connected = refl; socket = stuck.socket; mutex = omega (arith, stuck.mutex) })

-- `client_tcp_connect_sync` of a client that is not connected and has no socket, with a callback,
-- where a new socket is opened and every attempt fails: the callback has the last error, but the
-- socket stays and the lock is kept. The next call to connect, whatever its addresses, tells its
-- callback that the client is connected already and keeps one more lock; `client_tcp_disconnect` in
-- between would not close the socket or give back a lock.
pub client_tcp_connect_sync-IsStuck :
    {E : Type 0} (o o' : Opening) (opened : Opened) (client : Ptr) (cb ctx cb' ctx' fd : ℕ)
    (fs : List (Sockaddr × ℕ)) (attempts' : Option (List Attempt)) (s : ClientTcp E)
    → client ≢ null
    → (cb == 0) ≡ false
    → (cb' == 0) ≡ false
    → s.connected ≡ false
    → s.local.skt ≡ none
    → client_init_socket o EndpointType.tcp EndpointClass.none s.named s.local ≡ some opened
    → opened.success ≡ true
    → opened.ep_skt.skt ≡ some fd
    → (s' : ClientTcp E) × (s'' : ClientTcp E) × (client_tcp_connect_sync o
          (some (refused fs))
          client
          true
          cb
          ctx
          s
        ≡ some s')
      × IsStuck fd (s.mutex + 1) s'
      × (s'.told ≡ s.told ++ record { cb = cb; ep = none; err = last_error fs 0; ctx = ctx } ∷ [])
      × IsStuck fd (s.mutex + 1) (client_tcp_disconnect client s')
      × (client_tcp_connect_sync o' attempts' client true cb' ctx' s' ≡ some s'')
      × IsStuck fd (s.mutex + 2) s''
      × (s''.told
          ≡ s'.told
            ++ record { cb = cb'; ep = some opened.ep_skt.ep; err = eisconn; ctx = ctx' } ∷ [])
unfolding client_tcp_connect_sync
client_tcp_connect_sync-IsStuck o o' opened client cb ctx cb' ctx' fd fs attempts' s there n n'
      apart no_socket opens success holds =
    let loop = connect_loop-refused fs 0 in
    let there' = not_null client there in
    let s' : ClientTcp _ =
      tell cb ctx none (last_error fs 0) (with_socket o opened client cb ctx s) in
    let stuck : IsStuck fd (s.mutex + 1) s' = record {
      connected = apart;
      socket = holds;
      mutex = refl;
    } in
    (
      s',
      tell cb' ctx' (some s'.local.ep) eisconn (locked s'),
      simp (there', no_socket, opens, success, loop) refl,
      stuck,
      rw n refl,
      disconnect-IsStuck client fd (s.mutex + 1) s' there stuck,
      connect_again o' attempts' client cb' ctx' fd s' there n' holds,
      record { connected = apart; socket = holds; mutex = omega arith },
      rw n' refl,
    )

-- Where the flags of the socket can be set, the assertions that set them stop the program: in
-- `client_tcp_connect_async`, for a client without a socket that opens one, whatever the addresses,
-- and in `client_tcp_connector`, whatever became of the connection. The assertions want a result
-- other than 0.
pub client_tcp_connect_async-stops :
    {E : Type 0} (o : Opening) (opened : Opened) (flags : Flags) (attempts : Option (List Attempt))
    (tpl : ℕ) (client connector : Ptr) (cb ctx : ℕ) (err : Option ℕ) (s t : ClientTcp E)
    → flags.set_fails ≡ false
    → client ≢ null
    → s.local.skt ≡ none
    → client_init_socket o EndpointType.tcp EndpointClass.none s.named s.local ≡ some opened
    → opened.success ≡ true
    → (client_tcp_connect_async o flags attempts tpl client connector true cb ctx s ≡ none)
      × (client_tcp_connector err flags client cb ctx t ≡ none)
unfolding client_tcp_connect_async client_tcp_connector
client_tcp_connect_async-stops o opened flags attempts tpl client connector cb ctx err s t sets
      there no_socket opens success =
    let there' = not_null client there in
    let stops : (flags.get_fails || not flags.set_fails) ≡ true = ground (arith, sets) in
    let stops' : ((connector == null) || flags.get_fails || not flags.set_fails) ≡ true =
      ground (arith, sets) in
    (
      simp (there', no_socket, opens, success, stops') refl,
      nothing_after err (λ e.
          nothing_after
            (if e == 0
              then record (locked t) { connected = true }
              else client_tcp_disconnect client (record (locked t) { connected = true })).local.skt
            (λ fd. rw stops refl)),
    )
  where
    nothing_after :
        {A : Type 0} {B : Type 0} (m : Option A) {f : A → Option B}
        → ((a : A) → f a ≡ none)
        → (m >>= f) ≡ none
    nothing_after none h = refl
    nothing_after (some a) h = h a
