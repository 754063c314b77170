-- ===== src/Client/Udp/Sending.antt =====
-- network/client/client.c: what the UDP client registers, and what it tells its callbacks.
use chats.Prelude.{
  ℕ, ◌≡◌, ◌≢◌, refl, Bool, true, false, Option, none, some, List, [], ◌∷◌, ◌++◌, arith, ◌==◌,
}
use chats.Prelude.Int.{pos}
use chats.IoService.Registry.{registry}
use chats.LinkedList.{Ptr, null}
use chats.LinkedList.Links.{not_null}
use chats.Network.Endpoints.{EndpointType, Sockaddr}
use chats.Network.{SrbOp, Srb}
use chats.Network.Operate.{Jobs, Kernel}
use chats.Sockets.{Transfer}
use chats.Sockets.Requests.{registered, transfer-registry}
use chats.Client.{eaddrnotavail}
use chats.Client.Udp.{
  ClientUdp, no_endpoint, tell_unavailable, locked, unlocked, destination, client_udp_send_async,
}

-- The first address that there is, where one is asked for.
abbrev pub destination_of : (given : Bool) → (addr_info : Option (List Sockaddr)) → Option Sockaddr
destination_of false addr_info = none
destination_of true none = none
destination_of true (some []) = none
destination_of true (some (addr ∷ rest)) = some addr

-- The job of the direction `op` is registered at the socket `fd`, and no callback is told.
pub record Registered {E : Type 0} (jobs : Jobs) (op : SrbOp) (fd addr : ℕ) (s s' : ClientUdp E)
    : Type 0 where
  pub service : registry s'.net.service ≡ registered jobs EndpointType.udp op fd addr s.net
  pub notices : s'.net.notices ≡ s.net.notices
  pub mutex : s'.mutex ≡ s.mutex

-- The callback is told of an address that is not available, and nothing is registered.
pub record Unavailable {E : Type 0} (t : Transfer) (s s' : ClientUdp E) : Type 0 where
  pub service : s'.net.service ≡ s.net.service
  pub notices :
      s'.net.notices
      ≡ s.net.notices
        ++ record {
          cb = t.cb;
          ep = no_endpoint;
          err = pos eaddrnotavail;
          bytes_operated = 0;
          has_more_bytes = 0;
          ctx = t.ctx;
        }
          ∷ []
  pub mutex : s'.mutex ≡ s.mutex

abbrev pub Outcome :
    {E : Type 0} → Jobs → Option Sockaddr → (fd addr : ℕ) → Transfer → (s s' : ClientUdp E) → Type 0
Outcome jobs none fd addr t s s' = Unavailable t s s'
Outcome jobs (some a) fd addr t s s' = Registered jobs SrbOp.send fd addr s s'

module _ {E : Type 0} (jobs : Jobs) (k : Kernel) (raw : Srb) (client : Ptr) (t : Transfer)
    (s : ClientUdp E) (fd size : ℕ) (there : client ≢ null) (n : (t.cb == 0) ≡ false)
    (holds : s.local.skt ≡ some fd) (known : t.buffer ≡ some size)
    (data_ : (size == 0) ≡ false) where
  unavailable : Unavailable t s (unlocked (tell_unavailable t (locked s)))
  unavailable = record { service = refl; notices = rw n refl; mutex = omega arith }

  -- `client_udp_send_async` with a callback and a buffer that is not empty, of a client with an open
  -- socket: where an address is given and found, the job of the datagram is registered at the
  -- client's socket, under the rules of the service, and no callback is told; where not, the callback
  -- is told that the address is not available, and the service is as before. The lock is given back
  -- either way.
  pub client_udp_send_async-Outcome :
      (given : Bool) (addr_info : Option (List Sockaddr))
      → (s' : ClientUdp E) × (client_udp_send_async jobs k (some raw) client t s given addr_info
          ≡ some s')
        × Outcome jobs (destination_of given addr_info) fd raw.addr t s s'
  unfolding client_udp_send_async
  client_udp_send_async-Outcome false addr_info =
      let there' = not_null client there in
      (unlocked (tell_unavailable t (locked s)), simp (there', known, data_) refl, unavailable)
  client_udp_send_async-Outcome true none =
      let there' = not_null client there in
      (unlocked (tell_unavailable t (locked s)), simp (there', known, data_) refl, unavailable)
  client_udp_send_async-Outcome true (some []) =
      let there' = not_null client there in
      (unlocked (tell_unavailable t (locked s)), simp (there', known, data_) refl, unavailable)
  client_udp_send_async-Outcome true (some (addr ∷ rest)) =
      let there' = not_null client there in
      let (net, sent, service, told) =
        transfer-registry jobs k raw EndpointType.udp SrbOp.send (destination raw addr s) t s.net fd
          size holds refl known in
      (
        unlocked (record (locked s) { net = net }),
        simp (there', known, data_, sent) refl,
        record { service = service; notices = told; mutex = omega arith },
      )
