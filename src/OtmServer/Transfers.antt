-- ===== src/OtmServer/Transfers.antt =====
-- network/one-to-many/server.c: the asynchronous transfers with a connection.
use chats.Prelude.{
  ℕ, ◌+◌, ◌-◌, ◌≡◌, ◌≢◌, refl, true, false, not, some, ◌==◌, ◌||◌, if◌then◌else◌, arith, Bool-cases,
  inl, inr,
}
use chats.IoService.Registry.{registry}
use chats.LinkedList.{Ptr, null}
use chats.LinkedList.Links.{not_null}
use chats.Network.Endpoints.{EndpointType}
use chats.Network.{SrbOp, Srb}
use chats.Network.Operate.{Jobs, Kernel, has_type}
use chats.Sockets.{Transfer}
use chats.Sockets.Requests.{registered, transfer-registry}
use chats.OtmServer.{OtmServerTcp, refuses, otm_server_tcp_send_async, otm_server_tcp_recv_async}

-- The outcome of an asynchronous transfer in the direction `op`: its job is registered at the socket
-- `skt` under the rules of the service, no callback is told, and the connections are as before.
pub record Registered {E : Type 0} (jobs : Jobs) (op : SrbOp) (skt addr : ℕ) (s s' : OtmServerTcp E)
    : Type 0 where
  pub service : registry s'.net.service ≡ registered jobs EndpointType.tcp op skt addr s.net
  pub notices : s'.net.notices ≡ s.net.notices
  pub memory : s'.memory ≡ s.memory
  pub connections : s'.connections ≡ s.connections
  pub mutex : s'.mutex ≡ s.mutex

module _ {E : Type 0} (jobs : Jobs) (k : Kernel) (server connection : Ptr) (t : Transfer)
    (s : OtmServerTcp E) where
  -- `otm_server_tcp_send_async` and `otm_server_tcp_recv_async` with a connection of the server that is
  -- open, and a buffer that is not empty, register the job of the operation at the connection's
  -- socket. With a connection of another server, or an empty buffer, neither does anything.
  pub otm_server_tcp_async-Registered :
      (raw : Srb) (skt size : ℕ)
      → server ≢ null
      → connection ≢ null
      → (s.connections connection).ep_skt.skt ≡ some skt
      → has_type EndpointType.tcp (s.connections connection).ep_skt ≡ true
      → t.buffer ≡ some size
      → if (size == 0) || not ((s.connections connection).host == server)
        then ((otm_server_tcp_send_async jobs k (some raw) server connection t s ≡ some s)
            × (otm_server_tcp_recv_async jobs k (some raw) server connection t s ≡ some s))
        else (((s' : OtmServerTcp E) × (otm_server_tcp_send_async jobs k
                  (some raw)
                  server
                  connection
                  t
                  s
                ≡ some s')
              × Registered jobs SrbOp.send skt raw.addr s s')
            × ((s' : OtmServerTcp E) × (otm_server_tcp_recv_async jobs k
                    (some raw)
                    server
                    connection
                    t
                    s
                  ≡ some s')
                × Registered jobs SrbOp.recv skt raw.addr s s'))
  unfolding otm_server_tcp_send_async otm_server_tcp_recv_async
  otm_server_tcp_async-Registered raw skt size n m open_ same known =
      elim (Bool-cases ((size == 0) || not ((s.connections connection).host == server))) [
        | inl refused ↦
            let r : refuses server connection t s ≡ true =
              simp (not_null server n, not_null connection m, known) (ground (arith, refused)) in
            rw (refused, r) (refl, refl)
        | inr fine ↦
            let r : refuses server connection t s ≡ false =
              simp (not_null server n, not_null connection m, known) (ground (arith, fine)) in
            let peer = (s.connections connection).ep_skt in
            let (net1, sent, service1, told1) =
              transfer-registry jobs k raw EndpointType.tcp SrbOp.send peer t s.net skt size open_
                same known in
            let (net2, got, service2, told2) =
              transfer-registry jobs k raw EndpointType.tcp SrbOp.recv peer t s.net skt size open_
                same known in
            rw (fine, r)
              (
                (
                  record s { net = net1; mutex = s.mutex + 1 - 1 },
                  rw sent refl,
                  record {
                    service = service1;
                    notices = told1;
                    memory = refl;
                    connections = refl;
                    mutex = omega arith;
                  },
                ),
                (
                  record s { net = net2; mutex = s.mutex + 1 - 1 },
                  rw got refl,
                  record {
                    service = service2;
                    notices = told2;
                    memory = refl;
                    connections = refl;
                    mutex = omega arith;
                  },
                ),
              )
      ]
