-- ===== src/OtmServer/Mutex.antt =====
-- network/one-to-many/server.c: the locks that each operation takes and gives back.
use chats.Prelude.{ℕ, Bool, true, false, Option, some, arith, if◌then◌else◌}
use chats.Network.Endpoints.{EndpointSocket, Sockaddr}
use chats.Network.{Srb, SrbOp}
use chats.Network.Operate.{Jobs, Kernel}
use chats.LinkedList.{Ptr, ListElement, Allocation}
use chats.Sockets.{Transfer}
use chats.OtmServer.Locks.{
  IsBalanced, KeepsLocks, unlock-lock, if_same, tcp_acceptor-KeepsLocks, listen_sync-KeepsLocks,
  listen_async-KeepsLocks, disconnect-KeepsLocks, transfer-KeepsLocks, local_ep-KeepsLocks,
  deinit-KeepsLocks,
}
use chats.OtmServer.{
  otm_server_tcp_local_ep, otm_server_tcp_deinit, OtmServerTcp, Callback, locked, unlocked, refuses,
  tcp_acceptor, otm_server_tcp_listen_sync, otm_server_tcp_listen_async, otm_server_tcp_disconnect,
  otm_server_tcp_send_sync, otm_server_tcp_send_async, otm_server_tcp_recv_sync,
  otm_server_tcp_recv_async,
}

-- The operations on a server that there is, with what they take from outside. `rounds` bounds the loop of
-- `otm_server_tcp_deinit`.
pub data Operation : Type 0 where
  accept : Allocation ListElement → Option (ℕ × Sockaddr) → (cb ctx : ℕ) → Operation
  listen_sync :
      (allocated : Bool) → Allocation ListElement → Option (ℕ × Sockaddr) → (cb ctx : ℕ) → Operation
  listen_async : (acceptor : Ptr) → Operation
  disconnect : (connection : Ptr) → Operation
  send_sync : Kernel → Option Srb → (connection : Ptr) → Transfer → Operation
  send_async : Kernel → Option Srb → (connection : Ptr) → Transfer → Operation
  recv_sync : Kernel → Option Srb → (connection : Ptr) → Transfer → Operation
  recv_async : Kernel → Option Srb → (connection : Ptr) → Transfer → Operation
  local_ep : Option EndpointSocket → Operation
  deinit : (rounds : ℕ) → Operation

module _ {E : Type 0} (fall_off : Ptr → Ptr) (call : Callback E) (jobs : Jobs)
    (tpl server : ℕ) where
  unfoldable pub operate : Operation → OtmServerTcp E → Option (OtmServerTcp E)
  operate (Operation.accept m accepted cb ctx) s =
      tcp_acceptor fall_off call m accepted
        (record { host = server; connection_cb = cb; connection_ctx = ctx }) s
  operate (Operation.listen_sync allocated m accepted cb ctx) s =
      otm_server_tcp_listen_sync fall_off call server allocated m accepted cb ctx s
  operate (Operation.listen_async acceptor) s = otm_server_tcp_listen_async tpl server acceptor s
  operate (Operation.disconnect connection) s = otm_server_tcp_disconnect server connection s
  operate (Operation.send_sync k srb connection t) s =
      otm_server_tcp_send_sync jobs k srb server connection t s
  operate (Operation.send_async k srb connection t) s =
      otm_server_tcp_send_async jobs k srb server connection t s
  operate (Operation.recv_sync k srb connection t) s =
      otm_server_tcp_recv_sync jobs k srb server connection t s
  operate (Operation.recv_async k srb connection t) s =
      otm_server_tcp_recv_async jobs k srb server connection t s
  operate (Operation.local_ep ep) s = some (otm_server_tcp_local_ep server ep s).1
  operate (Operation.deinit rounds) s = otm_server_tcp_deinit rounds server s

  -- The locks that an operation keeps behind its end: two for a synchronous receipt that is not
  -- refused, and none for any other.
  abbrev pub kept_locks : Operation → OtmServerTcp E → ℕ
  kept_locks (Operation.recv_sync k srb connection t) s =
      if refuses server connection t s then 0 else 2
  kept_locks o s = 0

-- Behind any operation that comes to its end, as many locks of the mutex are held as before it, but for
-- `otm_server_tcp_recv_sync` where it is not refused: it keeps two, its own and that of the second
-- lock in the place of the unlock. The callback is taken to give back its locks.
pub operate-KeepsLocks :
    {E : Type 0} (fall_off : Ptr → Ptr) (call : Callback E) (jobs : Jobs) (tpl server : ℕ)
    (o : Operation) (s : OtmServerTcp E)
    → IsBalanced call
    → KeepsLocks
        (kept_locks fall_off call jobs tpl server o s)
        s
        (operate fall_off call jobs tpl server o s)
unfolding operate otm_server_tcp_send_sync otm_server_tcp_send_async otm_server_tcp_recv_sync
    otm_server_tcp_recv_async
operate-KeepsLocks fall_off call jobs tpl server (Operation.accept m accepted cb ctx) s balanced =
    tcp_acceptor-KeepsLocks fall_off call balanced m accepted
      (record { host = server; connection_cb = cb; connection_ctx = ctx }) s
operate-KeepsLocks fall_off call jobs tpl server (Operation.listen_sync given m accepted cb ctx) s
      balanced =
    listen_sync-KeepsLocks fall_off call balanced server given m accepted cb ctx s
operate-KeepsLocks fall_off call jobs tpl server (Operation.listen_async acceptor) s balanced =
    listen_async-KeepsLocks tpl server acceptor s
operate-KeepsLocks fall_off call jobs tpl server (Operation.disconnect connection) s balanced =
    disconnect-KeepsLocks server connection s
operate-KeepsLocks fall_off call jobs tpl server (Operation.send_sync k srb connection t) s
      balanced =
    rw (if_same (refuses server connection t s)) at (
      transfer-KeepsLocks jobs k srb server connection t s SrbOp.send false 0 unlocked
        (λ net. unlock-lock s.mutex))
operate-KeepsLocks fall_off call jobs tpl server (Operation.send_async k srb connection t) s
      balanced =
    rw (if_same (refuses server connection t s)) at (
      transfer-KeepsLocks jobs k srb server connection t s SrbOp.send true 0 unlocked
        (λ net. unlock-lock s.mutex))
operate-KeepsLocks fall_off call jobs tpl server (Operation.recv_sync k srb connection t) s
      balanced =
    transfer-KeepsLocks jobs k srb server connection t s SrbOp.recv false 2 locked
      (λ net. omega arith)
operate-KeepsLocks fall_off call jobs tpl server (Operation.recv_async k srb connection t) s
      balanced =
    rw (if_same (refuses server connection t s)) at (
      transfer-KeepsLocks jobs k srb server connection t s SrbOp.recv true 0 unlocked
        (λ net. unlock-lock s.mutex))
operate-KeepsLocks fall_off call jobs tpl server (Operation.local_ep ep) s balanced =
    local_ep-KeepsLocks server ep s
operate-KeepsLocks fall_off call jobs tpl server (Operation.deinit rounds) s balanced =
    deinit-KeepsLocks rounds server s
