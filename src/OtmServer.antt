-- ===== src/OtmServer.antt =====
-- network/one-to-many/server.c: a server that keeps a list of its connections.
-- The service's mutex apart, the object is the state here: `server` is NULL or its address. A result is
-- `none` where an assertion stops the program.
mod Tests
pub mod Setup
pub mod Locks
pub mod Mutex
pub mod Starting
pub mod Transfers
pub mod Closing
pub mod Accepting
use chats.Prelude.{
  ℕ, zero, suc, ◌+◌, ◌-◌, Bool, true, false, not, Option, none, some, List, [], ◌∷◌, ◌++◌, ◌==◌,
  ◌&&◌, ◌||◌, if◌then◌else◌, ◌>>=◌,
}
use chats.Prelude.Int.{ℤ, pos, ltb_ℤ}
use chats.IoService.{io_service_post_job}
use chats.IoService.Elements.{Op}
use chats.Network.Endpoints.{EndpointType, Sockaddr, Endpoint, EndpointSocket, translate_endpoint}
use chats.Network.{SrbOp, Srb, Net}
use chats.Network.Operate.{Jobs, Kernel}
use chats.LinkedList.{
  Ptr, null, ListElement, LinkedList, Memory, Allocation, list_init, list_deinit,
  list_remove_element, list_remove_next, list_first_element,
}
use chats.LinkedList.Adding.{list_append}
use chats.Sockets.{
  Connection, Acceptor, connected_to, Candidate, Bound, bind_loop, close, Transfer, has_data, lock,
  unlock, transfer,
}

-- `struct otm_server_tcp`, with the memory that its list stands in, the connections there by their
-- addresses, and what it has done: the sockets closed, in order. `mutex` counts the locks held,
-- and `net` has the service `master`.
pub record OtmServerTcp (E : Type 0) : Type 0 where
  pub reuse_addr : ℕ
  pub mutex : ℕ
  pub net : Net E
  pub local : EndpointSocket
  pub remotes_list : Ptr
  pub memory : Memory
  pub connections : Ptr → Connection
  pub closed : List ℕ

module _ {E : Type 0} where
  abbrev pub close_connection : Connection → OtmServerTcp E → OtmServerTcp E
  close_connection c s = record s { closed = close c.ep_skt.skt s.closed }

  abbrev pub locked : OtmServerTcp E → OtmServerTcp E
  locked s = record s { mutex = lock s.mutex }

  abbrev pub unlocked : OtmServerTcp E → OtmServerTcp E
  unlocked s = record s { mutex = unlock s.mutex }

  abbrev pub put_connection : Ptr → Connection → OtmServerTcp E → OtmServerTcp E
  put_connection p c s = record s { connections = λ a. if a == p then c else s.connections a }

-- A callback that is told of a connection: what it does to the server, and whether it keeps the
-- connection.
abbrev pub Callback : Type 0 → Type 0
Callback E = (cb : ℕ) → (connection : Ptr) → (err ctx : ℕ) → OtmServerTcp E → OtmServerTcp E × Bool

module _ {E : Type 0} where
  -- The end of `tcp_acceptor`, behind the callback.
  unfoldable pub answered : (p : Ptr) → OtmServerTcp E × Bool → Option (OtmServerTcp E)
  answered p (s, kept) = if kept then some (unlocked s) else do
    memory ← list_remove_element s.remotes_list p s.memory
    some (unlocked (record (close_connection (s.connections p) s) { memory = memory }))

module _ {E : Type 0} (fall_off : Ptr → Ptr) (call : Callback E) where
  -- `m` is the allocation of the list's element, and `accepted` the socket and the address that
  -- `accept` gives.
  unfoldable pub tcp_acceptor :
      Allocation ListElement
      → (accepted : Option (ℕ × Sockaddr)) → Acceptor
      → OtmServerTcp E
      → Option (OtmServerTcp E)
  tcp_acceptor m accepted acceptor s = do
    (p, memory) ← list_append fall_off m s.remotes_list s.memory
    if p == null then none else do
      (afd, addr) ← accepted
      let c = connected_to acceptor.host afd addr (s.connections p)
      let s1 : OtmServerTcp E = put_connection p c (record (locked s) { memory = memory })
      answered p (call acceptor.connection_cb p 0 acceptor.connection_ctx s1)

  unfoldable pub otm_server_tcp_listen_sync :
      (server : Ptr)
      → (allocated : Bool) → Allocation ListElement
      → (accepted : Option (ℕ × Sockaddr)) → (cb ctx : ℕ) → OtmServerTcp E
      → Option (OtmServerTcp E)
  otm_server_tcp_listen_sync server allocated m accepted cb ctx s =
      if server == null then some s else if not allocated then none else do
        s1 ←
            tcp_acceptor m accepted
              (record { host = server; connection_cb = cb; connection_ctx = ctx }) (locked s)
        some (unlocked s1)

module _ {E : Type 0} where
  -- `acceptor` is the address of the `struct connection_acceptor`, NULL where its allocation fails,
  -- and `tpl` that of `tcp_acceptor`.
  unfoldable pub otm_server_tcp_listen_async :
      (tpl : ℕ) → (server acceptor : Ptr) → OtmServerTcp E → Option (OtmServerTcp E)
  otm_server_tcp_listen_async tpl server acceptor s =
      if server == null then some s else if acceptor == null then none else do
        fd ← s.local.skt
        some (
            unlocked (record (locked s) {
              net = record s.net {
                service = io_service_post_job s.net.service fd Op.read true tpl acceptor;
              };
            }))

  unfoldable pub otm_server_tcp_disconnect :
      (server connection : Ptr) → OtmServerTcp E → Option (OtmServerTcp E)
  otm_server_tcp_disconnect server connection s =
      if (server == null) || (connection == null) || not ((s.connections connection).host == server)
      then some s
      else do
        let s1 : OtmServerTcp E = close_connection (s.connections connection) (locked s)
        memory ← list_remove_element s1.remotes_list connection s1.memory
        some (unlocked (record s1 { memory = memory }))

  -- `for (connection = list_first_element(…); connection; connection = list_remove_next(…))`.
  unfoldable pub close_all : ℕ → Ptr → OtmServerTcp E → Option (OtmServerTcp E)
  close_all zero connection s = none
  close_all (suc rounds) connection s = elim (connection == null) [
    | true ↦ some s
    | false ↦ list_remove_next s.remotes_list connection s.memory >>= λ r.
        close_all rounds r.0
          (record (close_connection (s.connections connection) s) { memory = r.1 })
  ]

  -- `rounds` bounds the loop. The object is freed; what is left is what it did before.
  unfoldable pub otm_server_tcp_deinit :
      (rounds : ℕ) → (server : Ptr) → OtmServerTcp E → Option (OtmServerTcp E)
  otm_server_tcp_deinit rounds server s = if server == null then some s else do
    first ← list_first_element s.remotes_list s.memory
    s1 ← close_all rounds first (locked s)
    some (unlocked (record s1 { closed = close s1.local.skt s1.closed }))

  unfoldable pub otm_server_tcp_local_ep :
      (server : Ptr)
      → (ep : Option EndpointSocket) → OtmServerTcp E
      → Option EndpointSocket × OtmServerTcp E
  otm_server_tcp_local_ep server none s = (none, s)
  otm_server_tcp_local_ep server (some ep) s =
      if server == null then (some ep, s) else (some s.local, unlocked (locked s))

  -- The guard of the transfers.
  abbrev pub refuses : (server connection : Ptr) → Transfer → OtmServerTcp E → Bool
  refuses server connection t s =
      (server == null)
      || (connection == null)
      || not (has_data t.buffer)
      || not ((s.connections connection).host == server)

  module _ (jobs : Jobs) (k : Kernel) (allocated : Option Srb) (server connection : Ptr)
      (t : Transfer) (s : OtmServerTcp E) where
    unfoldable pub otm_server_tcp_send_sync : Option (OtmServerTcp E)
    otm_server_tcp_send_sync = if refuses server connection t s then some s else do
      let s1 = locked s
      net ←
          transfer jobs k allocated EndpointType.tcp SrbOp.send false
            (s.connections connection).ep_skt t s1.net
      some (unlocked (record s1 { net = net }))

    unfoldable pub otm_server_tcp_send_async : Option (OtmServerTcp E)
    otm_server_tcp_send_async = if refuses server connection t s then some s else do
      let s1 = locked s
      net ←
          transfer jobs k allocated EndpointType.tcp SrbOp.send true
            (s.connections connection).ep_skt t s1.net
      some (unlocked (record s1 { net = net }))

    -- The last call locks the mutex again.
    unfoldable pub otm_server_tcp_recv_sync : Option (OtmServerTcp E)
    otm_server_tcp_recv_sync = if refuses server connection t s then some s else do
      let s1 = locked s
      net ←
          transfer jobs k allocated EndpointType.tcp SrbOp.recv false
            (s.connections connection).ep_skt t s1.net
      some (locked (record s1 { net = net }))

    unfoldable pub otm_server_tcp_recv_async : Option (OtmServerTcp E)
    otm_server_tcp_recv_async = if refuses server connection t s then some s else do
      let s1 = locked s
      net ←
          transfer jobs k allocated EndpointType.tcp SrbOp.recv true
            (s.connections connection).ep_skt t s1.net
      some (unlocked (record s1 { net = net }))

-- `sizeof(connection_t)` and `DEFAULT_CONNECTION_BACKLOG`.
abbrev pub sizeof_connection : ℕ
sizeof_connection = 176

abbrev pub default_connection_backlog : ℤ
default_connection_backlog = pos 50
