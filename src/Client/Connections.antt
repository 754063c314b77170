-- ===== src/Client/Connections.antt =====
-- network/client/client.c: connecting the TCP client, and its transfers.
use chats.Prelude.{
  ℕ, Bool, true, false, not, Option, none, some, List, [], ◌∷◌, ◌++◌, ◌==◌, ◌||◌, if◌then◌else◌,
  ◌>>=◌,
}
use chats.IoService.{io_service_post_job}
use chats.IoService.Elements.{Op}
use chats.LinkedList.{Ptr, null}
use chats.Network.Endpoints.{EndpointClass, EndpointType, Sockaddr, translate_endpoint}
use chats.Network.{SrbOp, Srb}
use chats.Network.Operate.{Jobs, Kernel}
use chats.Sockets.{Transfer, has_data, transfer}
use chats.Client.{
  ClientTcp, Opening, call, client_init_socket, client_tcp_disconnect, eaddrnotavail, einprogress,
  eisconn, locked, tell, unlocked,
}

-- A `connect` at one address: its error, or none.
pub record Attempt : Type 0 where
  pub addr : Sockaddr
  pub error : Option ℕ

-- The loops over the addresses: the one connected to, or being connected to, and `errno`.
unfoldable pub connect_loop : List Attempt → (errno : ℕ) → Option Sockaddr × ℕ
connect_loop [] errno = (none, errno)
connect_loop (a ∷ as_) errno = elim a.error [
  | none ↦ (some a.addr, errno)
  | some e ↦ connect_loop as_ e
]

unfoldable pub connect_async_loop : List Attempt → (errno : ℕ) → Option Sockaddr × ℕ
connect_async_loop [] errno = (none, errno)
connect_async_loop (a ∷ as_) errno = elim a.error [
  | none ↦ (some a.addr, errno)
  | some e ↦ elim (e == einprogress) [ true ↦ (some a.addr, e) | false ↦ connect_async_loop as_ e ]
]

-- What `fcntl` comes to: reading the flags, and setting them.
pub record Flags : Type 0 where
  pub get_fails : Bool
  pub set_fails : Bool

module _ {E : Type 0} where
  abbrev pub with_remote : Sockaddr → ClientTcp E → ClientTcp E
  with_remote addr s = record s {
    remote = record {
      skt = s.local.skt;
      ep = translate_endpoint (record s.remote.ep { ep_type = EndpointType.tcp; addr = addr });
    };
  }

  -- The end of `client_tcp_connect_sync`, where an address was connected to.
  unfoldable pub finish_connect :
      (client : Ptr) → (cb ctx : ℕ) → (errno : ℕ) → ClientTcp E → ClientTcp E
  finish_connect client cb ctx errno s =
      let s1 : ClientTcp E = record s { connected = true } in
      if errno == 0
      then unlocked (tell cb ctx (some s1.remote.ep) errno s1)
      else unlocked (tell cb ctx none errno (client_tcp_disconnect client s1))

  -- `given` says that both an address and a port are; `attempts` is what `getaddrinfo` finds, with
  -- what `connect` comes to there.
  unfoldable pub client_tcp_connect_sync :
      Opening
      → (attempts : Option (List Attempt)) → (client : Ptr) → (given : Bool) → (cb ctx : ℕ)
      → ClientTcp E
      → Option (ClientTcp E)
  client_tcp_connect_sync o attempts client given cb ctx s =
      if (client == null) || not given then call cb ctx none eaddrnotavail s else elim s.local.skt [
        | some fd ↦ call cb ctx (some s.local.ep) eisconn (locked s)
        | none ↦ do
          opened ← client_init_socket o EndpointType.tcp EndpointClass.none s.named s.local
          let s1 : ClientTcp E = record (locked s) {
            local = opened.ep_skt;
            closed = s.closed ++ opened.closed;
          }
          if not opened.success then some (unlocked s1) else elim attempts [
            | none ↦ call cb ctx none eaddrnotavail s1
            | some list ↦
                let (addr, errno) = connect_loop list 0 in
                elim addr [
                  | none ↦ some (tell cb ctx none errno s1)
                  | some a ↦ some (finish_connect client cb ctx errno (with_remote a s1))
                ]
          ]
      ]

  -- `connector` is the address of the `struct connector`, NULL where its allocation fails, and `tpl`
  -- that of `client_tcp_connector`. `assert(fcntl(…, F_SETFL, …))` wants a result other than 0, which
  -- is a failure.
  unfoldable pub client_tcp_connect_async :
      Opening
      → Flags
      → (attempts : Option (List Attempt)) → (tpl : ℕ) → (client connector : Ptr) → (given : Bool)
      → (cb ctx : ℕ) → ClientTcp E
      → Option (ClientTcp E)
  client_tcp_connect_async o flags attempts tpl client connector given cb ctx s =
      if (client == null) || not given then some s else elim s.local.skt [
        | some fd ↦ call cb ctx (some s.local.ep) eisconn (locked s)
        | none ↦ do
          opened ← client_init_socket o EndpointType.tcp EndpointClass.none s.named s.local
          let s1 : ClientTcp E = record (locked s) {
            local = opened.ep_skt;
            closed = s.closed ++ opened.closed;
          }
          if not opened.success
              then some (unlocked s1)
              else if (connector == null) || flags.get_fails || not flags.set_fails
              then none
              else elim attempts [
                | none ↦ call cb ctx none eaddrnotavail s1
                | some list ↦
                    let (addr, errno) = connect_async_loop list 0 in
                    elim addr [
                      | none ↦ some (unlocked (tell cb ctx none errno s1))
                      | some a ↦ do
                        fd ← s1.local.skt
                        let s2 = with_remote a s1
                        some (
                            unlocked (record s2 {
                              net = record s2.net {
                                service =
                                    io_service_post_job s2.net.service fd Op.write true tpl
                                      connector;
                              };
                            }))
                    ]
              ]
      ]

  -- `err` is the pending error that `getsockopt` gives, `none` where the call fails. The flags of a
  -- descriptor that is closed cannot be read.
  unfoldable pub client_tcp_connector :
      (err : Option ℕ) → Flags → (client : Ptr) → (cb ctx : ℕ) → ClientTcp E → Option (ClientTcp E)
  client_tcp_connector err flags client cb ctx s = do
    e ← err
    let s1 : ClientTcp E = record (locked s) { connected = true }
    let s2 = if e == 0 then s1 else client_tcp_disconnect client s1
    fd ← s2.local.skt
    if flags.get_fails || not flags.set_fails
        then none
        else some (unlocked (tell cb ctx (some s2.remote.ep) e s2))

  module _ (jobs : Jobs) (k : Kernel) (allocated : Option Srb) (client : Ptr) (t : Transfer)
      (s : ClientTcp E) where
    -- The body of the four transfers.
    abbrev pub transfer_remote : SrbOp → (has_iosvc : Bool) → Option (ClientTcp E)
    transfer_remote op has_iosvc =
        if (client == null) || not (has_data t.buffer) then some s else do
          net ← transfer jobs k allocated EndpointType.tcp op has_iosvc s.remote t s.net
          some (unlocked (record (locked s) { net = net }))

    unfoldable pub client_tcp_recv_sync : Option (ClientTcp E)
    client_tcp_recv_sync = transfer_remote SrbOp.recv false

    unfoldable pub client_tcp_recv_async : Option (ClientTcp E)
    client_tcp_recv_async = transfer_remote SrbOp.recv true

    unfoldable pub client_tcp_send_sync : Option (ClientTcp E)
    client_tcp_send_sync = transfer_remote SrbOp.send false

    unfoldable pub client_tcp_send_async : Option (ClientTcp E)
    client_tcp_send_async = transfer_remote SrbOp.send true
