-- ===== src/Client/Udp.antt =====
-- network/client/client.c: the UDP client.
pub mod Sending
use chats.Prelude.{
  ℕ, ◌+◌, ◌-◌, Bool, true, false, not, Option, none, some, List, [], ◌∷◌, ◌++◌, ◌==◌, ◌||◌,
  if◌then◌else◌, ◌>>=◌,
}
use chats.Prelude.Int.{pos}
use chats.LinkedList.{Ptr, null}
use chats.Network.Endpoints.{
  EndpointClass, EndpointType, Address, Sockaddr, Endpoint, EndpointSocket, translate_endpoint,
}
use chats.Network.{SrbOp, Srb, Notice, Net}
use chats.Network.Operate.{Jobs, Kernel}
use chats.Sockets.{close, Transfer, has_data, lock, unlock, transfer}
use chats.Client.{Opening, client_init_socket, eaddrnotavail}

-- `struct client_udp`, with the sockets that it closed.
pub record ClientUdp (E : Type 0) : Type 0 where
  pub named : Bool
  pub mutex : ℕ
  pub net : Net E
  pub local : EndpointSocket
  pub closed : List ℕ

-- `(endpoint_t){.ep_class = EPC_NONE, .ep_type = EPT_NONE}`: all else is 0.
abbrev pub no_endpoint : Endpoint
no_endpoint = record {
  ep_class = EndpointClass.none;
  ep_type = EndpointType.none;
  ep = Address.ip4 (0 ∷ 0 ∷ 0 ∷ 0 ∷ []) 0;
  addr = Sockaddr.other 0;
}

-- The client, `none` for NULL, and the sockets closed.
pub record Started (E : Type 0) : Type 0 where
  pub client : Option (ClientUdp E)
  pub closed : List ℕ

module _ {E : Type 0} where
  abbrev pub locked : ClientUdp E → ClientUdp E
  locked s = record s { mutex = lock s.mutex }

  abbrev pub unlocked : ClientUdp E → ClientUdp E
  unlocked s = record s { mutex = unlock s.mutex }

  -- `given` says that the service is not NULL; `raw` is the memory allocated.
  unfoldable pub client_udp_init :
      Opening
      → (given : Bool) → (raw : Option (ClientUdp E)) → (named : Bool) → Net E
      → Option (Started E)
  client_udp_init o given none named net = some (record { client = none; closed = [] })
  client_udp_init o given (some raw) named net =
      if not given then some (record { client = none; closed = [] }) else do
        opened ←
            client_init_socket o EndpointType.udp EndpointClass.none named
              (record raw.local { skt = none })
        let s : ClientUdp E = record raw {
          mutex = 0;
          net = net;
          named = named;
          local = opened.ep_skt;
          closed = opened.closed;
        }
        if opened.success
            then some (record { client = some s; closed = opened.closed })
            else some (record { client = none; closed = close opened.ep_skt.skt opened.closed })

  -- The object is freed; what is left is what it did before.
  unfoldable pub client_udp_deinit : (client : Ptr) → ClientUdp E → ClientUdp E
  client_udp_deinit client s =
      if client == null
      then s
      else unlocked (record (locked s) { closed = close s.local.skt s.closed })

  unfoldable pub client_udp_local_ep :
      (client : Ptr) → (ep : Endpoint) → ClientUdp E → Endpoint × ClientUdp E
  client_udp_local_ep client ep s =
      if client == null then (ep, s) else (s.local.ep, unlocked (locked s))

  -- `if (cb) (*cb)((endpoint_t){…}, EADDRNOTAVAIL, 0, 0, buffer, ctx)`.
  abbrev pub tell_unavailable : Transfer → ClientUdp E → ClientUdp E
  tell_unavailable t s = record s {
    net = record s.net {
      notices =
          if t.cb == 0
          then s.net.notices
          else s.net.notices
            ++ (record {
              cb = t.cb;
              ep = no_endpoint;
              err = pos eaddrnotavail;
              bytes_operated = 0;
              has_more_bytes = 0;
              ctx = t.ctx;
            }
                ∷ []);
    };
  }

  -- The endpoint of a datagram to the address `addr`, and that of one to be received.
  abbrev pub destination : Srb → Sockaddr → ClientUdp E → EndpointSocket
  destination raw addr s = record {
    skt = s.local.skt;
    ep = record (translate_endpoint (record raw.dst.ep { addr = addr })) {
      ep_type = EndpointType.udp;
    };
  }

  abbrev pub source : Srb → ClientUdp E → EndpointSocket
  source raw s = record { skt = s.local.skt; ep = record raw.src.ep { ep_type = EndpointType.udp } }

  module _ (jobs : Jobs) (k : Kernel) (allocated : Option Srb) (client : Ptr) (t : Transfer)
      (s : ClientUdp E) where
    -- The body of the two calls that receive.
    abbrev pub receive_datagram : (has_iosvc : Bool) → Option (ClientUdp E)
    receive_datagram has_iosvc = if (client == null) || not (has_data t.buffer) then some s else do
      raw ← allocated
      net ← transfer jobs k (some raw) EndpointType.udp SrbOp.recv has_iosvc (source raw s) t s.net
      some (unlocked (record (locked s) { net = net }))

    unfoldable pub client_udp_recv_sync : Option (ClientUdp E)
    client_udp_recv_sync = receive_datagram false

    unfoldable pub client_udp_recv_async : Option (ClientUdp E)
    client_udp_recv_async = receive_datagram true

    -- The body of the two calls that send. `given` says that an address or a port is, and `addr_info`
    -- is what `getaddrinfo` finds.
    abbrev pub send_datagram :
        (has_iosvc given : Bool) → (addr_info : Option (List Sockaddr)) → Option (ClientUdp E)
    send_datagram has_iosvc given addr_info =
        if (client == null) || not (has_data t.buffer)
        then some s
        else if not given
        then some (unlocked (tell_unavailable t (locked s)))
        else elim addr_info [
          | none ↦ some (unlocked (tell_unavailable t (locked s)))
          | some addrs ↦ elim addrs [
            | [] ↦ some (unlocked (tell_unavailable t (locked s)))
            | addr ∷ rest ↦ do
              raw ← allocated
              net ←
                  transfer jobs k (some raw) EndpointType.udp SrbOp.send has_iosvc
                    (destination raw addr s) t s.net
              some (unlocked (record (locked s) { net = net }))
          ]
        ]

    unfoldable pub client_udp_send_sync :
        (given : Bool) → (addr_info : Option (List Sockaddr)) → Option (ClientUdp E)
    client_udp_send_sync given addr_info = send_datagram false given addr_info

    unfoldable pub client_udp_send_async :
        (given : Bool) → (addr_info : Option (List Sockaddr)) → Option (ClientUdp E)
    client_udp_send_async given addr_info = send_datagram true given addr_info
