-- ===== src/Client/Tests.antt =====
-- The theorems on network/client/client.c at clients of two callbacks.
use chats.Prelude.{ℕ, ◌+◌, ◌≡◌, refl, true, false, Option, none, some, [], ◌∷◌, ◌++◌, arith}
use chats.Network.Endpoints.{
  EndpointClass, EndpointType, Address, Port, InAddr, Sockaddr, EndpointSocket,
}
use chats.Network.{SrbOp, Name, Srb, Result, Net}
use chats.Network.Operate.{Jobs, Kernel}
use chats.Client.{
  ClientTcp, Opening, Opened, eisconn, open_at, client_init_socket, client_tcp_disconnect,
}
use chats.Client.Connections.{client_tcp_connect_sync}
use chats.Client.Connecting.{refused, Dropped, client_tcp_connect_sync-Connected}
use chats.Client.Stuck.{IsStuck, client_tcp_connect_sync-IsStuck}
use chats.Client.Udp.{ClientUdp}

abbrev Nothing : Type 0
Nothing = Unit {0}

abbrev net : Net Nothing
net = record {
  service = record {
    allow_new = true;
    running = true;
    event_fd = 3;
    event_count = 0;
    lookup_table = [];
    epoll = tt;
  };
  notices = [];
  windows = [];
  freed = 0;
}

abbrev address : ℕ → Sockaddr
address host = Sockaddr.inet (Port.bytes 31 144) (InAddr.bytes 127 0 0 host)

abbrev socket : Option ℕ → EndpointSocket
socket skt = record {
  skt = skt;
  ep = record {
    ep_class = EndpointClass.none;
    ep_type = EndpointType.none;
    ep = Address.ip4 [] 0;
    addr = address 0;
  };
}

abbrev client : ClientTcp Nothing
client = record {
  connected = false;
  named = false;
  mutex = 0;
  net = net;
  local = socket none;
  remote = socket none;
  closed = [];
  told = [];
}

-- A socket that is not bound to a name.
abbrev opening : Opening
opening = record {
  socket = some 7;
  setsockopt_fails = false;
  sockname = some (address 1);
  addr_info = none;
}

abbrev opened : Opened
opened = record {
  ep_skt = open_at EndpointType.tcp EndpointClass.ip4 7 (address 1) (socket none);
  success = true;
  closed = [];
}

opens :
    client_init_socket opening EndpointType.tcp EndpointClass.none false (socket none) ≡ some opened
unfolding client_init_socket
opens = refl

-- The first address refuses with ECONNREFUSED, and the second one accepts: the connection is dropped.
client_tcp_connect_sync-Connected_example :
    (s' : ClientTcp Nothing) × (client_tcp_connect_sync opening
        (some (refused ((address 2, 111) ∷ []) ++ record { addr = address 3; error = none } ∷ []))
        500
        true
        60
        61
        client
      ≡ some s')
    × Dropped 60 61 111 opened.ep_skt [] client s'
client_tcp_connect_sync-Connected_example =
    client_tcp_connect_sync-Connected opening opened 500 60 61 client ((address 2, 111) ∷ [])
      (address 3) [] (omega arith) refl refl opens refl

client_tcp_connect_sync-IsStuck_example :
    (s' : ClientTcp Nothing) × (s'' : ClientTcp Nothing) × (client_tcp_connect_sync opening
        (some (refused ((address 2, 111) ∷ [])))
        500
        true
        60
        61
        client
      ≡ some s')
    × IsStuck 7 (0 + 1) s'
    × (s'.told ≡ [] ++ record { cb = 60; ep = none; err = 111; ctx = 61 } ∷ [])
    × IsStuck 7 (0 + 1) (client_tcp_disconnect 500 s')
    × (client_tcp_connect_sync opening none 500 true 62 63 s' ≡ some s'')
    × IsStuck 7 (0 + 2) s''
    × (s''.told
        ≡ s'.told ++ record { cb = 62; ep = some opened.ep_skt.ep; err = eisconn; ctx = 63 } ∷ [])
client_tcp_connect_sync-IsStuck_example =
    client_tcp_connect_sync-IsStuck opening opening opened 500 60 61 62 63 7 ((address 2, 111) ∷ [])
      none client (omega arith) refl refl refl refl opens refl refl

abbrev udp_client : ClientUdp Nothing
udp_client = record { named = false; mutex = 0; net = net; local = socket (some 7); closed = [] }

abbrev raw : Srb
raw = record {
  addr = 40;
  op_type = EndpointType.none;
  op = SrbOp.send;
  src = socket none;
  dst = socket none;
  has_iosvc = true;
  buffer = none;
  bytes_operated = 0;
  cb = 0;
  ctx = 0;
  msg_name = Name.null;
  msg_namelen = 0;
  vec = record { iov_base = 0; iov_len = 0 };
}

abbrev kernel : Kernel
kernel = record {
  oper = Result.moved 3 ∷ [];
  peek = Result.moved 3;
  pending = some 0;
  sender = address 2;
  errno = 0;
  op = SrbOp.recv;
}

abbrev jobs : Jobs
jobs = record { tcp_send_recv_async_tpl = 50; udp_send_async_tpl = 51; udp_recv_async_tpl = 52 }
