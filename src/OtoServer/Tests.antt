-- ===== src/OtoServer/Tests.antt =====
-- The theorems on network/one-to-one/server.c at a connected server.
use chats.Prelude.{ℕ, ◌≡◌, refl, true, none, some, [], ◌∷◌, arith}
use chats.Network.Endpoints.{
  EndpointClass, EndpointType, Address, Port, InAddr, Sockaddr, EndpointSocket,
}
use chats.OtoServer.{
  OtoServerTcp, Callback, oto_server_tcp_listen_sync, oto_server_tcp_listen_async,
  oto_server_tcp_disconnect, oto_server_tcp_deinit, oto_server_tcp_remote_ep,
}
use chats.OtoServer.Connected.{oto_server_tcp_disconnect-connected}

abbrev Nothing : Type 0
Nothing = Unit {0}

abbrev socket : ℕ → EndpointSocket
socket fd = record {
  skt = some fd;
  ep = record {
    ep_class = EndpointClass.ip4;
    ep_type = EndpointType.tcp;
    ep = Address.ip4 [] 0;
    addr = Sockaddr.inet (Port.bytes 31 144) (InAddr.bytes 127 0 0 1);
  };
}

abbrev server : OtoServerTcp Nothing
server = record {
  connected = true;
  reuse_addr = 1;
  mutex = 0;
  net = record {
    service = record {
      allow_new = true;
      running = true;
      event_fd = 3;
      event_count = 0;
      lookup_table = [];
      epoll = tt;
    };
    notices = [];
    windows = [];
    freed = 0;
  };
  local = socket 5;
  remote = record { host = 500; ep_skt = socket 8 };
  closed = [];
}

abbrev keep : Callback Nothing
keep cb err ctx s = (s, true)

oto_server_tcp_disconnect-connected_example :
    (s' : OtoServerTcp Nothing) × (oto_server_tcp_disconnect 500 server ≡ s')
    × (s'.closed ≡ 8 ∷ [])
    × (oto_server_tcp_listen_async 70 500 900 s' ≡ some s')
    × (oto_server_tcp_listen_sync keep 500 true none 60 61 s' ≡ some s')
    × (oto_server_tcp_remote_ep 500 (socket 0) s' ≡ (socket 8, s'))
    × ((oto_server_tcp_deinit 500 s').closed ≡ 8 ∷ 8 ∷ 5 ∷ [])
oto_server_tcp_disconnect-connected_example =
    oto_server_tcp_disconnect-connected keep 500 900 true none 70 60 61 8 (socket 0) server
      (omega arith) refl refl
