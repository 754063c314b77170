-- ===== src/OtmServer/Tests.antt =====
-- The theorems on network/one-to-many/server.c at a server with two connections.
use chats.Prelude.{
  ℕ, ◌+◌, ◌≡◌, refl, true, false, none, some, List, [], ◌∷◌, arith, ◌==◌, if◌then◌else◌, Holds,
}
use chats.Prelude.Int.{pos}
use chats.LinkedList.{Ptr, ListElement, Memory, Allocation}
use chats.LinkedList.Adding.{list_append}
use chats.LinkedList.Chain.{element, occurs, IsList}
use chats.Network.Endpoints.{
  EndpointClass, EndpointType, Address, Port, InAddr, Sockaddr, EndpointSocket,
}
use chats.Network.{SrbOp, Name, Srb, Result, Net}
use chats.Network.Operate.{Jobs, Kernel}
use chats.Sockets.{Candidate, Bound, bind_loop, Transfer, Acceptor}
use chats.OtmServer.{
  OtmServerTcp, Callback, tcp_acceptor, otm_server_tcp_deinit, otm_server_tcp_send_async,
  otm_server_tcp_recv_async,
}
use chats.OtmServer.Setup.{Calls, Started, otm_server_tcp_init}
use chats.OtmServer.Accepting.{Answer, tcp_acceptor-Answer}
use chats.OtmServer.Closing.{otm_server_tcp_deinit-AllClosed}
use chats.OtmServer.Mutex.{Operation, operate, operate-KeepsLocks}
use chats.OtmServer.Starting.{Outcome, otm_server_tcp_init-Outcome}
use chats.OtmServer.Transfers.{Registered, otm_server_tcp_async-Registered}

abbrev Nothing : Type 0
Nothing = Unit {0}

abbrev returns : Ptr → Ptr
returns p = p

abbrev net : Net Nothing
net = record {
  service = record {
    allow_new = true;
    running = true;
    event_fd = 3;
    event_count = 0;
    lookup_table = [];
    epoll = tt;
  };
  notices = [];
  windows = [];
  freed = 0;
}

abbrev address : Sockaddr
address = Sockaddr.inet (Port.bytes 31 144) (InAddr.bytes 127 0 0 1)

abbrev socket : ℕ → EndpointSocket
socket fd = record {
  skt = some fd;
  ep = record {
    ep_class = EndpointClass.ip4;
    ep_type = EndpointType.tcp;
    ep = Address.ip4 [] 0;
    addr = address;
  };
}

-- The list at 1000 with its elements at 100 and 200.
abbrev two : Memory
two = record {
  elements = λ a.
      if a == 100
      then some (element 0 200 1000)
      else if a == 200
      then some (element 100 0 1000)
      else none;
  lists = λ a.
      if a == 1000
      then some (record { count = 2; element_size = 176; first = 100; last = 200 })
      else none;
}

two-IsList : IsList two 1000 (100 ∷ 200 ∷ [])
two-IsList = record {
  not_null = omega arith;
  head = record { count = 2; element_size = 176; first = 100; last = 200 };
  known = refl;
  counted = refl;
  bounded = omega arith;
  starts = refl;
  ends = refl;
  chain = (omega arith, refl, (omega arith, refl, tt));
  distinct = (refl, (refl, tt));
}

-- The server at 500: its connections have the sockets 8 and 9.
abbrev server : OtmServerTcp Nothing
server = record {
  reuse_addr = 1;
  mutex = 0;
  net = net;
  local = socket 5;
  remotes_list = 1000;
  memory = two;
  connections = λ a. record { host = 500; ep_skt = socket (if a == 124 then 8 else 9) };
  closed = [];
}

abbrev block : Ptr → Allocation ListElement
block a = record { address = a; contents = element 7 7 7 }

-- A callback that turns everyone down.
abbrev turn_down : Callback Nothing
turn_down cb connection err ctx s = (s, false)

abbrev acceptor : Acceptor
acceptor = record { host = 500; connection_cb = 60; connection_ctx = 61 }

tcp_acceptor-Answer_example :
    (memory : Memory) × (s' : OtmServerTcp Nothing) × (list_append returns (block 300) 1000 two
      ≡ some (324, memory))
    × (tcp_acceptor returns turn_down (block 300) (some (10, address)) acceptor server ≡ some s')
    × Answer false server s' (100 ∷ 200 ∷ []) 300 10 address 500
tcp_acceptor-Answer_example =
    tcp_acceptor-Answer returns turn_down (λ cb connection err ctx s. refl) (block 300) acceptor 10
      address server (100 ∷ 200 ∷ [])
      (record { returned = refl; given = omega arith; unused = refl }) two-IsList (omega arith)

otm_server_tcp_deinit-AllClosed_example :
    (s' : OtmServerTcp Nothing) × (otm_server_tcp_deinit 3 500 server ≡ some s')
    × (s'.closed ≡ 8 ∷ 9 ∷ 5 ∷ [])
    × ((a : Ptr) → occurs a (100 ∷ 200 ∷ []) ≡ true → s'.memory.elements a ≡ none)
    × ((a : Ptr) → occurs a (100 ∷ 200 ∷ []) ≡ false → s'.memory.elements a ≡ two.elements a)
    × IsList s'.memory 1000 []
    × (s'.mutex ≡ 0)
otm_server_tcp_deinit-AllClosed_example =
    otm_server_tcp_deinit-AllClosed 3 500 (100 ∷ 200 ∷ []) server (omega arith) (omega arith)
      two-IsList

abbrev jobs : Jobs
jobs = record { tcp_send_recv_async_tpl = 50; udp_send_async_tpl = 51; udp_recv_async_tpl = 52 }

abbrev kernel : Kernel
kernel = record {
  oper = Result.moved 3 ∷ [];
  peek = Result.moved 3;
  pending = some 0;
  sender = address;
  errno = 0;
  op = SrbOp.recv;
}

abbrev raw : Srb
raw = record {
  addr = 40;
  op_type = EndpointType.none;
  op = SrbOp.send;
  src = socket 0;
  dst = socket 0;
  has_iosvc = true;
  buffer = none;
  bytes_operated = 0;
  cb = 0;
  ctx = 0;
  msg_name = Name.null;
  msg_namelen = 0;
  vec = record { iov_base = 0; iov_len = 0 };
}

abbrev three_bytes : Transfer
three_bytes = record { buffer = some 3; cb = 62; ctx = 63 }

-- A synchronous receipt keeps two locks.
operate-KeepsLocks_example :
    Holds
      (λ (s' : OtmServerTcp Nothing). s'.mutex ≡ 0 + 2)
      (operate returns turn_down jobs 70 500
        (Operation.recv_sync kernel (some raw) 124 three_bytes)
        server)
operate-KeepsLocks_example =
    operate-KeepsLocks returns turn_down jobs 70 500
      (Operation.recv_sync kernel (some raw) 124 three_bytes) server
      (λ cb connection err ctx s. refl)

otm_server_tcp_async-Registered_example :
    ((s' : OtmServerTcp Nothing) × (otm_server_tcp_send_async jobs kernel
          (some raw)
          500
          124
          three_bytes
          server
        ≡ some s')
      × Registered jobs SrbOp.send 8 40 server s')
    × ((s' : OtmServerTcp Nothing) × (otm_server_tcp_recv_async jobs kernel
            (some raw)
            500
            124
            three_bytes
            server
          ≡ some s')
        × Registered jobs SrbOp.recv 8 40 server s')
otm_server_tcp_async-Registered_example =
    otm_server_tcp_async-Registered jobs kernel 500 124 three_bytes server raw 8 3 (omega arith)
      (omega arith) refl refl refl

-- The first address cannot be bound, and the second one refuses the option.
abbrev candidates : List Candidate
candidates =
    record { addr = address; socket = some 11; setsockopt_fails = false; bind_fails = true }
    ∷ record { addr = address; socket = some 12; setsockopt_fails = true; bind_fails = false }
    ∷ []

abbrev calls : Calls Nothing
calls = record {
  allocated = some server;
  list = record {
    address = 2000;
    contents = record { count = 7; element_size = 7; first = 7; last = 7 };
  };
  addr_info = some candidates;
  listen_fails = λ backlog. false;
}

otm_server_tcp_init-Outcome_example :
    (r : Started Nothing) × (otm_server_tcp_init calls true (pos 0) 1 net two ≡ some r)
    × Outcome candidates (bind_loop candidates).0 false (some 5) net r
otm_server_tcp_init-Outcome_example =
    otm_server_tcp_init-Outcome calls (pos 0) 1 net two server candidates refl (omega arith) refl

-- The socket 12 is left open, and 5, what the memory held, closed.
leaks : bind_loop candidates ≡ (Bound.option_refused 12, 11 ∷ [])
unfolding bind_loop
leaks = refl
