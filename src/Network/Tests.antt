-- ===== src/Network/Tests.antt =====
-- The theorems on network/network.c at concrete buffers and system calls.
use chats.Prelude.{
  ℕ, ◌+◌, ◌≤◌, ◌≡◌, refl, true, Option, none, some, List, [], ◌∷◌, ◌++◌, arith, take, length, ◌>>=◌,
}
use chats.Prelude.Int.{pos}
use chats.IoService.{IoService}
use chats.IoService.Elements.{Op}
use chats.IoService.Registry.{registry, put}
use chats.Network.Endpoints.{
  EndpointClass, EndpointType, Address, Port, InAddr, Sockaddr, Endpoint, EndpointSocket,
}
use chats.Network.{SrbOp, Name, Srb, Result, Net, Window, notify}
use chats.Network.Windows.{gather}
use chats.Network.Transfer.{Step, ready, drive, Stands, drive-gather}
use chats.Network.Prefixes.{
  AllAt, total, stream, tcp_send_recv_sync-FromStart, tcp_send_recv_sync-AtEnd,
}
use chats.Network.Operate.{Jobs, Kernel, srb_operate, tcp_send_recv_sync, udp_recv_async_tpl}
use chats.Network.Datagrams.{times, udp_recv_async_tpl-times, registry-srb_operate}

abbrev Nothing : Type 0
Nothing = Unit {0}

abbrev service : IoService Nothing
service = record {
  allow_new = true;
  running = true;
  event_fd = 3;
  event_count = 0;
  lookup_table = [];
  epoll = tt;
}

abbrev net : Net Nothing
net = record { service = service; notices = []; windows = []; freed = 0 }

abbrev local_host : Sockaddr
local_host = Sockaddr.inet (Port.bytes 31 144) (InAddr.bytes 127 0 0 1)

abbrev endpoint : EndpointType → Endpoint
endpoint t = record {
  ep_class = EndpointClass.ip4;
  ep_type = t;
  ep = Address.ip4 [] 0;
  addr = local_host;
}

abbrev socket : EndpointType → EndpointSocket
socket t = record { skt = some 6; ep = endpoint t }

-- An `srb_t` at 40 with a buffer of three bytes.
abbrev srb : EndpointType → SrbOp → Srb
srb t op = record {
  addr = 40;
  op_type = t;
  op = op;
  src = socket t;
  dst = socket t;
  has_iosvc = true;
  buffer = some 3;
  bytes_operated = 0;
  cb = 60;
  ctx = 61;
  msg_name = Name.null;
  msg_namelen = 0;
  vec = record { iov_base = 0; iov_len = 3 };
}

abbrev jobs : Jobs
jobs = record { tcp_send_recv_async_tpl = 50; udp_send_async_tpl = 51; udp_recv_async_tpl = 52 }

abbrev kernel : List Result → Kernel
kernel oper = record {
  oper = oper;
  peek = Result.moved 3;
  pending = some 5;
  sender = local_host;
  errno = 0;
  op = SrbOp.send;
}

abbrev bytes : List ℕ
bytes = 104 ∷ 105 ∷ 33 ∷ []

-- Two bytes, a socket that is not ready after all, and the third byte.
abbrev steps : List (Step Nothing)
steps =
    ready service (Result.moved 2) 0
    ∷ ready service (Result.failed 11) 0
    ∷ ready service (Result.moved 1) 0
    ∷ []

drive-gather_example :
    (o : Option Srb) × (net' : Net Nothing) × (reached : ℕ) × (drive 50 0 6 steps
        (srb EndpointType.tcp SrbOp.send)
        net
      ≡ some (o, net'))
    × (gather bytes net'.windows ≡ take reached bytes)
    × (reached ≤ 3)
    × Stands (srb EndpointType.tcp SrbOp.send) 3 reached net o net'
drive-gather_example =
    drive-gather 50 0 6 steps (srb EndpointType.tcp SrbOp.send) bytes net refl refl refl
      (omega arith, ((λ e. absurd (omega arith)), (omega arith, tt)))

-- The second call of a send that was cut short starts at the beginning of the buffer again.
tcp_send_recv_sync-FromStart_example :
    (net' : Net Nothing) × (err : ℕ) × (ws : List Window) × (tcp_send_recv_sync
        (kernel (Result.moved 2 ∷ Result.moved 2 ∷ Result.moved 3 ∷ []))
        (srb EndpointType.tcp SrbOp.send)
        net
      ≡ some net')
    × (net'.windows ≡ [] ++ ws)
    × AllAt 0 ws
    × (net'.notices
        ≡ (notify
            (srb EndpointType.tcp SrbOp.send)
            (endpoint EndpointType.tcp)
            (pos err)
            (total ws)
            5
            net).notices)
    × (net'.freed ≡ 0 + 1)
tcp_send_recv_sync-FromStart_example =
    tcp_send_recv_sync-FromStart (kernel (Result.moved 2 ∷ Result.moved 2 ∷ Result.moved 3 ∷ []))
      (srb EndpointType.tcp SrbOp.send) net 6 3 5 refl refl refl refl
      (omega arith, (omega arith, (omega arith, tt))) (omega arith)

-- A stream that ends behind two bytes of three.
tcp_send_recv_sync-AtEnd_example :
    (tcp_send_recv_sync (kernel (stream (2 ∷ []) 7 [])) (srb EndpointType.tcp SrbOp.recv) net
      ≡ none)
    × ((net' : Net Nothing) × (tcp_send_recv_sync
            (kernel (stream (2 ∷ []) 7 (Result.failed 104 ∷ [])))
            (srb EndpointType.tcp SrbOp.recv)
            net
          ≡ some net'))
tcp_send_recv_sync-AtEnd_example =
    tcp_send_recv_sync-AtEnd (kernel []) (srb EndpointType.tcp SrbOp.recv) net 6 3 5 (2 ∷ []) 7 104
      refl refl refl refl (omega arith)

-- So "hi!" goes out as "hihi", and four bytes are reported.
sent_twice :
    (tcp_send_recv_sync
        (kernel (Result.moved 2 ∷ Result.moved 2 ∷ []))
        (srb EndpointType.tcp SrbOp.send)
        net
      >>= λ net'. some (gather bytes net'.windows))
    ≡ some (104 ∷ 105 ∷ 104 ∷ 105 ∷ [])
unfolding tcp_send_recv_sync
sent_twice = refl

udp_recv_async_tpl-times_example :
    (net' : Net Nothing) × (udp_recv_async_tpl
        (kernel (Result.moved 3 ∷ []))
        (srb EndpointType.udp SrbOp.recv)
        net
      ≡ some net')
    × (length net'.notices ≡ 0 + times 3 5)
    × (net'.freed ≡ 0 + times 3 5)
udp_recv_async_tpl-times_example =
    udp_recv_async_tpl-times (kernel (Result.moved 3 ∷ [])) (srb EndpointType.udp SrbOp.recv) net 3
      5 (Result.moved 3) [] refl refl refl refl

registry-srb_operate_example :
    (srb' : Srb) × (net' : Net Nothing) × (srb_operate jobs
        (kernel [])
        (some (srb EndpointType.udp SrbOp.recv))
        net
      ≡ some (some srb', net'))
    × (registry net'.service
        ≡ put 6 Op.read (record { job = 52; ctx = 40; oneshot = true }) (registry service))
    × (srb'.bytes_operated ≡ 0)
    × (srb'.vec ≡ record { iov_base = 0; iov_len = 3 })
    × (net'.notices ≡ [])
registry-srb_operate_example =
    registry-srb_operate jobs (kernel []) EndpointType.udp SrbOp.recv
      (srb EndpointType.udp SrbOp.recv) net 6 3 refl refl refl
