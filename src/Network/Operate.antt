-- ===== src/Network/Operate.antt =====
-- network/network.c: the operations that `srb_operate` chooses from.
use chats.Prelude.{
  ℕ, ◌+◌, ◌-◌, ◌^◌, Bool, true, false, Option, none, some, List, [], ◌∷◌, ◌==◌, ltb, if◌then◌else◌,
  ◌>>=◌,
}
use chats.Prelude.Int.{pos, negsuc}
use chats.Network.Endpoints.{
  EndpointClass, EndpointType, Sockaddr, EndpointSocket, translate_endpoint,
}
use chats.Network.{SrbOp, Name, Srb, Result, Net, move, notify, deallocate_srb, post}

-- The addresses of the jobs that the operations post.
pub record Jobs : Type 0 where
  pub tcp_send_recv_async_tpl : ℕ
  pub udp_send_async_tpl : ℕ
  pub udp_recv_async_tpl : ℕ

-- What the system calls of one operation give: the results of `sendmsg` and `recvmsg` in their
-- order, that of `recvmsg` with `MSG_PEEK`, that of `ioctl`, where `none` is a failure, and the
-- sender that `recvmsg` writes. `errno` is what it is before, and `op` what the variable `op` of
-- `tcp_send_recv_sync` holds before it is set.
pub record Kernel : Type 0 where
  pub oper : List Result
  pub peek : Result
  pub pending : Option ℕ
  pub sender : Sockaddr
  pub errno : ℕ
  pub op : SrbOp

-- The test `ep.ep_type == …` of the assertions.
abbrev pub has_type : EndpointType → EndpointSocket → Bool
has_type EndpointType.tcp s = elim s.ep.ep_type [ EndpointType.tcp ↦ true | _ ↦ false ]
has_type EndpointType.udp s = elim s.ep.ep_type [ EndpointType.udp ↦ true | _ ↦ false ]
has_type EndpointType.none s = false

abbrev pub side : SrbOp → Srb → EndpointSocket
side op srb = elim op [ SrbOp.send ↦ srb.dst | SrbOp.recv ↦ srb.src ]

-- `sizeof(struct sockaddr_in)` and `sizeof(struct sockaddr_in6)`.
abbrev pub sizeof_sockaddr : EndpointClass → ℕ
sizeof_sockaddr ep_class = elim ep_class [ EndpointClass.ip4 ↦ 16 | _ ↦ 28 ]

-- The fields of `mhdr` and `vec` for a transfer of the whole buffer.
abbrev pub prepare : Name → (namelen size : ℕ) → Srb → Srb
prepare name namelen size srb = record srb {
  msg_name = name;
  msg_namelen = namelen;
  vec = record { iov_base = 0; iov_len = size };
  bytes_operated = 0;
}

-- The sender of a datagram that was received stands in `src.ep.addr`.
abbrev pub receive_from : Kernel → Result → Srb → Srb
receive_from k r srb = elim r [
  | Result.failed e ↦ srb
  | Result.moved n ↦ record srb {
    src = record srb.src { ep = record srb.src.ep { addr = k.sender } };
  }
]

module _ {E : Type 0} where
  -- The loop of the synchronous operations: the count, `errno` and the net, where it ends with the
  -- results given. Each call moves a part of what `vec` points to, and `vec` is left as it is.
  unfoldable pub sync_loop :
      (size : ℕ) → List Result → (bytes_op errno : ℕ) → Srb → Net E → Option (ℕ × ℕ × Net E)
  sync_loop size [] bytes_op errno srb net =
      if ltb bytes_op size then none else some (bytes_op, errno, net)
  sync_loop size (Result.failed e ∷ rs) bytes_op errno srb net =
      if ltb bytes_op size then some (bytes_op, e, net) else some (bytes_op, errno, net)
  sync_loop size (Result.moved n ∷ rs) bytes_op errno srb net =
      let rest = sync_loop size rs (bytes_op + n) 0 srb (move srb n net) in
      if ltb bytes_op size then rest else some (bytes_op, errno, net)

  -- What both synchronous operations do after their assertions.
  abbrev pub transfer_sync : Kernel → EndpointSocket → Srb → (size : ℕ) → Net E → Option (Net E)
  transfer_sync k s srb size net = do
    (bytes_op, errno, net1) ← sync_loop size k.oper 0 k.errno srb net
    more ← k.pending
    some (deallocate_srb (notify srb s.ep (pos errno) bytes_op more net1))

  unfoldable pub tcp_send_recv_sync : Kernel → Srb → Net E → Option (Net E)
  unfolding sync_loop
  tcp_send_recv_sync k srb net = do
    skt ← (side k.op srb).skt
    size ← (if has_type EndpointType.tcp (side k.op srb) then srb.buffer else none)
    transfer_sync k (side k.op srb) (prepare Name.null 0 size srb) size net

  unfoldable pub udp_send_sync : Kernel → Srb → Net E → Option (Net E)
  unfolding sync_loop
  udp_send_sync k srb net = do
    skt ← srb.dst.skt
    size ← (if has_type EndpointType.udp srb.dst then srb.buffer else none)
    transfer_sync k srb.dst (prepare Name.of_dst (sizeof_sockaddr srb.dst.ep.ep_class) size srb)
        size net

  unfoldable pub tcp_send_recv_async : Jobs → Srb → Net E → Option (Srb × Net E)
  tcp_send_recv_async jobs srb net = do
    skt ← (side srb.op srb).skt
    size ← (if has_type EndpointType.tcp (side srb.op srb) then srb.buffer else none)
    let srb1 : Srb = prepare Name.null 0 size srb
    some (srb1, post srb1 skt jobs.tcp_send_recv_async_tpl net)

  unfoldable pub udp_send_async : Jobs → Srb → Net E → Option (Srb × Net E)
  udp_send_async jobs srb net = do
    skt ← srb.dst.skt
    size ← (if has_type EndpointType.udp srb.dst then srb.buffer else none)
    let srb1 : Srb = prepare Name.of_dst (sizeof_sockaddr srb.dst.ep.ep_class) size srb
    some (srb1, post srb1 skt jobs.udp_send_async_tpl net)

  -- `sizeof(srb->aux.src.ep.addr)` is 128.
  unfoldable pub udp_recv_async : Jobs → Srb → Net E → Option (Srb × Net E)
  udp_recv_async jobs srb net = do
    skt ← srb.src.skt
    size ← (if has_type EndpointType.udp srb.src then srb.buffer else none)
    let srb1 : Srb = prepare Name.of_src 128 size srb
    some (srb1, post srb1 skt jobs.udp_recv_async_tpl net)

  -- The branch of a datagram that is larger than the buffer. It does not return.
  abbrev pub too_small : Kernel → Srb → (bytes_pending : ℕ) → Net E → Net E
  too_small k srb bytes_pending net = elim k.peek [
    | Result.failed e ↦
        deallocate_srb (
          notify srb srb.src.ep (if e == 0 then negsuc 0 else pos e) (2 ^ 64 - 1) bytes_pending net)
    | Result.moved n ↦
        deallocate_srb
          (notify srb (receive_from k k.peek srb).src.ep (negsuc 0) n bytes_pending net)
  ]

  -- The `recvmsg` behind it, and the rest. The `srb_t` is read even where it was freed: it is taken
  -- to hold still what it held.
  abbrev pub receive : Kernel → Srb → (bytes_pending : ℕ) → Net E → Option (Net E)
  receive k srb bytes_pending net = elim k.oper [
    | [] ↦ none
    | r ∷ rs ↦
        let ep = translate_endpoint (receive_from k r srb).src.ep in
        elim r [
          | Result.failed e ↦ some (deallocate_srb (notify srb ep (pos e) 0 bytes_pending net))
          | Result.moved n ↦
              some (deallocate_srb (notify srb ep (pos 0) n bytes_pending (move srb n net)))
        ]
  ]

  -- What `udp_recv_async_tpl` and `udp_recv_sync` share.
  abbrev pub receive_datagram : Kernel → Srb → (size : ℕ) → Net E → Option (Net E)
  receive_datagram k srb size net = do
    bytes_pending ← k.pending
    if ltb size bytes_pending
        then receive k (receive_from k k.peek srb) bytes_pending (too_small k srb bytes_pending net)
        else receive k srb bytes_pending net

  unfoldable pub udp_recv_async_tpl : Kernel → Srb → Net E → Option (Net E)
  udp_recv_async_tpl k srb net = srb.buffer >>= λ size. receive_datagram k srb size net

  unfoldable pub udp_recv_sync : Kernel → Srb → Net E → Option (Net E)
  udp_recv_sync k srb net = do
    skt ← srb.src.skt
    size ← (if has_type EndpointType.udp srb.src then srb.buffer else none)
    receive_datagram k (prepare Name.of_src 128 size srb) size net

  abbrev pub kept : Option (Srb × Net E) → Option (Option Srb × Net E)
  kept o = o >>= λ r. some (some r.0, r.1)

  abbrev pub gone : Option (Net E) → Option (Option Srb × Net E)
  gone o = o >>= λ net. some (none, net)

  -- `srb_operate`, with the table `OPERATORS` written out. The `srb_t` is `none` when it was freed.
  unfoldable pub srb_operate : Jobs → Kernel → Option Srb → Net E → Option (Option Srb × Net E)
  unfolding tcp_send_recv_sync tcp_send_recv_async udp_send_sync udp_send_async udp_recv_sync
      udp_recv_async
  srb_operate jobs k none net = some (none, net)
  srb_operate jobs k (some srb) net = elim srb.op_type [
    | EndpointType.tcp ↦
        if srb.has_iosvc
        then kept (tcp_send_recv_async jobs srb net)
        else gone (tcp_send_recv_sync k srb net)
    | EndpointType.udp ↦ elim srb.op [
      | SrbOp.send ↦
          if srb.has_iosvc
          then kept (udp_send_async jobs srb net)
          else gone (udp_send_sync k srb net)
      | SrbOp.recv ↦
          if srb.has_iosvc
          then kept (udp_recv_async jobs srb net)
          else gone (udp_recv_sync k srb net)
    ]
    | EndpointType.none ↦ none
  ]
