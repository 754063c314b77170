-- ===== src/Network.antt =====
-- network/network.c: the operations of a send or receive buffer (`srb_t`) over the I/O service.
-- A system call's result is an argument; of the buffer, its size, and the windows of it that the
-- calls moved, each with its offset and its length.
pub mod Endpoints
pub mod Operate
pub mod Windows
pub mod Stages
pub mod Transfer
pub mod Prefixes
pub mod Datagrams
mod Tests
use Endpoints.{EndpointClass, EndpointType, Endpoint, EndpointSocket, translate_endpoint}
use chats.Prelude.{
  ℕ, suc, ◌+◌, ◌-◌, ◌*◌, ◌^◌, ◌≤◌, Bool, true, false, not, Option, none, some, List, [], ◌∷◌, ◌++◌,
  ◌==◌, ◌&&◌, ltb, leb, if◌then◌else◌, ◌>>=◌,
}
use chats.Prelude.Int.{ℤ, pos, negsuc}
use chats.IoService.{IoService, io_service_post_job}
use chats.IoService.Elements.{Op}

pub data SrbOp : Type 0 where
  send : SrbOp
  recv : SrbOp

-- `NET_OPERATIONS[op].iosvc_op`
abbrev pub iosvc_op : SrbOp → Op
iosvc_op SrbOp.send = Op.write
iosvc_op SrbOp.recv = Op.read

-- `struct iovec`, its base as an offset into the data of the buffer.
pub record Iovec : Type 0 where
  pub iov_base : ℕ
  pub iov_len : ℕ

-- `msg_name`: NULL, or the address of one of the two endpoints.
pub data Name : Type 0 where
  null : Name
  of_src : Name
  of_dst : Name

-- `struct send_recv_buffer`; `addr` is its address, `buffer` the size of its buffer, and NULL is
-- `none` there. `cb` is NULL at 0.
pub record Srb : Type 0 where
  pub addr : ℕ
  pub op_type : EndpointType
  pub op : SrbOp
  pub src : EndpointSocket
  pub dst : EndpointSocket
  pub has_iosvc : Bool
  pub buffer : Option ℕ
  pub bytes_operated : ℕ
  pub cb : ℕ
  pub ctx : ℕ
  pub msg_name : Name
  pub msg_namelen : ℕ
  pub vec : Iovec

-- What `sendmsg` or `recvmsg` returns: -1 with `errno`, or a count, `errno` staying 0.
pub data Result : Type 0 where
  failed : (errno : ℕ) → Result
  moved : (count : ℕ) → Result

-- A call of `cb`.
pub record Notice : Type 0 where
  pub cb : ℕ
  pub ep : Endpoint
  pub err : ℤ
  pub bytes_operated : ℕ
  pub has_more_bytes : ℕ
  pub ctx : ℕ

-- A part of the buffer that a system call moved.
pub record Window : Type 0 where
  pub offset : ℕ
  pub count : ℕ

-- What the operations have done besides: the service, the calls of callbacks, the windows moved, and
-- how often the `srb_t` was freed.
pub record Net (E : Type 0) : Type 0 where
  pub service : IoService E
  pub notices : List Notice
  pub windows : List Window
  pub freed : ℕ

-- `EAGAIN`, which is `EWOULDBLOCK`.
abbrev pub eagain : ℕ
eagain = 11

-- Subtraction of `size_t`.
abbrev pub sub_size : ℕ → ℕ → ℕ
sub_size a b = if leb b a then a - b else 2 ^ 64 + a - b

abbrev pub remote : Srb → EndpointSocket
remote srb = elim srb.op [ SrbOp.send ↦ srb.dst | SrbOp.recv ↦ srb.src ]

module _ {E : Type 0} where
  abbrev pub move : Srb → (count : ℕ) → Net E → Net E
  move srb count net = record net {
    windows = net.windows ++ (record { offset = srb.vec.iov_base; count = count } ∷ []);
  }

  -- `if (srb->cb) (*srb->cb)(…)`
  abbrev pub notify : Srb → Endpoint → (err : ℤ) → (bytes more : ℕ) → Net E → Net E
  notify srb ep err bytes more net = record net {
    notices =
        if srb.cb == 0
        then net.notices
        else net.notices
          ++ (record {
            cb = srb.cb;
            ep = ep;
            err = err;
            bytes_operated = bytes;
            has_more_bytes = more;
            ctx = srb.ctx;
          }
              ∷ []);
  }

  abbrev pub deallocate_srb : Net E → Net E
  deallocate_srb net = record net { freed = net.freed + 1 }

  abbrev pub post : Srb → (fd tpl : ℕ) → Net E → Net E
  post srb fd tpl net = record net {
    service = io_service_post_job net.service fd (iosvc_op srb.op) true tpl srb.addr;
  }

  -- The body that `tcp_send_recv_async_tpl` and `udp_send_async_tpl` share but for the endpoint that
  -- the callback gets. `oper` is the result of the system call, `pending` that of `ioctl`, with
  -- `none` for a failure, which the assertion stops at, and `stale` what `more_bytes` holds before
  -- it is set. The `srb_t` is gone, `none`, when it was freed.
  abbrev pub async_tpl :
      (tpl stale : ℕ)
      → Endpoint
      → Srb
      → (size fd : ℕ) → (oper : Result) → (pending : Option ℕ) → Net E
      → Option (Option Srb × Net E)
  async_tpl tpl stale ep srb size fd oper pending net =
      let bytes_op = srb.bytes_operated in
      let srb1 : Srb = record srb {
        vec = record { iov_base = bytes_op; iov_len = sub_size size bytes_op };
      } in
      elim oper [
        | Result.failed errno ↦
            if errno == eagain
            then some (some srb1, post srb1 fd tpl net)
            else some (none, deallocate_srb (notify srb1 ep (pos errno) bytes_op stale net))
        | Result.moved count ↦
            let srb2 : Srb = record srb1 { bytes_operated = bytes_op + count } in
            if ltb (bytes_op + count) size
            then some (some srb2, post srb2 fd tpl (move srb1 count net))
            else (do
              more ← pending
              some (
                none,
                deallocate_srb
                    (notify srb2 ep (pos 0) (bytes_op + count) more (move srb1 count net)),
              ))
      ]

  unfoldable pub tcp_send_recv_async_tpl :
      (tpl stale : ℕ)
      → Srb
      → (fd : ℕ) → (oper : Result) → (pending : Option ℕ) → Net E
      → Option (Option Srb × Net E)
  tcp_send_recv_async_tpl tpl stale srb fd oper pending net = do
    size ← srb.buffer
    async_tpl tpl stale (remote srb).ep srb size fd oper pending net

  unfoldable pub udp_send_async_tpl :
      (tpl stale : ℕ)
      → Srb
      → (fd : ℕ) → (oper : Result) → (pending : Option ℕ) → Net E
      → Option (Option Srb × Net E)
  udp_send_async_tpl tpl stale srb fd oper pending net = do
    size ← srb.buffer
    async_tpl tpl stale srb.dst.ep srb size fd oper pending net
