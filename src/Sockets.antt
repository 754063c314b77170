-- ===== src/Sockets.antt =====
-- What the servers and the client of network/ share: the loop over the addresses that `getaddrinfo`
-- gives, and the building of an `srb_t` for a transfer. A system call's result is an argument.
pub mod Binding
pub mod Requests
mod Tests
use chats.Prelude.{
  ℕ, ◌+◌, ◌-◌, Bool, true, false, not, Option, none, some, List, [], ◌∷◌, ◌++◌, ◌==◌, if◌then◌else◌,
  ◌>>=◌,
}
use chats.LinkedList.{Ptr}
use chats.Network.Endpoints.{EndpointType, Sockaddr, EndpointSocket, translate_endpoint}
use chats.Network.{SrbOp, Srb, Net}
use chats.Network.Operate.{Jobs, Kernel, srb_operate}

-- An entry of the list that `getaddrinfo` gives, and what `socket`, `setsockopt` and `bind` come to
-- at it: the socket, `none` where it is negative, and whether the other two fail.
pub record Candidate : Type 0 where
  pub addr : Sockaddr
  pub socket : Option ℕ
  pub setsockopt_fails : Bool
  pub bind_fails : Bool

-- How the loop is left.
pub data Bound : Type 0 where
  bound : (sfd : ℕ) → (addr : Sockaddr) → Bound
  exhausted : Bound
  option_refused : (sfd : ℕ) → Bound

-- `for (cur_addr = addr_info; cur_addr != NULL; cur_addr = cur_addr->ai_next)`, with the sockets that
-- the loop closes.
unfoldable pub bind_loop : List Candidate → Bound × List ℕ
bind_loop [] = (Bound.exhausted, [])
bind_loop (c ∷ cs) =
    let rest = bind_loop cs in
    elim c.socket [
      | none ↦ rest
      | some sfd ↦
          if c.setsockopt_fails
          then (Bound.option_refused sfd, [])
          else if c.bind_fails
          then (rest.0, sfd ∷ rest.1)
          else (Bound.bound sfd c.addr, [])
    ]

-- `shutdown` and `close`: of a negative descriptor they do nothing.
abbrev pub close : Option ℕ → List ℕ → List ℕ
close skt closed = elim skt [ none ↦ closed | some fd ↦ closed ++ fd ∷ [] ]

-- The arguments of a transfer: the size of the buffer, `none` where it is NULL, and the callback.
pub record Transfer : Type 0 where
  pub buffer : Option ℕ
  pub cb : ℕ
  pub ctx : ℕ

-- `buffer && buffer_size(buffer)`.
abbrev pub has_data : Option ℕ → Bool
has_data buffer = elim buffer [ none ↦ false | some size ↦ not (size == 0) ]

-- The fields of the `srb_t` that a transfer with `peer` sets; `raw` is the memory allocated.
abbrev pub fill_srb :
    (raw : Srb)
    → EndpointType
    → SrbOp
    → (has_iosvc : Bool) → (peer : EndpointSocket) → Transfer
    → Srb
fill_srb raw op_type op has_iosvc peer t = record raw {
  buffer = t.buffer;
  bytes_operated = 0;
  cb = t.cb;
  ctx = t.ctx;
  op_type = op_type;
  op = op;
  has_iosvc = has_iosvc;
  src = elim op [ SrbOp.send ↦ record raw.src { skt = none } | SrbOp.recv ↦ peer ];
  dst = elim op [ SrbOp.send ↦ peer | SrbOp.recv ↦ record raw.dst { skt = none } ];
}

-- `pthread_mutex_lock` and `pthread_mutex_unlock` of a recursive mutex, by the number of locks.
abbrev pub lock : ℕ → ℕ
lock depth = depth + 1

abbrev pub unlock : ℕ → ℕ
unlock depth = depth - 1

-- The end of every transfer: the `srb_t` is allocated, which an assertion wants, filled and operated.
unfoldable pub transfer :
    {E : Type 0}
    → Jobs
    → Kernel
    → Option Srb
    → EndpointType
    → SrbOp
    → (has_iosvc : Bool) → (peer : EndpointSocket) → Transfer
    → Net E
    → Option (Net E)
transfer jobs k allocated op_type op has_iosvc peer t net = do
  raw ← allocated
  (srb, net1) ← srb_operate jobs k (some (fill_srb raw op_type op has_iosvc peer t)) net
  some net1

-- `connection_t`.
pub record Connection : Type 0 where
  pub host : Ptr
  pub ep_skt : EndpointSocket

-- `struct connection_acceptor`.
pub record Acceptor : Type 0 where
  pub host : Ptr
  pub connection_cb : ℕ
  pub connection_ctx : ℕ

-- The memory of a `connection_t` with its socket and address set.
abbrev pub connected_to : Ptr → (afd : ℕ) → Sockaddr → Connection → Connection
connected_to server afd addr c = record {
  host = server;
  ep_skt = record {
    skt = some afd;
    ep = translate_endpoint (record c.ep_skt.ep { ep_type = EndpointType.tcp; addr = addr });
  };
}
