-- ===== src/Network/Prefixes.antt =====
-- The synchronous transfers of network/network.c.
use mathlib.Core.List.{append-nil, append_assoc}
use chats.Prelude.{
  zero, suc, sym, map, replicate, none, ℕ, ◌+◌, ◌≤◌, ◌<◌, ◌≡◌, refl, ap, ◌∙◌, inl, inr, true, some,
  List, [], ◌∷◌, ◌++◌, arith, length, ltb, Bool-cases,
}
use chats.Prelude.Int.{pos}
use chats.Network.Endpoints.{EndpointType, EndpointSocket}
use chats.Network.{Srb, Result, Window, Name, Net, move, notify, deallocate_srb}
use chats.Network.Operate.{
  Kernel, side, has_type, prepare, transfer_sync, sync_loop, tcp_send_recv_sync,
}

-- Each call moves a byte at least, or fails.
abbrev pub IsLively : List Result → Type 0
IsLively [] = Unit
IsLively (Result.failed e ∷ rs) = IsLively rs
IsLively (Result.moved n ∷ rs) = (0 < n) × IsLively rs

-- Windows that all start at `base`.
abbrev pub AllAt : (base : ℕ) → List Window → Type 0
AllAt base [] = Unit
AllAt base (w ∷ ws) = (w.offset ≡ base) × AllAt base ws

abbrev pub total : List Window → ℕ
total [] = 0
total (w ∷ ws) = w.count + total ws

-- What the loop left behind: the count `b`, and `more` of the net it started with.
pub record Moved {E : Type 0} (base bytes_op b : ℕ) (net net' : Net E) (ws : List Window)
    : Type 0 where
  pub windows : net'.windows ≡ net.windows ++ ws
  pub starts : AllAt base ws
  pub count : b ≡ bytes_op + total ws
  pub notices : net'.notices ≡ net.notices
  pub freed : net'.freed ≡ net.freed

module _ {E : Type 0} (size : ℕ) (srb : Srb) where
  stays : (b : ℕ) (net : Net E) → Moved srb.vec.iov_base b b net net []
  stays b net = record {
    windows = sym (append-nil net.windows);
    starts = tt;
    count = omega arith;
    notices = refl;
    freed = refl;
  }

  -- The loop ends with as many results that move a byte at least, or fail, as bytes are left.
  sync_loop-Moved :
      (rs : List Result) (bytes_op errno : ℕ) (net : Net E)
      → IsLively rs
      → size ≤ bytes_op + length rs
      → (b e : ℕ) × (net' : Net E) × (ws : List Window) × (sync_loop size rs bytes_op errno srb net
          ≡ some (b, e, net'))
        × Moved srb.vec.iov_base bytes_op b net net' ws
  unfolding sync_loop
  sync_loop-Moved [] bytes_op errno net lively enough =
      (bytes_op, errno, net, [], ground (arith, enough), stays bytes_op net)
  sync_loop-Moved (Result.failed e ∷ rs) bytes_op errno net lively enough =
      elim (Bool-cases (ltb bytes_op size)) [
        | inl more ↦ (bytes_op, e, net, [], rw more refl, stays bytes_op net)
        | inr done ↦ (bytes_op, errno, net, [], rw done refl, stays bytes_op net)
      ]
  sync_loop-Moved (Result.moved n ∷ rs) bytes_op errno net lively enough =
      elim (Bool-cases (ltb bytes_op size)) [
        | inl more ↦
            let (b, e, net', ws, rest, m) =
              sync_loop-Moved rs (bytes_op + n) 0 (move srb n net) lively.1
                (omega (arith, lively.0)) in
            (
              b,
              e,
              net',
              record { offset = srb.vec.iov_base; count = n } ∷ ws,
              rw more rest,
              record {
                windows = m.windows ∙ append_assoc net.windows _ ws;
                starts = (refl, m.starts);
                count = omega (arith, m.count);
                notices = m.notices;
                freed = m.freed;
              },
            )
        | inr done ↦ (bytes_op, errno, net, [], rw done refl, stays bytes_op net)
      ]

-- The operation behind its assertions.
tcp_send_recv_sync_runs :
    {E : Type 0} (k : Kernel) (srb : Srb) (net : Net E) (skt size : ℕ)
    → (side k.op srb).skt ≡ some skt
    → has_type EndpointType.tcp (side k.op srb) ≡ true
    → srb.buffer ≡ some size
    → tcp_send_recv_sync k srb net
      ≡ transfer_sync k (side k.op srb) (prepare Name.null 0 size srb) size net
unfolding tcp_send_recv_sync
tcp_send_recv_sync_runs k srb net skt size open_ tcp known = simp (open_, tcp, known) refl

-- The operation behind its loop, where that ends.
transfer_sync_ends :
    {E : Type 0} (k : Kernel) (s : EndpointSocket) (srb : Srb) (net net1 : Net E)
    (size more b e : ℕ)
    → sync_loop size k.oper 0 k.errno srb net ≡ some (b, e, net1)
    → k.pending ≡ some more
    → transfer_sync k s srb size net ≡ some (deallocate_srb (notify srb s.ep (pos e) b more net1))
transfer_sync_ends k s srb net net1 size more b e run answered = simp (run, answered) refl

-- `tcp_send_recv_sync` with as many calls that move a byte at least, or fail, as the buffer has
-- bytes, and no call that moves none: it returns, having told the callback once and freed the `srb_t`
-- once. Every call moved a part from the beginning of the buffer on, and the callback gets the sum
-- of their lengths.
pub tcp_send_recv_sync-FromStart :
    {E : Type 0} (k : Kernel) (srb : Srb) (net : Net E) (skt size more : ℕ)
    → (side k.op srb).skt ≡ some skt
    → has_type EndpointType.tcp (side k.op srb) ≡ true
    → srb.buffer ≡ some size
    → k.pending ≡ some more
    → IsLively k.oper
    → size ≤ length k.oper
    → (net' : Net E) × (err : ℕ) × (ws : List Window) × (tcp_send_recv_sync k srb net ≡ some net')
      × (net'.windows ≡ net.windows ++ ws)
      × AllAt 0 ws
      × (net'.notices ≡ (notify srb (side k.op srb).ep (pos err) (total ws) more net).notices)
      × (net'.freed ≡ net.freed + 1)
tcp_send_recv_sync-FromStart {E = E} k srb net skt size more open_ tcp known answered lively
      enough =
    let srb1 = prepare Name.null 0 size srb in
    let s = side k.op srb in
    let (b, e, net1, ws, run, m) =
      sync_loop-Moved size srb1 k.oper 0 k.errno net lively (omega arith) in
    let sum : b ≡ total ws = omega (arith, m.count) in
    (
      deallocate_srb (notify srb1 s.ep (pos e) b more net1),
      e,
      ws,
      tcp_send_recv_sync_runs k srb net skt size open_ tcp known
          ∙ transfer_sync_ends k s srb1 net net1 size more b e run answered,
      m.windows,
      m.starts,
      λ i. (notify srb s.ep (pos e) (sum i) more (record net { notices = m.notices i })).notices,
      ap (λ n. n + 1) m.freed,
    )

-- The sum of the parts that calls moved.
abbrev pub sum : List ℕ → ℕ
sum [] = 0
sum (n ∷ ns) = n + sum ns

-- Calls that move parts of the buffer, then `ends` calls that move nothing, and what comes behind.
abbrev pub stream : (parts : List ℕ) → (ends : ℕ) → List Result → List Result
stream parts ends rest =
    map (λ n. Result.moved n) parts ++ (replicate ends (Result.moved 0) ++ rest)

-- The loop goes on behind them, whatever comes.
sync_loop-stream :
    {E : Type 0} (size : ℕ) (srb : Srb) (parts : List ℕ) (ends bytes_op errno : ℕ)
    (rest : List Result) (net : Net E)
    → bytes_op + sum parts < size
    → (errno' : ℕ) × (net' : Net E) × (sync_loop size
          (stream parts ends rest)
          bytes_op
          errno
          srb
          net
        ≡ sync_loop size rest (bytes_op + sum parts) errno' srb net')
unfolding sync_loop
sync_loop-stream size srb [] zero bytes_op errno rest net short =
    (errno, net, ap (λ b. sync_loop size rest b errno srb net) (omega arith))
sync_loop-stream size srb [] (suc ends) bytes_op errno rest net short =
    let more : ltb bytes_op size ≡ true = ground (arith, short) in
    let (errno', net', goes) =
      sync_loop-stream size srb [] ends (bytes_op + 0) 0 rest (move srb 0 net) (omega arith) in
    let same : bytes_op + 0 + 0 ≡ bytes_op + 0 = omega arith in
    (errno', net', rw more (goes ∙ ap (λ b. sync_loop size rest b errno' srb net') same))
sync_loop-stream size srb (n ∷ parts) ends bytes_op errno rest net short =
    let more : ltb bytes_op size ≡ true = ground (arith, short) in
    let (errno', net', goes) =
      sync_loop-stream size srb parts ends (bytes_op + n) 0 rest (move srb n net) (omega arith) in
    let same : bytes_op + n + sum parts ≡ bytes_op + (n + sum parts) = omega arith in
    (errno', net', rw more (goes ∙ ap (λ b. sync_loop size rest b errno' srb net') same))

-- `tcp_send_recv_sync` where the calls have moved less than the buffer has bytes, and the next ones
-- move nothing, as `recvmsg` does at the end of a stream: however many they are, the results given do
-- not let it end. It does end where a call fails behind them.
pub tcp_send_recv_sync-AtEnd :
    {E : Type 0} (k : Kernel) (srb : Srb) (net : Net E) (skt size more : ℕ) (parts : List ℕ)
    (ends e : ℕ)
    → (side k.op srb).skt ≡ some skt
    → has_type EndpointType.tcp (side k.op srb) ≡ true
    → srb.buffer ≡ some size
    → k.pending ≡ some more
    → sum parts < size
    → (tcp_send_recv_sync (record k { oper = stream parts ends [] }) srb net ≡ none)
      × ((net' : Net E) × (tcp_send_recv_sync
              (record k { oper = stream parts ends (Result.failed e ∷ []) })
              srb
              net
            ≡ some net'))
unfolding sync_loop
tcp_send_recv_sync-AtEnd k srb net skt size more parts ends e open_ tcp known answered short =
    let srb1 = prepare Name.null 0 size srb in
    let s = side k.op srb in
    let unmoved : ltb (0 + sum parts) size ≡ true = ground (arith, short) in
    let (e1, net1, goes) = sync_loop-stream size srb1 parts ends 0 k.errno [] net (omega arith) in
    let (e2, net2, goes') =
      sync_loop-stream size srb1 parts ends 0 k.errno (Result.failed e ∷ []) net (omega arith) in
    (
      tcp_send_recv_sync_runs (record k { oper = stream parts ends [] }) srb net skt size open_ tcp
            known
          ∙ simp goes (rw unmoved refl),
      (
        deallocate_srb (notify srb1 s.ep (pos e) (0 + sum parts) more net2),
        tcp_send_recv_sync_runs (record k { oper = stream parts ends (Result.failed e ∷ []) }) srb
              net skt size open_ tcp known
            ∙ transfer_sync_ends (record k { oper = stream parts ends (Result.failed e ∷ []) }) s
                srb1 net net2 size more (0 + sum parts) e (goes' ∙ rw unmoved refl) answered,
      ),
    )
