-- ===== src/Network/Transfer.antt =====
-- The asynchronous transfers of network/network.c, from the first readiness of the socket to the
-- callback.
use mathlib.Core.Path.{subst}
use mathlib.Core.List.{append-nil, append_assoc}
use chats.Prelude.{
  ℕ, ◌+◌, ◌≤◌, ◌≡◌, ◌≢◌, refl, sym, ap, ◌∙◌, ◌⊎◌, inl, inr, Option, none, some, List, [], ◌∷◌, ◌++◌,
  ◌==◌, arith, take, length, ltb, ◌>>=◌, Bool-cases,
}
use chats.Prelude.Int.{ℤ, pos, pos_part}
use chats.IoService.{IoService}
use chats.Network.Stages.{asked, moving, tpl-again, tpl-failed, tpl-more, tpl-done}
use chats.Network.Windows.{Consecutive, gather, gather-Consecutive}
use chats.Network.{
  Srb, Result, Window, Net, remote, notify, move, post, deallocate_srb, tcp_send_recv_async_tpl,
}

-- One call of the job: the service as it is by then, and what the two system calls give.
pub data Step (E : Type 0) : Type 0 where
  ready : (service : IoService E) → (oper : Result) → (pending : ℕ) → Step E

-- What the kernel may answer to requests from `bytes` of `size` on: an error that is not 0, or no
-- more than was asked for.
abbrev pub Answers : {E : Type 0} → (size bytes : ℕ) → List (Step E) → Type 0
Answers size bytes [] = Unit
Answers size bytes (ready service (Result.failed e) pending ∷ steps) =
    (e ≢ 0) × Answers size bytes steps
Answers size bytes (ready service (Result.moved n) pending ∷ steps) =
    (bytes + n ≤ size) × Answers size (bytes + n) steps

module _ {E : Type 0} (tpl stale fd : ℕ) where
  -- The calls of the job, one for each readiness, until it frees the `srb_t`.
  unfoldable pub drive : List (Step E) → Srb → Net E → Option (Option Srb × Net E)
  drive [] srb net = some (some srb, net)
  drive (ready service oper pending ∷ steps) srb net =
      tcp_send_recv_async_tpl tpl stale srb fd oper (some pending)
        (record net { service = service })
      >>= λ r. elim r.0 [ none ↦ some (none, r.1) | some srb' ↦ drive steps srb' r.1 ]

-- How a transfer stands that has reached `b` of `size` bytes: it waits for the socket, or it told the
-- callback once and freed the `srb_t` once, with all bytes moved or an error.
abbrev pub Stands : {E : Type 0} → Srb → (size b : ℕ) → Net E → Option Srb → Net E → Type 0
Stands srb size b net (some srb') net' =
    (srb'.bytes_operated ≡ b) × (net'.notices ≡ net.notices) × (net'.freed ≡ net.freed)
Stands srb size b net none net' =
    (err : ℤ) × (more : ℕ) × (net'.freed ≡ net.freed + 1)
    × (net'.notices ≡ (notify srb (remote srb).ep err b more net).notices)
    × (((err ≡ pos 0) × (b ≡ size)) ⊎ (err ≢ pos 0))

-- The result of a transfer of `size` bytes that had moved `a` of them.
pub record Transferred {E : Type 0} (srb : Srb) (size a : ℕ) (net : Net E) (o : Option Srb)
    (net' : Net E) : Type 0 where
  pub windows : List Window
  pub reached : ℕ
  pub moves : net'.windows ≡ net.windows ++ windows
  pub consecutive : Consecutive a windows reached
  pub bounded : reached ≤ size
  pub stands : Stands srb size reached net o net'

pos_ne_zero : (e : ℕ) → e ≢ 0 → pos e ≢ pos 0
pos_ne_zero e h p = h (ap (λ z. pos_part z) p)

-- A later stage of a transfer, seen from an earlier one.
module _ {E : Type 0} (srb : Srb) (size : ℕ) (net : Net E) (service : IoService E)
    (net' : Net E) where
  waited :
      (o : Option Srb)
      → Transferred
          (asked srb size)
          size
          srb.bytes_operated
          (record net { service = service })
          o
          net'
      → Transferred srb size srb.bytes_operated net o net'
  waited none t = record {
    windows = t.windows;
    reached = t.reached;
    moves = t.moves;
    consecutive = t.consecutive;
    bounded = t.bounded;
    stands = t.stands;
  }
  waited (some srb') t = record {
    windows = t.windows;
    reached = t.reached;
    moves = t.moves;
    consecutive = t.consecutive;
    bounded = t.bounded;
    stands = t.stands;
  }

  grown :
      (n : ℕ) (o : Option Srb)
      → Transferred
          (moving srb size n)
          size
          (srb.bytes_operated + n)
          (record (move (asked srb size) n net) { service = service })
          o
          net'
      → Transferred srb size srb.bytes_operated net o net'
  grown n o t = record {
    windows = record { offset = srb.bytes_operated; count = n } ∷ t.windows;
    reached = t.reached;
    moves = t.moves ∙ append_assoc net.windows _ t.windows;
    consecutive = (refl, t.consecutive);
    bounded = t.bounded;
    stands = same o t.stands;
  }
    where
      same :
          (o : Option Srb)
          → Stands
              (moving srb size n)
              size
              t.reached
              (record (move (asked srb size) n net) { service = service })
              o
              net'
          → Stands srb size t.reached net o net'
      same none h = h
      same (some srb') h = h

module _ {E : Type 0} (tpl stale fd : ℕ) where
  drive-Transferred :
      (steps : List (Step E)) (srb : Srb) (size : ℕ) (net : Net E)
      → srb.buffer ≡ some size
      → srb.bytes_operated ≤ size
      → Answers size srb.bytes_operated steps
      → (o : Option Srb) × (net' : Net E) × (drive tpl stale fd steps srb net ≡ some (o, net'))
        × Transferred srb size srb.bytes_operated net o net'
  unfolding drive
  drive-Transferred [] srb size net known below answers = (
    some srb,
    net,
    refl,
    record {
      windows = [];
      reached = srb.bytes_operated;
      moves = sym (append-nil net.windows);
      consecutive = refl;
      bounded = below;
      stands = (refl, refl, refl);
    },
  )
  drive-Transferred (ready service (Result.failed e) pending ∷ steps) srb size net known below
        answers =
      elim (Bool-cases (e == 11)) [
        | inl again ↦
            let net1 : Net E = post (asked srb size) fd tpl (record net { service = service }) in
            let (o, net', rest, t) =
              drive-Transferred steps (asked srb size) size net1 known below answers.1 in
            (
              o,
              net',
              rw
                  (tpl-again tpl stale fd srb size known pending (record net { service = service })
                    e again)
                  rest,
              waited srb size net net1.service net' o t,
            )
        | inr failed_ ↦ (
          none,
          deallocate_srb (
              notify (asked srb size) (remote srb).ep (pos e) srb.bytes_operated stale
                (record net { service = service })),
          rw
              (tpl-failed tpl stale fd srb size known pending (record net { service = service }) e
                failed_)
              refl,
          record {
            windows = [];
            reached = srb.bytes_operated;
            moves = sym (append-nil net.windows);
            consecutive = refl;
            bounded = below;
            stands = (pos e, stale, refl, refl, inr (pos_ne_zero e answers.0));
          },
        )
      ]
  drive-Transferred (ready service (Result.moved n) pending ∷ steps) srb size net known below
        answers =
      elim (Bool-cases (ltb (srb.bytes_operated + n) size)) [
        | inl more ↦
            let net1 : Net E =
              post (moving srb size n) fd tpl
                (move (asked srb size) n (record net { service = service })) in
            let (o, net', rest, t) =
              drive-Transferred steps (moving srb size n) size net1 known answers.0 answers.1 in
            (
              o,
              net',
              rw
                  (tpl-more tpl stale fd srb size known pending (record net { service = service }) n
                    more)
                  rest,
              grown srb size net net1.service net' n o t,
            )
        | inr done ↦ (
          none,
          deallocate_srb (
              notify (moving srb size n) (remote srb).ep (pos 0) (srb.bytes_operated + n) pending
                (move (asked srb size) n (record net { service = service }))),
          rw
              (tpl-done tpl stale fd srb size known pending (record net { service = service }) n
                done)
              refl,
          record {
            windows = record { offset = srb.bytes_operated; count = n } ∷ [];
            reached = srb.bytes_operated + n;
            moves = refl;
            consecutive = (refl, refl);
            bounded = answers.0;
            stands = (pos 0, pending, refl, refl, inl (refl, ground (arith, done, answers.0)));
          },
        )
      ]

  -- A transfer by `tcp_send_recv_async_tpl` from its start, whenever the socket is ready and whatever
  -- the service is by then, with system calls that move no more than they are asked for: the parts
  -- of the buffer that they moved, in their order, are the beginning of the buffer, each byte once.
  -- Either the transfer waits for the socket, or it has told the callback once, with the number of
  -- bytes moved, and freed its `srb_t` once: after the whole buffer without an error, or with one.
  pub drive-gather :
      (steps : List (Step E)) (srb : Srb) (buffer : List ℕ) (net : Net E)
      → srb.buffer ≡ some (length buffer)
      → srb.bytes_operated ≡ 0
      → net.windows ≡ []
      → Answers (length buffer) 0 steps
      → (o : Option Srb) × (net' : Net E) × (reached : ℕ) × (drive tpl stale fd steps srb net
          ≡ some (o, net'))
        × (gather buffer net'.windows ≡ take reached buffer)
        × (reached ≤ length buffer)
        × Stands srb (length buffer) reached net o net'
  drive-gather steps srb buffer net known fresh empty answers =
      let (o, net', run, t) =
        drive-Transferred steps srb (length buffer) net known (omega (arith, fresh))
          (subst (λ a. Answers (length buffer) a steps) (sym fresh) answers) in
      let from_start = subst (λ a. Consecutive a t.windows t.reached) fresh t.consecutive in
      (
        o,
        net',
        t.reached,
        run,
        ap (gather buffer) (t.moves ∙ ap (λ ws. ws ++ t.windows) empty)
            ∙ gather-Consecutive buffer 0 t.reached t.windows from_start,
        t.bounded,
        t.stands,
      )
