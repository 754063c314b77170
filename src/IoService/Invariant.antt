-- ===== src/IoService/Invariant.antt =====
-- The job table is well formed, and every operation keeps it so.
use chats.Prelude.{
  ℕ, ◌+◌, ◌-◌, ◌^◌, ◌≡◌, ◌≢◌, refl, Bool, true, false, none, inl, inr, [], ◌∷◌, ◌++◌, arith, ◌==◌,
  Bool-cases, if◌then◌else◌, bit_or, bit_and,
}
use chats.IoService.{Epoll, IoService, sweep, rewatch}
use chats.IoService.Elements.{
  Op, Job, Element, Table, new_element, find_fd, update_fd, remove_fd, install, clear, ensure_fd,
  holds, remove_job_loop,
}
use chats.IoService.Lookup.{
  Unique, find_fd-update_fd, find_fd-append, find_fd-remove_fd, find_fd-remove_job_loop,
  find_fd-sweep, clear-fd,
}

-- The event bits that two slots call for, `true` standing for an empty one.
abbrev pub bits : (read_free write_free : Bool) → ℕ
bits r w = (if r then 0 else 1) + (if w then 0 else 4)

-- An element waits for exactly the events that it has jobs for.
abbrev pub IsFlagged : Element → Type 0
IsFlagged e = e.events ≡ bits (e.read_job.job == 0) (e.write_job.job == 0)

abbrev pub Flagged : Table → Type 0
Flagged [] = Unit
Flagged (e ∷ t) = IsFlagged e × Flagged t

pub record IsValid {E : Type 0} (s : IoService E) : Type 0 where
  pub unique : Unique s.lookup_table
  pub flagged : Flagged s.lookup_table

or_read : (r w : Bool) → bit_or (bits r w) 1 ≡ bits false w
or_read true true = refl
or_read true false = refl
or_read false true = refl
or_read false false = refl

or_write : (r w : Bool) → bit_or (bits r w) 4 ≡ bits r false
or_write true true = refl
or_write true false = refl
or_write false true = refl
or_write false false = refl

and_read : (r w : Bool) → bit_and (bits r w) (2 ^ 32 - 1 - 1) ≡ bits true w
and_read true true = refl
and_read true false = refl
and_read false true = refl
and_read false false = refl

and_write : (r w : Bool) → bit_and (bits r w) (2 ^ 32 - 1 - 4) ≡ bits r true
and_write true true = refl
and_write true false = refl
and_write false true = refl
and_write false false = refl

pub install-IsFlagged :
    (op : Op) (j : Job) (e : Element) → j.job ≢ 0 → IsFlagged e → IsFlagged (install op j e)
unfolding install
install-IsFlagged Op.read j e ne h =
    let set : (j.job == 0) ≡ false = ground arith in
    rw (h, set) (or_read (e.read_job.job == 0) (e.write_job.job == 0))
install-IsFlagged Op.write j e ne h =
    let set : (j.job == 0) ≡ false = ground arith in
    rw (h, set) (or_write (e.read_job.job == 0) (e.write_job.job == 0))

pub clear-IsFlagged : (op : Op) (e : Element) → IsFlagged e → IsFlagged (clear op e)
unfolding clear
clear-IsFlagged Op.read e h = rw h (and_read (e.read_job.job == 0) (e.write_job.job == 0))
clear-IsFlagged Op.write e h = rw h (and_write (e.read_job.job == 0) (e.write_job.job == 0))

pub install-fd : (op : Op) (j : Job) (e : Element) → (install op j e).fd ≡ e.fd
unfolding install
install-fd Op.read j e = refl
install-fd Op.write j e = refl

-- The operations on the table.
pub Unique-update_fd :
    (fd : ℕ) (f : Element → Element) (t : Table)
    → ((e : Element) → (f e).fd ≡ e.fd)
    → Unique t
    → Unique (update_fd fd f t)
unfolding update_fd
Unique-update_fd fd f [] same u = tt
Unique-update_fd fd f (e ∷ t) same u =
    ground (arith, same e, Unique-update_fd fd f t same, find_fd-update_fd e.fd fd f t same)

pub Flagged-update_fd :
    (fd : ℕ) (f : Element → Element) (t : Table)
    → ((e : Element) → IsFlagged e → IsFlagged (f e))
    → Flagged t
    → Flagged (update_fd fd f t)
unfolding update_fd
Flagged-update_fd fd f [] keep h = tt
Flagged-update_fd fd f (e ∷ t) keep h = elim (Bool-cases (e.fd == fd)) [
  | inl here ↦ rw here (keep e h.0, h.1)
  | inr there ↦ rw there (h.0, Flagged-update_fd fd f t keep h.1)
]

Unique-append :
    (t : Table) (fd : ℕ) → Unique t → find_fd fd t ≡ none → Unique (t ++ (new_element fd ∷ []))
unfolding find_fd
Unique-append [] fd u absent = (refl, tt)
Unique-append (e ∷ t) fd u absent =
    ground (arith, Unique-append t fd u.1, find_fd-append e.fd t (new_element fd ∷ []))

Flagged-append : (t : Table) (fd : ℕ) → Flagged t → Flagged (t ++ (new_element fd ∷ []))
Flagged-append [] fd h = (refl, tt)
Flagged-append (e ∷ t) fd h = (h.0, Flagged-append t fd h.1)

pub Unique-ensure_fd : (fd : ℕ) (t : Table) → Unique t → Unique (ensure_fd fd t)
unfolding ensure_fd
Unique-ensure_fd fd t u = ground (arith, Unique-append t fd u)

pub Flagged-ensure_fd : (fd : ℕ) (t : Table) → Flagged t → Flagged (ensure_fd fd t)
unfolding ensure_fd
Flagged-ensure_fd fd t h = ground (arith, Flagged-append t fd h)

pub Unique-remove_fd : (fd : ℕ) (t : Table) → Unique t → Unique (remove_fd fd t)
unfolding remove_fd
Unique-remove_fd fd [] u = tt
Unique-remove_fd fd (e ∷ t) u =
    ground (arith, Unique-remove_fd fd t u.1, find_fd-remove_fd e.fd fd t u.1)

pub Flagged-remove_fd : (fd : ℕ) (t : Table) → Flagged t → Flagged (remove_fd fd t)
unfolding remove_fd
Flagged-remove_fd fd [] h = tt
Flagged-remove_fd fd (e ∷ t) h = elim (Bool-cases (e.fd == fd)) [
  | inl here ↦ rw here h.1
  | inr there ↦ rw there (h.0, Flagged-remove_fd fd t h.1)
]

pub Unique-remove_job_loop :
    (fd : ℕ) (op : Op) (job ctx : ℕ) (t : Table)
    → Unique t
    → Unique (remove_job_loop fd op job ctx t).0
unfolding remove_job_loop
Unique-remove_job_loop fd op job ctx [] u = tt
Unique-remove_job_loop fd op job ctx (e ∷ t) u = elim (Bool-cases (holds e fd op job ctx)) [
  | inl hit ↦ rw (hit, clear-fd op e) u
  | inr miss ↦ rw miss (
      ground (
        arith,
        find_fd-remove_job_loop e.fd fd op job ctx t,
        Unique-remove_job_loop fd op job ctx t u.1,
      ))
]

pub Flagged-remove_job_loop :
    (fd : ℕ) (op : Op) (job ctx : ℕ) (t : Table)
    → Flagged t
    → Flagged (remove_job_loop fd op job ctx t).0
unfolding remove_job_loop
Flagged-remove_job_loop fd op job ctx [] h = tt
Flagged-remove_job_loop fd op job ctx (e ∷ t) h = elim (Bool-cases (holds e fd op job ctx)) [
  | inl hit ↦ rw hit (clear-IsFlagged op e h.0, h.1)
  | inr miss ↦ rw miss (h.0, Flagged-remove_job_loop fd op job ctx t h.1)
]

pub Unique-sweep : (ep : Epoll) (t : Table) (i : ep.Instance) → Unique t → Unique (sweep ep t i).0
unfolding sweep
Unique-sweep ep [] i u = tt
Unique-sweep ep (e ∷ t) i u = elim (Bool-cases (e.events == 0)) [
  | inl idle ↦ rw idle (Unique-sweep ep t (ep.ctl_del i e.fd) u.1)
  | inr busy ↦
      let i' = rewatch ep i e.fd e.events in
      rw busy (ground (arith, find_fd-sweep ep e.fd t i' u.1, Unique-sweep ep t i' u.1))
]

pub Flagged-sweep :
    (ep : Epoll) (t : Table) (i : ep.Instance) → Flagged t → Flagged (sweep ep t i).0
unfolding sweep
Flagged-sweep ep [] i h = tt
Flagged-sweep ep (e ∷ t) i h = elim (Bool-cases (e.events == 0)) [
  | inl idle ↦ rw idle (Flagged-sweep ep t (ep.ctl_del i e.fd) h.1)
  | inr busy ↦ rw busy (h.0, Flagged-sweep ep t (rewatch ep i e.fd e.events) h.1)
]
