-- ===== src/IoService/Lookup.antt =====
-- What the operations on the lookup table do to the element of each descriptor.
use mathlib.Core.Option
use chats.Prelude.{
  ℕ, ◌≡◌, ◌≢◌, refl, Option, none, some, inl, inr, [], ◌∷◌, ◌++◌, arith, ◌==◌, Bool-cases,
  if◌then◌else◌, ◌>>=◌,
}
use chats.IoService.Elements.{
  Op, Element, Table, new_element, find_fd, update_fd, remove_fd, clear, ensure_fd, holds,
  remove_job_loop,
}
use chats.IoService.{Epoll, sweep, rewatch}

-- No descriptor has two elements.
abbrev pub Unique : Table → Type 0
Unique [] = Unit
Unique (e ∷ t) = (find_fd e.fd t ≡ none) × Unique t

pub find_fd-fd : (k : ℕ) (t : Table) (e : Element) → find_fd k t ≡ some e → e.fd ≡ k
unfolding find_fd
find_fd-fd k [] e h = cc
find_fd-fd k (x ∷ t) e h = ground (arith, find_fd-fd k t e)

pub find_fd-update_fd :
    (k fd : ℕ) (f : Element → Element) (t : Table)
    → ((e : Element) → (f e).fd ≡ e.fd)
    → find_fd k (update_fd fd f t) ≡ (if fd == k then Option.map f (find_fd k t) else find_fd k t)
unfolding find_fd update_fd
find_fd-update_fd k fd f [] same = ground arith
find_fd-update_fd k fd f (e ∷ t) same = ground (arith, find_fd-update_fd k fd f t same, same e)

pub find_fd-append :
    (k : ℕ) (t u : Table)
    → find_fd k (t ++ u) ≡ elim (find_fd k t) [ none ↦ find_fd k u | some e ↦ some e ]
unfolding find_fd
find_fd-append k [] u = refl
find_fd-append k (e ∷ t) u = ground (arith, find_fd-append k t u)

pub find_fd-ensure_fd :
    (k fd : ℕ) (t : Table)
    → find_fd k (ensure_fd fd t) ≡ elim (find_fd k t) [
      | none ↦ if fd == k then some (new_element fd) else none
      | some e ↦ some e
    ]
unfolding ensure_fd find_fd
find_fd-ensure_fd k fd t = ground (arith, find_fd-append k t (new_element fd ∷ []))

pub find_fd-remove_fd :
    (k fd : ℕ) (t : Table)
    → Unique t
    → find_fd k (remove_fd fd t) ≡ (if fd == k then none else find_fd k t)
unfolding find_fd remove_fd
find_fd-remove_fd k fd [] u = ground arith
find_fd-remove_fd k fd (e ∷ t) u = ground (arith, find_fd-remove_fd k fd t u.1)

-- What `io_service_remove_job` does to the element that it ends at.
abbrev pub remove_from : (fd : ℕ) → Op → (job ctx : ℕ) → Element → Element
remove_from fd op job ctx e = if holds e fd op job ctx then clear op e else e

remove_from_other :
    (k fd : ℕ) (op : Op) (job ctx : ℕ) (t : Table)
    → fd ≢ k
    → Option.map (remove_from fd op job ctx) (find_fd k t) ≡ find_fd k t
unfolding find_fd
remove_from_other k fd op job ctx [] ne = refl
remove_from_other k fd op job ctx (e ∷ t) ne =
    ground (arith, remove_from_other k fd op job ctx t ne)

pub clear-fd : (op : Op) (e : Element) → (clear op e).fd ≡ e.fd
unfolding clear
clear-fd Op.read e = refl
clear-fd Op.write e = refl

pub find_fd-remove_job_loop :
    (k fd : ℕ) (op : Op) (job ctx : ℕ) (t : Table)
    → find_fd k (remove_job_loop fd op job ctx t).0
      ≡ Option.map (remove_from fd op job ctx) (find_fd k t)
unfolding find_fd remove_job_loop
find_fd-remove_job_loop k fd op job ctx [] = refl
find_fd-remove_job_loop k fd op job ctx (e ∷ t) = elim (Bool-cases (holds e fd op job ctx)) [
  | inl hit ↦ rw hit (ground (arith, clear-fd op e, remove_from_other k fd op job ctx t))
  | inr miss ↦ rw miss (ground (arith, find_fd-remove_job_loop k fd op job ctx t))
]

-- The element of a descriptor after the sweep: it is kept if it has an event.
abbrev pub keep_busy : Element → Option Element
keep_busy e = if e.events == 0 then none else some e

module _ (ep : Epoll) where
  pub find_fd-sweep :
      (k : ℕ) (t : Table) (i : ep.Instance)
      → Unique t
      → find_fd k (sweep ep t i).0 ≡ (find_fd k t >>= keep_busy)
  unfolding find_fd sweep
  find_fd-sweep k [] i u = refl
  find_fd-sweep k (e ∷ t) i u = elim (Bool-cases (e.events == 0)) [
    | inl idle ↦ rw idle (ground (arith, find_fd-sweep k t (ep.ctl_del i e.fd) u.1))
    | inr busy ↦ rw busy (ground (arith, find_fd-sweep k t (rewatch ep i e.fd e.events) u.1))
  ]
