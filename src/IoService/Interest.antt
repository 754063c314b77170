-- ===== src/IoService/Interest.antt =====
-- The kernel's epoll instance against the job table: after a notification it watches exactly the
-- registered descriptors. How `epoll_ctl` behaves is taken from its manual page.
use chats.Prelude.{
  ℕ, ◌≡◌, ◌≢◌, refl, ap, sym, ◌∙◌, Bool, true, false, Option, none, some, inl, inr, [], ◌∷◌, arith,
  ◌==◌, Bool-cases, if◌then◌else◌,
}
use chats.IoService.{Epoll, IoService, sweep, rewatch, handle_notification}
use chats.IoService.Elements.{Op, Job, Element, Table, find_fd}
use chats.IoService.Lookup.{Unique}
use chats.IoService.Invariant.{IsValid, IsFlagged}
use chats.IoService.Registry.{Registry, registry, slot_of}
use chats.IoService.Rounds.{find-Flagged, registry-handle_notification}

abbrev pub is_none : Option ℕ → Bool
is_none none = true
is_none (some _) = false

-- `EPOLL_CTL_ADD` on a watched descriptor fails with `EEXIST`, `EPOLL_CTL_MOD` on one that is not
-- fails with `ENOENT`, and a failure changes nothing.
pub record IsEpoll (ep : Epoll) : Type 0 where
  pub interest-add :
      (i : ep.Instance) (fd events k : ℕ)
      → ep.interest (ep.ctl_add i fd events) k ≡ (
          if fd == k
          then elim (ep.interest i k) [ none ↦ some events | some old ↦ some old ]
          else ep.interest i k)
  pub interest-mod :
      (i : ep.Instance) (fd events k : ℕ)
      → ep.interest (ep.ctl_mod i fd events).0 k ≡ (
          if fd == k
          then elim (ep.interest i k) [ none ↦ none | some old ↦ some events ]
          else ep.interest i k)
  pub missing-mod :
      (i : ep.Instance) (fd events : ℕ) → (ep.ctl_mod i fd events).1 ≡ is_none (ep.interest i fd)
  pub interest-del :
      (i : ep.Instance) (fd k : ℕ)
      → ep.interest (ep.ctl_del i fd) k ≡ (if fd == k then none else ep.interest i k)

-- The events to watch for, by the jobs of the two operations.
abbrev pub wanted : (read_job write_job : Option Job) → Option ℕ
wanted none none = none
wanted (some _) none = some 0x001
wanted none (some _) = some 0x004
wanted (some _) (some _) = some 0x005

abbrev pub swept : Option ℕ → Option Element → Option ℕ
swept before none = before
swept before (some e) = if e.events == 0 then none else some e.events

module _ (ep : Epoll) (laws : IsEpoll ep) where
  interest-rewatch :
      (i : ep.Instance) (fd events k : ℕ)
      → ep.interest (rewatch ep i fd events) k ≡ (if fd == k then some events else ep.interest i k)
  unfolding rewatch
  interest-rewatch i fd events k = ground (
    arith,
    laws.missing-mod i fd events,
    laws.interest-mod i fd events k,
    laws.interest-add (ep.ctl_mod i fd events).0 fd events k,
  )

  interest-sweep :
      (t : Table) (i : ep.Instance) (k : ℕ)
      → Unique t
      → ep.interest (sweep ep t i).1 k ≡ swept (ep.interest i k) (find_fd k t)
  unfolding sweep find_fd
  interest-sweep [] i k u = refl
  interest-sweep (e ∷ t) i k u = elim (Bool-cases (e.events == 0)) [
    | inl idle ↦
        rw idle
          (ground (arith, interest-sweep t (ep.ctl_del i e.fd) k u.1, laws.interest-del i e.fd k))
    | inr busy ↦
        let i' = rewatch ep i e.fd e.events in
        rw busy (ground (arith, interest-sweep t i' k u.1, interest-rewatch i e.fd e.events k))
  ]

  -- No descriptor is watched that has no element, but the service's own.
  abbrev pub IsTidy : IoService ep.Instance → Type 0
  IsTidy s =
      (k : ℕ) → k ≢ s.event_fd → find_fd k s.lookup_table ≡ none → ep.interest s.epoll k ≡ none

  wanted-swept :
      (before : Option ℕ) (found : Option Element)
      → (found ≡ none → before ≡ none)
      → ((e : Element) → found ≡ some e → IsFlagged e)
      → swept before found ≡ wanted (slot_of Op.read found) (slot_of Op.write found)
  wanted-swept before none b f = b refl
  wanted-swept before (some e) b f = let h = f e refl in ground (arith, h)

  interest_after :
      (s : IoService ep.Instance)
      → IsValid s
      → (k : ℕ)
      → ep.interest (handle_notification ep s).epoll k
        ≡ swept (ep.interest s.epoll k) (find_fd k s.lookup_table)
  unfolding handle_notification
  interest_after s v k = interest-sweep s.lookup_table s.epoll k v.unique

  -- After the loop has handled a notification the kernel watches every descriptor for exactly the
  -- operations for which a job is registered, and no other descriptor but the service's own.
  pub interest-handle_notification :
      (s : IoService ep.Instance)
      → IsValid s
      → IsTidy s
      → (k : ℕ) → k ≢ s.event_fd
      → ep.interest (handle_notification ep s).epoll k
        ≡ wanted
            (registry (handle_notification ep s) k Op.read)
            (registry (handle_notification ep s) k Op.write)
  unfolding registry
  interest-handle_notification s v tidy k ne =
      interest_after s v k
      ∙ wanted-swept (ep.interest s.epoll k) (find_fd k s.lookup_table) (tidy k ne)
          (λ e. find-Flagged k s.lookup_table e v.flagged)
      ∙ sym (
          ap (λ (r : Registry). wanted (r k Op.read) (r k Op.write))
            (registry-handle_notification ep s v))
