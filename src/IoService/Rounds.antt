-- ===== src/IoService/Rounds.antt =====
-- The rounds of `io_service_run` on the registry: a notification changes nothing, and a ready
-- descriptor fires its jobs.
use mathlib.Core.Path.{fun_ext, subst}
use chats.Prelude.{
  ℕ, ◌≡◌, ◌≢◌, refl, ap, sym, ◌∙◌, true, false, ◌&&◌, none, some, inl, inr, List, [], ◌∷◌, arith,
  ◌==◌, Bool-cases, Option-cases, if◌then◌else◌, bit_and,
}
use chats.IoService.{
  Epoll, IoService, Call, handle_notification, release, serve, dispatch, Request, requests,
}
use chats.IoService.Elements.{Op, op_flag, Job, Element, Table, job_of, find_fd, clear}
use chats.IoService.Lookup.{
  find_fd-fd, find_fd-update_fd, find_fd-remove_fd, keep_busy, find_fd-sweep, clear-fd,
}
use chats.IoService.Invariant.{IsValid, Flagged, IsFlagged, clear-IsFlagged}
use chats.IoService.Registry.{
  registry, slot, slot_of, slot-clear, fire, same_op, unless, is_oneshot,
}

pub find-Flagged :
    (k : ℕ) (t : Table) (e : Element) → Flagged t → find_fd k t ≡ some e → IsFlagged e
unfolding find_fd
find-Flagged k [] e h found = cc
find-Flagged k (x ∷ t) e h found = elim (Bool-cases (x.fd == k)) [
  | inl here ↦ let same : x ≡ e = ground arith in subst IsFlagged same h.0
  | inr there ↦ find-Flagged k t e h.1 (ground arith)
]

-- An element with no event has no job.
idle-slot : (o : Op) (e : Element) → IsFlagged e → (e.events == 0) ≡ true → slot o e ≡ none
idle-slot Op.read e h idle = ground arith
idle-slot Op.write e h idle = ground arith

fired-slot :
    (op o : Op) (lte : Element)
    → IsFlagged lte
    → (job_of op lte).job ≢ 0
    → slot_of o (if (job_of op lte).oneshot then keep_busy (clear op lte) else some lte)
      ≡ unless (same_op op o && is_oneshot (slot o lte)) (slot o lte)
fired-slot op o lte h set =
    let cleared = clear-IsFlagged op lte h in
    fired_by op o lte (slot-clear op o lte) (idle-slot o (clear op lte) cleared) set
  where
    fired_by :
        (op o : Op) (lte : Element)
        → slot o (clear op lte) ≡ (if same_op op o then none else slot o lte)
        → (((clear op lte).events == 0) ≡ true → slot o (clear op lte) ≡ none)
        → (job_of op lte).job ≢ 0
        → slot_of o (if (job_of op lte).oneshot then keep_busy (clear op lte) else some lte)
          ≡ unless (same_op op o && is_oneshot (slot o lte)) (slot o lte)
    fired_by Op.read Op.read lte a b set = ground arith
    fired_by Op.read Op.write lte a b set = ground arith
    fired_by Op.write Op.read lte a b set = ground arith
    fired_by Op.write Op.write lte a b set = ground arith

module _ (ep : Epoll) where
  -- The sweep that follows a notification changes no registration.
  pub registry-handle_notification :
      (s : IoService ep.Instance) → IsValid s → registry (handle_notification ep s) ≡ registry s
  unfolding registry handle_notification
  registry-handle_notification s v = fun_ext λ k. fun_ext λ o.
      ap (slot_of o) (find_fd-sweep ep k s.lookup_table s.epoll v.unique)
      ∙ elim (Option-cases (find_fd k s.lookup_table)) [
        | inl gone ↦ rw gone refl
        | inr (e, found) ↦
            rw found
              (ground (arith, idle-slot o e (find-Flagged k s.lookup_table e v.flagged found)))
      ]

  module _ (op : Op) (lte : Element) (s : IoService ep.Instance) (v : IsValid s)
      (found : find_fd lte.fd s.lookup_table ≡ some lte) where
    pub release_other :
        (k : ℕ)
        → lte.fd ≢ k
        → find_fd k (release ep op lte s).lookup_table ≡ find_fd k s.lookup_table
    unfolding release
    release_other k ne = ground (
      arith,
      find_fd-remove_fd k lte.fd s.lookup_table v.unique,
      find_fd-update_fd k lte.fd (clear op) s.lookup_table (clear-fd op),
    )

    pub released :
        find_fd lte.fd (release ep op lte s).lookup_table
        ≡ (if (job_of op lte).oneshot then keep_busy (clear op lte) else some lte)
    unfolding release
    released = ground (
      arith,
      find_fd-remove_fd lte.fd lte.fd s.lookup_table v.unique,
      find_fd-update_fd lte.fd lte.fd (clear op) s.lookup_table (clear-fd op),
    )

    -- Before a job is called its registration is withdrawn if it is for one call, and no other
    -- registration changes, though the element may leave the table.
    pub registry-release :
        (job_of op lte).job ≢ 0 → registry (release ep op lte s) ≡ fire lte.fd op (registry s)
    unfolding registry
    registry-release set = fun_ext λ k. fun_ext λ o. elim (Bool-cases (lte.fd == k)) [
      | inl here ↦
          let same : lte.fd ≡ k = ground arith in
          let base =
            ap (slot_of o) released
            ∙ fired-slot op o lte (find-Flagged lte.fd s.lookup_table lte v.flagged found) set in
          subst (λ k. registry (release ep op lte s) k o ≡ fire lte.fd op (registry s) k o) same
            (base ∙ rw found (ground arith))
      | inr there ↦ rw there (ap (slot_of o) (release_other k (ground arith)))
    ]

  -- A round over one operation, in terms of the registrations before it. `s'` is the service when the
  -- job starts.
  pub record Dispatched (asks : Call → IoService ep.Instance → List Request) (fd : ℕ) (op : Op)
      (s : IoService ep.Instance) (r : IoService ep.Instance) : Type 0 where
    pub idle : registry s fd op ≡ none → r ≡ s
    pub ready :
        (j : Job)
        → registry s fd op ≡ some j
        → (s' : IoService ep.Instance) × (registry s' ≡ fire fd op (registry s))
          × (s'.running ≡ s.running)
          × (s'.allow_new ≡ s.allow_new)
          × (s'.event_count ≡ s.event_count)
          × (r ≡ requests (asks (record { job = j.job; fd = fd; op = op; ctx = j.ctx }) s') s')

  pub release-flags :
      (op : Op) (lte : Element) (s : IoService ep.Instance)
      → ((release ep op lte s).running ≡ s.running)
        × ((release ep op lte s).allow_new ≡ s.allow_new)
        × ((release ep op lte s).event_count ≡ s.event_count)
        × ((release ep op lte s).event_fd ≡ s.event_fd)
  unfolding release
  release-flags op lte s = ground arith

  module _ (asks : Call → IoService ep.Instance → List Request) where
    serve-Dispatched :
        (op : Op) (lte : Element) (s : IoService ep.Instance)
        → IsValid s
        → find_fd lte.fd s.lookup_table ≡ some lte
        → Dispatched asks lte.fd op s (serve ep asks op (some lte) s)
    unfolding registry serve
    serve-Dispatched op lte s v found = record {
      idle = λ e. ground arith;
      ready = λ j e.
          let job_set : (job_of op lte).job ≢ 0 = ground arith in
          let job_test : ((job_of op lte).job == 0) ≡ false = ground arith in
          let s' = release ep op lte s in
          let flags = release-flags op lte s in
          let same : job_of op lte ≡ j = ground arith in
          (
            s',
            registry-release op lte s v found job_set,
            flags.0,
            flags.1,
            flags.2,
            rw job_test (
                ap
                  (λ (x : Job).
                    requests (asks (record { job = x.job; fd = lte.fd; op = op; ctx = x.ctx }) s')
                      s')
                  same),
          );
    }

    -- `io_service_run` at a ready descriptor, for each operation whose event is set: it calls the job
    -- that is registered for the descriptor and the operation, with its context, and does nothing if
    -- there is none. The registration is withdrawn first if it is for one call; no other registration,
    -- no flag and no notification changes before the job runs.
    pub dispatch-Dispatched :
        (fd events : ℕ) (op : Op) (s : IoService ep.Instance)
        → IsValid s
        → bit_and events (op_flag op) ≢ 0
        → Dispatched asks fd op s (dispatch ep asks fd events op s)
    unfolding registry dispatch serve
    dispatch-Dispatched fd events op s v set =
        let test : (bit_and events (op_flag op) == 0) ≡ false = ground arith in
        elim (Option-cases (find_fd fd s.lookup_table)) [
          | inl gone ↦ rw (test, gone) (record { idle = λ e. refl; ready = λ j e. cc })
          | inr (lte, found) ↦
              let same = find_fd-fd fd s.lookup_table lte found in
              rw (test, found)
                (subst (λ k. Dispatched asks k op s (serve ep asks op (some lte) s)) same
                  (serve-Dispatched op lte s v
                    (subst (λ k. find_fd k s.lookup_table ≡ some lte) (sym same) found)))
        ]
