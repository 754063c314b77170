-- ===== src/IoService/Draining.antt =====
-- Stopping with `wait_pending`: when the loop of `io_service_run` is left.
use chats.Prelude.{
  ℕ, ◌+◌, ◌≤◌, ◌≡◌, ◌≢◌, refl, ap, ◌∙◌, false, not, ◌&&◌, Option, none, some, inl, inr, List, [],
  ◌∷◌, arith, ◌==◌, Bool-cases, bit_and,
}
use chats.IoService.{
  Epoll, IoService, Call, Wakeup, Wait, Request, interrupted, event, post, remove, stop, notify_svc,
  io_service_stop, io_service_post_job, io_service_remove_job, fill_slot, request, requests,
  call_of, release, serve, dispatch, round, run_loop,
}
use chats.IoService.Elements.{
  Op, op_flag, Job, Element, Table, job_of, find_fd, ensure_fd, update_fd, install, remove_job_loop,
}
use chats.IoService.Rounds.{release-flags}

-- A wakeup by another descriptor than the service's own.
abbrev pub IsOther : ℕ → Wakeup → Type 0
IsOther fd interrupted = Unit
IsOther fd (event k events) = k ≢ fd

-- What a round without a notification cannot change.
pub record SameFlags {E : Type 0} (s r : IoService E) : Type 0 where
  pub running : r.running ≡ s.running
  pub allow_new : r.allow_new ≡ s.allow_new
  pub event_fd : r.event_fd ≡ s.event_fd

-- Notifications are only added, and without one the flags stay.
pub record Grows {E : Type 0} (s r : IoService E) : Type 0 where
  pub count : s.event_count ≤ r.event_count
  pub event_fd : r.event_fd ≡ s.event_fd
  pub flags : r.event_count ≡ s.event_count → SameFlags s r

module _ {E : Type 0} where
  Grows-refl : (s : IoService E) → Grows s s
  Grows-refl s = record {
    count = omega arith;
    event_fd = refl;
    flags = λ e. record { running = refl; allow_new = refl; event_fd = refl };
  }

  Grows-trans : (s r t : IoService E) → Grows s r → Grows r t → Grows s t
  Grows-trans s r t a b = record {
    count = omega (arith, a.count, b.count);
    event_fd = b.event_fd ∙ a.event_fd;
    flags = λ e.
        let f = a.flags (omega (arith, a.count, b.count, e)) in
        let g = b.flags (omega (arith, a.count, b.count, e)) in
        record {
          running = g.running ∙ f.running;
          allow_new = g.allow_new ∙ f.allow_new;
          event_fd = g.event_fd ∙ f.event_fd;
        };
  }

  -- A notification alone.
  Grows-notified :
      (s r : IoService E) → r.event_count ≡ s.event_count + 1 → r.event_fd ≡ s.event_fd → Grows s r
  Grows-notified s r e fd = record {
    count = omega (arith, e);
    event_fd = fd;
    flags = λ same. absurd (omega (arith, e, same));
  }

  -- A change of the table alone.
  Grows-table : (s r : IoService E) → (t : Table) → r ≡ record s { lookup_table = t } → Grows s r
  Grows-table s r t e = record {
    count = omega (arith, ap (λ (x : IoService E). x.event_count) e);
    event_fd = ap (λ (x : IoService E). x.event_fd) e;
    flags = λ same. record {
      running = ap (λ (x : IoService E). x.running) e;
      allow_new = ap (λ (x : IoService E). x.allow_new) e;
      event_fd = ap (λ (x : IoService E). x.event_fd) e;
    };
  }

  fill_slot-Grows :
      (fd : ℕ) (op : Op) (j : Job) (lte : Option Element) (s : IoService E)
      → Grows s (fill_slot fd op j lte s)
  unfolding fill_slot notify_svc
  fill_slot-Grows fd op j none s = Grows-refl s
  fill_slot-Grows fd op j (some lte) s = elim (Bool-cases ((job_of op lte).job == 0)) [
    | inl free ↦ elim (Bool-cases s.running) [
      | inl runs ↦ Grows-notified s _ (rw (free, runs) refl) (rw (free, runs) refl)
      | inr idle ↦
          Grows-table s _ (update_fd fd (install op j) s.lookup_table) (rw (free, idle) refl)
    ]
    | inr taken ↦ Grows-table s _ s.lookup_table (rw taken refl)
  ]

  request-Grows : (r : Request) (s : IoService E) → Grows s (request r s)
  unfolding request io_service_stop io_service_post_job io_service_remove_job notify_svc
  request-Grows (post fd op oneshot job ctx) s = elim (Bool-cases (s.allow_new && not (job == 0))) [
    | inl taken ↦
        let t = ensure_fd fd s.lookup_table in
        let j : Job = record { job = job; ctx = ctx; oneshot = oneshot } in
        let filled = fill_slot fd op j (find_fd fd t) (record s { lookup_table = t }) in
        let posts : io_service_post_job s fd op oneshot job ctx ≡ filled = rw taken refl in
        rw posts (
          Grows-trans s (record s { lookup_table = t }) filled
            (Grows-table s (record s { lookup_table = t }) t refl)
            (fill_slot-Grows fd op j (find_fd fd t) (record s { lookup_table = t })))
    | inr refused ↦ Grows-table s _ s.lookup_table (rw refused refl)
  ]
  request-Grows (remove fd op job ctx) s =
      let (t, done) = remove_job_loop fd op job ctx s.lookup_table in
      elim (Bool-cases (done && s.running)) [
        | inl notifies ↦ Grows-notified s _ (rw notifies refl) (rw notifies refl)
        | inr silent ↦ Grows-table s _ t (rw silent refl)
      ]
  request-Grows (stop wait_pending) s = Grows-notified s _ refl refl

  requests-Grows : (rs : List Request) (s : IoService E) → Grows s (requests rs s)
  unfolding requests
  requests-Grows [] s = Grows-refl s
  requests-Grows (r ∷ rs) s =
      Grows-trans s (request r s) (requests rs (request r s)) (request-Grows r s)
        (requests-Grows rs (request r s))

module _ (ep : Epoll) (asks : Call → IoService ep.Instance → List Request) where
  release-Grows :
      (op : Op) (lte : Element) (s : IoService ep.Instance) → Grows s (release ep op lte s)
  release-Grows op lte s =
      let (running, allow_new, count, event_fd) = release-flags ep op lte s in
      record {
        count = omega (arith, count);
        event_fd = event_fd;
        flags = λ e. record { running = running; allow_new = allow_new; event_fd = event_fd };
      }

  serve-Grows :
      (op : Op) (lte : Option Element) (s : IoService ep.Instance)
      → Grows s (serve ep asks op lte s)
  unfolding serve
  serve-Grows op none s = Grows-refl s
  serve-Grows op (some lte) s = elim (Bool-cases ((job_of op lte).job == 0)) [
    | inl free ↦ Grows-table s _ s.lookup_table (rw free refl)
    | inr set ↦
        let s' = release ep op lte s in
        let r = requests (asks (call_of op lte) s') s' in
        rw set (
          Grows-trans s s' r (release-Grows op lte s)
            (requests-Grows (asks (call_of op lte) s') s'))
  ]

  dispatch-Grows :
      (fd events : ℕ) (op : Op) (s : IoService ep.Instance)
      → Grows s (dispatch ep asks fd events op s)
  unfolding dispatch
  dispatch-Grows fd events op s = elim (Bool-cases (bit_and events (op_flag op) == 0)) [
    | inl clear ↦ Grows-table s _ s.lookup_table (rw clear refl)
    | inr set ↦ rw set (serve-Grows op (find_fd fd s.lookup_table) s)
  ]

  round-Grows :
      (w : Wakeup) (s : IoService ep.Instance) → IsOther s.event_fd w → Grows s (round ep asks w s)
  unfolding round
  round-Grows interrupted s other = Grows-refl s
  round-Grows (event fd events) s other =
      let test : (fd == s.event_fd) ≡ false = ground arith in
      let s1 = dispatch ep asks fd events Op.read s in
      rw test (
        Grows-trans s s1 (dispatch ep asks fd events Op.write s1)
          (dispatch-Grows fd events Op.read s) (dispatch-Grows fd events Op.write s1))

  -- The state behind a wait and the round that it leads to.
  abbrev pub behind : Wait → IoService ep.Instance → IoService ep.Instance
  behind w s = round ep asks w.wakeup (requests w.meanwhile s)

  -- Along the run, nothing that is asked notifies the service, and its own descriptor does not become
  -- ready.
  abbrev pub Unnotified : List Wait → IoService ep.Instance → Type 0
  Unnotified [] s = Unit
  Unnotified (w ∷ ws) s =
      IsOther s.event_fd w.wakeup
      × ((behind w s).event_count ≡ s.event_count)
      × Unnotified ws (behind w s)

  -- As long as nothing notifies the service, the loop of `io_service_run` is not left, whichever
  -- descriptors become ready, however many jobs run, and whatever they and other threads ask that
  -- does not notify it: its flags stay as they are. So a service that is stopped with `wait_pending`
  -- and has handled that notification waits for ever once its last job has run, unless somebody
  -- notifies it again.
  pub run_loop-SameFlags :
      (ws : List Wait) (s : IoService ep.Instance)
      → Unnotified ws s
      → SameFlags s (run_loop ep asks ws s)
  unfolding run_loop
  run_loop-SameFlags [] s h = record { running = refl; allow_new = refl; event_fd = refl }
  run_loop-SameFlags (w ∷ ws) s h =
      let asked = requests w.meanwhile s in
      let g = requests-Grows w.meanwhile s in
      let r = round-Grows w.wakeup asked (rw (g.event_fd) (h.0)) in
      let a = (Grows-trans s asked (behind w s) g r).flags h.1 in
      let rest = run_loop-SameFlags ws (behind w s) h.2 in
      elim (Bool-cases s.running) [
        | inl runs ↦ simp runs (record {
          running = rest.running ∙ a.running;
          allow_new = rest.allow_new ∙ a.allow_new;
          event_fd = rest.event_fd ∙ a.event_fd;
        })
        | inr left ↦ simp left (record { running = refl; allow_new = refl; event_fd = refl })
      ]
