-- ===== src/IoService/Validity.antt =====
-- Every operation of the service keeps the job table well formed.
use chats.Prelude.{
  ℕ, ◌≢◌, Bool, not, ◌&&◌, Option, none, some, inl, inr, List, [], ◌∷◌, arith, ◌==◌, Bool-cases,
}
use chats.IoService.{
  Epoll, IoService, Call, Wakeup, interrupted, event, io_service_stop, fill_slot,
  io_service_post_job, io_service_remove_job, start, handle_notification, release, serve, dispatch,
  round, run_loop, io_service_run, Request, post, remove, stop, requests, Wait, call_of,
}
use chats.IoService.Elements.{Op, Job, Element, job_of, find_fd, install, clear, ensure_fd}
use chats.IoService.Lookup.{clear-fd}
use chats.IoService.Invariant.{
  IsValid, install-IsFlagged, install-fd, clear-IsFlagged, Unique-update_fd, Flagged-update_fd,
  Unique-ensure_fd, Flagged-ensure_fd, Unique-remove_fd, Flagged-remove_fd, Unique-remove_job_loop,
  Flagged-remove_job_loop, Unique-sweep, Flagged-sweep,
}

module _ {E : Type 0} where
  stop-IsValid : (s : IoService E) (wait : Bool) → IsValid s → IsValid (io_service_stop s wait)
  unfolding io_service_stop
  stop-IsValid s wait v = record { unique = v.unique; flagged = v.flagged }

  fill_slot-IsValid :
      (fd : ℕ) (op : Op) (j : Job) (lte : Option Element) (s : IoService E)
      → j.job ≢ 0
      → IsValid s
      → IsValid (fill_slot fd op j lte s)
  unfolding fill_slot
  fill_slot-IsValid fd op j none s ne v = v
  fill_slot-IsValid fd op j (some lte) s ne v = ground (
    arith,
    Unique-update_fd fd (install op j) s.lookup_table (install-fd op j),
    Flagged-update_fd fd (install op j) s.lookup_table (λ e. install-IsFlagged op j e ne),
  )

  post_job-IsValid :
      (s : IoService E) (fd : ℕ) (op : Op) (oneshot : Bool) (job ctx : ℕ)
      → IsValid s
      → IsValid (io_service_post_job s fd op oneshot job ctx)
  unfolding io_service_post_job
  post_job-IsValid s fd op oneshot job ctx v = elim (Bool-cases (s.allow_new && not (job == 0))) [
    | inl accepts ↦
        let t = ensure_fd fd s.lookup_table in
        let j : Job = record { job = job; ctx = ctx; oneshot = oneshot } in
        let ready : IsValid {E = E} (record s { lookup_table = t }) = record {
          unique = Unique-ensure_fd fd s.lookup_table v.unique;
          flagged = Flagged-ensure_fd fd s.lookup_table v.flagged;
        } in
        rw accepts (
          fill_slot-IsValid fd op j (find_fd fd t) (record s { lookup_table = t }) (ground arith)
            ready)
    | inr shut ↦ rw shut v
  ]

  remove_job-IsValid :
      (s : IoService E) (fd : ℕ) (op : Op) (job ctx : ℕ)
      → IsValid s
      → IsValid (io_service_remove_job s fd op job ctx)
  unfolding io_service_remove_job
  remove_job-IsValid s fd op job ctx v = ground (
    arith,
    Unique-remove_job_loop fd op job ctx s.lookup_table,
    Flagged-remove_job_loop fd op job ctx s.lookup_table,
  )

module _ {E : Type 0} where
  pub requests-IsValid : (rs : List Request) (s : IoService E) → IsValid s → IsValid (requests rs s)
  unfolding requests
  requests-IsValid [] s v = v
  requests-IsValid (post fd op oneshot job ctx ∷ rs) s v =
      requests-IsValid rs (io_service_post_job s fd op oneshot job ctx)
        (post_job-IsValid s fd op oneshot job ctx v)
  requests-IsValid (remove fd op job ctx ∷ rs) s v =
      requests-IsValid rs (io_service_remove_job s fd op job ctx)
        (remove_job-IsValid s fd op job ctx v)
  requests-IsValid (stop wait ∷ rs) s v =
      requests-IsValid rs (io_service_stop s wait) (stop-IsValid s wait v)

module _ (ep : Epoll) where
  start-IsValid : (s : IoService ep.Instance) → IsValid s → IsValid (start ep s)
  unfolding start
  start-IsValid s v = record { unique = v.unique; flagged = v.flagged }

  handle_notification-IsValid :
      (s : IoService ep.Instance) → IsValid s → IsValid (handle_notification ep s)
  unfolding handle_notification
  handle_notification-IsValid s v = record {
    unique = Unique-sweep ep s.lookup_table s.epoll v.unique;
    flagged = Flagged-sweep ep s.lookup_table s.epoll v.flagged;
  }

  pub release-IsValid :
      (op : Op) (lte : Element) (s : IoService ep.Instance)
      → IsValid s
      → IsValid (release ep op lte s)
  unfolding release
  release-IsValid op lte s v = ground (
    arith,
    Unique-remove_fd lte.fd s.lookup_table,
    Flagged-remove_fd lte.fd s.lookup_table,
    Unique-update_fd lte.fd (clear op) s.lookup_table (clear-fd op),
    Flagged-update_fd lte.fd (clear op) s.lookup_table (clear-IsFlagged op),
  )

  -- While a job runs, it and the other threads make requests of their own.
  module _ (asks : Call → IoService ep.Instance → List Request) where
    serve-IsValid :
        (op : Op) (lte : Option Element) (s : IoService ep.Instance)
        → IsValid s
        → IsValid (serve ep asks op lte s)
    unfolding serve
    serve-IsValid op none s v = v
    serve-IsValid op (some lte) s v = elim (Bool-cases ((job_of op lte).job == 0)) [
      | inl free ↦ rw free v
      | inr set ↦ rw set (
          requests-IsValid (asks (call_of op lte) (release ep op lte s)) (release ep op lte s)
            (release-IsValid op lte s v))
    ]

    dispatch-IsValid :
        (fd events : ℕ) (op : Op) (s : IoService ep.Instance)
        → IsValid s
        → IsValid (dispatch ep asks fd events op s)
    unfolding dispatch
    dispatch-IsValid fd events op s v =
        ground (arith, serve-IsValid op (find_fd fd s.lookup_table) s)

    round-IsValid :
        (w : Wakeup) (s : IoService ep.Instance) → IsValid s → IsValid (round ep asks w s)
    unfolding round
    round-IsValid interrupted s v = v
    round-IsValid (event fd events) s v = elim (Bool-cases (fd == s.event_fd)) [
      | inl own ↦ rw own (handle_notification-IsValid s v)
      | inr other ↦
          rw other (dispatch-IsValid fd events Op.write _ (dispatch-IsValid fd events Op.read s v))
    ]

    run_loop-IsValid :
        (ws : List Wait) (s : IoService ep.Instance) → IsValid s → IsValid (run_loop ep asks ws s)
    unfolding run_loop
    run_loop-IsValid [] s v = v
    run_loop-IsValid (w ∷ ws) s v =
        let s' = requests w.meanwhile s in
        let rest =
          run_loop-IsValid ws (round ep asks w.wakeup s')
            (round-IsValid w.wakeup s' (requests-IsValid w.meanwhile s v)) in
        ground (arith, rest)

    -- `io_service_run` keeps the job table well formed, whatever wakes it and whatever its jobs and
    -- other threads ask of the service while a job runs or the loop waits: each descriptor has at
    -- most one element, and that element waits for exactly the events that it has jobs for.
    pub io_service_run-IsValid :
        (ws : List Wait) (s : IoService ep.Instance)
        → IsValid s
        → IsValid (io_service_run ep asks ws s)
    unfolding io_service_run
    io_service_run-IsValid ws s v = run_loop-IsValid ws (start ep s) (start-IsValid s v)
