-- ===== src/ThreadPool/Stopping.antt =====
-- thread-pool/thread-pool.c: how the wait of a stop ends.
use mathlib.Core.List.{append-nil}
use chats.Prelude.{
  ℕ, ◌≡◌, refl, sym, ap, ◌∙◌, inl, inr, ◌⊎◌, true, false, Option, none, some, List, [], ◌∷◌, ◌++◌,
  get_elem?, Bool-cases,
}
use chats.ThreadPool.{
  Job, Worker, Stopper, System, Event, is_draining, thread_pool_post_job, worker_round, look_at,
  finish_at, stop_end, happen, happen_all, thread_pool_init, post, look, finish, stop, wake,
  wake_spuriously,
}
use chats.ThreadPool.Draining.{happen_all-IsOrdered, thread_pool_init-IsOrdered, Drained-stop_end}

-- A pool whose stopping thread is behind its wait: `q` is left in the queue, and `begun` were begun.
record Halted (begun q : List Job) (s : System) : Type 0 where
  pub begun_ : s.begun ≡ begun
  pub queue : s.pool.queue ≡ q
  pub run : s.pool.run ≡ false
  pub shut : s.pool.allow_new_jobs ≡ false
  pub joins : s.stopper ≡ Stopper.joining true

look-Halted :
    (i : ℕ) (w : Option Worker) (begun q : List Job) (s : System)
    → Halted begun q s
    → Halted begun q (look_at i w s)
unfolding look_at worker_round
look-Halted i none begun q s h = h
look-Halted i (some Worker.gone) begun q s h = h
look-Halted i (some (Worker.working j)) begun q s h = h
look-Halted i (some Worker.waiting) begun q s h =
    simp (h.run, append-nil s.begun)
      (record { begun_ = h.begun_; queue = h.queue; run = h.run; shut = h.shut; joins = h.joins })

finish-Halted :
    (i : ℕ) (w : Option Worker) (begun q : List Job) (s : System)
    → Halted begun q s
    → Halted begun q (finish_at i w s)
unfolding finish_at
finish-Halted i none begun q s h = h
finish-Halted i (some Worker.gone) begun q s h = h
finish-Halted i (some Worker.waiting) begun q s h = h
finish-Halted i (some (Worker.working j)) begun q s h = record {
  begun_ = h.begun_;
  queue = h.queue;
  run = h.run;
  shut = h.shut;
  joins = h.joins;
}

happen-Halted :
    (e : Event) (begun q : List Job) (s : System) → Halted begun q s → Halted begun q (happen e s)
unfolding happen thread_pool_post_job
happen-Halted (post j) begun q s h =
    simp (h.shut)
      (record { begun_ = h.begun_; queue = h.queue; run = h.run; shut = h.shut; joins = h.joins })
happen-Halted (look i) begun q s h = look-Halted i (get_elem? s.workers i) begun q s h
happen-Halted (finish i) begun q s h = finish-Halted i (get_elem? s.workers i) begun q s h
happen-Halted (stop b) begun q s h = simp (h.joins) h
happen-Halted wake begun q s h = simp (h.joins) h
happen-Halted wake_spuriously begun q s h = simp (h.joins) h

happen_all-Halted :
    (es : List Event) (begun q : List Job) (s : System)
    → Halted begun q s
    → Halted begun q (happen_all es s)
unfolding happen_all
happen_all-Halted [] begun q s h = h
happen_all-Halted (e ∷ es) begun q s h =
    happen_all-Halted es begun q (happen e s) (happen-Halted e begun q s h)

-- The pool behind the wait, where that is left with `q` in the queue.
stop_end-Halted :
    (s : System) → s.pool.allow_new_jobs ≡ false → Halted s.begun s.pool.queue (stop_end s)
unfolding stop_end
stop_end-Halted s shut = record {
  begun_ = refl;
  queue = refl;
  run = refl;
  shut = shut;
  joins = refl;
}

-- While `thread_pool_stop` waits, at any time in any run of the pool. The signal ends the wait only
-- when every accepted job has been begun. A wake-up without a signal, which `pthread_cond_wait`
-- allows, ends it at once: whatever happens then, no other job is begun, and what is in the queue at
-- that time stays there.
pub begun-stop_end :
    (n : ℕ) (es es' : List Event)
    → (happen_all es (thread_pool_init n)).stopper ≡ Stopper.draining
    → let s = happen_all es (thread_pool_init n) in
      let t = happen_all es' (happen wake_spuriously s) in
      ((happen wake s ≡ s) ⊎ (s.begun ≡ s.accepted))
      × (t.begun ≡ s.begun)
      × (t.pool.queue ≡ s.pool.queue)
unfolding happen
begun-stop_end n es es' waits =
    let s = happen_all es (thread_pool_init n) in
    let h = happen_all-IsOrdered es (thread_pool_init n) (thread_pool_init-IsOrdered n) in
    let waits' : is_draining s.stopper ≡ true = ap is_draining waits in
    let (shut, signalled) =
      Drained-stop_end s.stopper s.pool.queue s.pool.allow_new_jobs s.pool.job_ended waits'
        h.drained in
    let after : happen wake_spuriously s ≡ stop_end s = simp waits' refl in
    let halted = happen_all-Halted es' s.begun s.pool.queue (stop_end s) (stop_end-Halted s shut) in
    (
      elim (Bool-cases s.pool.job_ended) [
        | inl e ↦
            inr (sym (append-nil s.begun) ∙ ap (λ q. s.begun ++ q) (sym (signalled e)) ∙ h.order)
        | inr e ↦ inl (simp (waits', e) refl)
      ],
      ap (λ u. (happen_all es' u).begun) after ∙ halted.begun_,
      ap (λ u. (happen_all es' u).pool.queue) after ∙ halted.queue,
    )
