-- ===== src/ThreadPool/Draining.antt =====
-- What becomes of the jobs of thread-pool/thread-pool.c.
use mathlib.Core.Bool.{false≢true}
use mathlib.Core.List.{append-nil, append_assoc}
use chats.Prelude.{
  ℕ, ◌≡◌, refl, sym, ap, ◌∙◌, inl, inr, Bool, true, false, Option, none, some, List, [], ◌∷◌, ◌++◌,
  ◌&&◌, arith, if◌then◌else◌, length, get_elem?, Bool-cases,
}
use chats.ThreadPool.{
  Job, ThreadPool, Worker, Stopper, System, Event, is_empty, is_absent, is_draining, push_job,
  get_and_pop_job, thread_pool_post_job, worker_round, look_at, finish_at, begins, stop_begin,
  stop_end, happen, happen_all, thread_pool_init, post, look, finish, stop, wake, wake_spuriously,
}

-- What holds of the stopping thread's view of the queue.
abbrev pub Drained : Stopper → (queue : List Job) → (allow_new job_ended : Bool) → Type 0
Drained Stopper.absent queue allow_new job_ended = Unit
Drained Stopper.draining queue allow_new job_ended =
    (allow_new ≡ false) × (job_ended ≡ true → queue ≡ [])
Drained (Stopper.joining b) queue allow_new job_ended = allow_new ≡ false

-- The jobs begun, in their order, and then those in the queue, are the jobs accepted.
pub record IsOrdered (s : System) : Type 0 where
  pub order : s.begun ++ s.pool.queue ≡ s.accepted
  pub drained : Drained s.stopper s.pool.queue s.pool.allow_new_jobs s.pool.job_ended

cons-ne-nil : {A : Type 0} (j : Job) (js : List Job) → j ∷ js ≡ [] → A
cons-ne-nil j js e = absurd (omega (arith, ap length e))

-- A pool that takes jobs is not being stopped.
Drained-open :
    (st : Stopper) (q q' : List Job) (allow_new e e' : Bool)
    → allow_new ≡ true
    → Drained st q allow_new e
    → Drained st q' true e'
Drained-open Stopper.absent q q' allow_new e e' open_ h = tt
Drained-open Stopper.draining q q' allow_new e e' open_ h = absurd (false≢true (sym h.0 ∙ open_))
Drained-open (Stopper.joining b) q q' allow_new e e' open_ h = absurd (false≢true (sym h ∙ open_))

-- Taking the first job off.
Drained-pop :
    (st : Stopper) (j : Job) (js : List Job) (allow_new e : Bool)
    → Drained st (j ∷ js) allow_new e
    → Drained st js allow_new (if is_empty js then true else e)
Drained-pop Stopper.absent j js allow_new e h = tt
Drained-pop Stopper.draining j [] allow_new e h = (h.0, λ t. refl)
Drained-pop Stopper.draining j (k ∷ js) allow_new e h = (h.0, λ t. cons-ne-nil j (k ∷ js) (h.1 t))
Drained-pop (Stopper.joining b) j js allow_new e h = h

abbrev Round : Stopper → ThreadPool → Type 0
Round st tp =
    (begins (worker_round tp).0 ++ (worker_round tp).1.queue ≡ tp.queue)
    × Drained st (worker_round tp).1.queue (worker_round tp).1.allow_new_jobs
        (worker_round tp).1.job_ended

Round-queue :
    (st : Stopper) (queue : List Job) (run allow_new ended : Bool)
    → Drained st queue allow_new ended
    → Round st (record { queue = queue; run = run; allow_new_jobs = allow_new; job_ended = ended })
unfolding worker_round get_and_pop_job
Round-queue st [] true true ended h = (refl, h)
Round-queue st [] true false ended h = (refl, h)
Round-queue st [] false true ended h = (refl, h)
Round-queue st [] false false ended h = (refl, h)
Round-queue st (j ∷ js) true true ended h = (refl, Drained-pop st j js true ended h)
Round-queue st (j ∷ js) true false ended h = (refl, Drained-pop st j js false ended h)
Round-queue st (j ∷ js) false true ended h = (refl, h)
Round-queue st (j ∷ js) false false ended h = (refl, h)

post-IsOrdered : (j : Job) (s : System) → IsOrdered s → IsOrdered (happen (post j) s)
unfolding happen thread_pool_post_job push_job
post-IsOrdered j s h = elim (Bool-cases s.pool.allow_new_jobs) [
  | inl open_ ↦ simp open_ (record {
    order = sym (append_assoc s.begun s.pool.queue (j ∷ [])) ∙ ap (λ xs. xs ++ (j ∷ [])) h.order;
    drained =
        Drained-open s.stopper s.pool.queue (s.pool.queue ++ (j ∷ [])) s.pool.allow_new_jobs
          s.pool.job_ended s.pool.job_ended open_ h.drained;
  })
  | inr shut ↦
      simp shut (record { order = h.order ∙ sym (append-nil s.accepted); drained = h.drained })
]

look-IsOrdered : (i : ℕ) (w : Option Worker) (s : System) → IsOrdered s → IsOrdered (look_at i w s)
unfolding look_at
look-IsOrdered i none s h = h
look-IsOrdered i (some Worker.gone) s h = h
look-IsOrdered i (some (Worker.working j)) s h = h
look-IsOrdered i (some Worker.waiting) s h =
    let r =
      Round-queue s.stopper s.pool.queue s.pool.run s.pool.allow_new_jobs s.pool.job_ended
        h.drained in
    record {
      order = append_assoc s.begun _ _ ∙ ap (λ xs. s.begun ++ xs) r.0 ∙ h.order;
      drained = r.1;
    }

finish-IsOrdered :
    (i : ℕ) (w : Option Worker) (s : System) → IsOrdered s → IsOrdered (finish_at i w s)
unfolding finish_at
finish-IsOrdered i none s h = h
finish-IsOrdered i (some Worker.gone) s h = h
finish-IsOrdered i (some (Worker.working j)) s h = record { order = h.order; drained = h.drained }
finish-IsOrdered i (some Worker.waiting) s h = h

stop_begin-IsOrdered :
    (wait_for_stop : Bool) (s : System) → IsOrdered s → IsOrdered (stop_begin wait_for_stop s)
unfolding stop_begin
stop_begin-IsOrdered false s h = record { order = h.order; drained = refl }
stop_begin-IsOrdered true s h = elim (Bool-cases (is_empty s.pool.queue)) [
  | inl empty ↦ simp empty (record { order = h.order; drained = refl })
  | inr full ↦ simp full (record { order = h.order; drained = (refl, λ t. absurd (false≢true t)) })
]

stop-IsOrdered :
    (wait_for_stop : Bool) (s : System) → IsOrdered s → IsOrdered (happen (stop wait_for_stop) s)
unfolding happen
stop-IsOrdered b s h = elim (Bool-cases (is_absent s.stopper)) [
  | inl yes_ ↦ simp yes_ (stop_begin-IsOrdered b s h)
  | inr no_ ↦ simp no_ h
]

pub Drained-stop_end :
    (st : Stopper) (q : List Job) (allow_new e : Bool)
    → is_draining st ≡ true
    → Drained st q allow_new e
    → (allow_new ≡ false) × (e ≡ true → q ≡ [])
Drained-stop_end Stopper.absent q allow_new e waits h = absurd (false≢true waits)
Drained-stop_end Stopper.draining q allow_new e waits h = h
Drained-stop_end (Stopper.joining b) q allow_new e waits h = absurd (false≢true waits)

stop_end-IsOrdered :
    (s : System) → is_draining s.stopper ≡ true → IsOrdered s → IsOrdered (stop_end s)
unfolding stop_end
stop_end-IsOrdered s waits h = record {
  order = h.order;
  drained =
      (Drained-stop_end s.stopper s.pool.queue s.pool.allow_new_jobs s.pool.job_ended waits
        h.drained).0;
}

wake-IsOrdered : (s : System) → IsOrdered s → IsOrdered (happen wake s)
unfolding happen
wake-IsOrdered s h = elim (Bool-cases (is_draining s.stopper && s.pool.job_ended)) [
  | inl signal ↦ simp signal (stop_end-IsOrdered s (ground (arith, signal)) h)
  | inr none_ ↦ simp none_ h
]

wake_spuriously-IsOrdered : (s : System) → IsOrdered s → IsOrdered (happen wake_spuriously s)
unfolding happen
wake_spuriously-IsOrdered s h = elim (Bool-cases (is_draining s.stopper)) [
  | inl waits ↦ simp waits (stop_end-IsOrdered s waits h)
  | inr none_ ↦ simp none_ h
]

happen-IsOrdered : (e : Event) (s : System) → IsOrdered s → IsOrdered (happen e s)
unfolding happen
happen-IsOrdered (post j) s h = post-IsOrdered j s h
happen-IsOrdered (look i) s h = look-IsOrdered i (get_elem? s.workers i) s h
happen-IsOrdered (finish i) s h = finish-IsOrdered i (get_elem? s.workers i) s h
happen-IsOrdered (stop b) s h = stop-IsOrdered b s h
happen-IsOrdered wake s h = wake-IsOrdered s h
happen-IsOrdered wake_spuriously s h = wake_spuriously-IsOrdered s h

pub happen_all-IsOrdered :
    (es : List Event) (s : System) → IsOrdered s → IsOrdered (happen_all es s)
unfolding happen_all
happen_all-IsOrdered [] s h = h
happen_all-IsOrdered (e ∷ es) s h = happen_all-IsOrdered es (happen e s) (happen-IsOrdered e s h)

pub thread_pool_init-IsOrdered : (n : ℕ) → IsOrdered (thread_pool_init n)
unfolding thread_pool_init
thread_pool_init-IsOrdered n = record { order = refl; drained = tt }

-- Whatever happens to a pool of `n` workers from its making on: the jobs that the workers have begun,
-- in their order, followed by those in the queue, are the jobs that were accepted, in theirs. So each
-- accepted job is begun at most once, and no job before one that was accepted earlier.
pub begun-happen_all :
    (n : ℕ) (es : List Event)
    → (let s = happen_all es (thread_pool_init n) in s.begun ++ s.pool.queue ≡ s.accepted)
begun-happen_all n es =
    (happen_all-IsOrdered es (thread_pool_init n) (thread_pool_init-IsOrdered n)).order
