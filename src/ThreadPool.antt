-- ===== src/ThreadPool.antt =====
-- thread-pool/thread-pool.c: the queue of jobs, the worker threads, and stopping.
-- The mutex is held by every operation but while a job runs or a thread waits, so what a thread does
-- from one release of the mutex to the next is one event.
pub mod Draining
pub mod Stopping
mod Tests
use chats.Prelude.{
  ℕ, zero, suc, Bool, true, false, not, Option, none, some, List, [], ◌∷◌, ◌++◌, ◌==◌, ◌&&◌,
  if◌then◌else◌, get_elem?, set, replicate,
}

-- `job_t`. A job is NULL at 0.
pub record Job : Type 0 where
  pub job : ℕ
  pub ctx : ℕ

-- `struct thread_pool`. `job_ended` says that `job_end_semaphore` was signalled since the stopping
-- thread began to wait for it.
pub record ThreadPool : Type 0 where
  pub queue : List Job
  pub run : Bool
  pub allow_new_jobs : Bool
  pub job_ended : Bool

abbrev pub is_empty : List Job → Bool
is_empty [] = true
is_empty (j ∷ js) = false

-- `list_append` is taken to succeed.
unfoldable pub push_job : Job → ThreadPool → ThreadPool
push_job j tp = record tp { queue = tp.queue ++ (j ∷ []) }

-- The job, NULL with NULL where there is none, and the pool.
unfoldable pub get_and_pop_job : ThreadPool → Job × ThreadPool
get_and_pop_job tp = elim tp.queue [
  | [] ↦ (record { job = 0; ctx = 0 }, tp)
  | j ∷ js ↦ (j, record tp { queue = js; job_ended = if is_empty js then true else tp.job_ended })
]

unfoldable pub thread_pool_post_job : Job → ThreadPool → ThreadPool
unfolding push_job
thread_pool_post_job j tp = if tp.allow_new_jobs then push_job j tp else tp

-- A worker: before its next look at the pool, which is where it also waits for `job_semaphore`; in a
-- job; or gone.
pub data Worker : Type 0 where
  waiting : Worker
  working : Job → Worker
  gone : Worker

-- One round of the loop of `worker_tpl`, from its taking of the mutex to the release.
unfoldable pub worker_round : ThreadPool → Worker × ThreadPool
unfolding get_and_pop_job
worker_round tp =
    if tp.run && (tp.allow_new_jobs && is_empty tp.queue)
    then (Worker.waiting, tp)
    else if not tp.run
    then (Worker.gone, tp)
    else if is_empty tp.queue && not tp.allow_new_jobs
    then (Worker.gone, tp)
    else (let (j, tp') = get_and_pop_job tp in (Worker.working j, tp'))

-- The thread that stops the pool: not yet, in its wait for the last job, or behind it, with the
-- `wait_for_stop` that it was called with.
pub data Stopper : Type 0 where
  absent : Stopper
  draining : Stopper
  joining : (wait_for_stop : Bool) → Stopper

-- The pool with its threads, the jobs that it has taken, and those that a worker has begun, the
-- latest last.
pub record System : Type 0 where
  pub pool : ThreadPool
  pub workers : List Worker
  pub stopper : Stopper
  pub accepted : List Job
  pub begun : List Job

pub data Event : Type 0 where
  post : Job → Event
  look : (worker : ℕ) → Event
  finish : (worker : ℕ) → Event
  stop : (wait_for_stop : Bool) → Event
  wake : Event
  wake_spuriously : Event

unfoldable pub thread_pool_init : (thread_count : ℕ) → System
thread_pool_init thread_count = record {
  pool = record { queue = []; run = true; allow_new_jobs = true; job_ended = false };
  workers = replicate thread_count Worker.waiting;
  stopper = Stopper.absent;
  accepted = [];
  begun = [];
}

-- `thread_pool_stop` up to its wait, or to its joining of the threads where it does not wait.
unfoldable pub stop_begin : (wait_for_stop : Bool) → System → System
stop_begin wait_for_stop s =
    let tp : ThreadPool = record s.pool {
      run = wait_for_stop;
      allow_new_jobs = false;
      job_ended = false;
    } in
    if wait_for_stop && not (is_empty tp.queue)
    then record s { pool = tp; stopper = Stopper.draining }
    else record s { pool = record tp { run = false }; stopper = Stopper.joining wait_for_stop }

-- `thread_pool_stop` behind its wait.
unfoldable pub stop_end : System → System
stop_end s = record s { pool = record s.pool { run = false }; stopper = Stopper.joining true }

-- What a worker that begins a job adds to the jobs begun.
abbrev pub begins : Worker → List Job
begins Worker.waiting = []
begins (Worker.working j) = j ∷ []
begins Worker.gone = []

-- A worker that waits looks at the pool.
unfoldable pub look_at : (worker : ℕ) → Option Worker → System → System
unfolding worker_round
look_at i (some Worker.waiting) s =
    let (w, tp) = worker_round s.pool in
    record s { pool = tp; workers = set s.workers i w; begun = s.begun ++ begins w }
look_at i (some (Worker.working j)) s = s
look_at i (some Worker.gone) s = s
look_at i none s = s

unfoldable pub finish_at : (worker : ℕ) → Option Worker → System → System
finish_at i (some (Worker.working j)) s = record s { workers = set s.workers i Worker.waiting }
finish_at i (some Worker.waiting) s = s
finish_at i (some Worker.gone) s = s
finish_at i none s = s

abbrev pub is_absent : Stopper → Bool
is_absent Stopper.absent = true
is_absent Stopper.draining = false
is_absent (Stopper.joining b) = false

abbrev pub is_draining : Stopper → Bool
is_draining Stopper.absent = false
is_draining Stopper.draining = true
is_draining (Stopper.joining b) = false

-- One event; an event that cannot happen changes nothing. The stopping thread leaves its wait at any
-- wake-up, be it by the signal or without one, as `pthread_cond_wait` allows: the wait is in an `if`.
unfoldable pub happen : Event → System → System
unfolding thread_pool_post_job look_at finish_at stop_begin stop_end
happen (post j) s = record s {
  pool = thread_pool_post_job j s.pool;
  accepted = s.accepted ++ (if s.pool.allow_new_jobs then j ∷ [] else []);
}
happen (look i) s = look_at i (get_elem? s.workers i) s
happen (finish i) s = finish_at i (get_elem? s.workers i) s
happen (stop wait_for_stop) s = if is_absent s.stopper then stop_begin wait_for_stop s else s
happen wake s = if is_draining s.stopper && s.pool.job_ended then stop_end s else s
happen wake_spuriously s = if is_draining s.stopper then stop_end s else s

unfoldable pub happen_all : List Event → System → System
unfolding happen
happen_all [] s = s
happen_all (e ∷ es) s = happen_all es (happen e s)
