-- ===== src/ThreadPool/Tests.antt =====
-- The theorems on thread-pool/thread-pool.c at a run of two workers.
use chats.Prelude.{ℕ, ◌≡◌, refl, true, List, [], ◌∷◌, ◌++◌, ◌⊎◌}
use chats.ThreadPool.{
  Job, Stopper, Event, happen, happen_all, thread_pool_init, post, look, finish, stop, wake,
  wake_spuriously,
}
use chats.ThreadPool.Draining.{begun-happen_all}
use chats.ThreadPool.Stopping.{begun-stop_end}

abbrev job : ℕ → Job
job n = record { job = n; ctx = 0 }

-- Three jobs for two workers; the pool is stopped while one of them waits in the queue.
abbrev events : List Event
events =
    look 0
    ∷ post (job 1)
    ∷ post (job 2)
    ∷ look 0
    ∷ post (job 3)
    ∷ look 1
    ∷ stop true
    ∷ wake
    ∷ post (job 4)
    ∷ finish 1
    ∷ look 1
    ∷ wake
    ∷ []

begun-happen_all_example :
    (let s = happen_all events (thread_pool_init 2) in s.begun ++ s.pool.queue ≡ s.accepted)
begun-happen_all_example = begun-happen_all 2 events

stopped : (happen_all events (thread_pool_init 2)).stopper ≡ Stopper.joining true
unfolding happen_all thread_pool_init
stopped = refl

begun_in_order : (happen_all events (thread_pool_init 2)).begun ≡ job 1 ∷ job 2 ∷ job 3 ∷ []
unfolding happen_all thread_pool_init
begun_in_order = refl

-- The first eight of them, up to where the stopping thread waits for the job in the queue.
abbrev waiting_for_one : List Event
waiting_for_one =
    look 0 ∷ post (job 1) ∷ post (job 2) ∷ look 0 ∷ post (job 3) ∷ look 1 ∷ stop true ∷ wake ∷ []

waits : (happen_all waiting_for_one (thread_pool_init 2)).stopper ≡ Stopper.draining
unfolding happen_all thread_pool_init
waits = refl

-- A wake-up without a signal comes, and both workers look for jobs: the third is never begun.
begun-stop_end_example :
    let s = happen_all waiting_for_one (thread_pool_init 2) in
    let t = happen_all (finish 0 ∷ finish 1 ∷ look 0 ∷ look 1 ∷ []) (happen wake_spuriously s) in
    ((happen wake s ≡ s) ⊎ (s.begun ≡ s.accepted))
    × (t.begun ≡ s.begun)
    × (t.pool.queue ≡ s.pool.queue)
begun-stop_end_example =
    begun-stop_end 2 waiting_for_one (finish 0 ∷ finish 1 ∷ look 0 ∷ look 1 ∷ []) waits

left_over : (happen_all waiting_for_one (thread_pool_init 2)).pool.queue ≡ job 3 ∷ []
unfolding happen_all thread_pool_init
left_over = refl
