-- ===== src/IoService/Tests.antt =====
-- Runs of the service over a kernel that follows the manual, and the theorems at them.
use chats.Prelude.{
  ℕ, ◌≡◌, refl, true, false, Option, none, some, List, [], ◌∷◌, arith, ◌==◌, if◌then◌else◌,
}
use chats.IoService.{
  Epoll, IoService, Call, event, io_service_stop, io_service_post_job, handle_notification, release,
  dispatch, run_loop, io_service_run,
}
use chats.IoService.Elements.{Op, Element, find_fd, update_fd, remove_fd, clear, remove_job_loop}
use chats.IoService.Invariant.{IsValid}
use chats.IoService.{
  Request, post, remove, request, requests, Wait, round, serve, io_service_remove_job,
}
use chats.IoService.Registry.{registry}
use chats.IoService.Draining.{SameFlags, run_loop-SameFlags}
use chats.IoService.Validity.{io_service_run-IsValid}
use chats.IoService.Rounds.{Dispatched, dispatch-Dispatched}
use chats.IoService.Interest.{IsEpoll, IsTidy, is_none, wanted, interest-handle_notification}

-- An instance is the function from descriptors to the events watched.
abbrev watch : (ℕ → Option ℕ) → ℕ → Option ℕ → ℕ → Option ℕ
watch i fd r k = if fd == k then r else i k

abbrev or_old : Option ℕ → ℕ → Option ℕ
or_old none events = some events
or_old (some old) events = some old

abbrev if_old : Option ℕ → ℕ → Option ℕ
if_old none events = none
if_old (some old) events = some events

abbrev kernel : Epoll
kernel = record {
  Instance = ℕ → Option ℕ;
  interest = λ i k. i k;
  ctl_add = λ i fd events. watch i fd (or_old (i fd) events);
  ctl_mod = λ i fd events. (watch i fd (if_old (i fd) events), is_none (i fd));
  ctl_del = λ i fd. watch i fd none;
}

kernel-IsEpoll : IsEpoll kernel
kernel-IsEpoll = record {
  interest-add = λ i fd events k. ground arith;
  interest-mod = λ i fd events k. ground arith;
  missing-mod = λ i fd events. refl;
  interest-del = λ i fd k. refl;
}

abbrev Service : Type 0
Service = IoService (ℕ → Option ℕ)

-- A service whose eventfd is 3, just made.
abbrev fresh : Service
fresh = record {
  allow_new = true;
  running = true;
  event_fd = 3;
  event_count = 0;
  lookup_table = [];
  epoll = watch (λ _. none) 3 (some 1);
}

fresh-IsValid : IsValid fresh
fresh-IsValid = record { unique = tt; flagged = tt }

-- Two jobs for descriptor 5, the one that reads for one call.
posts : List Request
posts = post 5 Op.read true 100 7 ∷ post 5 Op.write false 200 8 ∷ []

abbrev five : Element
five = record {
  fd = 5;
  events = 5;
  read_job = record { job = 100; ctx = 7; oneshot = true };
  write_job = record { job = 200; ctx = 8; oneshot = false };
}

abbrev loaded : Service
loaded = record fresh { event_count = 2; lookup_table = five ∷ [] }

posted : requests posts fresh ≡ loaded
unfolding posts requests io_service_post_job
posted = refl

abbrev quiet : Call → Service → List Request
quiet c s = []

-- The notification, then 5 ready to read and to write, then 5 ready to read again.
waits : List Wait
waits =
    record { meanwhile = []; wakeup = event 3 1 }
    ∷ record { meanwhile = []; wakeup = event 5 5 }
    ∷ record { meanwhile = []; wakeup = event 5 1 }
    ∷ []

-- The reading job is gone, and the descriptor is still watched for it.
ran :
    let s = run_loop kernel quiet waits loaded in
    (s.lookup_table
      ≡ record five { events = 4; read_job = record { job = 0; ctx = 0; oneshot = true } } ∷ [])
    × (s.epoll 5 ≡ some 5)
    × (s.running ≡ true)
unfolding waits run_loop release clear update_fd remove_fd find_fd
ran = (refl, refl, refl)

loaded-IsValid : IsValid loaded
unfolding find_fd
loaded-IsValid = record { unique = (refl, tt); flagged = (refl, tt) }

loaded-IsTidy : IsTidy kernel kernel-IsEpoll loaded
unfolding find_fd
loaded-IsTidy k ne h = ground arith

io_service_run-IsValid_example : IsValid (io_service_run kernel quiet waits loaded)
io_service_run-IsValid_example = io_service_run-IsValid kernel quiet waits loaded loaded-IsValid

dispatch-Dispatched_example :
    Dispatched kernel quiet 5 Op.read loaded (dispatch kernel quiet 5 1 Op.read loaded)
dispatch-Dispatched_example =
    dispatch-Dispatched kernel quiet 5 1 Op.read loaded loaded-IsValid (omega arith)

interest-handle_notification_example :
    (handle_notification kernel loaded).epoll 5
    ≡ wanted
        (registry (handle_notification kernel loaded) 5 Op.read)
        (registry (handle_notification kernel loaded) 5 Op.write)
interest-handle_notification_example =
    interest-handle_notification kernel kernel-IsEpoll loaded loaded-IsValid loaded-IsTidy 5
      (omega arith)

-- A service with one job, for one call, that is stopped and waits for it.
abbrev one_left : Service
one_left = record fresh {
  lookup_table =
      record {
        fd = 5;
        events = 1;
        read_job = record { job = 100; ctx = 7; oneshot = true };
        write_job = record { job = 0; ctx = 0; oneshot = false };
      }
      ∷ [];
}

-- It handles the notification and runs the job; then nothing is left to run, and nothing will wake
-- it to see that.
hangs :
    let s = run_loop kernel quiet waits (io_service_stop one_left true) in
    (s.lookup_table ≡ []) × (s.running ≡ true) × (s.allow_new ≡ false) × (s.event_count ≡ 0)
unfolding waits run_loop release clear update_fd remove_fd find_fd io_service_stop
hangs = (refl, refl, refl, refl)

-- Requests that change nothing: nothing is registered at 99, and a job that is NULL is not taken.
abbrev vain : Call → Service → List Request
vain c s = remove 99 Op.read 1 1 ∷ post 5 Op.read true 0 0 ∷ []

abbrev others : List Wait
others =
    record { meanwhile = remove 99 Op.read 1 1 ∷ []; wakeup = event 5 1 }
    ∷ record { meanwhile = []; wakeup = event 5 4 }
    ∷ []

run_loop-SameFlags_example : SameFlags loaded (run_loop kernel vain others loaded)
unfolding round dispatch serve release requests request io_service_post_job io_service_remove_job
    remove_job_loop clear update_fd remove_fd find_fd
run_loop-SameFlags_example =
    run_loop-SameFlags kernel vain others loaded (omega arith, refl, (omega arith, refl, tt))
