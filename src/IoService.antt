-- ===== src/IoService.antt =====
-- io-service/io-service.c: the event loop, its job table, and its use of epoll.
-- The service's mutex is held by every operation but while a job runs or the loop waits, so an
-- operation is one step here. What other threads and the job do in the meantime is one function.
pub mod Elements
pub mod Lookup
pub mod Invariant
pub mod Validity
pub mod Registry
pub mod Rounds
pub mod Interest
pub mod Draining
mod Tests
use Elements.{
  Op, op_flag, Job, Element, Table, job_of, new_element, find_fd, update_fd, remove_fd, install,
  clear, ensure_fd, remove_job_loop, is_empty,
}
use chats.Prelude.{
  ℕ, suc, ◌+◌, ◌-◌, Bool, true, false, not, Option, none, some, List, [], ◌∷◌, ◌++◌, ◌==◌, ◌&&◌,
  ◌||◌, if◌then◌else◌, bit_and,
}

-- The kernel's epoll instance, by the three operations of `epoll_ctl` that the program uses and the
-- events that it watches a descriptor for. `ctl_mod` also says whether it failed with `ENOENT`.
pub record Epoll : Type 1 where
  pub Instance : Type 0
  pub interest : Instance → ℕ → Option ℕ
  pub ctl_add : Instance → (fd events : ℕ) → Instance
  pub ctl_mod : Instance → (fd events : ℕ) → Instance × Bool
  pub ctl_del : Instance → (fd : ℕ) → Instance

-- `struct io_service`: `event_count` is the counter of the eventfd, which is a semaphore.
pub record IoService (E : Type 0) : Type 0 where
  pub allow_new : Bool
  pub running : Bool
  pub event_fd : ℕ
  pub event_count : ℕ
  pub lookup_table : Table
  pub epoll : E

-- The call `(*job)(fd, op, ctx)`.
pub record Call : Type 0 where
  pub job : ℕ
  pub fd : ℕ
  pub op : Op
  pub ctx : ℕ

-- What `epoll_wait` returns: a failure, or one descriptor with its events.
pub data Wakeup : Type 0 where
  interrupted : Wakeup
  event : (fd : ℕ) → (events : ℕ) → Wakeup

module _ {E : Type 0} where
  -- `notify_svc`
  unfoldable pub notify_svc : IoService E → IoService E
  notify_svc s = record s { event_count = s.event_count + 1 }

  -- `svc_notified`
  unfoldable pub svc_notified : IoService E → IoService E
  svc_notified s = record s { event_count = s.event_count - 1 }

  unfoldable pub io_service_stop : IoService E → (wait_pending : Bool) → IoService E
  unfolding notify_svc
  io_service_stop s wait_pending =
      notify_svc (record s { allow_new = false; running = wait_pending })

  -- The write to a free slot, `lte` being the element found or appended.
  unfoldable pub fill_slot : (fd : ℕ) → Op → Job → Option Element → IoService E → IoService E
  unfolding update_fd install notify_svc
  fill_slot fd op j none s = s
  fill_slot fd op j (some lte) s =
      if (job_of op lte).job == 0
      then (let s' : IoService E = record s {
        lookup_table = update_fd fd (install op j) s.lookup_table;
      } in
          if s.running then notify_svc s' else s')
      else s

  unfoldable pub io_service_post_job :
      IoService E → (fd : ℕ) → Op → (oneshot : Bool) → (job ctx : ℕ) → IoService E
  unfolding ensure_fd fill_slot
  io_service_post_job s fd op oneshot job ctx =
      if s.allow_new && not (job == 0)
      then (let t = ensure_fd fd s.lookup_table in
          fill_slot fd op (record { job = job; ctx = ctx; oneshot = oneshot }) (find_fd fd t)
            (record s { lookup_table = t }))
      else s

  unfoldable pub io_service_remove_job : IoService E → (fd : ℕ) → Op → (job ctx : ℕ) → IoService E
  unfolding remove_job_loop notify_svc
  io_service_remove_job s fd op job ctx =
      let (t, done) = remove_job_loop fd op job ctx s.lookup_table in
      let s' : IoService E = record s { lookup_table = t } in
      if done && s.running then notify_svc s' else s'

-- What a client does through the four operations of the interface, in any order.
pub data Request : Type 0 where
  post : (fd : ℕ) → Op → (oneshot : Bool) → (job ctx : ℕ) → Request
  remove : (fd : ℕ) → Op → (job ctx : ℕ) → Request
  stop : (wait_pending : Bool) → Request

module _ {E : Type 0} where
  unfoldable pub request : Request → IoService E → IoService E
  request (post fd op oneshot job ctx) s = io_service_post_job s fd op oneshot job ctx
  request (remove fd op job ctx) s = io_service_remove_job s fd op job ctx
  request (stop wait) s = io_service_stop s wait

  unfoldable pub requests : List Request → IoService E → IoService E
  unfolding request
  requests [] s = s
  requests (r ∷ rs) s = requests rs (request r s)

-- One `epoll_wait`: what the other threads ask meanwhile, the mutex being free, and what ends it.
pub record Wait : Type 0 where
  pub meanwhile : List Request
  pub wakeup : Wakeup

-- `(*job)(fd, op, ctx)` for the element found.
abbrev pub call_of : Op → Element → Call
call_of op lte = record {
  job = (job_of op lte).job;
  fd = lte.fd;
  op = op;
  ctx = (job_of op lte).ctx;
}

module _ (ep : Epoll) where
  open ep use {Instance, ctl_add, ctl_mod, ctl_del}

  -- `io_service_init`: what the mutex, the eventfd and the epoll instance come to, and whether the
  -- eventfd cannot be watched. `none` is NULL.
  unfoldable pub io_service_init :
      (mutex_error : ℕ)
      → (event_fd : Option ℕ) → (created : Option Instance) → (unwatched : Bool)
      → Option (IoService Instance)
  io_service_init mutex_error none created unwatched = none
  io_service_init mutex_error (some fd) none unwatched = none
  io_service_init mutex_error (some fd) (some i) unwatched =
      if not (mutex_error == 0) || unwatched
      then none
      else some (record {
        allow_new = true;
        running = false;
        event_fd = fd;
        event_count = 0;
        lookup_table = [];
        epoll = ctl_add i fd (op_flag Op.read);
      })

  -- The loop before `*running = true`.
  unfoldable pub watch_all : Table → Instance → Instance
  watch_all [] i = i
  watch_all (e ∷ t) i = watch_all t (ctl_add i e.fd e.events)

  unfoldable pub start : IoService Instance → IoService Instance
  unfolding watch_all
  start s = record s { epoll = watch_all s.lookup_table s.epoll; running = true }

  -- `EPOLL_CTL_MOD`, and `EPOLL_CTL_ADD` where that fails with `ENOENT`.
  unfoldable pub rewatch : Instance → (fd events : ℕ) → Instance
  rewatch i fd events =
      let (i', missing) = ctl_mod i fd events in if missing then ctl_add i' fd events else i'

  -- The loop over the table after a notification: an element with no event is no longer watched and
  -- leaves the table, and any other is watched for its events.
  unfoldable pub sweep : Table → Instance → Table × Instance
  unfolding rewatch
  sweep [] i = ([], i)
  sweep (e ∷ t) i =
      let idle = e.events == 0 in
      let (t', i') = sweep t (if idle then ctl_del i e.fd else rewatch i e.fd e.events) in
      (if idle then t' else e ∷ t', i')

  -- The branch `fd == event_fd` of the loop.
  unfoldable pub handle_notification : IoService Instance → IoService Instance
  unfolding svc_notified sweep is_empty
  handle_notification s =
      let s' = svc_notified s in
      let (t, i) = sweep s.lookup_table s.epoll in
      record s' {
        running = if is_empty s.lookup_table && not s.allow_new then false else s.running;
        lookup_table = t;
        epoll = i;
      }

  -- What becomes of the table before the job of the element `lte` is called.
  unfoldable pub release : Op → Element → IoService Instance → IoService Instance
  release op lte s =
      if (job_of op lte).oneshot
      then if (clear op lte).events == 0
        then record s {
          lookup_table = remove_fd lte.fd s.lookup_table;
          epoll = ctl_del s.epoll lte.fd;
        }
        else record s { lookup_table = update_fd lte.fd (clear op) s.lookup_table }
      else s

  -- While a job runs, it and the other threads make requests of their own.
  module _ (asks : Call → IoService Instance → List Request) where
    -- The call of the job that the loop found, if its slot is set.
    unfoldable pub serve : Op → Option Element → IoService Instance → IoService Instance
    unfolding release
    serve op none s = s
    serve op (some lte) s =
        if (job_of op lte).job == 0
        then s
        else (let s' = release op lte s in requests (asks (call_of op lte) s') s')

    -- One round of the loop over the operations.
    unfoldable pub dispatch : (fd events : ℕ) → Op → IoService Instance → IoService Instance
    unfolding serve
    dispatch fd events op s =
        if bit_and events (op_flag op) == 0 then s else serve op (find_fd fd s.lookup_table) s

    -- The body of `while (*running)` behind the wait.
    unfoldable pub round : Wakeup → IoService Instance → IoService Instance
    unfolding handle_notification dispatch
    round interrupted s = s
    round (event fd events) s =
        if fd == s.event_fd
        then handle_notification s
        else dispatch fd events Op.write (dispatch fd events Op.read s)

    -- The loop over the waits; behind the last that ends it goes on waiting.
    unfoldable pub run_loop : List Wait → IoService Instance → IoService Instance
    unfolding round requests
    run_loop [] s = s
    run_loop (w ∷ ws) s =
        let s' = run_loop ws (round w.wakeup (requests w.meanwhile s)) in
        if s.running then s' else s

    unfoldable pub io_service_run : List Wait → IoService Instance → IoService Instance
    unfolding start run_loop
    io_service_run ws s = run_loop ws (start s)
