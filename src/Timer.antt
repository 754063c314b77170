-- ===== src/Timer.antt =====
-- timer/timer.c: timers over a timerfd, whose expiry is a job of the I/O service.
pub mod Registration
mod Tests
use chats.Prelude.{ℕ, Bool, true, false, Option, some}
use chats.IoService.{IoService, io_service_post_job, io_service_remove_job}
use chats.IoService.Elements.{Op}

-- `timer_class_t`
pub data TimerClass : Type 0 where
  absolute relative periodic none : TimerClass

-- `struct itimerspec`
pub record Spec : Type 0 where
  pub value_sec : ℕ
  pub value_nsec : ℕ
  pub interval_sec : ℕ
  pub interval_nsec : ℕ

-- `struct tmr` less `master`: the service is passed beside the timer.
pub record Timer : Type 0 where
  pub fd : ℕ
  pub armed : Bool
  pub tmr_class : TimerClass
  pub spec : Spec
  pub job : ℕ
  pub ctx : ℕ

-- The flag `TFD_TIMER_ABSTIME` of `timerfd_settime`, or none.
pub data SetFlag : Type 0 where
  from_now abstime : SetFlag

-- What a call of the module does: the timer, its service, and the call of `timerfd_settime`.
pub record Armed (E : Type 0) : Type 0 where
  pub timer : Timer
  pub master : IoService E
  pub set_flag : SetFlag
  pub set_spec : Spec

-- `tpl` is the address of `tmr_job_tpl`, and `self` that of the timer.
module _ {E : Type 0} (tpl self : ℕ) where
  -- The calls that the three setters end with.
  abbrev arm : Timer → SetFlag → (oneshot : Bool) → IoService E → Armed E
  arm t flag oneshot master = record {
    timer = record t { armed = true };
    master = io_service_post_job master t.fd Op.read oneshot tpl self;
    set_flag = flag;
    set_spec = t.spec;
  }

  unfoldable pub timer_set_deadline : Timer → IoService E → (sec nanosec job ctx : ℕ) → Armed E
  timer_set_deadline t master sec nanosec job ctx =
      let spec : Spec = record {
        value_sec = sec;
        value_nsec = nanosec;
        interval_sec = 0;
        interval_nsec = 0;
      } in
      arm (record t { job = job; ctx = ctx; tmr_class = TimerClass.relative; spec = spec })
        SetFlag.from_now true master

  unfoldable pub timer_set_periodic : Timer → IoService E → (sec nanosec job ctx : ℕ) → Armed E
  timer_set_periodic t master sec nanosec job ctx =
      let spec : Spec = record {
        value_sec = sec;
        value_nsec = nanosec;
        interval_sec = sec;
        interval_nsec = nanosec;
      } in
      arm (record t { job = job; ctx = ctx; tmr_class = TimerClass.periodic; spec = spec })
        SetFlag.from_now false master

  unfoldable pub timer_set_absolute : Timer → IoService E → (sec nanosec job ctx : ℕ) → Armed E
  timer_set_absolute t master sec nanosec job ctx =
      let spec : Spec = record {
        value_sec = sec;
        value_nsec = nanosec;
        interval_sec = 0;
        interval_nsec = 0;
      } in
      arm (record t { job = job; ctx = ctx; tmr_class = TimerClass.absolute; spec = spec })
        SetFlag.abstime true master

  unfoldable pub timer_cancel : Timer → IoService E → IoService E
  timer_cancel t master = io_service_remove_job master t.fd Op.read tpl self

-- `tmr_job_tpl` behind its `read`: `run` is what the call of the timer's job does to the timer.
unfoldable pub tmr_job_tpl : (run : (job ctx : ℕ) → Timer → Timer) → Timer → Timer
tmr_job_tpl run t =
    let t' = run t.job t.ctx t in
    elim t'.tmr_class [ TimerClass.periodic ↦ t' | _ ↦ record t' { armed = false } ]

-- `timer_init`: the descriptor that `timerfd_create` gives, and whether the allocation fails. The
-- fields that it leaves unset are those of `unset`.
unfoldable pub timer_init : (fd : Option ℕ) → (allocated : Bool) → (unset : Timer) → Option Timer
timer_init Option.none allocated unset = Option.none
timer_init (some fd) false unset = Option.none
timer_init (some fd) true unset =
    some (record unset { fd = fd; armed = false; tmr_class = TimerClass.none })
