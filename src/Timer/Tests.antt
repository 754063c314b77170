-- ===== src/Timer/Tests.antt =====
-- The theorems on timers at a concrete service.
use chats.Prelude.{◌≡◌, refl, true, false, [], ◌∷◌, arith}
use chats.IoService.{IoService}
use chats.IoService.Elements.{find_fd}
use chats.IoService.Registry.{registry}
use chats.Timer.{
  Timer, TimerClass, timer_set_deadline, timer_set_periodic, timer_set_absolute, tmr_job_tpl,
}
use chats.Timer.Registration.{SetIdle, timer_set-idle}

abbrev Nothing : Type 0
Nothing = Unit {0}

abbrev master : IoService Nothing
master = record {
  allow_new = true;
  running = true;
  event_fd = 3;
  event_count = 0;
  lookup_table = [];
  epoll = tt;
}

abbrev timer : Timer
timer = record {
  fd = 9;
  armed = false;
  tmr_class = TimerClass.none;
  spec = record { value_sec = 0; value_nsec = 0; interval_sec = 0; interval_nsec = 0 };
  job = 0;
  ctx = 0;
}

-- The service with a deadline of the timer registered; 50 is the template and 70 the timer.
abbrev waiting : IoService Nothing
waiting = record master {
  lookup_table =
      record {
        fd = 9;
        events = 1;
        read_job = record { job = 50; ctx = 70; oneshot = true };
        write_job = record { job = 0; ctx = 0; oneshot = false };
      }
      ∷ [];
}

timer_set-idle_example :
    SetIdle 50 70 timer
      (timer_set_deadline 50 70 timer master 5 0 11 12)
      (timer_set_periodic 50 70 timer master 5 0 11 12)
      (timer_set_absolute 50 70 timer master 5 0 11 12)
unfolding registry find_fd
timer_set-idle_example = timer_set-idle 50 70 timer master (omega arith) refl 5 0 11 12 refl

-- A job that sets its own timer anew: the timer is registered again, and not marked as armed.
rearmed :
    (tmr_job_tpl (λ job ctx t. (timer_set_deadline 50 70 t master 5 0 job ctx).timer) timer).armed
    ≡ false
unfolding tmr_job_tpl timer_set_deadline
rearmed = refl
