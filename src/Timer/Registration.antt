-- ===== src/Timer/Registration.antt =====
-- When a timer is registered with its service, and for how many expiries.
use mathlib.Core.Path.{fun_ext}
use chats.Prelude.{
  ℕ, Bool-cases, inl, inr, ◌≡◌, ◌≢◌, refl, ◌∙◌, Bool, true, false, Option, none, some, arith, ◌==◌,
  if◌then◌else◌,
}
use chats.IoService.{IoService, io_service_post_job}
use chats.IoService.Elements.{Op, Job}
use chats.IoService.Registry.{
  Registry, registry, put, withdraw, fire, registry-io_service_post_job,
  registry-io_service_remove_job,
}
use chats.Timer.{
  Timer, TimerClass, Armed, timer_set_deadline, timer_set_periodic, timer_set_absolute,
  timer_cancel,
}

-- The registration of a timer at the address `self`.
abbrev pub expiry : (tpl self : ℕ) → (oneshot : Bool) → Job
expiry tpl self oneshot = record { job = tpl; ctx = self; oneshot = oneshot }

-- What a setter leaves: the class, and what the service has registered for the descriptor before and
-- after the timer expires.
pub record Pending {E : Type 0} (t : Timer) (a : Armed E) (cls : TimerClass)
    (before after : Option Job) : Type 0 where
  pub armed : a.timer.armed ≡ true
  pub in_class : a.timer.tmr_class ≡ cls
  pub same_fd : a.timer.fd ≡ t.fd
  pub registered : registry a.master t.fd Op.read ≡ before
  pub expired : fire t.fd Op.read (registry a.master) t.fd Op.read ≡ after

-- Of a timer that is set while none of its expiries is registered: for the three setters.
pub record SetIdle {E : Type 0} (tpl self : ℕ) (t : Timer) (deadline periodic absolute : Armed E)
    : Type 0 where
  pub deadline_once : Pending t deadline TimerClass.relative (some (expiry tpl self true)) none
  pub periodic_stays :
      Pending t periodic TimerClass.periodic
        (some (expiry tpl self false))
        (some (expiry tpl self false))
  pub absolute_once : Pending t absolute TimerClass.absolute (some (expiry tpl self true)) none

-- Registering for a descriptor that has no registration, and then withdrawing it, changes nothing.
put_self :
    (r : Registry) (fd : ℕ) (j : Job) → r fd Op.read ≡ none → put fd Op.read j r fd Op.read ≡ some j
put_self r fd j h = rw h (ground arith)

put_kept :
    (r : Registry) (fd : ℕ) (j i : Job)
    → r fd Op.read ≡ some i
    → put fd Op.read j r fd Op.read ≡ some i
put_kept r fd j i h = rw h (ground arith)

fire_self :
    (r : Registry) (fd : ℕ) {j : Job}
    → r fd Op.read ≡ some j
    → fire fd Op.read r fd Op.read ≡ (if j.oneshot then none else some j)
fire_self r fd h = rw h (ground arith)

withdraw-put :
    (r : Registry) (fd tpl self : ℕ) (oneshot : Bool)
    → r fd Op.read ≡ none
    → (k : ℕ) (o : Op)
    → withdraw fd Op.read tpl self (put fd Op.read (expiry tpl self oneshot) r) k o ≡ r k o
withdraw-put r fd tpl self oneshot idle k Op.read = elim (Bool-cases (fd == k)) [
  | inl here ↦
      let same : fd ≡ k = ground arith in
      let gone : r k Op.read ≡ none = rw (← same) idle in rw (here, gone) (ground arith)
  | inr there ↦ rw there refl
]
withdraw-put r fd tpl self oneshot idle k Op.write = ground arith

module _ {E : Type 0} (tpl self : ℕ) (t : Timer) (master : IoService E) (named : tpl ≢ 0)
    (open_ : master.allow_new ≡ true) where
  registry-post :
      (oneshot : Bool)
      → registry (io_service_post_job master t.fd Op.read oneshot tpl self)
        ≡ put t.fd Op.read (expiry tpl self oneshot) (registry master)
  registry-post oneshot =
      let test : (tpl == 0) ≡ false = ground arith in
      registry-io_service_post_job master t.fd Op.read oneshot tpl self ∙ rw (open_, test) refl

  registered_once :
      (oneshot : Bool)
      → registry master t.fd Op.read ≡ none
      → registry (io_service_post_job master t.fd Op.read oneshot tpl self) t.fd Op.read
        ≡ some (expiry tpl self oneshot)
  registered_once oneshot idle = rw (registry-post oneshot) (put_self (registry master) t.fd _ idle)

  module _ (sec nanosec job ctx : ℕ) where
    -- Of a timer none of whose expiries is registered, with a service that takes jobs: each of the
    -- three setters arms it, gives it its class, and registers its expiry. Once it has expired, the
    -- registration of a deadline or of an absolute time is gone, and that of a periodic timer stays.
    pub timer_set-idle :
        registry master t.fd Op.read ≡ none
        → SetIdle tpl self t
            (timer_set_deadline tpl self t master sec nanosec job ctx)
            (timer_set_periodic tpl self t master sec nanosec job ctx)
            (timer_set_absolute tpl self t master sec nanosec job ctx)
    unfolding timer_set_deadline timer_set_periodic timer_set_absolute
    timer_set-idle idle =
        let once = registered_once true idle in
        let always = registered_once false idle in
        let r =
          λ (oneshot : Bool). registry (io_service_post_job master t.fd Op.read oneshot tpl self) in
        record {
          deadline_once = record {
            armed = refl;
            in_class = refl;
            same_fd = refl;
            registered = once;
            expired = fire_self (r true) t.fd once;
          };
          periodic_stays = record {
            armed = refl;
            in_class = refl;
            same_fd = refl;
            registered = always;
            expired = fire_self (r false) t.fd always;
          };
          absolute_once = record {
            armed = refl;
            in_class = refl;
            same_fd = refl;
            registered = once;
            expired = fire_self (r true) t.fd once;
          };
        }

    -- A timer that is made periodic while a deadline of it is still registered keeps that
    -- registration, which is for one expiry: it is armed and periodic, and after the next expiry
    -- nothing is registered for it.
    pub timer_set_periodic-Pending :
        registry master t.fd Op.read ≡ some (expiry tpl self true)
        → Pending t
            (timer_set_periodic tpl self t master sec nanosec job ctx)
            TimerClass.periodic
            (some (expiry tpl self true))
            none
    unfolding timer_set_periodic
    timer_set_periodic-Pending set =
        let r = registry (io_service_post_job master t.fd Op.read false tpl self) in
        let kept : r t.fd Op.read ≡ some (expiry tpl self true) =
          rw (registry-post false)
            (put_kept (registry master) t.fd (expiry tpl self false) (expiry tpl self true) set) in
        record {
          armed = refl;
          in_class = refl;
          same_fd = refl;
          registered = kept;
          expired = fire_self r t.fd kept;
        }

    -- Cancelling a timer that was just made periodic, none of its expiries being registered before,
    -- leaves every registration of the service as it was before the timer was set.
    pub timer_cancel-timer_set_periodic :
        registry master t.fd Op.read ≡ none
        → (let a = timer_set_periodic tpl self t master sec nanosec job ctx in
            registry (timer_cancel tpl self a.timer a.master) ≡ registry master)
    unfolding timer_set_periodic timer_cancel
    timer_cancel-timer_set_periodic idle =
        registry-io_service_remove_job (io_service_post_job master t.fd Op.read false tpl self) t.fd
          Op.read tpl self
        ∙ rw (registry-post false)
            (fun_ext λ k. fun_ext λ o. withdraw-put (registry master) t.fd tpl self false idle k o)
