-- ===== src/Metrics/Wrapper/Fair.antt =====
-- metrics_wrapper.go: `FairLockMetricsWrapper`.
use x_ailock.Base.{ℤ, pos, negsuc, String, Bool, Option, List}
use x_ailock.Errors.{GoError}
use x_ailock.Config.{LockOption}
use x_ailock.Interface.{Method, FairLock}
use x_ailock.Metrics.Interface.{Metrics}
use x_ailock.Metrics.Wrapper.{
  Runtime, choose_metrics, timed, passed, note_outcome, note_attempt, note_extension, note_length,
}

pub record FairLockMetricsWrapper (S M : Type 0) : Type 0 where
  pub lock : FairLock S
  pub lock_type : String
  pub backend : String
  pub metrics : Metrics M

unfoldable pub new_fair_lock_metrics_wrapper :
    {S M : Type 0}
    → Metrics M
    → FairLock S
    → String
    → Option (Metrics M)
    → FairLockMetricsWrapper S M
unfolding choose_metrics
new_fair_lock_metrics_wrapper global l backend metrics = record {
  lock = l;
  lock_type = "FairLock";
  backend = backend;
  metrics = choose_metrics global metrics;
}

module _ {S M : Type 0} (r : Runtime S) (w : FairLockMetricsWrapper S M) where
  open w use {lock_type, backend, metrics}

  unfoldable pub try_lock : List LockOption → Method (S × M) (Bool × GoError)
  unfolding timed note_attempt
  try_lock opts =
      timed r (w.lock.try_lock opts) (
        note_attempt r metrics lock_type backend
          (metrics.record_lock_try_acquire lock_type backend))

  -- The acquisition and the time that it waited.
  unfoldable pub record_waiting : Bool → ℤ → M → M
  record_waiting success duration m =
      metrics.record_wait_time lock_type backend duration
        (metrics.record_lock_acquire lock_type backend success duration m)

  unfoldable pub lock_timed : List LockOption → Method (S × M) GoError
  unfolding timed note_outcome record_waiting
  lock_timed opts =
      timed r (w.lock.lock opts) (note_outcome r metrics lock_type backend record_waiting (pos 1))

  unfoldable pub unlock : Method (S × M) GoError
  unfolding timed note_outcome
  unlock = timed r w.lock.unlock (
      note_outcome r metrics lock_type backend (metrics.record_lock_release lock_type backend)
        (negsuc 0))

  unfoldable pub extend : ℤ → Method (S × M) (Bool × GoError)
  unfolding timed note_extension
  extend ttl =
      timed r (w.lock.extend ttl)
        (note_extension r metrics lock_type backend (metrics.record_lock_extend lock_type backend))

  unfoldable pub get_queue_length : Method (S × M) (ℤ × GoError)
  unfolding timed note_length
  get_queue_length =
      timed r w.lock.get_queue_length (note_length (metrics.record_queue_length lock_type backend))

  unfoldable pub wrapped_fair_lock : FairLock (S × M)
  unfolding lock_timed try_lock unlock extend get_queue_length passed
  wrapped_fair_lock = record {
    lock = lock_timed;
    try_lock = try_lock;
    unlock = unlock;
    extend = extend;
    is_locked = passed r w.lock.is_locked;
    get_ttl = passed r w.lock.get_ttl;
    get_queue_position = passed r w.lock.get_queue_position;
    get_queue_length = get_queue_length;
    get_queue_info = passed r w.lock.get_queue_info;
    get_key = passed r w.lock.get_key;
    get_value = passed r w.lock.get_value;
  }
