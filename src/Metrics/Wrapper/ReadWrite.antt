-- ===== src/Metrics/Wrapper/ReadWrite.antt =====
-- metrics_wrapper.go: `RWLockMetricsWrapper`.
use Prim.Native.String.{◌++◌}
use x_ailock.Base.{ℤ, pos, negsuc, String, Bool, Option, List}
use x_ailock.Errors.{GoError}
use x_ailock.Config.{LockOption}
use x_ailock.Interface.{Method, RwLock}
use x_ailock.Metrics.Interface.{Metrics}
use x_ailock.Metrics.Wrapper.{
  Runtime, choose_metrics, timed, passed, note_outcome, note_attempt, note_length,
}

pub record RwLockMetricsWrapper (S M : Type 0) : Type 0 where
  pub lock : RwLock S
  pub lock_type : String
  pub backend : String
  pub metrics : Metrics M

unfoldable pub new_rw_lock_metrics_wrapper :
    {S M : Type 0} → Metrics M → RwLock S → String → Option (Metrics M) → RwLockMetricsWrapper S M
unfolding choose_metrics
new_rw_lock_metrics_wrapper global l backend metrics = record {
  lock = l;
  lock_type = "RWLock";
  backend = backend;
  metrics = choose_metrics global metrics;
}

module _ {S M : Type 0} (r : Runtime S) (w : RwLockMetricsWrapper S M) where
  open w use {lock_type, backend, metrics}

  unfoldable pub rlock : List LockOption → Method (S × M) GoError
  unfolding timed note_outcome
  rlock opts = timed r (w.lock.rlock opts) (
      note_outcome r metrics lock_type backend
        (metrics.record_lock_acquire (lock_type ++ ":Read") backend) (pos 1))

  unfoldable pub try_rlock : List LockOption → Method (S × M) (Bool × GoError)
  unfolding timed note_attempt
  try_rlock opts = timed r (w.lock.try_rlock opts) (
      note_attempt r metrics lock_type backend
        (metrics.record_lock_try_acquire (lock_type ++ ":Read") backend))

  unfoldable pub runlock : Method (S × M) GoError
  unfolding timed note_outcome
  runlock = timed r w.lock.runlock (
      note_outcome r metrics lock_type backend
        (metrics.record_lock_release (lock_type ++ ":Read") backend) (negsuc 0))

  unfoldable pub wlock : List LockOption → Method (S × M) GoError
  unfolding timed note_outcome
  wlock opts = timed r (w.lock.wlock opts) (
      note_outcome r metrics lock_type backend
        (metrics.record_lock_acquire (lock_type ++ ":Write") backend) (pos 1))

  unfoldable pub try_wlock : List LockOption → Method (S × M) (Bool × GoError)
  unfolding timed note_attempt
  try_wlock opts = timed r (w.lock.try_wlock opts) (
      note_attempt r metrics lock_type backend
        (metrics.record_lock_try_acquire (lock_type ++ ":Write") backend))

  unfoldable pub wunlock : Method (S × M) GoError
  unfolding timed note_outcome
  wunlock = timed r w.lock.wunlock (
      note_outcome r metrics lock_type backend
        (metrics.record_lock_release (lock_type ++ ":Write") backend) (negsuc 0))

  unfoldable pub get_read_count : Method (S × M) (ℤ × GoError)
  unfolding timed note_length
  get_read_count =
      timed r w.lock.get_read_count
        (note_length (metrics.record_queue_length (lock_type ++ ":Read") backend))

  unfoldable pub wrapped_rw_lock : RwLock (S × M)
  unfolding rlock try_rlock runlock wlock try_wlock wunlock get_read_count passed
  wrapped_rw_lock = record {
    rlock = rlock;
    try_rlock = try_rlock;
    runlock = runlock;
    wlock = wlock;
    try_wlock = try_wlock;
    wunlock = wunlock;
    get_read_count = get_read_count;
    is_write_locked = passed r w.lock.is_write_locked;
    get_key = passed r w.lock.get_key;
  }
