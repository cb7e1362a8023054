-- ===== src/Metrics/Wrapper.antt =====
-- metrics_wrapper.go: `MetricsWrapper`, what the three wrappers share, and the wrapped lock as a lock.
-- The state is that of the wrapped lock, with the world around it, and that of the metrics. What a
-- wrapper asks of the world is in `Runtime`.
pub mod ReadWrite
pub mod Fair
pub mod Kinds
pub mod Transparent
pub mod Balance
pub mod Booking
pub mod Entering
pub mod Counting
mod Tests
use mathlib.Core.Option
use x_ailock.Base.{
  ℤ, pos, negsuc, String, Bool, true, false, ◌&&◌, Option, none, some, List, if◌then◌else◌,
}
use x_ailock.Errors.{GoError, is_nil, nil, lock, foreign, code, severity, severity_string}
use x_ailock.Config.{LockOption}
use x_ailock.Shard.Lock.{until}
use x_ailock.Interface.{Method, Lock}
use x_ailock.Metrics.Interface.{Metrics}

-- `time.Now()` and `runtime.NumGoroutine()`.
pub record Runtime (S : Type 0) : Type 0 where
  pub now : S → ℤ
  pub num_goroutine : S → ℤ

pub record MetricsWrapper (S M : Type 0) : Type 0 where
  pub lock : Lock S
  pub lock_type : String
  pub backend : String
  pub metrics : Metrics M

-- The metrics of a wrapper: those of the caller, or the global ones for nil.
unfoldable pub choose_metrics : {M : Type 0} → Metrics M → Option (Metrics M) → Metrics M
choose_metrics global none = global
choose_metrics global (some metrics) = metrics

unfoldable pub new_metrics_wrapper :
    {S M : Type 0} → Metrics M → Lock S → String → String → Option (Metrics M) → MetricsWrapper S M
unfolding choose_metrics
new_metrics_wrapper global l lock_type backend metrics = record {
  lock = l;
  lock_type = lock_type;
  backend = backend;
  metrics = choose_metrics global metrics;
}

-- The code and the severity of an error that is a `*LockError` itself: a type assertion does not look
-- along the chain.
unfoldable pub error_labels : GoError → String × String
error_labels nil = ("UNKNOWN", "ERROR")
error_labels (lock e) = (code e, severity_string (severity e))
error_labels (foreign m e) = ("UNKNOWN", "ERROR")

-- What follows the reading of a length.
unfoldable pub note_length : {S M : Type 0} → (ℤ → M → M) → S → ℤ × GoError → ℤ → M → M
note_length book t (n, err) duration m = if is_nil err then book n m else m

module _ {S M : Type 0} (r : Runtime S) where
  open r use {now, num_goroutine}

  -- A call between two readings of the clock, and what is recorded after it.
  unfoldable pub timed : {A : Type 0} → Method S A → (S → A → ℤ → M → M) → Method (S × M) A
  timed call log (s, m) = elim (call s) [
    | none ↦ none
    | some (t, a) ↦ some ((t, log t a (until (now s) (now t)) m), a)
  ]

  -- A call that is passed on.
  unfoldable pub passed : {A : Type 0} → Method S A → Method (S × M) A
  passed call (s, m) = Option.map (λ r. ((r.0, m), r.1)) (call s)

  module _ (metrics : Metrics M) (lock_type backend : String) where
    unfoldable pub record_failure : GoError → M → M
    unfolding error_labels
    record_failure err m =
        let (error_code, error_type) = error_labels err in
        metrics.record_error lock_type backend error_code error_type m

    unfoldable pub update_concurrent_locks : ℤ → S → M → M
    update_concurrent_locks delta t m = metrics.record_goroutine_count (num_goroutine t) m

    -- What follows a call that returns an error only; `book` is the `Record` of its operation.
    unfoldable pub note_outcome : (Bool → ℤ → M → M) → ℤ → S → GoError → ℤ → M → M
    unfolding record_failure update_concurrent_locks
    note_outcome book delta t err duration m =
        let booked = book (is_nil err) duration m in
        if is_nil err then update_concurrent_locks delta t booked else record_failure err booked

    unfoldable pub note_extension : (Bool → ℤ → M → M) → S → Bool × GoError → ℤ → M → M
    unfolding record_failure
    note_extension book t (success, err) duration m =
        let booked = book (success && is_nil err) duration m in
        if is_nil err then booked else record_failure err booked

    unfoldable pub note_attempt : (Bool → ℤ → M → M) → S → Bool × GoError → ℤ → M → M
    unfolding note_extension update_concurrent_locks
    note_attempt book t (success, err) duration m =
        let noted = note_extension book t (success, err) duration m in
        if success && is_nil err then update_concurrent_locks (pos 1) t noted else noted

  module _ (w : MetricsWrapper S M) where
    open w use {lock_type, backend, metrics}

    unfoldable pub try_lock : List LockOption → Method (S × M) (Bool × GoError)
    unfolding timed note_attempt
    try_lock opts =
        timed (w.lock.try_lock opts) (
          note_attempt metrics lock_type backend
            (metrics.record_lock_try_acquire lock_type backend))

    unfoldable pub lock_timed : List LockOption → Method (S × M) GoError
    unfolding timed note_outcome
    lock_timed opts = timed (w.lock.lock opts) (
        note_outcome metrics lock_type backend (metrics.record_lock_acquire lock_type backend)
          (pos 1))

    unfoldable pub unlock : Method (S × M) GoError
    unfolding timed note_outcome
    unlock = timed w.lock.unlock (
        note_outcome metrics lock_type backend (metrics.record_lock_release lock_type backend)
          (negsuc 0))

    unfoldable pub extend : ℤ → Method (S × M) (Bool × GoError)
    unfolding timed note_extension
    extend ttl =
        timed (w.lock.extend ttl)
          (note_extension metrics lock_type backend (metrics.record_lock_extend lock_type backend))

    -- The wrapper is a lock itself.
    unfoldable pub wrapped_lock : Lock (S × M)
    unfolding lock_timed try_lock unlock extend passed
    wrapped_lock = record {
      lock = lock_timed;
      try_lock = try_lock;
      unlock = unlock;
      extend = extend;
      is_locked = passed w.lock.is_locked;
      get_ttl = passed w.lock.get_ttl;
      get_key = passed w.lock.get_key;
      get_value = passed w.lock.get_value;
    }
