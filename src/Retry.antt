-- ===== src/Retry.antt =====
-- lock.go, the retry loop that every blocking `Lock` goes through: `RetryWithTimeout`,
-- `RetryLockOperation` and the retry configuration.
-- The context and the clock are not the package's own: they stand in `World`, over a state that an
-- attempt and a sleep change. A loop takes fuel, and `none` is a loop that ran out of it.
pub mod Outcome
pub mod Settled
pub mod First
mod Tests
use x_ailock.Base.{
  ℕ, zero, suc, ◌+◌, ℤ, pos, ◌+ℤ◌, ◌≤ℤ◌, ltb_ℤ, String, Bool, true, false, Option, none, some, List,
  if◌then◌else◌,
}
use x_ailock.Errors.{GoError, nil, lock, foreign, new_acquire_timeout_error}
use x_ailock.Config.{LockOption, apply_lock_options}

-- What the loop asks of its surroundings: `ctx.Err()`, which is nil until the context is done,
-- `time.Now()` and `time.Sleep(d)`, which lasts `d` at least.
pub record World (S : Type 0) : Type 0 where
  pub cancelled : S → GoError
  pub now : S → ℤ
  pub sleep : ℤ → S → S
  pub sleep_lasts : (d : ℤ) (s : S) → now s +ℤ d ≤ℤ now (sleep d s)

pub record RetryConfig : Type 0 where
  pub timeout : ℤ
  pub interval : ℤ
  pub key : String

unfoldable pub new_retry_config : String → ℤ → ℤ → RetryConfig
new_retry_config key timeout interval = record { timeout = timeout; interval = interval; key = key }

unfoldable pub new_retry_config_from_lock_options : String → String → List LockOption → RetryConfig
new_retry_config_from_lock_options key unique opts =
    let config = apply_lock_options unique opts in
    record { timeout = config.acquire_timeout; interval = config.retry_interval; key = key }

-- What an attempt returns: success, result, error.
abbrev pub Attempt : Type 0 → Type 0
Attempt A = Bool × A × GoError

-- One turn of the loop: it returns from the function, or goes round again.
pub data Turn (S A : Type 0) : Type 0 where
  done : S → A × GoError → Turn S A
  again : S → Turn S A

module _ {S A : Type 0} (w : World S) (zero_value : A) where
  -- The tail of a turn, on what the attempt returned.
  judge : ℤ → S × Attempt A → Turn S A
  judge interval (s, (success, result, nil)) =
      if success then done s (result, nil) else again (w.sleep interval s)
  judge interval (s, (success, result, lock e)) = done s (zero_value, lock e)
  judge interval (s, (success, result, foreign m e)) = done s (zero_value, foreign m e)

  -- The checks that precede the attempt.
  turn : RetryConfig → ℤ → (S → S × Attempt A) → S → Turn S A
  unfolding judge
  turn config deadline operation s = elim (w.cancelled s) [
    | nil ↦
        if ltb_ℤ deadline (w.now s)
        then done s (zero_value, lock (new_acquire_timeout_error config.key config.timeout))
        else judge config.interval (operation s)
    | lock e ↦ done s (zero_value, lock e)
    | foreign m e ↦ done s (zero_value, foreign m e)
  ]

  retry_loop : ℕ → RetryConfig → ℤ → (S → S × Attempt A) → S → Option (S × A × GoError)
  retry_loop zero config deadline operation s = none
  retry_loop (suc fuel) config deadline operation s = elim (turn config deadline operation s) [
    | done s' r ↦ some (s', r.0, r.1)
    | again s' ↦ retry_loop fuel config deadline operation s'
  ]

  unfoldable pub retry_with_timeout :
      ℕ → RetryConfig → (S → S × Attempt A) → S → Option (S × A × GoError)
  unfolding retry_loop turn judge
  retry_with_timeout fuel config operation s =
      retry_loop fuel config (w.now s +ℤ config.timeout) operation s

-- An attempt on a lock: acquired, error.
abbrev pub LockAttempt : Type 0
LockAttempt = Bool × GoError

-- The closure that `RetryLockOperation` passes on: the success is the result too.
abbrev pub as_attempt : {S : Type 0} → S × LockAttempt → S × Attempt Bool
as_attempt (s, (success, err)) = (s, (success, success, err))

abbrev pub drop_result : {S : Type 0} → Option (S × Bool × GoError) → Option (S × GoError)
drop_result none = none
drop_result (some (s, result, err)) = some (s, err)

unfoldable pub retry_lock_operation :
    {S : Type 0} → World S → ℕ → RetryConfig → (S → S × LockAttempt) → S → Option (S × GoError)
unfolding retry_with_timeout
retry_lock_operation w fuel config operation s =
    drop_result (retry_with_timeout w false fuel config (λ t. as_attempt (operation t)) s)
