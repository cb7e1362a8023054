-- ===== src/Retry/Tests.antt =====
-- A world whose state is a clock that each sleep moves on.
use x_ailock.Base.{ℕ, ◌+◌, pos, pos_part, ◌+ℤ◌, some, ◌≡◌, refl, arith, leb, int_laws}
use x_ailock.Errors.{GoError, nil}
use x_ailock.Retry.{World, RetryConfig, LockAttempt, retry_lock_operation}
use x_ailock.Retry.Outcome.{LockEnded, retry_lock_operation-LockEnded}

-- The clock in nanoseconds; a sleep lasts exactly as long as it is asked to.
abbrev clock : World ℕ
clock = record {
  cancelled = λ s. nil;
  now = λ s. pos s;
  sleep = λ d s. s + pos_part d;
  sleep_lasts = λ d s. omega int_laws;
}

-- The lock is free from instant 5 on, and an attempt takes a nanosecond.
abbrev late_lock : ℕ → ℕ × LockAttempt
late_lock s = (s + 1, (leb 5 s, nil))

abbrev patient : RetryConfig
patient = record { timeout = pos 20; interval = pos 2; key = "orders" }

late_lock_taken : retry_lock_operation clock 22 patient late_lock 0 ≡ some (7, nil)
unfolding retry_lock_operation ◌+ℤ◌
late_lock_taken = refl

retry_lock_operation-LockEnded_example :
    (s' : ℕ) × (err : GoError) × (retry_lock_operation clock 22 patient late_lock 0
      ≡ some (s', err))
    × LockEnded clock patient late_lock (pos 0 +ℤ pos 20) s' err
retry_lock_operation-LockEnded_example =
    retry_lock_operation-LockEnded clock patient late_lock (λ s. omega arith) (omega arith) 0
