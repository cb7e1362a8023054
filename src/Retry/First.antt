-- ===== src/Retry/First.antt =====
-- A blocking call whose first attempt succeeds returns at once.
use x_ailock.Base.{
  suc, ℕ, ℤ, pos, ◌+ℤ◌, ◌≤ℤ◌, ltb_ℤ, true, false, some, ◌≡◌, refl, ap, arith, +ℤ_parts,
}
use x_ailock.Errors.{nil}
use x_ailock.Retry.{
  World, RetryConfig, Attempt, LockAttempt, done, retry_lock_operation, retry_with_timeout,
  retry_loop, turn, judge, as_attempt,
}

not_late : (now timeout : ℤ) → pos 0 ≤ℤ timeout → ltb_ℤ (now +ℤ timeout) now ≡ false
not_late now timeout h = ground (arith, +ℤ_parts now timeout)

turn-first :
    {S A : Type 0} (w : World S) (zero_value a : A) (config : RetryConfig) (deadline : ℤ)
    (operation : S → S × Attempt A) (s t : S)
    → w.cancelled s ≡ nil
    → ltb_ℤ deadline (w.now s) ≡ false
    → operation s ≡ (t, (true, a, nil))
    → turn w zero_value config deadline operation s ≡ done t (a, nil)
unfolding turn judge
turn-first w zero_value a config deadline operation s t c early e = rw (c, turn, early, e) refl

-- When the context is not done and the timeout is not negative, a first attempt that succeeds ends the
-- call, without a sleep.
pub retry_lock_operation-first :
    {S : Type 0} (w : World S) (config : RetryConfig) (operation : S → S × LockAttempt) (fuel : ℕ)
    (s t : S)
    → w.cancelled s ≡ nil
    → pos 0 ≤ℤ config.timeout
    → operation s ≡ (t, (true, nil))
    → retry_lock_operation w (suc fuel) config operation s ≡ some (t, nil)
unfolding retry_lock_operation retry_with_timeout retry_loop
retry_lock_operation-first w config operation fuel s t c h e =
    let first =
      turn-first w false true config (w.now s +ℤ config.timeout) (λ x. as_attempt (operation x)) s t
        c (not_late (w.now s) config.timeout h) (ap as_attempt e) in
    rw (first, retry_loop) refl
