-- ===== src/Retry/Outcome.antt =====
-- The retry loop returns, and how.
use x_ailock.Base.{
  ℕ, zero, suc, ℤ, pos, pos_part, ◌+ℤ◌, ◌≤ℤ◌, ◌<ℤ◌, ltb_ℤ, Bool, true, false, some, ◌≡◌, ◌≢◌, refl,
  arith, int_laws, Bool-cases, inl, inr, ltb_ℤ→lt, not_ltb_ℤ→le,
}
use x_ailock.Errors.{GoError, nil, lock, foreign, new_acquire_timeout_error}
use x_ailock.Retry.{
  World, RetryConfig, Attempt, LockAttempt, Turn, done, again, judge, turn, retry_loop,
  retry_with_timeout, retry_lock_operation, as_attempt,
}

module _ {S A : Type 0} (w : World S) (zero_value : A) (config : RetryConfig)
    (operation : S → S × Attempt A) where
  -- How the loop may end: with the state and the outcome of an attempt that succeeded or failed
  -- with an error, with the context's error, or with a timeout past the deadline.
  pub data Ended (deadline : ℤ) (s : S) (result : A) (err : GoError) : Type 0 where
    acquired :
        (t : S) → operation t ≡ (s, (true, result, nil)) → err ≡ nil → Ended deadline s result err
    failed :
        (t : S) (success : Bool) (a : A)
        → operation t ≡ (s, (success, a, err))
        → err ≢ nil
        → result ≡ zero_value
        → Ended deadline s result err
    cancelled : w.cancelled s ≡ err → err ≢ nil → result ≡ zero_value → Ended deadline s result err
    timed_out :
        deadline <ℤ w.now s
        → result ≡ zero_value
        → err ≡ lock (new_acquire_timeout_error config.key config.timeout)
        → Ended deadline s result err

  -- A turn that returns, and one that goes on with a later clock.
  pub data Turned (deadline : ℤ) (s : S) (t : Turn S A) : Type 0 where
    ends :
        (s' : S) (r : A × GoError) → t ≡ done s' r → Ended deadline s' r.0 r.1 → Turned deadline s t
    goes_on :
        (s' : S)
        → t ≡ again s'
        → w.now s +ℤ config.interval ≤ℤ w.now s'
        → w.now s ≤ℤ deadline
        → Turned deadline s t

  module _ (forward : (s : S) → w.now s ≤ℤ w.now (operation s).0) where
    judge-Turned :
        (deadline : ℤ) (s s' : S) (success : Bool) (a : A) (e : GoError)
        → operation s ≡ (s', (success, a, e))
        → w.now s ≤ℤ w.now s'
        → w.now s ≤ℤ deadline
        → Turned deadline s (judge w zero_value config.interval (s', (success, a, e)))
    unfolding judge
    judge-Turned deadline s s' true a nil p m d = ends s' (a, nil) refl (acquired s p refl)
    judge-Turned deadline s s' false a nil p m d =
        goes_on (w.sleep config.interval s') refl
          (omega (int_laws, w.sleep_lasts config.interval s')) d
    judge-Turned deadline s s' success a (lock e) p m d =
        ends s' (zero_value, lock e) refl (failed s success a p (λ q. cc) refl)
    judge-Turned deadline s s' success a (foreign x e) p m d =
        ends s' (zero_value, foreign x e) refl (failed s success a p (λ q. cc) refl)

    attempt-Turned :
        (deadline : ℤ) (s : S)
        → w.now s ≤ℤ deadline
        → Turned deadline s (judge w zero_value config.interval (operation s))
    attempt-Turned deadline s d =
        judge-Turned deadline s (operation s).0 (operation s).1.0 (operation s).1.1
          (operation s).1.2 refl (forward s) d

    turn-Turned :
        (deadline : ℤ) (s : S) → Turned deadline s (turn w zero_value config deadline operation s)
    unfolding turn
    turn-Turned deadline s = split (w.cancelled s) refl
      where
        stop : GoError → A × GoError
        stop e = (zero_value, e)

        split :
            (c : GoError)
            → w.cancelled s ≡ c
            → Turned deadline s (turn w zero_value config deadline operation s)
        split nil p = elim (Bool-cases (ltb_ℤ deadline (w.now s))) [
          | inl late ↦
              rw (p, turn, late)
                (ends s (stop (lock (new_acquire_timeout_error config.key config.timeout))) refl
                  (timed_out (ltb_ℤ→lt deadline (w.now s) late) refl refl))
          | inr early ↦
              rw (p, turn, early)
                (attempt-Turned deadline s (not_ltb_ℤ→le deadline (w.now s) early))
        ]
        split (lock e) p = rw (p, turn) (ends s (stop (lock e)) refl (cancelled p (λ q. cc) refl))
        split (foreign m e) p =
            rw (p, turn) (ends s (stop (foreign m e)) refl (cancelled p (λ q. cc) refl))

    -- A deadline that is less than `fuel` nanoseconds off is met within `fuel + 1` turns.
    loop-Ended :
        pos 0 <ℤ config.interval
        → (fuel : ℕ) (deadline : ℤ) (s : S) → deadline <ℤ w.now s +ℤ pos fuel
        → (s' : S) × (result : A) × (err : GoError) × (retry_loop w zero_value
              (suc fuel)
              config
              deadline
              operation
              s
            ≡ some (s', result, err))
          × Ended deadline s' result err
    unfolding retry_loop
    loop-Ended i zero deadline s h = elim (turn-Turned deadline s) [
      | ends s' r p e ↦ (s', r.0, r.1, rw (p, retry_loop), e)
      | goes_on s' p m d ↦ absurd (omega (int_laws, h, m, d))
    ]
    loop-Ended i (suc fuel) deadline s h = elim (turn-Turned deadline s) [
      | ends s' r p e ↦ (s', r.0, r.1, rw (p, retry_loop), e)
      | goes_on s' p m d ↦
          rw (p, retry_loop) (loop-Ended i fuel deadline s' (omega (int_laws, h, m, i)))
    ]

    -- With a positive interval and an attempt that does not turn the clock back, the loop returns:
    -- a fuel of the timeout in nanoseconds plus two is enough. It returns the result of an attempt that
    -- succeeded; or else the zero value with the error of an attempt, with that of the context, or
    -- with the timeout error once the clock is past the deadline.
    pub retry_with_timeout-Ended :
        pos 0 <ℤ config.interval
        → (s : S)
        → (s' : S) × (result : A) × (err : GoError) × (retry_with_timeout w zero_value
              (suc (suc (pos_part config.timeout)))
              config
              operation
              s
            ≡ some (s', result, err))
          × Ended (w.now s +ℤ config.timeout) s' result err
    unfolding retry_with_timeout
    retry_with_timeout-Ended i s =
        loop-Ended i (suc (pos_part config.timeout)) (w.now s +ℤ config.timeout) s (omega int_laws)

-- How a blocking lock operation may end: acquired by an attempt that leaves the final state, with the
-- error of an attempt, with the context's error, or with a timeout past the deadline.
pub data LockEnded {S : Type 0} (w : World S) (config : RetryConfig)
    (operation : S → S × LockAttempt) (deadline : ℤ) (s : S) (err : GoError) : Type 0 where
  locked :
      (t : S)
      → operation t ≡ (s, (true, nil))
      → err ≡ nil
      → LockEnded w config operation deadline s err
  refused :
      (t : S) (success : Bool)
      → operation t ≡ (s, (success, err))
      → err ≢ nil
      → LockEnded w config operation deadline s err
  stopped : w.cancelled s ≡ err → err ≢ nil → LockEnded w config operation deadline s err
  expired :
      deadline <ℤ w.now s
      → err ≡ lock (new_acquire_timeout_error config.key config.timeout)
      → LockEnded w config operation deadline s err

as_attempt-true :
    {S : Type 0} (r : S × LockAttempt) {s : S} {b : Bool} {e : GoError} {a : Bool}
    → as_attempt r ≡ (s, (b, a, e))
    → r ≡ (s, (b, e))
as_attempt-true (s, (b, e)) h = ground arith

-- The same of the loop that the locks use: it returns within that fuel, and ends in one of the four
-- ways; so a nil error means that an attempt reported the lock as acquired.
pub retry_lock_operation-LockEnded :
    {S : Type 0} (w : World S) (config : RetryConfig) (operation : S → S × LockAttempt)
    → ((s : S) → w.now s ≤ℤ w.now (operation s).0)
    → pos 0 <ℤ config.interval
    → (s : S)
    → (s' : S) × (err : GoError) × (retry_lock_operation w
          (suc (suc (pos_part config.timeout)))
          config
          operation
          s
        ≡ some (s', err))
      × LockEnded w config operation (w.now s +ℤ config.timeout) s' err
unfolding retry_lock_operation
retry_lock_operation-LockEnded w config operation forward i s =
    let (s', result, err, p, e) =
      retry_with_timeout-Ended w false config (λ t. as_attempt (operation t)) forward i s in
    (
      s',
      err,
      rw p,
      elim e [
        | acquired t q n ↦ locked t (as_attempt-true (operation t) q) n
        | failed t success a q n z ↦ refused t success (as_attempt-true (operation t) q) n
        | cancelled q n z ↦ stopped q n
        | timed_out late z q ↦ expired late q
      ],
    )
