-- ===== src/Retry/Settled.antt =====
-- What a blocking call of a lock may come to, given what its attempts do.
use x_ailock.Base.{suc, ℤ, pos, pos_part, ◌+ℤ◌, ◌≤ℤ◌, ◌<ℤ◌, true, Bool, some, ◌≡◌, ◌≢◌, refl, arith}
use x_ailock.Errors.{GoError, nil, lock, new_acquire_timeout_error}
use x_ailock.Retry.{World, RetryConfig, LockAttempt, retry_lock_operation}
use x_ailock.Retry.Outcome.{
  LockEnded, locked, refused, stopped, expired, retry_lock_operation-LockEnded,
}

-- A nil error, for a state in which `P` holds; an error of an attempt, of which `R` holds; the error of the
-- context; or a timeout, once the timeout has passed since the call began.
pub data Settled {S : Type 0} (w : World S) (config : RetryConfig) (P : S → Type 0)
    (R : GoError → Type 0) (began : ℤ) (s : S) (err : GoError) : Type 0 where
  granted : err ≡ nil → P s → Settled w config P R began s err
  failed : err ≢ nil → R err → Settled w config P R began s err
  halted : err ≢ nil → w.cancelled s ≡ err → Settled w config P R began s err
  overdue :
      began +ℤ config.timeout <ℤ w.now s
      → err ≡ lock (new_acquire_timeout_error config.key config.timeout)
      → Settled w config P R began s err

pub Settled-map :
    {S : Type 0} {w : World S} {config : RetryConfig} {P : S → Type 0} (P' : S → Type 0)
    {R : GoError → Type 0} {began : ℤ} {s : S} {err : GoError}
    → (P s → P' s)
    → Settled w config P R began s err
    → Settled w config P' R began s err
Settled-map P' f (granted n h) = granted n (f h)
Settled-map P' f (failed n h) = failed n h
Settled-map P' f (halted n q) = halted n q
Settled-map P' f (overdue late q) = overdue late q

LockEnded-Settled :
    {S : Type 0} {w : World S} {config : RetryConfig} {operation : S → S × LockAttempt} {s : S}
    {err : GoError} (P : S → Type 0) (R : GoError → Type 0) (began : ℤ)
    → ((t : S) → operation t ≡ (s, (true, nil)) → P s)
    → ((t : S) (success : Bool) → operation t ≡ (s, (success, err)) → err ≢ nil → R err)
    → LockEnded w config operation (began +ℤ config.timeout) s err
    → Settled w config P R began s err
LockEnded-Settled P R began gives fails (locked t q n) = granted n (gives t q)
LockEnded-Settled P R began gives fails (refused t success q n) = failed n (fails t success q n)
LockEnded-Settled P R began gives fails (stopped q n) = halted n q
LockEnded-Settled P R began gives fails (expired late q) = overdue late q

-- The loop returns, and settles in one of these ways.
pub retry_lock_operation-Settled :
    {S : Type 0} (w : World S) (config : RetryConfig) (operation : S → S × LockAttempt)
    (P : S → Type 0) (R : GoError → Type 0)
    → ((t s : S) → operation t ≡ (s, (true, nil)) → P s)
    → ((t s : S) (success : Bool) (err : GoError)
        → operation t ≡ (s, (success, err))
        → err ≢ nil
        → R err)
    → ((s : S) → w.now s ≤ℤ w.now (operation s).0)
    → pos 0 <ℤ config.interval
    → (s : S)
    → (s' : S) × (err : GoError) × (retry_lock_operation w
          (suc (suc (pos_part config.timeout)))
          config
          operation
          s
        ≡ some (s', err))
      × Settled w config P R (w.now s) s' err
retry_lock_operation-Settled w config operation P R gives fails forward i s =
    let (s', err, p, e) = retry_lock_operation-LockEnded w config operation forward i s in
    (
      s',
      err,
      p,
      LockEnded-Settled P R (w.now s) (λ t. gives t s') (λ t success. fails t s' success err) e,
    )

-- An attempt that was successful, as a whole.
pub succeeded :
    {S : Type 0} (p : S × LockAttempt) → p.1.1 ≡ nil → p.1.0 ≡ true → p ≡ (p.0, (true, nil))
succeeded (t, (b, err)) z y = rw (z, y) refl

-- A nil error is that of a success.
pub Settled-nil :
    {S : Type 0} {w : World S} {config : RetryConfig} {P : S → Type 0} {R : GoError → Type 0}
    {began : ℤ} {s : S} {err : GoError}
    → Settled w config P R began s err
    → err ≡ nil
    → P s
Settled-nil (granted n held) z = held
Settled-nil (failed n why) z = absurd (n z)
Settled-nil (halted n q) z = absurd (n z)
Settled-nil (overdue late q) z = absurd (ground (arith, q, z))
