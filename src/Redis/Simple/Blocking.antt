-- ===== src/Redis/Simple/Blocking.antt =====
-- redis_simple.go, Lock: the retry loop over `TryLock`. The state is the value that the handle keeps and
-- the world; each attempt applies the options anew, with a value drawn from the world.
use x_ailock.Base.{
  ℕ, suc, ℤ, pos, pos_part, ◌<ℤ◌, ◌≤ℤ◌, eq_ℤ, String, Bool, true, Option, some, List, ◌≡◌, ◌≢◌,
  refl, inl, inr, arith, sym, ap, eq_refl,
}
use x_ailock.Errors.{GoError, nil, lock, wrap_network_error}
use x_ailock.Config.{LockOption, apply_lock_options}
use x_ailock.Retry.{World, LockAttempt, retry_lock_operation, new_retry_config_from_lock_options}
use x_ailock.Retry.Settled.{Settled, retry_lock_operation-Settled}
use x_ailock.Redis.Server.{Redis, Evaluated, value, fault, seconds}
use x_ailock.Redis.Expiry.{Expiry-cases}
use x_ailock.Redis.Client.{Surroundings}
use x_ailock.Redis.Client.Delivered.{sent-holds}
use x_ailock.Redis.Scripts.{simple_lock_acquire}
use x_ailock.Redis.Simple.{replied_one}
use x_ailock.Redis.Simple.Steps.{acquire_accepted, acquire_refused}

pub replied-one :
    (operation : String) (x : Evaluated ℤ)
    → replied_one operation x ≡ (true, nil)
    → (n : ℤ) × (x ≡ value n) × (eq_ℤ n (pos 1) ≡ true)
replied-one operation (value n) h = (n, refl, ap (λ p. p.0) h)
replied-one operation (fault e) h = absurd (ground arith)

-- What `TryLock` reports when its request is lost, or the reply, or the script fails.
abbrev pub IsNetworkError : String → GoError → Type 0
IsNetworkError operation err = (e : GoError) × (err ≡ lock (wrap_network_error e operation))

pub replied-IsNetworkError :
    (operation : String) (x : Evaluated ℤ) (success : Bool) (err : GoError)
    → replied_one operation x ≡ (success, err)
    → err ≢ nil
    → IsNetworkError operation err
replied-IsNetworkError operation (value n) success err h n_nil =
    absurd (n_nil (sym (ap (λ p. p.1) h)))
replied-IsNetworkError operation (fault e) success err h n_nil = (e, sym (ap (λ p. p.1) h))

module _ (r : Redis) (u : Surroundings r) (cancelled : u.W → GoError) (unique : u.W → String) where
  open r use {State, get}
  open u use {W, server, now, send, sleep}

  -- The world as the retry loop sees it.
  abbrev pub retry_world : World (String × W)
  retry_world = record {
    cancelled = λ s. cancelled s.1;
    now = λ s. now s.1;
    sleep = λ d s. (s.0, sleep d s.1);
    sleep_lasts = λ d s. u.sleep_lasts d s.1;
  }

  -- The closure of `Lock`: `TryLock` with the same options.
  unfoldable pub attempt : String → List LockOption → String × W → (String × W) × LockAttempt
  attempt key opts (held, w) =
      let config = apply_lock_options (unique w) opts in
      let (w', answer) =
        send (simple_lock_acquire r key config.value (seconds config.lock_ttl)) w in
      ((config.value, w'), replied_one "acquire_lock" answer)

  unfoldable pub lock_simple :
      ℕ → String → List LockOption → String × W → Option ((String × W) × GoError)
  unfolding attempt
  lock_simple fuel key opts s =
      retry_lock_operation retry_world fuel
        (new_retry_config_from_lock_options key (unique s.1) opts) (attempt key opts) s

  acquire_one :
      (k v : String) (t : Option ℤ) (s : State)
      → (simple_lock_acquire r k v t s).1 ≡ some (pos 1)
      → get k (simple_lock_acquire r k v t s).0 ≡ some v
  acquire_one k v t s = elim (Expiry-cases t) [
    | inl h ↦ rw (acquire_refused r k v t s h) (λ e. absurd (ground arith))
    | inr (m, e, p) ↦ rw e (λ q. ground (arith, acquire_accepted r k v k m s p, eq_refl k))
  ]

  pub attempt-holds :
      (key : String) (opts : List LockOption) (s : String × W) (t : String × W)
      → attempt key opts s ≡ (t, (true, nil))
      → get key (server t.1) ≡ some t.0
  unfolding attempt
  attempt-holds key opts (held, w) t e =
      let config = apply_lock_options (unique w) opts in
      let ttl = seconds config.lock_ttl in
      let script = simple_lock_acquire r key config.value ttl in
      let same : (config.value, (send script w).0) ≡ t = ap (λ p. p.0) e in
      let (n, reply, one) = replied-one "acquire_lock" (send script w).1 (ap (λ p. p.1) e) in
      rw⁻¹ same (
        sent-holds r u script (λ s. get key s ≡ some config.value) w n
          (acquire_one key config.value ttl (server w)) reply one)

  attempt-fails :
      (key : String) (opts : List LockOption) (s t : String × W) (success : Bool) (err : GoError)
      → attempt key opts s ≡ (t, (success, err))
      → err ≢ nil
      → IsNetworkError "acquire_lock" err
  unfolding attempt
  attempt-fails key opts (held, w) t success err e n =
      let config = apply_lock_options (unique w) opts in
      let script = simple_lock_acquire r key config.value (seconds config.lock_ttl) in
      replied-IsNetworkError "acquire_lock" (send script w).1 success err (ap (λ p. p.1) e) n

  attempt-forward :
      (key : String) (opts : List LockOption) (s : String × W)
      → now s.1 ≤ℤ now (attempt key opts s).0.1
  unfolding attempt
  attempt-forward key opts (held, w) = u.send_forward _ w

  -- `Lock` of the simple Redis lock, with a positive retry interval, returns within a fuel of its timeout
  -- in nanoseconds plus two. Either it returns nil, and the key of the lock holds the value that the handle has
  -- kept, which its `Unlock` will send; or a network error; or the error of its context; or a timeout, once its
  -- timeout has passed.
  pub lock_simple-holds :
      (key : String) (opts : List LockOption) (s : String × W)
      → pos 0 <ℤ (apply_lock_options (unique s.1) opts).retry_interval
      → (t : String × W) × (err : GoError) × (lock_simple
            (suc (suc (pos_part (apply_lock_options (unique s.1) opts).acquire_timeout)))
            key
            opts
            s
          ≡ some (t, err))
        × Settled retry_world
            (new_retry_config_from_lock_options key (unique s.1) opts)
            (λ t. get key (server t.1) ≡ some t.0)
            (IsNetworkError "acquire_lock")
            (now s.1)
            t
            err
  unfolding lock_simple new_retry_config_from_lock_options
  lock_simple-holds key opts s h =
      retry_lock_operation-Settled retry_world
        (new_retry_config_from_lock_options key (unique s.1) opts) (attempt key opts)
        (λ t. get key (server t.1) ≡ some t.0) (IsNetworkError "acquire_lock")
        (attempt-holds key opts) (attempt-fails key opts) (attempt-forward key opts) h s
