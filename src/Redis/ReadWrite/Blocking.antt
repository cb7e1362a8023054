-- ===== src/Redis/ReadWrite/Blocking.antt =====
-- redis_rw.go, RLock and WLock: the retry loop over `TryRLock` and `TryWLock`. The state of `WLock` is the
-- value that the handle keeps and the world.
use x_ailock.Base.{
  ℕ, suc, ℤ, pos, pos_part, ◌<ℤ◌, ◌≤ℤ◌, String, Bool, true, Option, none, some, List, ◌≡◌, ◌≢◌, inl,
  inr, arith, ap, eq_refl, Option-cases, ◌∙◌,
}
use x_ailock.Errors.{GoError, nil}
use x_ailock.Config.{LockOption, apply_lock_options}
use x_ailock.Retry.{World, LockAttempt, retry_lock_operation, new_retry_config_from_lock_options}
use x_ailock.Retry.Settled.{Settled, retry_lock_operation-Settled}
use x_ailock.Redis.Server.{Redis, seconds}
use x_ailock.Redis.Expiry.{Expiry-cases}
use x_ailock.Redis.Client.{Surroundings}
use x_ailock.Redis.Client.Delivered.{sent-holds, sent-value}
use x_ailock.Redis.Scripts.{rw_lock_acquire_read, rw_lock_acquire_write}
use x_ailock.Redis.Simple.{replied_one}
use x_ailock.Redis.Simple.Blocking.{
  replied-one, retry_world, IsNetworkError, replied-IsNetworkError,
}
use x_ailock.Redis.ReadWrite.{RedisRwLock, read_key, write_key}
use x_ailock.Redis.ReadWrite.Exclusion.{write_key-ne-read_key, read_writer, read_taken}

module _ (r : Redis) (u : Surroundings r) (cancelled : u.W → GoError) (unique : u.W → String)
    (l : RedisRwLock) (opts : List LockOption) where
  open r use {State, get}
  open u use {W, server, now, send, sleep}

  abbrev pub plain_world : World W
  plain_world = record {
    cancelled = cancelled;
    now = now;
    sleep = sleep;
    sleep_lasts = u.sleep_lasts;
  }

  -- The closures of the two calls.
  unfoldable pub attempt_read : W → W × LockAttempt
  attempt_read w =
      let config = apply_lock_options (unique w) opts in
      let (w', answer) =
        send (rw_lock_acquire_read r (read_key l) (write_key l) (seconds config.lock_ttl)) w in
      (w', replied_one "acquire_read_lock" answer)

  unfoldable pub attempt_write : String × W → (String × W) × LockAttempt
  attempt_write (kept, w) =
      let config = apply_lock_options (unique w) opts in
      let (w', answer) =
        send
          (rw_lock_acquire_write r (read_key l) (write_key l) config.value
            (seconds config.lock_ttl))
          w in
      ((config.value, w'), replied_one "acquire_write_lock" answer)

  unfoldable pub rlock : ℕ → W → Option (W × GoError)
  unfolding attempt_read
  rlock fuel w =
      retry_lock_operation plain_world fuel
        (new_retry_config_from_lock_options l.key (unique w) opts) attempt_read w

  unfoldable pub wlock : ℕ → String × W → Option ((String × W) × GoError)
  unfolding attempt_write
  wlock fuel s =
      retry_lock_operation (retry_world r u cancelled unique) fuel
        (new_retry_config_from_lock_options l.key (unique s.1) opts) attempt_write s

  read_one :
      (t : Option ℤ) (s : State)
      → (rw_lock_acquire_read r (read_key l) (write_key l) t s).1 ≡ some (pos 1)
      → get (write_key l) (rw_lock_acquire_read r (read_key l) (write_key l) t s).0 ≡ none
  read_one t s e = elim (Option-cases (get (write_key l) s)) [
    | inl free ↦ read_writer r l t s free
    | inr (v, taken) ↦ absurd (ground (arith, e, ap (λ x. x.1) (read_taken r l t v s taken)))
  ]

  write_one :
      (v : String) (t : Option ℤ) (s : State)
      → (rw_lock_acquire_write r (read_key l) (write_key l) v t s).1 ≡ some (pos 1)
      → let s' = (rw_lock_acquire_write r (read_key l) (write_key l) v t s).0 in
        (get (write_key l) s' ≡ some v) × (get (read_key l) s' ≡ none)
  unfolding rw_lock_acquire_write
  write_one v t s = elim (Expiry-cases t) [
    | inl refused ↦ λ e. absurd (
        ground (
          arith,
          r.exists-get (read_key l) s,
          r.exists-get (write_key l) s,
          r.set_ex_refused (write_key l) v t s refused,
        ))
    | inr (m, e, p) ↦ rw e (λ q. ground (
      arith,
      r.exists-get (read_key l) s,
      r.exists-get (write_key l) s,
      r.set_ex_accepted (write_key l) v m s p,
      r.get-put (write_key l) (read_key l) v m s,
      r.get-put (write_key l) (write_key l) v m s,
      eq_refl (write_key l),
      write_key-ne-read_key l,
    ))
  ]

  pub attempt_read-free :
      (w t : W) → attempt_read w ≡ (t, (true, nil)) → get (write_key l) (server t) ≡ none
  unfolding attempt_read
  attempt_read-free w t e =
      let ttl = seconds (apply_lock_options (unique w) opts).lock_ttl in
      let script = rw_lock_acquire_read r (read_key l) (write_key l) ttl in
      let same : (send script w).0 ≡ t = ap (λ p. p.0) e in
      let (n, reply, one) = replied-one "acquire_read_lock" (send script w).1 (ap (λ p. p.1) e) in
      rw⁻¹ same (
        sent-holds r u script (λ s. get (write_key l) s ≡ none) w n (read_one ttl (server w)) reply
          one)

  -- The writer alone.
  abbrev pub IsWriter : String → State → Type 0
  IsWriter v s = (get (write_key l) s ≡ some v) × (get (read_key l) s ≡ none)

  pub attempt_write-IsWriter :
      (s t : String × W) → attempt_write s ≡ (t, (true, nil)) → IsWriter t.0 (server t.1)
  unfolding attempt_write
  attempt_write-IsWriter (kept, w) t e =
      let config = apply_lock_options (unique w) opts in
      let ttl = seconds config.lock_ttl in
      let script = rw_lock_acquire_write r (read_key l) (write_key l) config.value ttl in
      let same : (config.value, (send script w).0) ≡ t = ap (λ p. p.0) e in
      let (n, reply, one) = replied-one "acquire_write_lock" (send script w).1 (ap (λ p. p.1) e) in
      rw⁻¹ same (
        sent-holds r u script (IsWriter config.value) w n (write_one config.value ttl (server w))
          reply one)

  write_entered :
      (v : String) (t : Option ℤ) (s : State)
      → (rw_lock_acquire_write r (read_key l) (write_key l) v t s).1 ≡ some (pos 1)
      → (get (read_key l) s ≡ none) × (get (write_key l) s ≡ none)
  unfolding rw_lock_acquire_write
  write_entered v t s e = elim (Option-cases (get (read_key l) s)) [
    | inl unread ↦ elim (Option-cases (get (write_key l) s)) [
      | inl unwritten ↦ (unread, unwritten)
      | inr (x, there) ↦ absurd (
          ground
            (arith, e, unread, there, r.exists-get (read_key l) s, r.exists-get (write_key l) s))
    ]
    | inr (x, there) ↦ absurd (ground (arith, e, there, r.exists-get (read_key l) s))
  ]

  -- What a success says of the server before the request.
  pub attempt_read-joined :
      (w t : W) → attempt_read w ≡ (t, (true, nil)) → get (write_key l) (server w) ≡ none
  unfolding attempt_read
  attempt_read-joined w t e =
      let ttl = seconds (apply_lock_options (unique w) opts).lock_ttl in
      let script = rw_lock_acquire_read r (read_key l) (write_key l) ttl in
      let (n, reply, one) = replied-one "acquire_read_lock" (send script w).1 (ap (λ p. p.1) e) in
      let (_, ran) = sent-value r u script w n reply in
      elim (Option-cases (get (write_key l) (server w))) [
        | inl free ↦ free
        | inr (v, taken) ↦
            absurd (ground (arith, ran, one, ap (λ x. x.1) (read_taken r l ttl v (server w) taken)))
      ]

  pub attempt_write-entered :
      (s t : String × W)
      → attempt_write s ≡ (t, (true, nil))
      → (get (read_key l) (server s.1) ≡ none) × (get (write_key l) (server s.1) ≡ none)
  unfolding attempt_write
  attempt_write-entered (kept, w) t e =
      let config = apply_lock_options (unique w) opts in
      let ttl = seconds config.lock_ttl in
      let script = rw_lock_acquire_write r (read_key l) (write_key l) config.value ttl in
      let (n, reply, one) = replied-one "acquire_write_lock" (send script w).1 (ap (λ p. p.1) e) in
      let (_, ran) = sent-value r u script w n reply in
      let is_one : n ≡ pos 1 = ground (arith, one) in
      write_entered config.value ttl (server w) (ran ∙ ap some is_one)

  attempt_read-forward : (w : W) → now w ≤ℤ now (attempt_read w).0
  unfolding attempt_read
  attempt_read-forward w = u.send_forward _ w

  attempt_write-forward : (s : String × W) → now s.1 ≤ℤ now (attempt_write s).0.1
  unfolding attempt_write
  attempt_write-forward (kept, w) = u.send_forward _ w

  attempt_read-fails :
      (w t : W) (success : Bool) (err : GoError)
      → attempt_read w ≡ (t, (success, err))
      → err ≢ nil
      → IsNetworkError "acquire_read_lock" err
  unfolding attempt_read
  attempt_read-fails w t success err e n =
      let ttl = seconds (apply_lock_options (unique w) opts).lock_ttl in
      let script = rw_lock_acquire_read r (read_key l) (write_key l) ttl in
      replied-IsNetworkError "acquire_read_lock" (send script w).1 success err (ap (λ p. p.1) e) n

  attempt_write-fails :
      (s t : String × W) (success : Bool) (err : GoError)
      → attempt_write s ≡ (t, (success, err))
      → err ≢ nil
      → IsNetworkError "acquire_write_lock" err
  unfolding attempt_write
  attempt_write-fails (kept, w) t success err e n =
      let config = apply_lock_options (unique w) opts in
      let ttl = seconds config.lock_ttl in
      let script = rw_lock_acquire_write r (read_key l) (write_key l) config.value ttl in
      replied-IsNetworkError "acquire_write_lock" (send script w).1 success err (ap (λ p. p.1) e) n

  -- `RLock` of the Redis read-write lock, with a positive retry interval, returns within a fuel of its
  -- timeout in nanoseconds plus two. Either it returns nil, and no writer holds the lock; or a network error; or
  -- the error of its context; or a timeout, once its timeout has passed.
  pub rlock-free :
      (w : W)
      → pos 0 <ℤ (apply_lock_options (unique w) opts).retry_interval
      → (t : W) × (err : GoError) × (rlock
            (suc (suc (pos_part (apply_lock_options (unique w) opts).acquire_timeout)))
            w
          ≡ some (t, err))
        × Settled plain_world
            (new_retry_config_from_lock_options l.key (unique w) opts)
            (λ t. get (write_key l) (server t) ≡ none)
            (IsNetworkError "acquire_read_lock")
            (now w)
            t
            err
  unfolding rlock new_retry_config_from_lock_options
  rlock-free w h =
      retry_lock_operation-Settled plain_world
        (new_retry_config_from_lock_options l.key (unique w) opts) attempt_read
        (λ t. get (write_key l) (server t) ≡ none) (IsNetworkError "acquire_read_lock")
        attempt_read-free attempt_read-fails attempt_read-forward h w

  -- `WLock` of the Redis read-write lock, with a positive retry interval, returns within a fuel of its
  -- timeout in nanoseconds plus two. Either it returns nil, and the writer's key holds the value that the
  -- handle has kept, which its `WUnlock` will send, and there are no readers; or a network error; or the error of
  -- its context; or a timeout, once its timeout has passed.
  pub wlock-IsWriter :
      (s : String × W)
      → pos 0 <ℤ (apply_lock_options (unique s.1) opts).retry_interval
      → (t : String × W) × (err : GoError) × (wlock
            (suc (suc (pos_part (apply_lock_options (unique s.1) opts).acquire_timeout)))
            s
          ≡ some (t, err))
        × Settled
            (retry_world r u cancelled unique)
            (new_retry_config_from_lock_options l.key (unique s.1) opts)
            (λ t. IsWriter t.0 (server t.1))
            (IsNetworkError "acquire_write_lock")
            (now s.1)
            t
            err
  unfolding wlock new_retry_config_from_lock_options
  wlock-IsWriter s h =
      retry_lock_operation-Settled (retry_world r u cancelled unique)
        (new_retry_config_from_lock_options l.key (unique s.1) opts) attempt_write
        (λ t. IsWriter t.0 (server t.1)) (IsNetworkError "acquire_write_lock")
        attempt_write-IsWriter attempt_write-fails attempt_write-forward h s
