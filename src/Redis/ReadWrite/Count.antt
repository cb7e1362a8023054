-- ===== src/Redis/ReadWrite/Count.antt =====
-- The count of readers that the read-write lock in Redis keeps, and what a TTL with a fraction does to it.
use x_ailock.Base.{
  ℕ, zero, suc, ◌<◌, ◌^◌, ◌-◌, ◌*◌, ◌%◌, ℤ, pos, ◌<ℤ◌, String, true, false, Option, none, some, ◌≡◌,
  ◌≢◌, refl, arith, eq_refl,
}
use x_ailock.Errors.{nil, lock, wrap_network_error}
use x_ailock.Config.{LockConfig}
use x_ailock.Redis.Expiry.{seconds_whole}
use x_ailock.Redis.Server.{Redis, Reply, replied, reply_value, value, eval, seconds, script_error}
use x_ailock.Redis.Scripts.{
  rw_lock_acquire_read, rw_lock_release_read, rw_lock_acquire_write, rw_lock_status, count_down,
}
use x_ailock.Redis.ReadWrite.{
  RedisRwLock, read_key, write_key, try_rlock, runlock, try_wlock, get_read_count,
}

reply_value-some :
    {S A : Type 0} (p : Reply S A) (a : A) → p.1 ≡ some a → reply_value p ≡ (p.0, value a)
reply_value-some p a e = rw e refl

module _ (r : Redis) (l : RedisRwLock) where
  open r use {State, get, of_number}

  -- The key of the readers counts so many; it is missing for none.
  abbrev pub HasReaders : ℕ → State → Type 0
  HasReaders zero s = get (read_key l) s ≡ none
  HasReaders (suc n) s = get (read_key l) s ≡ some (of_number (suc n))

  incr_counts :
      (n : ℕ) (s : State)
      → n < 2 ^ 63 - 1
      → HasReaders n s
      → HasReaders (suc n) (r.incr (read_key l) s)
  incr_counts zero s b h = r.get-incr_new (read_key l) s h
  incr_counts (suc n) s b h = r.get-incr (read_key l) (suc n) s b h

  admitted : ℤ → State → State
  admitted m s = r.keep (read_key l) m (r.incr (read_key l) s)

  acquire_admits :
      (m : ℤ) (s : State)
      → pos 0 <ℤ m
      → get (write_key l) s ≡ none
      → rw_lock_acquire_read r (read_key l) (write_key l) (some m) s ≡ (admitted m s, some (pos 1))
  unfolding rw_lock_acquire_read admitted
  acquire_admits m s p w = ground (
    arith,
    r.exists-get (write_key l) s,
    r.expire_accepted (read_key l) m (r.incr (read_key l) s) p,
  )

  admitted-counts :
      (n : ℕ) (m : ℤ) (s : State)
      → n < 2 ^ 63 - 1
      → HasReaders n s
      → HasReaders (suc n) (admitted m s)
  unfolding admitted
  admitted-counts n m s b h =
      ground
        (arith, incr_counts n s b h, r.get-keep (read_key l) (read_key l) m (r.incr (read_key l) s))

  release_counts :
      (n : ℕ) (s : State)
      → HasReaders (suc n) s
      → let (s', reply) = rw_lock_release_read r (read_key l) s in
        (reply ≡ some (pos 1)) × HasReaders n s'
  unfolding rw_lock_release_read count_down
  release_counts zero s h =
      ground (
        arith,
        r.to_number-of_number 1,
        r.get-del (read_key l) (read_key l) s,
        eq_refl (read_key l),
      )
  release_counts (suc n) s h =
      ground (arith, r.to_number-of_number (suc (suc n)), r.get-decr (read_key l) (suc n) s h)

  -- Without a writer, with a TTL of whole seconds, a count below 2^63 - 1 and replies that arrive, the lock
  -- lets one more reader in and counts it; `GetReadCount` gives the count, and the reader's
  -- `RUnlock` succeeds and takes the count back to what it was.
  pub try_rlock-runlock :
      (config : LockConfig) (n k : ℕ) (s : State)
      → n < 2 ^ 63 - 1
      → 0 < k
      → config.lock_ttl ≡ pos (k * 1_000_000_000)
      → HasReaders n s
      → get (write_key l) s ≡ none
      → let (s', success, err) = try_rlock r replied config l s in
        (success ≡ true)
        × (err ≡ nil)
        × (get_read_count r replied l s' ≡ (suc n, nil))
        × ((runlock r replied l s').1 ≡ nil)
        × HasReaders n (runlock r replied l s').0
  unfolding try_rlock runlock get_read_count eval rw_lock_status
  try_rlock-runlock config n k s b p t h w =
      let (m, whole, q) = seconds_whole k p in
      let counted = admitted-counts n m s b h in
      let (left, fewer) = release_counts n (admitted m s) counted in
      rw
        (
          t,
          whole,
          acquire_admits m s q w,
          reply_value-some (rw_lock_release_read r (read_key l) (admitted m s)) (pos 1) left,
        )
        (refl, refl, rw (counted, r.to_number-of_number (suc n)) refl, refl, fewer)

  acquire_leaks :
      (s : State)
      → get (write_key l) s ≡ none
      → rw_lock_acquire_read r (read_key l) (write_key l) none s ≡ (r.incr (read_key l) s, none)
  unfolding rw_lock_acquire_read
  acquire_leaks s w =
      ground
        (arith, r.exists-get (write_key l) s, r.expire_refused (read_key l) (r.incr (read_key l) s))

  readers_keep_out :
      (n : ℕ) (v : String) (t : Option ℤ) (s : State)
      → HasReaders (suc n) s
      → rw_lock_acquire_write r (read_key l) (write_key l) v t s ≡ (s, some (pos 0))
  unfolding rw_lock_acquire_write
  readers_keep_out n v t s h = ground (arith, r.exists-get (read_key l) s)

  -- With a TTL that is no whole number of seconds, an attempt to read fails with a network error, but
  -- its reader stays in the count, with no expiry set: every attempt to write with any
  -- configuration then fails.
  pub fraction_leaks_reader :
      (config other : LockConfig) (n k : ℕ) (s : State)
      → n < 2 ^ 63 - 1
      → config.lock_ttl ≡ pos k
      → k % 1_000_000_000 ≢ 0
      → HasReaders n s
      → get (write_key l) s ≡ none
      → let (s', success, err) = try_rlock r replied config l s in
        (success ≡ false)
        × (err ≡ lock (wrap_network_error script_error "acquire_read_lock"))
        × HasReaders (suc n) s'
        × (let (l', s'', entered, refusal) = try_wlock r replied other l s' in
            (entered ≡ false) × (refusal ≡ nil))
  unfolding try_rlock try_wlock eval
  fraction_leaks_reader config other n k s b t f h w =
      let none_read : seconds (pos k) ≡ none = unfold seconds in ground arith in
      let counted = incr_counts n s b h in
      rw
        (
          t,
          none_read,
          acquire_leaks s w,
          readers_keep_out n other.value (seconds other.lock_ttl) (r.incr (read_key l) s) counted,
        )
        (refl, refl, counted, (refl, refl))
