-- ===== src/Shard/Blocking.antt =====
-- The blocking calls of the local locks: sharded_lock.go, `Lock`; local_rw.go, `RLock`; local_fair.go,
-- `Lock`. Each is the retry loop over an attempt on the shared object, which applies the options anew.
pub mod Returns
pub mod Immediate
mod Tests
use x_ailock.Base.{ℕ, ℤ, String, Bool, Option, List}
use x_ailock.Errors.{GoError}
use x_ailock.Config.{LockOption, LockConfig, apply_lock_options}
use x_ailock.Retry.{World, LockAttempt, retry_lock_operation, new_retry_config_from_lock_options}
use x_ailock.Shard.Lock.{ShardedLock, try_lock}
use x_ailock.Shard.ReadWrite.{RwLockData, try_rlock}
use x_ailock.Shard.Fair.{FairLockData}
use x_ailock.Shard.Fair as Fair
use x_ailock.Shard.Manager.{handle_try_lock}
use x_ailock.Shard.Surroundings.{Surroundings}

-- A `TryLock`, given its two readings of the clock and its configuration.
abbrev pub Trial : Type 0 → Type 0
Trial T = ℤ → ℤ → LockConfig → ShardedLock T → ShardedLock T × Bool × GoError

module _ {T : Type 0} (u : Surroundings T) where
  open u use {W, manager, put, now, meets, stays}

  -- The world as the retry loop sees it.
  abbrev pub retry_world : World W
  retry_world = record {
    cancelled = u.cancelled;
    now = now;
    sleep = u.sleep;
    sleep_lasts = u.sleep_lasts;
  }

  -- A `TryLock` of a handle on object `p`: the options, the mutex, the object.
  unfoldable pub attempt_on : Trial T → ℕ → List LockOption → W → W × LockAttempt
  unfolding handle_try_lock
  attempt_on trial p opts w =
      let config = apply_lock_options (u.unique w) opts in
      let taken = meets w in
      let done = stays p taken in
      let (m, success, err) =
        handle_try_lock (trial (now taken) (now done) config) p (manager done) in
      (put m done, (success, err))

  unfoldable pub lock_on : Trial T → ℕ → String → ℕ → List LockOption → W → Option (W × GoError)
  unfolding attempt_on
  lock_on trial fuel key p opts w =
      retry_lock_operation retry_world fuel
        (new_retry_config_from_lock_options key (u.unique w) opts) (attempt_on trial p opts) w

  -- `Lock` of any local lock, with the key that the object has.
  unfoldable pub lock_sharded : ℕ → ℕ → List LockOption → W → Option (W × GoError)
  unfolding lock_on
  lock_sharded fuel p opts w = lock_on try_lock fuel ((manager w).object p).key p opts w

-- `RLock` of a local read-write lock, with the key of its handle.
unfoldable pub rlock_local :
    (u : Surroundings RwLockData) → ℕ → String → ℕ → List LockOption → u.W → Option (u.W × GoError)
unfolding lock_on
rlock_local u fuel key p opts w = lock_on u (λ now later config. try_rlock now) fuel key p opts w

-- `Lock` of a local fair lock.
unfoldable pub lock_local_fair :
    (u : Surroundings FairLockData)
    → ℕ
    → String
    → ℕ
    → List LockOption
    → u.W
    → Option (u.W × GoError)
unfolding lock_on
lock_local_fair u fuel key p opts w = lock_on u Fair.try_lock fuel key p opts w
