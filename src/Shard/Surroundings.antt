-- ===== src/Shard/Surroundings.antt =====
-- What the calls of a local lock need around them: the clock, the drawing of values, and the other
-- goroutines, which act whenever a call does not hold the mutex of its object, and on other objects then.
use x_ailock.Base.{ℕ, ℤ, ◌+ℤ◌, ◌≤ℤ◌, String, ◌≡◌}
use x_ailock.Errors.{GoError}
use x_ailock.Shard.Manager.{ShardedLockManager}

module _ (T : Type 0) where
  -- `meets` is the time until the mutex of an object is taken, in which anybody may act, and `stays p` time
  -- that passes while that of object `p` is held. Then calls on this object wait. A cleanup of the manager
  -- does not wait: `cleanupLock` and `performCleanup` reset an object without its mutex. These
  -- surroundings are those in which no cleanup resets the object of a call while the call has the mutex.
  pub record Surroundings : Type 1 where
    pub W : Type 0
    pub manager : W → ShardedLockManager T
    pub put : ShardedLockManager T → W → W
    pub now : W → ℤ
    pub cancelled : W → GoError
    pub unique : W → String
    pub meets : W → W
    pub stays : ℕ → W → W
    pub sleep : ℤ → W → W
    pub manager_put : (m : ShardedLockManager T) (w : W) → manager (put m w) ≡ m
    pub now_put : (m : ShardedLockManager T) (w : W) → now (put m w) ≡ now w
    pub meets_forward : (w : W) → now w ≤ℤ now (meets w)
    pub stays_forward : (p : ℕ) (w : W) → now w ≤ℤ now (stays p w)
    pub stays_keeps : (p : ℕ) (w : W) → (manager (stays p w)).object p ≡ (manager w).object p
    pub sleep_lasts : (d : ℤ) (w : W) → now w +ℤ d ≤ℤ now (sleep d w)
