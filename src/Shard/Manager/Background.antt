-- ===== src/Shard/Manager/Background.antt =====
-- sharded_lock.go, `Close` and the channels of the goroutine that a manager starts.
use x_ailock.Base.{ℕ, Bool, true, false, Option, none, some, if◌then◌else◌}
use x_ailock.Shard.Manager.{ShardedLockManager}
use x_ailock.Shard.Manager.Stats.{new_sharded_lock_manager}

-- Whether the channels `cleanupStop` and `cleanupDone` are closed; the second is when the goroutine has
-- returned.
pub record Background (T : Type 0) : Type 0 where
  pub manager : ShardedLockManager T
  pub stop_closed : Bool
  pub done_closed : Bool

module _ {T : Type 0} (fresh : T) where
  -- A new manager, whose goroutine runs.
  unfoldable pub started : ℕ → Background T
  started count = record {
    manager = new_sharded_lock_manager count fresh;
    stop_closed = false;
    done_closed = false;
  }

  -- The first statement of `Close`, which panics on a channel that is closed already. `Close` returns when
  -- `done_closed` holds.
  unfoldable pub close : Background T → Option (Background T)
  close b = if b.stop_closed then none else some (record b { stop_closed = true })
