-- ===== src/Shard/Blocking/Immediate.antt =====
-- The blocking call of a local lock on an object that is free.
use x_ailock.Base.{ℤ, ◌<ℤ◌, true, ◌≡◌, ◌⊎◌}
use x_ailock.Shard.Lock.{ShardedLock}
use x_ailock.Shard.Surroundings.{Surroundings}

-- Nobody holds the object at `now`.
abbrev pub IsOpen : {T : Type 0} → ℤ → ShardedLock T → Type 0
IsOpen now l = (l.unlocked ≡ true) ⊎ (l.expire_at <ℤ now)
