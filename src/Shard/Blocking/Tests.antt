-- ===== src/Shard/Blocking/Tests.antt =====
-- Local locks, with another goroutine or none.
use x_ailock.Base.{ℕ, refl, inl, arith}
use x_ailock.Interface.Contract.{IsHonestRw}
use x_ailock.Shard.ReadWrite.{RwLockData}
use x_ailock.Shard.Handles.Honest.Fair as Fair
use x_ailock.Shard.Handles.{Handle, local_rw_lock}
use x_ailock.Shard.Handles.Readers as Readers
use x_ailock.Shard.Handles.Readers.{local_rw_lock-not_IsHonestRw}
use x_ailock.Shard.Handles.Honest as Honest
use x_ailock.Shard.Manager.{ShardedLockManager, new_object}
use x_ailock.Shard.Alone.{alone, idle}
use x_ailock.Retry.Settled.{Settled}

abbrev shared : Handle
shared = record { key = "orders"; object = 0 }

-- One reader is in.
abbrev read : ShardedLockManager RwLockData × ℕ
read = (idle (record { readers = 1 }), 0)

local_rw_lock-not_IsHonestRw_example : ¬ (
    IsHonestRw
      (λ opts w. Unit {0})
      (Readers.Reading alone shared)
      (Honest.Locked alone shared)
      "orders"
      (local_rw_lock alone shared))
local_rw_lock-not_IsHonestRw_example =
    local_rw_lock-not_IsHonestRw alone shared (λ opts w. Unit {0}) (Honest.Locked alone shared)
      "orders" read (unfold new_object in inl refl) (unfold new_object in omega arith)
