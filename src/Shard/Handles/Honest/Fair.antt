-- ===== src/Shard/Handles/Honest/Fair.antt =====
-- The handle of a local fair lock keeps the promises of the interface Lock.
use x_ailock.Base.{String, some, List, ◌≡◌}
use x_ailock.Config.{LockOption, apply_lock_options}
use x_ailock.Interface.Contract.{Returns}
use x_ailock.Shard.Lock.Holding.{IsLeased}
use x_ailock.Shard.Fair.{FairLockData}
use x_ailock.Shard.Fair as Fair
use x_ailock.Shard.Fair.Turn.{front}
use x_ailock.Shard.Surroundings.{Surroundings}
use x_ailock.Shard.Handles.{Handle}

module _ (u : Surroundings FairLockData) (h : Handle) where
  open u use {W, manager, now, unique}

  -- The object is held for a value that an attempt has drawn, and which is at the front of the queue.
  abbrev pub HeldInTurn : List LockOption → W → Type 0
  HeldInTurn opts w =
      (v : String) × IsLeased (apply_lock_options v opts) (now w) ((manager w).object h.object)
      × (front ((manager w).object h.object).content.queue ≡ some (apply_lock_options v opts).value)
