-- ===== src/Factory/Tests.antt =====
-- Two back ends, and another type.
use mathlib.Core.Option
use x_ailock.Base.{ℕ, ◌^◌, ◌≤◌, pos, pos_part, true, false, none, some, List, [], ◌∷◌, ◌≡◌, arith}
use x_ailock.Interface.Calls.{simple, fair}
use x_ailock.Shard.Index.{requested}
use x_ailock.Interface.Contract.{IsHonest}
use x_ailock.Metrics.Interface.{default_metrics}
use x_ailock.Metrics.Wrapper.{Runtime, new_metrics_wrapper, wrapped_lock}
use x_ailock.Watchdog.Guarded.{guarded_lock}
use x_ailock.Shard.Alone.{alone}
use x_ailock.Shard.Manager.{ShardedLockManager}
use x_ailock.Shard.Handles.{Handle, local_simple_lock}
use x_ailock.Shard.Handles.Honest as Honest
use x_ailock.Shard.Handles.Honest.{local_simple_lock-IsHonest}
use x_ailock.Factory.Layers.{guarded_lock-IsHonest}
use x_ailock.Factory.{GlobalManagers, new_local_lock}
use x_ailock.Factory.Sharing.{Creation, create_all, new_local_lock-shared}

-- A fair lock of the same key, and a lock of another key.
abbrev others : List Creation
others =
    record { kind = fair; key = "orders"; shard_count = pos 8; reuse = false }
    ∷ record { kind = simple; key = "users"; shard_count = pos 128; reuse = true }
    ∷ []

new_local_lock-shared_example :
    (g : GlobalManagers) × (h : Handle) × (j : ℕ) × (new_local_lock 32 false simple "orders"
        (pos 20)
        none
      ≡ some (g, h))
    × ((g simple).shard_count ≡ 2 ^ j)
    × (pos_part (requested (pos 20)) ≤ 2 ^ j)
    × ((create_all others g simple).shard_count ≡ 2 ^ j)
    × (Option.map
          (λ r. r.1)
          (new_local_lock 32 true simple "orders" (pos 64) (some (create_all others g)))
        ≡ some h)
new_local_lock-shared_example =
    new_local_lock-shared simple "orders" (pos 20) (pos 64) false true others (omega arith)

abbrev place : Handle
place = record { key = "orders"; object = 0 }

abbrev clock : Runtime (ShardedLockManager (Unit {0}) × ℕ)
clock = record { now = λ w. pos w.1; num_goroutine = λ w. pos 4 }

guarded_lock-IsHonest_example :
    IsHonest
      (λ opts s. Honest.Usable alone place opts s.0.0)
      (λ opts s. Honest.Held alone place opts s.0.0)
      (λ s. Honest.Locked alone place s.0.0)
      (λ s t. Honest.Freed alone place s.0.0 t.0.0)
      (pos 1)
      "orders"
      (guarded_lock (
        wrapped_lock clock (
          new_metrics_wrapper default_metrics
            (local_simple_lock alone place)
            "SimpleLock"
            "Local"
            none)))
guarded_lock-IsHonest_example =
    guarded_lock-IsHonest clock default_metrics "SimpleLock" "Local" none
      (local_simple_lock alone place) (Honest.Usable alone place) (Honest.Held alone place)
      (Honest.Locked alone place) (Honest.Freed alone place) (pos 1) "orders"
      (local_simple_lock-IsHonest alone place)
