-- ===== src/Watchdog/Guarded/Tests.antt =====
-- A local lock with a watchdog.
use x_ailock.Base.{ℕ, pos, ◌+ℤ◌, true, false, some, List, [], ◌∷◌, ◌≡◌, refl, arith}
use x_ailock.Errors.{GoError, nil}
use x_ailock.Interface.{Lock}
use x_ailock.Interface.Calls.{tries, releases, asks_key}
use x_ailock.Shard.Alone.{alone, idle}
use x_ailock.Shard.Manager.{ShardedLockManager}
use x_ailock.Shard.Handles.{Handle, local_simple_lock}
use x_ailock.Watchdog.{WatchdogImpl, new_watchdog, perform_extend}
use x_ailock.Watchdog.Guarded.{guarded_lock, ticks}
use x_ailock.Watchdog.Guarded.Apart.{GuardedCall, on_the_lock, begins, ends}
use x_ailock.Watchdog.Guarded.Stray.{stray_tick_extends}
use x_ailock.Watchdog.Guarded.Alive.{Happening, ticks_at, contends, guard_all, guard_all-holder}
use x_ailock.Config.{LockConfig, apply_lock_options}
use x_ailock.Shard.Lock.{ShardedLock}
use x_ailock.Shard.Lock.Holding.{holder}
use x_ailock.Shard.Lock.Contention as Contention
use x_ailock.Shard.Lock.Contention.{checks}

abbrev Place : Type 0
Place = ShardedLockManager (Unit {0}) × ℕ

abbrev first : Handle
first = record { key = "orders"; object = 0 }

abbrev orders : Lock Place
orders = local_simple_lock alone first

abbrev guard : WatchdogImpl
unfolding new_watchdog
guard = new_watchdog "orders" (pos 5) (pos 30)

abbrev calls : List GuardedCall
calls =
    on_the_lock (tries [])
    ∷ begins (pos 2) false
    ∷ on_the_lock releases
    ∷ ends
    ∷ on_the_lock asks_key
    ∷ []

-- Another client has taken the object.
abbrev taken : ShardedLockManager (Unit {0})
taken = record (idle tt) {
  object =
      λ p. record ((idle tt).object p) { value = "other"; unlocked = false; expire_at = pos 40 };
}

stray_tick_extends_example :
    ((s : Place) × (err : GoError) × ((guarded_lock orders).unlock ((idle tt, 7), guard)
        ≡ some ((s, guard), err)))
    × ((s : Place) × (ticks orders (λ w. pos w.1) ((taken, 20), guard)
          ≡ some ((s, perform_extend (pos s.1) true nil guard), (true, nil)))
        × ((s.0.object 0).value ≡ "other")
        × ((s.0.object 0).unlocked ≡ false)
        × ((s.0.object 0).expire_at ≡ pos 51))
unfolding ◌+ℤ◌ guard
stray_tick_extends_example = stray_tick_extends alone first (idle tt, 7) (taken, 20) guard refl

-- The first client has the object from instant 0 on, and others ask for it.
abbrev held : ShardedLock (Unit {0})
held = record ((idle tt).object 0) { value = "owner"; unlocked = false; expire_at = pos 30 }

abbrev other : LockConfig
unfolding apply_lock_options
other = apply_lock_options "other" []

abbrev night : List Happening
night =
    contends (checks (pos 4))
    ∷ ticks_at (pos 6) (pos 7)
    ∷ contends (Contention.tries (pos 31) (pos 31) other)
    ∷ ticks_at (pos 40) (pos 41)
    ∷ contends (Contention.tries (pos 45) (pos 45) other)
    ∷ []

guard_all-holder_example :
    let (l, d, took) = guard_all night held guard in
    (took ≡ false)
    × (holder (pos 60) l ≡ some ("owner", pos 70))
    × (d.stats.extend_count ≡ 2)
    × (d.stats.failed_extends ≡ 0)
unfolding ◌+ℤ◌ guard
guard_all-holder_example =
    guard_all-holder night held guard (pos 0) (pos 20) (pos 60) refl refl (omega arith)
      (omega arith) (omega arith, (omega arith, (omega arith, tt))) (omega arith)
