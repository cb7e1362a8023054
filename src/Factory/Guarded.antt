-- ===== src/Factory/Guarded.antt =====
-- lock.go: the constructors of locks with a watchdog. The random part of the configuration's value is an
-- argument.
use mathlib.Core.Option
use x_ailock.Base.{ℕ, String, Bool, Option, none, some, List, ◌≡◌, refl, ap}
use x_ailock.Config.{LockConfig, LockOption, apply_lock_options}
use x_ailock.Interface.Calls.{Kind, simple, read_write, fair}
use x_ailock.Factory.{
  Globals, Backend, Created, failed, redis_lock, local_lock, with_metrics, new_lock,
}
use x_ailock.Watchdog.{WatchdogImpl}
use x_ailock.Watchdog.Guarded.{new_lock_watchdog}

-- A lock by itself, or an error, or a lock with its watchdog. The adapter of a fair lock adds nothing.
pub data Guarded (C : Type 0) : Type 0 where
  bare : Created C → Guarded C
  guarded : Created C → WatchdogImpl → Guarded C

module _ {C : Type 0} where
  -- The end of the two constructors that make a watchdog.
  unfoldable pub guard_created : String → LockConfig → Created C → Guarded C
  unfolding new_lock_watchdog
  guard_created key config (failed err) = bare (failed err)
  guard_created key config (redis_lock k name client) =
      guarded (redis_lock k name client) (new_lock_watchdog key config)
  guard_created key config (local_lock k h) =
      guarded (local_lock k h) (new_lock_watchdog key config)
  guard_created key config (with_metrics t n l) =
      guarded (with_metrics t n l) (new_lock_watchdog key config)

  -- `NewSimpleLockWithWatchdog`, `NewRWLockWithWatchdog` and `NewFairLockWithWatchdog`. That of a
  -- read-write lock makes no watchdog.
  unfoldable pub new_lock_with_watchdog :
      ℕ
      → Bool
      → (k : Kind) → String
      → Backend C
      → String
      → List LockOption
      → Globals
      → Option (Globals × Guarded C)
  unfolding new_lock guard_created apply_lock_options
  new_lock_with_watchdog fuel reuse simple key b unique opts g =
      Option.map (λ r. (r.0, guard_created key (apply_lock_options unique opts) r.1))
        (new_lock fuel reuse simple key b g)
  new_lock_with_watchdog fuel reuse read_write key b unique opts g =
      Option.map (λ r. (r.0, bare r.1)) (new_lock fuel reuse read_write key b g)
  new_lock_with_watchdog fuel reuse fair key b unique opts g =
      Option.map (λ r. (r.0, guard_created key (apply_lock_options unique opts) r.1))
        (new_lock fuel reuse fair key b g)

  abbrev pub bare_of : Guarded C → Created C
  bare_of (bare c) = c
  bare_of (guarded c d) = c

  guard_created-bare_of :
      (key : String) (config : LockConfig) (c : Created C)
      → bare_of (guard_created key config c) ≡ c
  unfolding guard_created
  guard_created-bare_of key config (failed err) = refl
  guard_created-bare_of key config (redis_lock k name client) = refl
  guard_created-bare_of key config (local_lock k h) = refl
  guard_created-bare_of key config (with_metrics t n l) = refl

  same_lock :
      (f : Created C → Guarded C)
      → ((c : Created C) → bare_of (f c) ≡ c)
      → (made : Option (Globals × Created C))
      → Option.map
          (λ (r : Globals × Guarded C). (r.0, bare_of r.1))
          (Option.map (λ r. (r.0, f r.1)) made)
        ≡ made
  same_lock f h none = refl
  same_lock f h (some (g, c)) = ap (λ d. some (g, d)) (h c)

  -- The constructors with a watchdog make the lock, or the error, that those without make, and the same
  -- change of the globals, whatever the options.
  pub new_lock_with_watchdog-new_lock :
      (fuel : ℕ) (reuse : Bool) (k : Kind) (key : String) (b : Backend C) (unique : String)
      (opts : List LockOption) (g : Globals)
      → Option.map
          (λ (r : Globals × Guarded C). (r.0, bare_of r.1))
          (new_lock_with_watchdog fuel reuse k key b unique opts g)
        ≡ new_lock fuel reuse k key b g
  unfolding new_lock_with_watchdog
  new_lock_with_watchdog-new_lock fuel reuse simple key b unique opts g =
      same_lock _ (guard_created-bare_of key (apply_lock_options unique opts))
        (new_lock fuel reuse simple key b g)
  new_lock_with_watchdog-new_lock fuel reuse read_write key b unique opts g =
      same_lock bare (λ c. refl) (new_lock fuel reuse read_write key b g)
  new_lock_with_watchdog-new_lock fuel reuse fair key b unique opts g =
      same_lock _ (guard_created-bare_of key (apply_lock_options unique opts))
        (new_lock fuel reuse fair key b g)
