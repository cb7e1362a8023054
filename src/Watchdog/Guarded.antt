-- ===== src/Watchdog/Guarded.antt =====
-- watchdog.go, `LockWithWatchdogImpl`: a lock with its watchdog. The state is that of the lock, with the
-- world around it, and the watchdog; the pointer to the global manager is never used.
pub mod Apart
pub mod Stray
pub mod Alive
mod Tests
use mathlib.Core.Option
use x_ailock.Base.{ℤ, String, Bool, Option, none, some, List, [], ◌∷◌}
use x_ailock.Errors.{GoError}
use x_ailock.Config.{LockConfig}
use x_ailock.Interface.{Method, Lock}
use x_ailock.Interface.Calls.{LockCall, call_lock}
use x_ailock.Watchdog.{
  WatchdogImpl, WatchdogStats, new_watchdog, start, stop, is_running, get_stats, perform_extend,
  Event, happen,
}

-- The interface `Watchdog`; a start is told the instant and whether the context of its caller is done.
pub record Watchdog (S : Type 0) : Type 0 where
  pub start : ℤ → Bool → Method S GoError
  pub stop : Method S GoError
  pub is_running : Method S Bool
  pub get_stats : Method S WatchdogStats

-- The interface `LockWithWatchdog`, which embeds two.
pub record LockWithWatchdog (S : Type 0) : Type 0 where
  pub as_lock : Lock S
  pub as_watchdog : Watchdog S

-- The watchdog of `NewLockWithWatchdog`, for a lock of that key.
unfoldable pub new_lock_watchdog : String → LockConfig → WatchdogImpl
unfolding new_watchdog
new_lock_watchdog key config = new_watchdog key config.watchdog_interval config.lock_ttl

module _ {S : Type 0} (l : Lock S) where
  unfoldable pub on_lock : {A : Type 0} → Method S A → Method (S × WatchdogImpl) A
  on_lock call (s, d) = Option.map (λ r. ((r.0, d), r.1)) (call s)

  unfoldable pub on_watchdog :
      {A : Type 0} → (WatchdogImpl → WatchdogImpl × A) → Method (S × WatchdogImpl) A
  on_watchdog method (s, d) = let (d', a) = method d in some ((s, d'), a)

  -- The methods of a lock.
  unfoldable pub guarded_lock : Lock (S × WatchdogImpl)
  unfolding on_lock
  guarded_lock = record {
    lock = λ opts. on_lock (l.lock opts);
    try_lock = λ opts. on_lock (l.try_lock opts);
    unlock = on_lock l.unlock;
    extend = λ ttl. on_lock (l.extend ttl);
    is_locked = on_lock l.is_locked;
    get_ttl = on_lock l.get_ttl;
    get_key = on_lock l.get_key;
    get_value = on_lock l.get_value;
  }

  -- The methods of a watchdog.
  unfoldable pub guarded_start : ℤ → Bool → Method (S × WatchdogImpl) GoError
  unfolding on_watchdog
  guarded_start now parent_done = on_watchdog (start now parent_done)

  unfoldable pub guarded_stop : Method (S × WatchdogImpl) GoError
  unfolding on_watchdog
  guarded_stop = on_watchdog stop

  unfoldable pub guarded_is_running : Method (S × WatchdogImpl) Bool
  unfolding on_watchdog
  guarded_is_running = on_watchdog (λ d. (d, is_running d))

  unfoldable pub guarded_get_stats : Method (S × WatchdogImpl) WatchdogStats
  unfolding on_watchdog
  guarded_get_stats = on_watchdog (λ d. (d, get_stats d))

  unfoldable pub lock_with_watchdog : LockWithWatchdog (S × WatchdogImpl)
  unfolding guarded_lock guarded_start guarded_stop guarded_is_running guarded_get_stats
  lock_with_watchdog = record {
    as_lock = guarded_lock;
    as_watchdog = record {
      start = guarded_start;
      stop = guarded_stop;
      is_running = guarded_is_running;
      get_stats = guarded_get_stats;
    };
  }

  -- `performExtend` with the `Extend` of the lock; the clock is read when it has returned.
  unfoldable pub ticks : (S → ℤ) → Method (S × WatchdogImpl) (Bool × GoError)
  ticks now (s, d) = elim (l.extend d.ttl s) [
    | none ↦ none
    | some (t, a) ↦ some ((t, perform_extend (now t) a.0 a.1 d), a)
  ]
