-- ===== src/Watchdog/Manager.antt =====
-- watchdog.go, WatchdogManager: a map from the keys of locks to their watchdogs. A stopped watchdog that
-- leaves the map is still that of its loop: a stop hands it back.
pub mod Table
use mathlib.Core.Option
use x_ailock.Base.{
  ℤ, String, Bool, true, false, Option, none, some, List, [], ◌∷◌, ◌≡◌, ◌≢◌, refl, arith, str_eq,
  eq_iff, eq_refl, if◌then◌else◌, inl, inr, ◌⊎◌, Bool-cases, Option-cases,
}
use x_ailock.Errors.{
  GoError, LockError, nil, lock, foreign, warning, text, with_context, new_lock_error,
  err_code_lock_not_found,
}
use x_ailock.Watchdog.{
  is_nil, WatchdogImpl, WatchdogStats, new_watchdog, start, stop, is_running, get_stats,
  invalid_operation, ctx_done,
}

abbrev pub Watchdogs : Type 0
Watchdogs = List (String × WatchdogImpl)

unfoldable pub find : String → Watchdogs → Option WatchdogImpl
find key [] = none
find key ((k, w) ∷ m) = if str_eq k key then some w else find key m

unfoldable pub remove : String → Watchdogs → Watchdogs
remove key [] = []
remove key ((k, w) ∷ m) = if str_eq k key then remove key m else (k, w) ∷ remove key m

-- `m.watchdogs[key] = watchdog`.
abbrev pub insert : String → WatchdogImpl → Watchdogs → Watchdogs
insert key w m = (key, w) ∷ remove key m

abbrev pub new_watchdog_manager : Watchdogs
new_watchdog_manager = []

unfoldable pub get_watchdog : String → Watchdogs → Option WatchdogImpl
unfolding find
get_watchdog key m = find key m

-- `GetWatchdogStats`, on the manager that it is called with, the global one.
unfoldable pub get_watchdog_stats : String → Watchdogs → Option WatchdogStats
unfolding get_watchdog
get_watchdog_stats key m = Option.map get_stats (get_watchdog key m)

unfoldable pub not_found : String → LockError
not_found key =
    with_context (new_lock_error err_code_lock_not_found "看门狗不存在" warning) "key" (text key)

-- The end of `StartWatchdog`: a watchdog that does not start does not enter the map.
unfoldable pub enter : String → Watchdogs → WatchdogImpl × GoError → Watchdogs × GoError
enter key m (w, nil) = (insert key w m, nil)
enter key m (w, lock e) = (m, lock e)
enter key m (w, foreign x e) = (m, foreign x e)

unfoldable pub start_watchdog : ℤ → Bool → String → ℤ → ℤ → Watchdogs → Watchdogs × GoError
unfolding find enter remove
start_watchdog now parent_done key interval ttl m = elim (find key m) [
  | none ↦ enter key m (start now parent_done (new_watchdog key interval ttl))
  | some existing ↦
      if is_running existing
      then (m, lock (invalid_operation "看门狗已存在且正在运行" key))
      else enter key (remove key m) (start now parent_done (new_watchdog key interval ttl))
]

unfoldable pub leave : String → Watchdogs → WatchdogImpl × GoError → Watchdogs × GoError
leave key m (w, nil) = (remove key m, nil)
leave key m (w, lock e) = (insert key w m, lock e)
leave key m (w, foreign x e) = (insert key w m, foreign x e)

unfoldable pub stop_watchdog : String → Watchdogs → Watchdogs × GoError
unfolding find leave not_found
stop_watchdog key m = elim (find key m) [
  | none ↦ (m, lock (not_found key))
  | some w ↦ leave key m (stop w)
]

-- The loop of `StopAll`, in the order in which the map is read, with the last error so far. It hands
-- back the watchdogs as their loops see them.
stop_each : GoError → Watchdogs → List WatchdogImpl × GoError
stop_each last [] = ([], last)
stop_each last ((k, w) ∷ m) =
    let (stopped, err) = stop w in
    let (others, end) = stop_each (if is_nil err then last else err) m in (stopped ∷ others, end)

unfoldable pub stop_all : Watchdogs → Watchdogs × List WatchdogImpl × GoError
unfolding stop_each
stop_all m = let (stopped, err) = stop_each nil m in ([], stopped, err)

unfoldable pub get_all_stats : Watchdogs → List (String × WatchdogStats)
get_all_stats [] = []
get_all_stats ((k, w) ∷ m) = (k, get_stats w) ∷ get_all_stats m
