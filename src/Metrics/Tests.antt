-- ===== src/Metrics/Tests.antt =====
-- Concrete histories of the metrics.
use x_ailock.Base.{pos, true, false, List, [], ◌∷◌}
use x_ailock.Metrics.{acquiring, trying, watchdog_extending, new_default_metrics}
use x_ailock.Metrics.Recording.{
  Recording, operates, errs, locks, waits, memory, watchdog_stopping, resets, apply_all,
}
use x_ailock.Metrics.Snapshot.{get_stats}
use x_ailock.Metrics.Consistent.{IsConsistent, get_stats-IsConsistent}

abbrev busy : List Recording
busy =
    locks (pos 9)
    ∷ resets
    ∷ operates acquiring true (pos 10)
    ∷ locks (pos 3)
    ∷ operates trying true (pos 7)
    ∷ operates acquiring false (pos 25)
    ∷ waits (pos 4)
    ∷ locks (pos 2)
    ∷ []

abbrev troubled : List Recording
troubled =
    errs "Redis" "NETWORK_ERROR" "ERROR"
    ∷ watchdog_stopping
    ∷ errs "Local" "LOCK_NOT_FOUND" "ERROR"
    ∷ operates watchdog_extending false (pos 3)
    ∷ memory (pos 5)
    ∷ []

get_stats-IsConsistent_example : IsConsistent (get_stats (apply_all troubled new_default_metrics))
get_stats-IsConsistent_example = get_stats-IsConsistent troubled
