-- ===== src/Watchdog/Tests.antt =====
-- Concrete watchdogs.
use x_ailock.Base.{◌+◌, ◌≤◌, ◌%◌, ◌^◌, pos, true, false, List, [], ◌∷◌, ◌≡◌, refl, ◌⊎◌, inl, arith}
use x_ailock.Errors.{nil}
use x_ailock.Watchdog.{
  WatchdogImpl, Event, starts, stops, extends, returns, happen, happen_all, start_count,
  new_watchdog, start, stop, loop_returns, ctx_done, done_closed, has_panicked, is_running,
  get_stats,
}
use x_ailock.Watchdog.Loops.{happen_all-loops_end, restart_panics}
use x_ailock.Watchdog.Stats.{tally_all, happen_all-get_stats}

-- A start, two extensions of which one fails, a stop, and the return of the loop.
abbrev run_once : List Event
run_once =
    starts (pos 0) false
    ∷ extends (pos 5) true nil
    ∷ extends (pos 10) false nil
    ∷ stops
    ∷ returns
    ∷ []

happen_all-loops_end_example :
    let w = happen_all run_once (new_watchdog "orders" (pos 5) (pos 30)) in
    let n = start_count run_once (new_watchdog "orders" (pos 5) (pos 30)) in
    (w.loops + w.closes ≡ n)
    × ((is_running w ≡ true) ⊎ (w.loops ≡ 0) ⊎ (ctx_done w ≡ true))
    × ((2 ≤ n) ⊎ ((w.loops ≤ 1) × (has_panicked w ≡ false)))
unfolding happen new_watchdog ctx_done
happen_all-loops_end_example =
    happen_all-loops_end "orders" (pos 5) (pos 30) run_once
      (tt, (omega arith, (omega arith, (tt, ((omega arith, inl refl), tt)))))

happen_all-get_stats_example :
    let first = new_watchdog "orders" (pos 5) (pos 30) in
    let stats = get_stats (happen_all run_once first) in
    let (succeeded, failed) = tally_all run_once first (0, 0) in
    (stats.extend_count ≡ succeeded % 2 ^ 64) × (stats.failed_extends ≡ failed % 2 ^ 64)
happen_all-get_stats_example = happen_all-get_stats "orders" (pos 5) (pos 30) run_once

abbrev stopped_once : WatchdogImpl
unfolding happen_all new_watchdog
stopped_once = happen_all run_once (new_watchdog "orders" (pos 5) (pos 30))

restart_panics_example :
    let (started, err) = start (pos 20) false stopped_once in
    let (stopped, error) = stop started in
    (err ≡ nil)
    × (error ≡ nil)
    × (done_closed stopped ≡ true)
    × (stopped.loops ≡ 1)
    × (ctx_done stopped ≡ true)
    × (has_panicked (loop_returns stopped) ≡ true)
unfolding stopped_once
restart_panics_example = restart_panics (pos 20) stopped_once refl refl refl

abbrev live : WatchdogImpl
unfolding start new_watchdog
live = (start (pos 0) false (new_watchdog "orders" (pos 5) (pos 30))).0
