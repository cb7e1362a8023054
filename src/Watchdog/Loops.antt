-- ===== src/Watchdog/Loops.antt =====
-- The goroutines of a watchdog: how many loops run, when they can end, and the panic of a restart.
use x_ailock.Base.{
  ◌+◌, ◌≤◌, ℤ, String, Bool, true, false, List, [], ◌∷◌, ◌≡◌, refl, if◌then◌else◌, ◌⊎◌, inl, inr,
  arith, Bool-cases, Option-cases,
}
use x_ailock.Redis.Server.{is_some}
use x_ailock.Errors.{nil, lock}
use x_ailock.Watchdog.{
  WatchdogImpl, Event, starts, stops, parent_ends, extends, returns, IsEnabled, AllEnabled, happen,
  happen_all, start_count, starts_loop, new_watchdog, start, stop, perform_extend, loop_returns,
  ctx_done, done_closed, has_panicked, is_running, invalid_operation, end_parent,
}

-- Each successful `Start` begins one loop, and each loop that returns closes `done` once: over any
-- history, the loops that run and the closes grow together by the successful starts.
happen-loops :
    (e : Event) (w : WatchdogImpl)
    → IsEnabled e w
    → (happen e w).loops + (happen e w).closes
      ≡ w.loops + w.closes + (if starts_loop e w then 1 else 0)
unfolding happen start stop perform_extend loop_returns
happen-loops (starts now parent_done) w h = ground arith
happen-loops stops w h = ground arith
happen-loops parent_ends w h = omega arith
happen-loops (extends now success err) w h = omega arith
happen-loops returns w h = omega arith

happen_all-loops :
    (es : List Event) (w : WatchdogImpl)
    → AllEnabled es w
    → (happen_all es w).loops + (happen_all es w).closes ≡ w.loops + w.closes + start_count es w
unfolding happen_all start_count
happen_all-loops [] w h = omega arith
happen_all-loops (e ∷ es) w h =
    omega (arith, happen-loops e w h.0, happen_all-loops es (happen e w) h.1)

-- What every operation keeps: a watchdog that runs has a context, and the loops that are left of one
-- that does not run have a context that is done.
abbrev IsSound : WatchdogImpl → Type 0
IsSound w = ((w.running ≡ true) × (is_some w.ctx ≡ true)) ⊎ (w.loops ≡ 0) ⊎ (ctx_done w ≡ true)

stop-IsSound : (w : WatchdogImpl) → IsSound w → IsSound (stop w).0
unfolding stop ctx_done
stop-IsSound w s = elim (Bool-cases w.running) [
  | inl e ↦ elim (Option-cases w.ctx) [
    | inl n ↦ ground arith
    | inr (c, n) ↦
        rw (e, n)
          (inr (inr (elim (Bool-cases c.parent_done) [ inl d ↦ rw d refl | inr d ↦ rw d refl ])))
  ]
  | inr e ↦ ground arith
]

end_parent-IsSound : (w : WatchdogImpl) → IsSound w → IsSound (end_parent w)
unfolding ctx_done
end_parent-IsSound w s = elim (Option-cases w.ctx) [
  | inl n ↦ ground arith
  | inr (c, n) ↦ rw n (inr (inr refl))
]

happen-IsSound : (e : Event) (w : WatchdogImpl) → IsEnabled e w → IsSound w → IsSound (happen e w)
unfolding happen start perform_extend loop_returns ctx_done
happen-IsSound (starts now parent_done) w h s = ground arith
happen-IsSound stops w h s = stop-IsSound w s
happen-IsSound parent_ends w h s = end_parent-IsSound w s
happen-IsSound (extends now success err) w h s = s
happen-IsSound returns w h s = ground arith

happen_all-IsSound :
    (es : List Event) (w : WatchdogImpl) → AllEnabled es w → IsSound w → IsSound (happen_all es w)
unfolding happen_all
happen_all-IsSound [] w h s = s
happen_all-IsSound (e ∷ es) w h s =
    happen_all-IsSound es (happen e w) h.1 (happen-IsSound e w h.0 s)

-- Over any history of a new watchdog in which no calls of `Start` and `Stop` overlap, the loops that run are the successful starts less the loops that
-- have returned, and once `IsRunning` is false, every loop that is left can return. If `Start` succeeds
-- once at most, there is one loop at most, and no panic.
pub happen_all-loops_end :
    (key : String) (interval ttl : ℤ) (es : List Event)
    → AllEnabled es (new_watchdog key interval ttl)
    → let w = happen_all es (new_watchdog key interval ttl) in
      let n = start_count es (new_watchdog key interval ttl) in
      (w.loops + w.closes ≡ n)
      × ((is_running w ≡ true) ⊎ (w.loops ≡ 0) ⊎ (ctx_done w ≡ true))
      × ((2 ≤ n) ⊎ ((w.loops ≤ 1) × (has_panicked w ≡ false)))
unfolding is_running has_panicked
happen_all-loops_end key interval ttl es h =
    let first = new_watchdog key interval ttl in
    let w = happen_all es first in
    let counted : w.loops + w.closes ≡ start_count es first =
      unfold new_watchdog in omega (arith, happen_all-loops es first h) in
    let sound = happen_all-IsSound es first h (unfold new_watchdog in inr (inl refl)) in
    (counted, elim sound [ inl s ↦ inl s.0 | inr s ↦ inr s ], ground (arith, counted))

-- A watchdog that has been stopped, and whose loop has returned, does not survive a restart: `Start` and
-- then `Stop` succeed, `Stop` does not wait for the new loop, and the return of that loop is a panic.
pub restart_panics :
    (now : ℤ) (w : WatchdogImpl)
    → w.running ≡ false
    → w.loops ≡ 0
    → w.closes ≡ 1
    → let (started, err) = start now false w in
      let (stopped, error) = stop started in
      (err ≡ nil)
      × (error ≡ nil)
      × (done_closed stopped ≡ true)
      × (stopped.loops ≡ 1)
      × (ctx_done stopped ≡ true)
      × (has_panicked (loop_returns stopped) ≡ true)
unfolding start stop done_closed ctx_done has_panicked loop_returns
restart_panics now w r l c = rw (r, l, c) (refl, refl, refl, refl, refl, refl)

-- When the parent context of a running watchdog ends, its loop returns, but the watchdog still says that
-- it runs, and `Start` is refused.
pub orphan_says_running :
    (now : ℤ) (parent_done : Bool) (w : WatchdogImpl)
    → w.running ≡ true
    → w.loops ≡ 1
    → is_some w.ctx ≡ true
    → let left = loop_returns (end_parent w) in
      (ctx_done (end_parent w) ≡ true)
      × (left.loops ≡ 0)
      × (is_running left ≡ true)
      × (start now parent_done left ≡ (left, lock (invalid_operation "看门狗已经在运行" w.key)))
unfolding start ctx_done loop_returns is_running
orphan_says_running now parent_done w r l c = elim (Option-cases w.ctx) [
  | inl n ↦ ground arith
  | inr (x, n) ↦ (rw n refl, omega arith, r, rw r refl)
]
