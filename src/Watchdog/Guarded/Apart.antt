-- ===== src/Watchdog/Guarded/Apart.antt =====
-- A lock and its watchdog are apart: what is called on the one does not touch the other.
use mathlib.Core.Option
use x_ailock.Base.{ℤ, Bool, none, some, List, [], ◌∷◌, ◌≡◌, refl, arith, Option-cases, inl, inr}
use x_ailock.Interface.{Method, Lock}
use x_ailock.Interface.Calls.{
  LockCall, locks, tries, releases, extends_by, asks_locked, asks_ttl, asks_key, asks_value, Reply,
  call_lock, run,
}
use x_ailock.Watchdog.{WatchdogImpl, Event, starts, stops, happen, happen_all, start, stop}
use x_ailock.Watchdog.Guarded.{on_lock, on_watchdog, guarded_lock, guarded_start, guarded_stop}

-- A call of a client, on the lock or on the watchdog.
pub data GuardedCall : Type 0 where
  on_the_lock : LockCall → GuardedCall
  begins : ℤ → Bool → GuardedCall
  ends : GuardedCall

-- The calls on the lock, and those on the watchdog as its events.
abbrev pub lock_calls : List GuardedCall → List LockCall
lock_calls [] = []
lock_calls (on_the_lock c ∷ cs) = c ∷ lock_calls cs
lock_calls (begins now parent_done ∷ cs) = lock_calls cs
lock_calls (ends ∷ cs) = lock_calls cs

abbrev pub watchdog_calls : List GuardedCall → List Event
watchdog_calls [] = []
watchdog_calls (on_the_lock c ∷ cs) = watchdog_calls cs
watchdog_calls (begins now parent_done ∷ cs) = starts now parent_done ∷ watchdog_calls cs
watchdog_calls (ends ∷ cs) = stops ∷ watchdog_calls cs

module _ {S : Type 0} (l : Lock S) where
  -- A run of calls, and the replies of the lock.
  unfoldable pub run_guarded : List GuardedCall → Method (S × WatchdogImpl) (List Reply)
  run_guarded [] x = some (x, [])
  run_guarded (on_the_lock c ∷ cs) x = elim (call_lock (guarded_lock l) c x) [
    | none ↦ none
    | some (y, a) ↦ Option.map (λ r. (r.0, a ∷ r.1)) (run_guarded cs y)
  ]
  run_guarded (begins now parent_done ∷ cs) x = elim (guarded_start l now parent_done x) [
    | none ↦ none
    | some (y, err) ↦ run_guarded cs y
  ]
  run_guarded (ends ∷ cs) x = elim (guarded_stop l x) [
    | none ↦ none
    | some (y, err) ↦ run_guarded cs y
  ]

  call_guarded :
      (c : LockCall) (s : S) (d : WatchdogImpl)
      → call_lock (guarded_lock l) c (s, d) ≡ Option.map (λ r. ((r.0, d), r.1)) (call_lock l c s)
  unfolding call_lock guarded_lock on_lock
  call_guarded (locks opts) s d = ground arith
  call_guarded (tries opts) s d = ground arith
  call_guarded releases s d = ground arith
  call_guarded (extends_by ttl) s d = ground arith
  call_guarded asks_locked s d = ground arith
  call_guarded asks_ttl s d = ground arith
  call_guarded asks_key s d = ground arith
  call_guarded asks_value s d = ground arith

  -- Over any sequence of calls on a lock with a watchdog, the lock and its world, and the replies, are those
  -- of the calls on the lock alone, and the watchdog is as after the calls on it alone. So no `Unlock` stops
  -- the watchdog.
  pub run_guarded-run :
      (cs : List GuardedCall) (s : S) (d : WatchdogImpl)
      → run_guarded cs (s, d)
        ≡ Option.map
            (λ r. ((r.0, happen_all (watchdog_calls cs) d), r.1))
            (run (call_lock l) (lock_calls cs) s)
  unfolding run_guarded run happen_all happen guarded_start guarded_stop on_watchdog
  run_guarded-run [] s d = refl
  run_guarded-run (on_the_lock c ∷ cs) s d = elim (Option-cases (call_lock l c s)) [
    | inl e ↦ rw (run_guarded, call_guarded c s d, run, e) refl
    | inr ((t, a), e) ↦
        rw (run_guarded, call_guarded c s d, run, e, run_guarded-run cs t d) (ground arith)
  ]
  run_guarded-run (begins now parent_done ∷ cs) s d =
      run_guarded-run cs s (start now parent_done d).0
  run_guarded-run (ends ∷ cs) s d = run_guarded-run cs s (stop d).0
