-- ===== src/Watchdog/Manager/Table.antt =====
-- The map of the watchdog manager: which key has which watchdog after each call.
use x_ailock.Base.{
  ℤ, String, Bool, true, false, none, some, [], ◌∷◌, ◌≡◌, refl, arith, str_eq, eq_iff,
  if◌then◌else◌, inl, inr, ◌⊎◌, Bool-cases, Option-cases,
}
use x_ailock.Errors.{nil, lock}
use x_ailock.Watchdog.{WatchdogImpl, new_watchdog, start, is_running, invalid_operation}
use x_ailock.Watchdog.Manager.{Watchdogs, find, remove, insert, enter, start_watchdog}

-- A key that was removed is not found, and the others are as they were.
find-remove :
    (key j : String) (m : Watchdogs)
    → find j (remove key m) ≡ (if str_eq key j then none else find j m)
unfolding find remove
find-remove key j [] = ground arith
find-remove key j ((k, w) ∷ m) =
    ground (arith, find-remove key j m, eq_iff k key, eq_iff key j, eq_iff k j)

find-insert :
    (key j : String) (w : WatchdogImpl) (m : Watchdogs)
    → find j (insert key w m) ≡ (if str_eq key j then some w else find j m)
unfolding find
find-insert key j w m = ground (arith, find-remove key j m)

find-insert_again :
    (key j : String) (w : WatchdogImpl) (m : Watchdogs)
    → find j (insert key w (remove key m)) ≡ (if str_eq key j then some w else find j m)
find-insert_again key j w m =
    ground (arith, find-insert key j w (remove key m), find-remove key j m)

start_runs :
    (now : ℤ) (parent_done : Bool) (key : String) (interval ttl : ℤ)
    → is_running (start now parent_done (new_watchdog key interval ttl)).0 ≡ true
unfolding is_running start new_watchdog
start_runs now parent_done key interval ttl = refl

enter_started :
    (now : ℤ) (parent_done : Bool) (key : String) (interval ttl : ℤ) (m : Watchdogs)
    → enter key m (start now parent_done (new_watchdog key interval ttl))
      ≡ (insert key (start now parent_done (new_watchdog key interval ttl)).0 m, nil)
unfolding enter start new_watchdog
enter_started now parent_done key interval ttl m = refl

module _ (now : ℤ) (parent_done : Bool) (key : String) (interval ttl : ℤ) (m : Watchdogs) where
  started : WatchdogImpl
  started = (start now parent_done (new_watchdog key interval ttl)).0

  start_absent :
      find key m ≡ none
      → start_watchdog now parent_done key interval ttl m ≡ (insert key started m, nil)
  unfolding started start_watchdog
  start_absent n = rw (start_watchdog, n) (enter_started now parent_done key interval ttl m)

  start_busy :
      (old : WatchdogImpl)
      → find key m ≡ some old
      → is_running old ≡ true
      → start_watchdog now parent_done key interval ttl m
        ≡ (m, lock (invalid_operation "看门狗已存在且正在运行" key))
  unfolding start_watchdog
  start_busy old n e = rw (start_watchdog, n, e) refl

  start_idle :
      (old : WatchdogImpl)
      → find key m ≡ some old
      → is_running old ≡ false
      → start_watchdog now parent_done key interval ttl m ≡ (insert key started (remove key m), nil)
  unfolding started start_watchdog
  start_idle old n e =
      rw (start_watchdog, n, e) (enter_started now parent_done key interval ttl (remove key m))

-- `StartWatchdog` fails exactly when the key has a watchdog that says that it runs, and then changes
-- nothing. Otherwise it enters a running watchdog with the given interval under the key, in place of
-- one that does not run, and leaves every other key as it was.
pub start_watchdog-find :
    (now : ℤ) (parent_done : Bool) (key j : String) (interval ttl : ℤ) (m : Watchdogs)
    → let (m', err) = start_watchdog now parent_done key interval ttl m in
      ((w : WatchdogImpl) × (find key m ≡ some w)
        × (is_running w ≡ true)
        × (m' ≡ m)
        × (err ≡ lock (invalid_operation "看门狗已存在且正在运行" key)))
      ⊎ ((w : WatchdogImpl) × (err ≡ nil)
          × (w ≡ (start now parent_done (new_watchdog key interval ttl)).0)
          × (is_running w ≡ true)
          × (find j m' ≡ (if str_eq key j then some w else find j m)))
unfolding started
start_watchdog-find now parent_done key j interval ttl m =
    let w = (start now parent_done (new_watchdog key interval ttl)).0 in
    let runs = start_runs now parent_done key interval ttl in
    elim (Option-cases (find key m)) [
      | inl n ↦
          rw (start_absent now parent_done key interval ttl m n)
            (inr (w, refl, refl, runs, find-insert key j w m))
      | inr (old, n) ↦ elim (Bool-cases (is_running old)) [
        | inl e ↦
            rw (start_busy now parent_done key interval ttl m old n e) (inl (old, n, e, refl, refl))
        | inr e ↦
            rw (start_idle now parent_done key interval ttl m old n e)
              (inr (w, refl, refl, runs, find-insert_again key j w m))
      ]
    ]
