-- ===== src/Watchdog.antt =====
-- watchdog.go: a watchdog, which extends a lock at intervals. Its goroutines run `watchdogLoop`, and
-- share its fields: the state counts the loops that run and the times that the channel `done` has been
-- closed, of which the second is a panic. The lock that is extended is not the watchdog's own: the
-- outcome of `Extend` is an argument, as are the instants that the clock shows. `Start` and `Stop` take no
-- mutex; each is one step here, so the histories are those in which no two of them overlap.
pub mod Loops
pub mod Stats
pub mod Manager
pub mod Guarded
mod Tests
use x_ailock.Base.{
  ℕ, suc, ◌+◌, ◌-◌, ◌<◌, ◌^◌, ◌%◌, ltb, leb, ℤ, pos, quot_ℤ, String, Bool, true, false, not, ◌||◌,
  ◌&&◌, Option, none, some, List, [], ◌∷◌, ◌≡◌, ◌⊎◌, if◌then◌else◌,
}
use x_ailock.Errors.{
  is_nil, GoError, LockError, nil, lock, foreign, warning, text, with_context, new_lock_error,
  err_code_invalid_operation,
}

-- The zero time is `none`.
pub record WatchdogStats : Type 0 where
  pub start_time : Option ℤ
  pub extend_count : ℕ
  pub failed_extends : ℕ
  pub last_extend_time : Option ℤ
  pub last_extend_result : Bool
  pub interval : ℤ

-- The context of a watchdog is done once its parent is, or once its own cancel function is called.
pub record Context : Type 0 where
  pub parent_done : Bool
  pub cancelled : Bool

pub record WatchdogImpl : Type 0 where
  pub key : String
  pub interval : ℤ
  pub ttl : ℤ
  pub running : Bool
  pub ctx : Option Context
  pub loops : ℕ
  pub closes : ℕ
  pub stats : WatchdogStats

unfoldable pub new_watchdog : String → ℤ → ℤ → WatchdogImpl
new_watchdog key interval ttl = record {
  key = key;
  interval = interval;
  ttl = ttl;
  running = false;
  ctx = none;
  loops = 0;
  closes = 0;
  stats = record {
    start_time = none;
    extend_count = 0;
    failed_extends = 0;
    last_extend_time = none;
    last_extend_result = false;
    interval = interval;
  };
}

unfoldable pub invalid_operation : String → String → LockError
invalid_operation message key =
    with_context (new_lock_error err_code_invalid_operation message warning) "key" (text key)

-- `Start`, with a parent context that is done already or not.
unfoldable pub start : ℤ → Bool → WatchdogImpl → WatchdogImpl × GoError
unfolding invalid_operation
start now parent_done w = if w.running then (w, lock (invalid_operation "看门狗已经在运行" w.key)) else (
  record w {
    running = true;
    ctx = some (record { parent_done = parent_done; cancelled = false });
    stats = record w.stats {
      start_time = some now;
      extend_count = 0;
      failed_extends = 0;
      last_extend_time = none;
      last_extend_result = false;
    };
    loops = w.loops + 1;
  },
  nil,
)

abbrev pub cancel_own : Option Context → Option Context
cancel_own none = none
cancel_own (some c) = some (record c { cancelled = true })

-- `Stop`, up to its wait for `done`.
unfoldable pub stop : WatchdogImpl → WatchdogImpl × GoError
unfolding invalid_operation
stop w =
    if w.running
    then (record w { running = false; ctx = cancel_own w.ctx }, nil)
    else (w, lock (invalid_operation "看门狗未在运行" w.key))

-- The wait `<-w.done` of `Stop` goes on once the channel is closed.
unfoldable pub done_closed : WatchdogImpl → Bool
done_closed w = ltb 0 w.closes

unfoldable pub is_running : WatchdogImpl → Bool
is_running w = w.running

unfoldable pub get_stats : WatchdogImpl → WatchdogStats
get_stats w = w.stats

-- `<-w.ctx.Done()` in the newest loop.
unfoldable pub ctx_done : WatchdogImpl → Bool
ctx_done w = elim w.ctx [ none ↦ false | some c ↦ c.parent_done || c.cancelled ]

-- A loop returns, and closes `done`.
unfoldable pub loop_returns : WatchdogImpl → WatchdogImpl
loop_returns w = record w { loops = w.loops - 1; closes = w.closes + 1 }

-- Closing a closed channel is a panic.
unfoldable pub has_panicked : WatchdogImpl → Bool
has_panicked w = ltb 1 w.closes

-- `performExtend`, at the instant when the extension has returned, with what it returned. A count is an
-- int64 that starts at 0, as a bit pattern.
unfoldable pub perform_extend : ℤ → Bool → GoError → WatchdogImpl → WatchdogImpl
perform_extend now success err w =
    let result = success && is_nil err in
    record w {
      stats = record w.stats {
        last_extend_time = some now;
        last_extend_result = result;
        extend_count = if result then (w.stats.extend_count + 1) % 2 ^ 64 else w.stats.extend_count;
        failed_extends =
            if result then w.stats.failed_extends else (w.stats.failed_extends + 1) % 2 ^ 64;
      };
    }

abbrev pub end_ctx : Option Context → Option Context
end_ctx none = none
end_ctx (some c) = some (record c { parent_done = true })

-- The parent context ends.
abbrev pub end_parent : WatchdogImpl → WatchdogImpl
end_parent w = record w { ctx = end_ctx w.ctx }

-- What may happen to a watchdog: calls, the end of the parent context, an extension, and the return of a
-- loop.
pub data Event : Type 0 where
  starts : ℤ → Bool → Event
  stops : Event
  parent_ends : Event
  extends : ℤ → Bool → GoError → Event
  returns : Event

-- An extension takes a loop, and a return a loop whose context is done: the newest loop waits on the
-- newest context, and the older ones on contexts that were cancelled before it was made.
abbrev pub IsEnabled : Event → WatchdogImpl → Type 0
IsEnabled (starts now parent_done) w = Unit {0}
IsEnabled stops w = Unit {0}
IsEnabled parent_ends w = Unit {0}
IsEnabled (extends now success err) w = 0 < w.loops
IsEnabled returns w = (0 < w.loops) × ((ctx_done w ≡ true) ⊎ (1 < w.loops))

unfoldable pub happen : Event → WatchdogImpl → WatchdogImpl
unfolding start stop perform_extend loop_returns
happen (starts now parent_done) w = (start now parent_done w).0
happen stops w = (stop w).0
happen parent_ends w = end_parent w
happen (extends now success err) w = perform_extend now success err w
happen returns w = loop_returns w

unfoldable pub happen_all : List Event → WatchdogImpl → WatchdogImpl
unfolding happen
happen_all [] w = w
happen_all (e ∷ es) w = happen_all es (happen e w)

abbrev pub AllEnabled : List Event → WatchdogImpl → Type 0
AllEnabled [] w = Unit {0}
AllEnabled (e ∷ es) w = IsEnabled e w × AllEnabled es (happen e w)

abbrev pub starts_loop : Event → WatchdogImpl → Bool
starts_loop (starts now parent_done) w = not w.running
starts_loop stops w = false
starts_loop parent_ends w = false
starts_loop (extends now success err) w = false
starts_loop returns w = false

-- How many calls of `Start` succeed in a history.
unfoldable pub start_count : List Event → WatchdogImpl → ℕ
unfolding happen
start_count [] w = 0
start_count (e ∷ es) w = (if starts_loop e w then 1 else 0) + start_count es (happen e w)
