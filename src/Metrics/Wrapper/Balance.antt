-- ===== src/Metrics/Wrapper/Balance.antt =====
-- What the calls of a client and their replies amount to, and metrics that hold it.
use x_ailock.Base.{
  ℕ, ◌+◌, ◌^◌, ◌%◌, ◌==◌, ℤ, pos, Bool, true, ◌&&◌, Option, none, some, List, [], ◌∷◌, ◌≡◌,
  if◌then◌else◌,
}
use x_ailock.Errors.{GoError, nil, is_nil}
use x_ailock.Interface.Calls.{
  Reply, returns, answers, measures, lists, names, LockCall, locks, tries, releases, extends_by,
  asks_locked, asks_ttl, asks_key, asks_value, RwCall, rlocks, tries_rlock, runlocks, wlocks,
  tries_wlock, wunlocks, asks_read_count, asks_write_locked, asks_rw_key, FairCall, common,
  asks_position, asks_length, asks_info, Kind, simple, read_write, fair, CallOf,
}
use x_ailock.Metrics.{
  DefaultMetrics, Operation, acquiring, releasing, extending, trying, operation_index,
}

-- The operation that a call is counted as, if any.
abbrev pub lock_operation : LockCall → Option Operation
lock_operation (locks opts) = some acquiring
lock_operation (tries opts) = some trying
lock_operation releases = some releasing
lock_operation (extends_by ttl) = some extending
lock_operation asks_locked = none
lock_operation asks_ttl = none
lock_operation asks_key = none
lock_operation asks_value = none

abbrev pub rw_operation : RwCall → Option Operation
rw_operation (rlocks opts) = some acquiring
rw_operation (tries_rlock opts) = some trying
rw_operation runlocks = some releasing
rw_operation (wlocks opts) = some acquiring
rw_operation (tries_wlock opts) = some trying
rw_operation wunlocks = some releasing
rw_operation asks_read_count = none
rw_operation asks_write_locked = none
rw_operation asks_rw_key = none

abbrev pub fair_operation : FairCall → Option Operation
fair_operation (common c) = lock_operation c
fair_operation asks_position = none
fair_operation asks_length = none
fair_operation asks_info = none

abbrev pub operation_of : (k : Kind) → CallOf k → Option Operation
operation_of simple c = lock_operation c
operation_of read_write c = rw_operation c
operation_of fair c = fair_operation c

-- The error of a reply, and whether it is a success.
abbrev pub failure : Reply → GoError
failure (returns err) = err
failure (answers b err) = err
failure (measures n err) = err
failure (lists vs err) = err
failure (names v) = nil

abbrev pub succeeded : Reply → Bool
succeeded (returns err) = is_nil err
succeeded (answers b err) = b && is_nil err
succeeded (measures n err) = is_nil err
succeeded (lists vs err) = is_nil err
succeeded (names v) = true

-- The successes and the failures of an operation, and the errors of all operations.
abbrev pub Balance : Type 0
Balance = ℕ × ℕ × ℕ

abbrev pub tick : Operation → Operation → Bool → Balance → Balance
tick p o good (k, f, e) =
    if operation_index p == operation_index o
    then if good then (k + 1, f, e) else (k, f + 1, e)
    else (k, f, e)

abbrev pub charge : GoError → Balance → Balance
charge err (k, f, e) = if is_nil err then (k, f, e) else (k, f, e + 1)

abbrev pub entry : Option Operation → Operation → Reply → Balance → Balance
entry none o a b = b
entry (some p) o a b = charge (failure a) (tick p o (succeeded a) b)

-- The balance of the calls of a run and their replies, after one so far.
unfoldable pub balance :
    {C : Type 0} → (C → Option Operation) → Operation → List C → List Reply → Balance → Balance
balance kind o [] rs b = b
balance kind o (c ∷ cs) [] b = b
balance kind o (c ∷ cs) (a ∷ rs) b = balance kind o cs rs (entry (kind c) o a b)

-- The metrics hold a balance, and no locks.
abbrev pub Books : Operation → Balance → DefaultMetrics → Type 0
Books o (k, f, e) m =
    ((m.operations o).count ≡ (k + f) % 2 ^ 64)
    × ((m.operations o).success ≡ k % 2 ^ 64)
    × ((m.operations o).failed ≡ f % 2 ^ 64)
    × (m.total_errors ≡ e % 2 ^ 64)
    × (m.current_locks ≡ pos 0)
    × (m.max_concurrent_locks ≡ pos 0)

-- A recording that books an operation, and nothing else of a balance.
abbrev pub Booking : Operation → Operation → (Bool → ℤ → DefaultMetrics → DefaultMetrics) → Type 0
Booking p o book =
    (good : Bool) (duration : ℤ) (m : DefaultMetrics) (b : Balance)
    → Books o b m
    → Books o (tick p o good b) (book good duration m)
