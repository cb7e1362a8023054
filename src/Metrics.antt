-- ===== src/Metrics.antt =====
-- metrics.go: the default metrics. A counter is an int64, of which the bit pattern is kept; a level that
-- is only stored and compared is its value. The four counters of each operation (acquireCount,
-- acquireSuccess, acquireFailed, acquireTimeSum, and so on) are one record for each operation. What is a
-- float64, the contention of a shard, the success rates and the deviation of the loads, is in `Floating`.
pub mod Recording
pub mod Snapshot
pub mod Counting
pub mod Levels
pub mod Sums
pub mod Consistent
pub mod Interface
pub mod Wrapper
pub mod Global
pub mod Floating
mod Tests
use x_ailock.Base.{
  ℕ, suc, ◌+◌, ◌-◌, ◌^◌, ◌%◌, ◌==◌, ltb, ℤ, pos, negsuc, ◌+ℤ◌, quot_ℤ, leb_ℤ, ltb_ℤ, eq_ℤ, String,
  Bool, true, false, not, Option, none, some, List, [], ◌∷◌, if◌then◌else◌, str_eq, length,
  pos_part,
}

-- An int64 from its bit pattern, and back.
unfoldable pub to_int64 : ℕ → ℤ
to_int64 n = if ltb n (2 ^ 63) then pos n else negsuc (2 ^ 64 - n - 1)

unfoldable pub pattern64 : ℤ → ℕ
pattern64 (pos n) = n % 2 ^ 64
pattern64 (negsuc n) = 2 ^ 64 - 1 - n % 2 ^ 64

-- `atomic.AddInt64`.
unfoldable pub add64 : ℕ → ℤ → ℕ
unfolding pattern64
add64 n d = (n + pattern64 d) % 2 ^ 64

pub data Operation : Type 0 where
  acquiring releasing extending trying watchdog_extending : Operation

abbrev pub operation_index : Operation → ℕ
operation_index acquiring = 0
operation_index releasing = 1
operation_index extending = 2
operation_index trying = 3
operation_index watchdog_extending = 4

pub record OperationCounter : Type 0 where
  pub count : ℕ
  pub success : ℕ
  pub failed : ℕ
  pub time_sum : ℕ

-- A map from names to counters.
abbrev pub Counters : Type 0
Counters = List (String × ℕ)

unfoldable pub counter_of : String → Counters → ℕ
counter_of name [] = 0
counter_of name ((k, n) ∷ m) = if str_eq k name then n else counter_of name m

-- `m[name] += d`, where a missing entry counts as 0.
unfoldable pub add_to : String → ℤ → Counters → Counters
unfolding add64
add_to name d [] = (name, add64 0 d) ∷ []
add_to name d ((k, n) ∷ m) = if str_eq k name then (k, add64 n d) ∷ m else (k, n) ∷ add_to name d m

pub record DefaultMetrics : Type 0 where
  pub operations : Operation → OperationCounter
  pub total_errors : ℕ
  pub errors_by_type : Counters
  pub errors_by_code : Counters
  pub errors_by_backend : Counters
  pub max_concurrent_locks : ℤ
  pub current_locks : ℤ
  pub max_queue_length : ℤ
  pub wait_time_sum : ℕ
  pub wait_count : ℕ
  pub max_memory_usage : ℤ
  pub current_memory_usage : ℤ
  pub max_connection_count : ℤ
  pub current_connections : ℤ
  pub max_goroutine_count : ℤ
  pub current_goroutines : ℤ
  pub active_watchdogs : ℕ
  pub watchdog_starts : ℕ
  pub watchdog_stops : ℕ
  pub shard_distribution : List (ℤ × ℤ)
  pub script_executions : Counters
  pub script_time_sum : Counters
  pub script_success_count : Counters
  pub network_roundtrips : Counters

abbrev pub zero_counter : OperationCounter
zero_counter = record { count = 0; success = 0; failed = 0; time_sum = 0 }

unfoldable pub new_default_metrics : DefaultMetrics
new_default_metrics = record {
  operations = λ o. zero_counter;
  total_errors = 0;
  errors_by_type = [];
  errors_by_code = [];
  errors_by_backend = [];
  max_concurrent_locks = pos 0;
  current_locks = pos 0;
  max_queue_length = pos 0;
  wait_time_sum = 0;
  wait_count = 0;
  max_memory_usage = pos 0;
  current_memory_usage = pos 0;
  max_connection_count = pos 0;
  current_connections = pos 0;
  max_goroutine_count = pos 0;
  current_goroutines = pos 0;
  active_watchdogs = 0;
  watchdog_starts = 0;
  watchdog_stops = 0;
  shard_distribution = [];
  script_executions = [];
  script_time_sum = [];
  script_success_count = [];
  network_roundtrips = [];
}

-- What each of `RecordLockAcquire`, `RecordLockRelease`, `RecordLockExtend`, `RecordLockTryAcquire` and
-- `RecordWatchdogExtend` does to its counters.
unfoldable pub count_operation : Bool → ℤ → OperationCounter → OperationCounter
unfolding add64
count_operation success duration c = record {
  count = add64 c.count (pos 1);
  time_sum = add64 c.time_sum duration;
  success = if success then add64 c.success (pos 1) else c.success;
  failed = if success then c.failed else add64 c.failed (pos 1);
}

unfoldable pub record_operation : Operation → Bool → ℤ → DefaultMetrics → DefaultMetrics
unfolding count_operation
record_operation o success duration m = record m {
  operations = λ p.
      if operation_index o == operation_index p
      then count_operation success duration (m.operations p)
      else m.operations p;
}

unfoldable pub record_error : String → String → String → DefaultMetrics → DefaultMetrics
unfolding add_to
record_error backend error_code error_type m = record m {
  total_errors = add64 m.total_errors (pos 1);
  errors_by_type = add_to error_type (pos 1) m.errors_by_type;
  errors_by_code = add_to error_code (pos 1) m.errors_by_code;
  errors_by_backend = add_to backend (pos 1) m.errors_by_backend;
}

-- The loop that raises a maximum, whose compare-and-swap succeeds when nobody else writes.
abbrev pub raise_to : ℤ → ℤ → ℤ
raise_to n current = if leb_ℤ n current then current else n

unfoldable pub record_concurrent_locks : ℤ → DefaultMetrics → DefaultMetrics
record_concurrent_locks n m = record m {
  current_locks = n;
  max_concurrent_locks = raise_to n m.max_concurrent_locks;
}

unfoldable pub record_queue_length : ℤ → DefaultMetrics → DefaultMetrics
record_queue_length n m = record m { max_queue_length = raise_to n m.max_queue_length }

unfoldable pub record_wait_time : ℤ → DefaultMetrics → DefaultMetrics
record_wait_time duration m = record m {
  wait_time_sum = add64 m.wait_time_sum duration;
  wait_count = add64 m.wait_count (pos 1);
}

unfoldable pub record_memory_usage : ℤ → DefaultMetrics → DefaultMetrics
record_memory_usage n m = record m {
  current_memory_usage = n;
  max_memory_usage = raise_to n m.max_memory_usage;
}

unfoldable pub record_connection_count : ℤ → DefaultMetrics → DefaultMetrics
record_connection_count n m = record m {
  current_connections = n;
  max_connection_count = raise_to n m.max_connection_count;
}

unfoldable pub record_goroutine_count : ℤ → DefaultMetrics → DefaultMetrics
record_goroutine_count n m = record m {
  current_goroutines = n;
  max_goroutine_count = raise_to n m.max_goroutine_count;
}

unfoldable pub record_watchdog_start : DefaultMetrics → DefaultMetrics
record_watchdog_start m = record m {
  watchdog_starts = add64 m.watchdog_starts (pos 1);
  active_watchdogs = add64 m.active_watchdogs (pos 1);
}

unfoldable pub record_watchdog_stop : DefaultMetrics → DefaultMetrics
record_watchdog_stop m = record m {
  watchdog_stops = add64 m.watchdog_stops (pos 1);
  active_watchdogs = add64 m.active_watchdogs (negsuc 0);
}

unfoldable pub set_load : {A : Type 0} → ℤ → A → List (ℤ × A) → List (ℤ × A)
set_load i n [] = (i, n) ∷ []
set_load i n ((j, k) ∷ d) = if eq_ℤ j i then (j, n) ∷ d else (j, k) ∷ set_load i n d

unfoldable pub record_shard_distribution : ℤ → ℤ → DefaultMetrics → DefaultMetrics
unfolding set_load
record_shard_distribution i n m = record m {
  shard_distribution = set_load i n m.shard_distribution;
}

unfoldable pub record_redis_script_execution : String → Bool → ℤ → DefaultMetrics → DefaultMetrics
record_redis_script_execution name success duration m = record m {
  script_executions = add_to name (pos 1) m.script_executions;
  script_time_sum = add_to name duration m.script_time_sum;
  script_success_count =
      if success then add_to name (pos 1) m.script_success_count else m.script_success_count;
}

unfoldable pub record_redis_network_roundtrips : String → ℤ → DefaultMetrics → DefaultMetrics
record_redis_network_roundtrips operation n m = record m {
  network_roundtrips = add_to operation n m.network_roundtrips;
}

-- `Reset`, store by store.
unfoldable pub reset_metrics : DefaultMetrics → DefaultMetrics
reset_metrics m = record m {
  operations = λ o. zero_counter;
  total_errors = 0;
  errors_by_type = [];
  errors_by_code = [];
  errors_by_backend = [];
  max_concurrent_locks = pos 0;
  current_locks = pos 0;
  max_queue_length = pos 0;
  wait_time_sum = 0;
  wait_count = 0;
  max_memory_usage = pos 0;
  current_memory_usage = pos 0;
  max_connection_count = pos 0;
  current_connections = pos 0;
  max_goroutine_count = pos 0;
  current_goroutines = pos 0;
  active_watchdogs = 0;
  watchdog_starts = 0;
  watchdog_stops = 0;
  shard_distribution = [];
  script_executions = [];
  script_time_sum = [];
  script_success_count = [];
  network_roundtrips = [];
}
