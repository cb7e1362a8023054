-- ===== src/Metrics/Snapshot.antt =====
-- metrics.go, GetStats: what it reads off the counters, less the fields that are floating-point numbers,
-- which are in `Metrics.Floating`.
use x_ailock.Base.{
  ℕ, ◌+◌, ◌^◌, ◌%◌, ℤ, pos, quot_ℤ, ltb_ℤ, pos_part, String, List, [], ◌∷◌, length, if◌then◌else◌,
}
use x_ailock.Metrics.{
  DefaultMetrics, Operation, acquiring, releasing, extending, trying, watchdog_extending, Counters,
  counter_of, to_int64,
}

pub record OperationStats : Type 0 where
  pub count : ℤ
  pub success : ℤ
  pub failed : ℤ
  pub average_time : ℤ

-- A sum divided by a count that is positive.
unfoldable pub average : ℕ → ℕ → ℤ
unfolding to_int64
average sum count =
    if ltb_ℤ (pos 0) (to_int64 count)
    then quot_ℤ (to_int64 sum) (pos_part (to_int64 count))
    else pos 0

unfoldable pub operation_stats : Operation → DefaultMetrics → OperationStats
unfolding average
operation_stats o m =
    let c = m.operations o in
    record {
      count = to_int64 c.count;
      success = to_int64 c.success;
      failed = to_int64 c.failed;
      average_time = average c.time_sum c.count;
    }

unfoldable pub average_wait_time : DefaultMetrics → ℤ
average_wait_time m = average m.wait_time_sum m.wait_count

-- The copy of a map of counters.
unfoldable pub copy : Counters → List (String × ℤ)
unfolding to_int64
copy [] = []
copy ((k, n) ∷ m) = (k, to_int64 n) ∷ copy m

-- The averages of the scripts whose number of executions is positive.
unfoldable pub average_script_times : Counters → Counters → List (String × ℤ)
unfolding to_int64 counter_of
average_script_times sums [] = []
average_script_times sums ((k, n) ∷ m) =
    let rest = average_script_times sums m in
    if ltb_ℤ (pos 0) (to_int64 n)
    then (k, quot_ℤ (to_int64 (counter_of k sums)) (pos_part (to_int64 n))) ∷ rest
    else rest

unfoldable pub total_roundtrips : Counters → ℕ
total_roundtrips [] = 0
total_roundtrips ((k, n) ∷ m) = (n + total_roundtrips m) % 2 ^ 64

-- The largest and the smallest load, 0 and 0 without shards.
load_range : ℤ → ℤ → List (ℤ × ℤ) → ℤ × ℤ
load_range most least [] = (most, least)
load_range most least ((i, load) ∷ d) =
    load_range (if ltb_ℤ most load then load else most) (if ltb_ℤ load least then load else least) d

unfoldable pub shard_loads : DefaultMetrics → ℤ × ℤ
unfolding load_range
shard_loads m = elim m.shard_distribution [ [] ↦ (pos 0, pos 0) | s ∷ d ↦ load_range s.1 s.1 d ]

pub record LockOperationStats : Type 0 where
  pub acquire : OperationStats
  pub release : OperationStats
  pub extend : OperationStats
  pub try_acquire : OperationStats

pub record ErrorStats : Type 0 where
  pub total_errors : ℤ
  pub errors_by_type : List (String × ℤ)
  pub errors_by_code : List (String × ℤ)
  pub errors_by_backend : List (String × ℤ)

pub record ConcurrencyStats : Type 0 where
  pub max_concurrent_locks : ℤ
  pub current_locks : ℤ
  pub max_queue_length : ℤ
  pub average_wait_time : ℤ
  pub total_wait_time : ℤ

pub record ResourceStats : Type 0 where
  pub max_memory_usage : ℤ
  pub current_memory_usage : ℤ
  pub max_connection_count : ℤ
  pub current_connections : ℤ
  pub max_goroutine_count : ℤ
  pub current_goroutines : ℤ

pub record WatchdogMetricsStats : Type 0 where
  pub active_watchdogs : ℤ
  pub extends : OperationStats
  pub watchdog_starts : ℤ
  pub watchdog_stops : ℤ

pub record ShardingStats : Type 0 where
  pub shard_count : ℕ
  pub shard_distribution : List (ℤ × ℤ)
  pub max_shard_load : ℤ
  pub min_shard_load : ℤ

pub record RedisMetricsStats : Type 0 where
  pub script_executions : List (String × ℤ)
  pub average_script_time : List (String × ℤ)
  pub network_roundtrips : List (String × ℤ)
  pub total_roundtrips : ℤ

pub record MetricsStats : Type 0 where
  pub lock_operations : LockOperationStats
  pub error_stats : ErrorStats
  pub concurrency_stats : ConcurrencyStats
  pub resource_stats : ResourceStats
  pub watchdog_stats : WatchdogMetricsStats
  pub sharding_stats : ShardingStats
  pub redis_stats : RedisMetricsStats

unfoldable pub get_stats : DefaultMetrics → MetricsStats
unfolding operation_stats average_wait_time copy average_script_times total_roundtrips shard_loads
get_stats m = record {
  lock_operations = record {
    acquire = operation_stats acquiring m;
    release = operation_stats releasing m;
    extend = operation_stats extending m;
    try_acquire = operation_stats trying m;
  };
  error_stats = record {
    total_errors = to_int64 m.total_errors;
    errors_by_type = copy m.errors_by_type;
    errors_by_code = copy m.errors_by_code;
    errors_by_backend = copy m.errors_by_backend;
  };
  concurrency_stats = record {
    max_concurrent_locks = m.max_concurrent_locks;
    current_locks = m.current_locks;
    max_queue_length = m.max_queue_length;
    average_wait_time = average_wait_time m;
    total_wait_time = to_int64 m.wait_time_sum;
  };
  resource_stats = record {
    max_memory_usage = m.max_memory_usage;
    current_memory_usage = m.current_memory_usage;
    max_connection_count = m.max_connection_count;
    current_connections = m.current_connections;
    max_goroutine_count = m.max_goroutine_count;
    current_goroutines = m.current_goroutines;
  };
  watchdog_stats = record {
    active_watchdogs = to_int64 m.active_watchdogs;
    extends = operation_stats watchdog_extending m;
    watchdog_starts = to_int64 m.watchdog_starts;
    watchdog_stops = to_int64 m.watchdog_stops;
  };
  sharding_stats = record {
    shard_count = length m.shard_distribution;
    shard_distribution = m.shard_distribution;
    max_shard_load = (shard_loads m).0;
    min_shard_load = (shard_loads m).1;
  };
  redis_stats = record {
    script_executions = copy m.script_executions;
    average_script_time = average_script_times m.script_time_sum m.script_executions;
    network_roundtrips = copy m.network_roundtrips;
    total_roundtrips = to_int64 (total_roundtrips m.network_roundtrips);
  };
}
