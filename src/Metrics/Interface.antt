-- ===== src/Metrics/Interface.antt =====
-- metrics.go, the interface `Metrics` over the state of the implementations, and its implementation by
-- the default metrics. `RecordShardContention`, which takes a float64, is in `Metrics.Floating`.
use x_ailock.Base.{ℤ, String, Bool}
use x_ailock.Metrics.{
  DefaultMetrics, acquiring, releasing, extending, trying, watchdog_extending, record_operation,
  record_error, record_concurrent_locks, record_queue_length, record_wait_time, record_memory_usage,
  record_connection_count, record_goroutine_count, record_watchdog_start, record_watchdog_stop,
  record_shard_distribution, record_redis_script_execution, record_redis_network_roundtrips,
  reset_metrics,
}
use x_ailock.Metrics.Snapshot.{MetricsStats, get_stats}

-- The texts that come first are the type of the lock and the back end.
pub record Metrics (M : Type 0) : Type 0 where
  pub record_lock_acquire : String → String → Bool → ℤ → M → M
  pub record_lock_release : String → String → Bool → ℤ → M → M
  pub record_lock_extend : String → String → Bool → ℤ → M → M
  pub record_lock_try_acquire : String → String → Bool → ℤ → M → M
  pub record_error : String → String → String → String → M → M
  pub record_concurrent_locks : String → String → ℤ → M → M
  pub record_queue_length : String → String → ℤ → M → M
  pub record_wait_time : String → String → ℤ → M → M
  pub record_memory_usage : String → ℤ → M → M
  pub record_connection_count : String → ℤ → M → M
  pub record_goroutine_count : ℤ → M → M
  pub record_watchdog_extend : String → String → Bool → ℤ → M → M
  pub record_watchdog_start : String → String → M → M
  pub record_watchdog_stop : String → String → String → M → M
  pub record_shard_distribution : ℤ → ℤ → M → M
  pub record_redis_script_execution : String → Bool → ℤ → M → M
  pub record_redis_network_roundtrips : String → ℤ → M → M
  pub get_stats : M → MetricsStats
  pub reset : M → M

unfoldable pub default_metrics : Metrics DefaultMetrics
default_metrics = record {
  record_lock_acquire = λ lock_type backend. record_operation acquiring;
  record_lock_release = λ lock_type backend. record_operation releasing;
  record_lock_extend = λ lock_type backend. record_operation extending;
  record_lock_try_acquire = λ lock_type backend. record_operation trying;
  record_error = λ lock_type backend. record_error backend;
  record_concurrent_locks = λ lock_type backend. record_concurrent_locks;
  record_queue_length = λ lock_type backend. record_queue_length;
  record_wait_time = λ lock_type backend. record_wait_time;
  record_memory_usage = λ backend. record_memory_usage;
  record_connection_count = λ backend. record_connection_count;
  record_goroutine_count = record_goroutine_count;
  record_watchdog_extend = λ lock_type backend. record_operation watchdog_extending;
  record_watchdog_start = λ lock_type backend. record_watchdog_start;
  record_watchdog_stop = λ lock_type backend reason. record_watchdog_stop;
  record_shard_distribution = record_shard_distribution;
  record_redis_script_execution = record_redis_script_execution;
  record_redis_network_roundtrips = record_redis_network_roundtrips;
  get_stats = get_stats;
  reset = reset_metrics;
}
