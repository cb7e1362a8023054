-- ===== src/Metrics/Recording.antt =====
-- metrics.go: histories of the calls that record, and of `Reset`. Each call is one step: the source has
-- several atomic operations for it and no mutex, so these are the histories of calls that do not overlap.
use x_ailock.Base.{ℤ, String, Bool, List, [], ◌∷◌}
use x_ailock.Metrics.{
  DefaultMetrics, Operation, record_operation, record_error, record_concurrent_locks,
  record_queue_length, record_wait_time, record_memory_usage, record_connection_count,
  record_goroutine_count, record_watchdog_start, record_watchdog_stop, record_shard_distribution,
  record_redis_script_execution, record_redis_network_roundtrips, reset_metrics,
}

pub data Recording : Type 0 where
  operates : Operation → Bool → ℤ → Recording
  errs : String → String → String → Recording
  locks : ℤ → Recording
  queues : ℤ → Recording
  waits : ℤ → Recording
  memory : ℤ → Recording
  connections : ℤ → Recording
  goroutines : ℤ → Recording
  watchdog_starting : Recording
  watchdog_stopping : Recording
  shard_load : ℤ → ℤ → Recording
  script : String → Bool → ℤ → Recording
  roundtrips : String → ℤ → Recording
  resets : Recording

unfoldable pub apply : Recording → DefaultMetrics → DefaultMetrics
unfolding record_operation record_error record_concurrent_locks record_queue_length record_wait_time
    record_memory_usage record_connection_count record_goroutine_count record_watchdog_start
    record_watchdog_stop record_shard_distribution record_redis_script_execution
    record_redis_network_roundtrips reset_metrics
apply (operates o success duration) m = record_operation o success duration m
apply (errs backend error_code error_type) m = record_error backend error_code error_type m
apply (locks n) m = record_concurrent_locks n m
apply (queues n) m = record_queue_length n m
apply (waits duration) m = record_wait_time duration m
apply (memory n) m = record_memory_usage n m
apply (connections n) m = record_connection_count n m
apply (goroutines n) m = record_goroutine_count n m
apply watchdog_starting m = record_watchdog_start m
apply watchdog_stopping m = record_watchdog_stop m
apply (shard_load i n) m = record_shard_distribution i n m
apply (script name success duration) m = record_redis_script_execution name success duration m
apply (roundtrips operation n) m = record_redis_network_roundtrips operation n m
apply resets m = reset_metrics m

unfoldable pub apply_all : List Recording → DefaultMetrics → DefaultMetrics
unfolding apply
apply_all [] m = m
apply_all (e ∷ es) m = apply_all es (apply e m)
