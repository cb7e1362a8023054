-- ===== src/Metrics/Wrapper/Tests.antt =====
-- A local lock in a metrics wrapper.
use x_ailock.Base.{
  ℕ, ◌^◌, ◌<◌, pos, Bool, true, false, not, if◌then◌else◌, Option, none, some, List, [], ◌∷◌, ◌≡◌,
  refl, arith,
}
use x_ailock.Errors.{nil, lock, new_lock_not_found_error}
use x_ailock.Shard.Manager.{ShardedLockManager}
use x_ailock.Shard.Alone.{alone, idle}
use x_ailock.Shard.Handles.{local_simple_lock}
use x_ailock.Interface.{Lock}
use x_ailock.Interface.Calls.{
  LockCall, tries, releases, extends_by, asks_key, simple, perform, run, Reply,
}
use x_ailock.Metrics.{DefaultMetrics, trying, new_default_metrics, to_int64}
use x_ailock.Metrics.Snapshot.{operation_stats}
use x_ailock.Metrics.Interface.{default_metrics}
use x_ailock.Metrics.Wrapper.{Runtime}
use x_ailock.Metrics.Wrapper.Kinds.{wrap}
use x_ailock.Metrics.Wrapper.Balance.{balance}
use x_ailock.Metrics.Wrapper.Transparent.{wrap-Transparent, visible}
use x_ailock.Metrics.Wrapper.Counting.{run-operation_stats}

abbrev Place : Type 0
Place = ShardedLockManager (Unit {0}) × ℕ

abbrev clock : Runtime Place
clock = record { now = λ w. pos w.1; num_goroutine = λ w. pos 4 }

abbrev orders : Lock Place
orders = local_simple_lock alone (record { key = "orders"; object = 0 })

-- Two attempts, of which the second is in vain, an extension, two releases, of which the second
-- fails, and a query.
abbrev calls : List LockCall
calls = tries [] ∷ tries [] ∷ extends_by (pos 5) ∷ releases ∷ releases ∷ asks_key ∷ []

wrap-Transparent_example :
    visible (
      run
        (perform simple (wrap clock default_metrics "SimpleLock" "Local" none simple orders))
        calls
        ((idle tt, 0), new_default_metrics))
    ≡ run (perform simple orders) calls (idle tt, 0)
wrap-Transparent_example =
    wrap-Transparent clock default_metrics "SimpleLock" "Local" none simple orders calls
      (idle tt, 0) new_default_metrics

-- A lock that is held or not.
abbrev switch : Lock Bool
switch = record {
  lock = λ opts held. if held then none else some (true, nil);
  try_lock = λ opts held. some (true, (not held, nil));
  unlock = λ held. some (false, if held then nil else lock (new_lock_not_found_error "orders"));
  extend = λ ttl held. some (held, (held, nil));
  is_locked = λ held. some (held, (held, nil));
  get_ttl = λ held. some (held, (pos 1, nil));
  get_key = λ held. some (held, "orders");
  get_value = λ held. some (held, "mine");
}

abbrev still : Runtime Bool
still = record { now = λ held. pos 0; num_goroutine = λ held. pos 4 }

abbrev outcome : Option ((Bool × DefaultMetrics) × List Reply)
outcome =
    run (perform simple (wrap still default_metrics "SimpleLock" "Local" none simple switch)) calls
      (false, new_default_metrics)

abbrev ended : (Bool × DefaultMetrics) × List Reply
ended = elim outcome [ none ↦ ((false, new_default_metrics), []) | some r ↦ r ]

run-operation_stats_example :
    let stats = operation_stats trying ended.0.1 in
    (stats.count ≡ pos 2)
    × (stats.success ≡ pos 1)
    × (stats.failed ≡ pos 1)
    × (to_int64 ended.0.1.total_errors ≡ pos 1)
    × (ended.0.1.current_locks ≡ pos 0)
    × (ended.0.1.max_concurrent_locks ≡ pos 0)
unfolding run perform wrap balance default_metrics new_default_metrics
run-operation_stats_example =
    let two : 2 < 2 ^ 63 = omega arith in
    let one : 1 < 2 ^ 63 = omega arith in
    run-operation_stats still "SimpleLock" "Local" simple switch calls false ended.0.0 ended.0.1
      ended.1 trying refl (two, one)
