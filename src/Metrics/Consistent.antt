-- ===== src/Metrics/Consistent.antt =====
-- metrics.go: what the numbers of `GetStats` have to do with each other.
use x_ailock.Base.{
  ℕ, ◌+◌, ◌<◌, ◌^◌, ◌%◌, ◌==◌, ℤ, pos, ◌≤ℤ◌, String, Bool, true, false, List, [], ◌∷◌, ◌≡◌, refl,
  ◌∙◌, sym, ap, arith, Bool-cases, inl, inr,
}
use x_ailock.Metrics.{
  DefaultMetrics, Operation, OperationCounter, Counters, operation_index, count_operation, add_to,
  new_default_metrics, add64, pattern64, to_int64, acquiring, releasing, extending, trying,
  watchdog_extending, raise_to,
}
use x_ailock.Metrics.Recording.{
  Recording, operates, errs, locks, queues, waits, memory, connections, goroutines,
  watchdog_starting, watchdog_stopping, shard_load, script, roundtrips, resets, apply, apply_all,
}
use x_ailock.Metrics.Snapshot.{
  MetricsStats, OperationStats, get_stats, operation_stats, total_roundtrips,
}
use x_ailock.Metrics.Sums.{
  plus64, sum64, plus64-to_int64, Small, sum64-copy, add_to-Small, add_to-total,
}

-- What every call that records keeps, by groups of fields.
abbrev Booked : (Operation → OperationCounter) → Type 0
Booked c =
    (o : Operation)
    → ((c o).count ≡ ((c o).success + (c o).failed) % 2 ^ 64)
      × ((c o).success < 2 ^ 64)
      × ((c o).failed < 2 ^ 64)

abbrev Sums : ℕ → Counters → Type 0
Sums total m = (total_roundtrips m ≡ total) × Small m

abbrev Errors : ℕ → Counters → Counters → Counters → Type 0
Errors total types codes backends = Sums total types × Sums total codes × Sums total backends

abbrev Watchdogs : ℕ → ℕ → ℕ → Type 0
Watchdogs active starts stops =
    ((active + stops) % 2 ^ 64 ≡ starts) × (active < 2 ^ 64) × (stops < 2 ^ 64)

abbrev Levels : DefaultMetrics → Type 0
Levels m =
    (m.current_locks ≤ℤ m.max_concurrent_locks)
    × (m.current_memory_usage ≤ℤ m.max_memory_usage)
    × (m.current_connections ≤ℤ m.max_connection_count)
    × (m.current_goroutines ≤ℤ m.max_goroutine_count)

abbrev Agrees : DefaultMetrics → Type 0
Agrees m =
    Booked m.operations
    × Errors m.total_errors m.errors_by_type m.errors_by_code m.errors_by_backend
    × Watchdogs m.active_watchdogs m.watchdog_starts m.watchdog_stops
    × Levels m

count_operation-Booked :
    (success : Bool) (duration : ℤ) (c : OperationCounter)
    → c.count ≡ (c.success + c.failed) % 2 ^ 64
    → c.success < 2 ^ 64
    → c.failed < 2 ^ 64
    → let d = count_operation success duration c in
      (d.count ≡ (d.success + d.failed) % 2 ^ 64) × (d.success < 2 ^ 64) × (d.failed < 2 ^ 64)
unfolding count_operation add64 pattern64
count_operation-Booked true duration c a b d = (omega (arith, a), omega arith, d)
count_operation-Booked false duration c a b d = (omega (arith, a), b, omega arith)

add_to-Sums :
    (total : ℕ) (name : String) (m : Counters)
    → Sums total m
    → Sums (add64 total (pos 1)) (add_to name (pos 1) m)
unfolding add64 pattern64
add_to-Sums total name m h =
    (add_to-total name m ∙ ap (λ n. (n + 1) % 2 ^ 64) h.0, add_to-Small name (pos 1) m h.1)

raise_to-above : (n current : ℤ) → n ≤ℤ raise_to n current
raise_to-above n current = ground arith

Agrees-start : Agrees new_default_metrics
unfolding new_default_metrics total_roundtrips
Agrees-start = (
  λ o. (refl, omega arith, omega arith),
  ((refl, tt), (refl, tt), (refl, tt)),
  (refl, omega arith, omega arith),
  (omega arith, omega arith, omega arith, omega arith),
)

apply-Agrees : (e : Recording) (m : DefaultMetrics) → Agrees m → Agrees (apply e m)
unfolding apply add64 pattern64 new_default_metrics
apply-Agrees (operates p success duration) m (b, r, w, l) = (
  λ o. elim (Bool-cases (operation_index p == operation_index o)) [
    | inl e ↦
        rw e (count_operation-Booked success duration (m.operations o) (b o).0 (b o).1 (b o).2)
    | inr e ↦ rw e (b o)
  ],
  r,
  w,
  l,
)
apply-Agrees (errs backend error_code error_type) m (b, (x, y, z), w, l) = (
  b,
  (
    add_to-Sums m.total_errors error_type m.errors_by_type x,
    add_to-Sums m.total_errors error_code m.errors_by_code y,
    add_to-Sums m.total_errors backend m.errors_by_backend z,
  ),
  w,
  l,
)
apply-Agrees (locks n) m (b, e, w, l) = (b, e, w, (raise_to-above n _, l.1, l.2, l.3))
apply-Agrees (queues n) m h = h
apply-Agrees (waits d) m h = h
apply-Agrees (memory n) m (b, e, w, l) = (b, e, w, (l.0, raise_to-above n _, l.2, l.3))
apply-Agrees (connections n) m (b, e, w, l) = (b, e, w, (l.0, l.1, raise_to-above n _, l.3))
apply-Agrees (goroutines n) m (b, e, w, l) = (b, e, w, (l.0, l.1, l.2, raise_to-above n _))
apply-Agrees watchdog_starting m (b, e, w, l) = (b, e, (omega (arith, w.0), omega arith, w.2), l)
apply-Agrees watchdog_stopping m (b, e, w, l) =
    (b, e, (omega (arith, w.0, w.1, w.2), omega arith, omega arith), l)
apply-Agrees (shard_load i n) m h = h
apply-Agrees (script n s d) m h = h
apply-Agrees (roundtrips p n) m h = h
apply-Agrees resets m h = Agrees-start

apply_all-Agrees : (es : List Recording) (m : DefaultMetrics) → Agrees m → Agrees (apply_all es m)
unfolding apply_all
apply_all-Agrees [] m h = h
apply_all-Agrees (e ∷ es) m h = apply_all-Agrees es (apply e m) (apply-Agrees e m h)

abbrev pub IsCounted : OperationStats → Type 0
IsCounted o = o.count ≡ plus64 o.success o.failed

-- What the numbers of `GetStats` have to do with each other.
pub record IsConsistent (s : MetricsStats) : Type 0 where
  pub acquires : IsCounted s.lock_operations.acquire
  pub releases : IsCounted s.lock_operations.release
  pub extends : IsCounted s.lock_operations.extend
  pub tries : IsCounted s.lock_operations.try_acquire
  pub watchdog_extends : IsCounted s.watchdog_stats.extends
  pub by_type : sum64 s.error_stats.errors_by_type ≡ s.error_stats.total_errors
  pub by_code : sum64 s.error_stats.errors_by_code ≡ s.error_stats.total_errors
  pub by_backend : sum64 s.error_stats.errors_by_backend ≡ s.error_stats.total_errors
  pub watchdogs :
      plus64 s.watchdog_stats.active_watchdogs s.watchdog_stats.watchdog_stops
      ≡ s.watchdog_stats.watchdog_starts
  pub lock_level : s.concurrency_stats.current_locks ≤ℤ s.concurrency_stats.max_concurrent_locks
  pub memory_level : s.resource_stats.current_memory_usage ≤ℤ s.resource_stats.max_memory_usage
  pub connection_level :
      s.resource_stats.current_connections ≤ℤ s.resource_stats.max_connection_count
  pub goroutine_level : s.resource_stats.current_goroutines ≤ℤ s.resource_stats.max_goroutine_count

-- Over any history since the metrics were made of calls that do not overlap, with resets, and even where an
-- int64 wraps around:
-- `GetStats` gives for each operation, the extensions of watchdogs included, a count that is the sum of its
-- successes and failures; a total of errors that is the sum of each of the three maps of errors; starts of
-- watchdogs that are the stops and the active watchdogs; and no level above its maximum.
pub get_stats-IsConsistent :
    (es : List Recording) → IsConsistent (get_stats (apply_all es new_default_metrics))
unfolding get_stats operation_stats
get_stats-IsConsistent es =
    let (b, (x, y, z), w, l) = apply_all-Agrees es new_default_metrics Agrees-start in
    let m = apply_all es new_default_metrics in
    let counted : (o : Operation) → IsCounted (operation_stats o m) =
      λ o. ap to_int64 (b o).0 ∙ sym (plus64-to_int64 _ _ (b o).1 (b o).2) in
    record {
      acquires = counted acquiring;
      releases = counted releasing;
      extends = counted extending;
      tries = counted trying;
      watchdog_extends = counted watchdog_extending;
      by_type = sum64-copy _ x.1 ∙ ap to_int64 x.0;
      by_code = sum64-copy _ y.1 ∙ ap to_int64 y.0;
      by_backend = sum64-copy _ z.1 ∙ ap to_int64 z.0;
      watchdogs = plus64-to_int64 _ _ w.1 w.2 ∙ ap to_int64 w.0;
      lock_level = l.0;
      memory_level = l.1;
      connection_level = l.2;
      goroutine_level = l.3;
    }
