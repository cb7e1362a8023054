-- ===== src/Metrics/Counting.antt =====
-- The counters of the operations count what was recorded.
use x_ailock.Base.{
  ℕ, ◌+◌, ◌<◌, ◌^◌, ◌%◌, ◌/◌, ◌==◌, ℤ, pos, quot_ℤ, Bool, true, false, List, [], ◌∷◌, ◌≡◌, refl,
  if◌then◌else◌, arith, Bool-cases, inl, inr,
}
use x_ailock.Metrics.{
  DefaultMetrics, Operation, OperationCounter, operation_index, count_operation,
  new_default_metrics, add64, pattern64, to_int64,
}
use x_ailock.Metrics.Recording.{
  Recording, operates, errs, locks, queues, waits, memory, connections, goroutines,
  watchdog_starting, watchdog_stopping, shard_load, script, roundtrips, resets, apply, apply_all,
}
use x_ailock.Metrics.Snapshot.{operation_stats, average}

-- The successes, the failures and the time of an operation in a history, after some so far: what comes
-- after the last `Reset`. A negative duration counts as its bit pattern.
abbrev pub Tally : Type 0
Tally = ℕ × ℕ × ℕ

abbrev tally : Operation → Recording → Tally → Tally
tally o (operates p success duration) (k, f, t) =
    if operation_index p == operation_index o
    then if success then (k + 1, f, t + pattern64 duration) else (k, f + 1, t + pattern64 duration)
    else (k, f, t)
tally o (errs b c e) t = t
tally o (locks n) t = t
tally o (queues n) t = t
tally o (waits d) t = t
tally o (memory n) t = t
tally o (connections n) t = t
tally o (goroutines n) t = t
tally o watchdog_starting t = t
tally o watchdog_stopping t = t
tally o (shard_load i n) t = t
tally o (script n s d) t = t
tally o (roundtrips p n) t = t
tally o resets t = (0, 0, 0)

unfoldable pub tally_all : Operation → List Recording → Tally → Tally
tally_all o [] t = t
tally_all o (e ∷ es) t = tally_all o es (tally o e t)

abbrev Counts : Tally → OperationCounter → Type 0
Counts t c =
    (c.count ≡ (t.0 + t.1) % 2 ^ 64)
    × (c.success ≡ t.0 % 2 ^ 64)
    × (c.failed ≡ t.1 % 2 ^ 64)
    × (c.time_sum ≡ t.2 % 2 ^ 64)

count_operation-Counts :
    (success : Bool) (duration : ℤ) (c : OperationCounter) (k f t : ℕ)
    → Counts (k, f, t) c
    → Counts
        (if success then (k + 1, f, t + pattern64 duration) else (k, f + 1, t + pattern64 duration))
        (count_operation success duration c)
unfolding count_operation add64 pattern64
count_operation-Counts true duration c k f t h =
    (omega (arith, h), omega (arith, h), h.2, omega (arith, h))
count_operation-Counts false duration c k f t h =
    (omega (arith, h), h.1, omega (arith, h), omega (arith, h))

apply-Counts :
    (o : Operation) (e : Recording) (m : DefaultMetrics) (t : Tally)
    → Counts t (m.operations o)
    → Counts (tally o e t) ((apply e m).operations o)
unfolding apply
apply-Counts o (operates p success duration) m (k, f, t) c =
    elim (Bool-cases (operation_index p == operation_index o)) [
      | inl e ↦ rw e (count_operation-Counts success duration (m.operations o) k f t c)
      | inr e ↦ rw e c
    ]
apply-Counts o (errs b d e) m t c = c
apply-Counts o (locks n) m t c = c
apply-Counts o (queues n) m t c = c
apply-Counts o (waits d) m t c = c
apply-Counts o (memory n) m t c = c
apply-Counts o (connections n) m t c = c
apply-Counts o (goroutines n) m t c = c
apply-Counts o watchdog_starting m t c = c
apply-Counts o watchdog_stopping m t c = c
apply-Counts o (shard_load i n) m t c = c
apply-Counts o (script n s d) m t c = c
apply-Counts o (roundtrips p n) m t c = c
apply-Counts o resets m t c = (refl, refl, refl, refl)

apply_all-Counts :
    (o : Operation) (es : List Recording) (m : DefaultMetrics) (t : Tally)
    → Counts t (m.operations o)
    → Counts (tally_all o es t) ((apply_all es m).operations o)
unfolding apply_all tally_all
apply_all-Counts o [] m t c = c
apply_all-Counts o (e ∷ es) m t c =
    apply_all-Counts o es (apply e m) (tally o e t) (apply-Counts o e m t c)

pub to_int64-small : (n : ℕ) → n < 2 ^ 63 → to_int64 (n % 2 ^ 64) ≡ pos n
unfolding to_int64
to_int64-small n h = let same : n % 2 ^ 64 ≡ n = omega (arith, h) in rw same (ground arith)

average-small :
    (s n : ℕ)
    → s < 2 ^ 63
    → n < 2 ^ 63
    → average (s % 2 ^ 64) (n % 2 ^ 64) ≡ (if n == 0 then pos 0 else pos (s / n))
unfolding average quot_ℤ
average-small s n hs hn = rw (to_int64-small s hs, to_int64-small n hn) (ground arith)

-- Over any history since the metrics were made, for each operation: `GetStats` gives the numbers of its
-- successes and failures since the last `Reset` and their sum, and the average of the recorded durations,
-- rounded down; as long as there are fewer than 2^63 calls, and the durations, none of which is negative,
-- add up to less than 2^63 ns. Without calls the average is 0.
pub apply_all-operation_stats :
    (o : Operation) (es : List Recording)
    → (let (k, f, t) = tally_all o es (0, 0, 0) in (k + f < 2 ^ 63) × (t < 2 ^ 63))
    → let (k, f, t) = tally_all o es (0, 0, 0) in
      let stats = operation_stats o (apply_all es new_default_metrics) in
      (stats.count ≡ pos (k + f))
      × (stats.success ≡ pos k)
      × (stats.failed ≡ pos f)
      × (stats.average_time ≡ (if k + f == 0 then pos 0 else pos (t / (k + f))))
unfolding operation_stats
apply_all-operation_stats o es bound =
    let counts =
      apply_all-Counts o es new_default_metrics (0, 0, 0)
        (unfold new_default_metrics in (refl, refl, refl, refl)) in
    let (k, f, t) = tally_all o es (0, 0, 0) in
    rw (counts.0, counts.1, counts.2, counts.3)
      (
        to_int64-small (k + f) bound.0,
        to_int64-small k (omega (arith, bound.0)),
        to_int64-small f (omega (arith, bound.0)),
        average-small t (k + f) bound.1 bound.0,
      )
