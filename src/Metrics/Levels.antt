-- ===== src/Metrics/Levels.antt =====
-- The levels of the metrics and their maxima, and what a reset forgets.
use x_ailock.Base.{ℤ, pos, leb_ℤ, List, [], ◌∷◌, ◌≡◌, refl, if◌then◌else◌}
use x_ailock.Metrics.{DefaultMetrics, new_default_metrics}
use x_ailock.Metrics.Recording.{
  Recording, operates, errs, locks, queues, waits, memory, connections, goroutines,
  watchdog_starting, watchdog_stopping, shard_load, script, roundtrips, resets, apply, apply_all,
}

-- The numbers of locks that are recorded in a history, the latest first, down to the last reset.
abbrev lock_level : Recording → List ℤ → List ℤ
lock_level (locks n) ns = n ∷ ns
lock_level (operates p success duration) ns = ns
lock_level (errs b c e) ns = ns
lock_level (queues n) ns = ns
lock_level (waits d) ns = ns
lock_level (memory n) ns = ns
lock_level (connections n) ns = ns
lock_level (goroutines n) ns = ns
lock_level watchdog_starting ns = ns
lock_level watchdog_stopping ns = ns
lock_level (shard_load i n) ns = ns
lock_level (script n s d) ns = ns
lock_level (roundtrips p n) ns = ns
lock_level resets ns = []

pub lock_levels : List Recording → List ℤ → List ℤ
lock_levels [] ns = ns
lock_levels (e ∷ es) ns = lock_levels es (lock_level e ns)

-- The largest of some numbers and 0.
abbrev pub largest : List ℤ → ℤ
largest [] = pos 0
largest (n ∷ ns) = let m = largest ns in if leb_ℤ n m then m else n

abbrev pub latest : List ℤ → ℤ
latest [] = pos 0
latest (n ∷ ns) = n

abbrev Follows : List ℤ → DefaultMetrics → Type 0
Follows ns m = (m.current_locks ≡ latest ns) × (m.max_concurrent_locks ≡ largest ns)

apply-Follows :
    (e : Recording) (m : DefaultMetrics) (ns : List ℤ)
    → Follows ns m
    → Follows (lock_level e ns) (apply e m)
unfolding apply
apply-Follows (locks n) m ns h = (refl, rw h.1 refl)
apply-Follows (operates p success duration) m ns h = h
apply-Follows (errs b c e) m ns h = h
apply-Follows (queues n) m ns h = h
apply-Follows (waits d) m ns h = h
apply-Follows (memory n) m ns h = h
apply-Follows (connections n) m ns h = h
apply-Follows (goroutines n) m ns h = h
apply-Follows watchdog_starting m ns h = h
apply-Follows watchdog_stopping m ns h = h
apply-Follows (shard_load i n) m ns h = h
apply-Follows (script n s d) m ns h = h
apply-Follows (roundtrips p n) m ns h = h
apply-Follows resets m ns h = (refl, refl)

apply_all-Follows :
    (es : List Recording) (m : DefaultMetrics) (ns : List ℤ)
    → Follows ns m
    → Follows (lock_levels es ns) (apply_all es m)
unfolding apply_all lock_levels
apply_all-Follows [] m ns h = h
apply_all-Follows (e ∷ es) m ns h =
    apply_all-Follows es (apply e m) (lock_level e ns) (apply-Follows e m ns h)

-- Over any history of new metrics, the current number of locks is the one that was recorded last, and
-- the maximum is the largest that was recorded and 0, both since the last `Reset`.
pub apply_all-locks :
    (es : List Recording)
    → let m = apply_all es new_default_metrics in
      let ns = lock_levels es [] in
      (m.current_locks ≡ latest ns) × (m.max_concurrent_locks ≡ largest ns)
apply_all-locks es =
    apply_all-Follows es new_default_metrics [] (unfold new_default_metrics in (refl, refl))
