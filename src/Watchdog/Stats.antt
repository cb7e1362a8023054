-- ===== src/Watchdog/Stats.antt =====
-- What a watchdog counts.
use x_ailock.Base.{
  ℕ, ◌+◌, ◌^◌, ◌%◌, ℤ, String, List, [], ◌∷◌, ◌≡◌, refl, if◌then◌else◌, arith, inl, inr, Bool-cases,
  ◌&&◌,
}
use x_ailock.Watchdog.{
  WatchdogImpl, Event, starts, stops, parent_ends, extends, returns, happen, happen_all, start,
  stop, perform_extend, loop_returns, new_watchdog, get_stats, is_nil,
}

-- The extensions that succeeded and that failed since the last successful `Start`, after some so far.
abbrev tally : Event → WatchdogImpl → ℕ × ℕ → ℕ × ℕ
tally (starts now parent_done) w t = if w.running then t else (0, 0)
tally stops w t = t
tally parent_ends w t = t
tally (extends now success err) w (k, f) = if success && is_nil err then (k + 1, f) else (k, f + 1)
tally returns w t = t

pub tally_all : List Event → WatchdogImpl → ℕ × ℕ → ℕ × ℕ
tally_all [] w t = t
tally_all (e ∷ es) w t = tally_all es (happen e w) (tally e w t)

abbrev Counts : ℕ × ℕ → WatchdogImpl → Type 0
Counts t w = (w.stats.extend_count ≡ t.0 % 2 ^ 64) × (w.stats.failed_extends ≡ t.1 % 2 ^ 64)

happen-Counts :
    (e : Event) (w : WatchdogImpl) (t : ℕ × ℕ) → Counts t w → Counts (tally e w t) (happen e w)
unfolding happen start stop perform_extend loop_returns
happen-Counts (starts now parent_done) w t c = ground (arith, c)
happen-Counts stops w t c = ground (arith, c)
happen-Counts parent_ends w t c = c
happen-Counts (extends now success err) w (k, f) c = elim (Bool-cases (success && is_nil err)) [
  | inl e ↦ rw e (omega (arith, c), c.1)
  | inr e ↦ rw e (c.0, omega (arith, c))
]
happen-Counts returns w t c = c

run-Counts :
    (es : List Event) (w : WatchdogImpl) (t : ℕ × ℕ)
    → Counts t w
    → Counts (tally_all es w t) (happen_all es w)
unfolding tally_all happen_all
run-Counts [] w t c = c
run-Counts (e ∷ es) w t c = run-Counts es (happen e w) (tally e w t) (happen-Counts e w t c)

-- Over any history of a new watchdog, `GetStats` gives the extensions that succeeded, with success and a
-- nil error, and those that did not, since the last successful `Start`, modulo 2^64.
pub happen_all-get_stats :
    (key : String) (interval ttl : ℤ) (es : List Event)
    → let first = new_watchdog key interval ttl in
      let stats = get_stats (happen_all es first) in
      let (succeeded, failed) = tally_all es first (0, 0) in
      (stats.extend_count ≡ succeeded % 2 ^ 64) × (stats.failed_extends ≡ failed % 2 ^ 64)
unfolding get_stats
happen_all-get_stats key interval ttl es =
    run-Counts es (new_watchdog key interval ttl) (0, 0) (unfold new_watchdog in (refl, refl))
