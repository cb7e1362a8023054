-- ===== src/Metrics/Floating.antt =====
-- metrics.go, what is a float64: the contention of the shards, the success rates of the scripts, and the
-- deviation of the loads. The arithmetic of float64 is a parameter.
use x_ailock.Base.{
  ℕ, ◌-◌, ltb, ℤ, pos, ltb_ℤ, String, Bool, List, [], ◌∷◌, ◌≡◌, refl, ap, length, if◌then◌else◌,
  Bool-cases, inl, inr,
}
use x_ailock.Metrics.{
  DefaultMetrics, Counters, counter_of, to_int64, set_load, new_default_metrics, reset_metrics,
}
use x_ailock.Metrics.Snapshot.{MetricsStats, get_stats, average_script_times}

-- The operations on float64 that the metrics use: the conversion of an int64, the arithmetic, and the
-- test whether a number is above zero.
pub record Float64 : Type 1 where
  pub F : Type 0
  pub of_int64 : ℤ → F
  pub add : F → F → F
  pub sub : F → F → F
  pub mul : F → F → F
  pub div : F → F → F
  pub is_positive : F → Bool

module _ (x : Float64) where
  open x use {F, of_int64, add, sub, mul, div, is_positive}

  -- `DefaultMetrics` with its field `shardContention`.
  pub record MeasuredMetrics : Type 0 where
    pub counters : DefaultMetrics
    pub shard_contention : List (ℤ × F)

  unfoldable pub new_measured_metrics : MeasuredMetrics
  new_measured_metrics = record { counters = new_default_metrics; shard_contention = [] }

  unfoldable pub record_shard_contention : ℤ → F → MeasuredMetrics → MeasuredMetrics
  unfolding set_load
  record_shard_contention i level m = record m {
    shard_contention = set_load i level m.shard_contention;
  }

  unfoldable pub reset_measured : MeasuredMetrics → MeasuredMetrics
  reset_measured m = record { counters = reset_metrics m.counters; shard_contention = [] }

  -- The success rates of the scripts whose number of executions is positive.
  unfoldable pub script_success_rates : Counters → Counters → List (String × F)
  unfolding to_int64 counter_of
  script_success_rates successes [] = []
  script_success_rates successes ((k, n) ∷ m) =
      let rest = script_success_rates successes m in
      if ltb_ℤ (pos 0) (to_int64 n)
      then (k, div (of_int64 (to_int64 (counter_of k successes))) (of_int64 (to_int64 n))) ∷ rest
      else rest

  -- The sum of the loads and that of their squares, in the order of the map, from two sums so far.
  unfoldable pub load_sums : F → F → List (ℤ × ℤ) → F × F
  load_sums sum squares [] = (sum, squares)
  load_sums sum squares ((i, load) ∷ d) =
      let f = of_int64 load in load_sums (add sum f) (add squares (mul f f)) d

  -- The variance, which the code puts in the place of the deviation.
  unfoldable pub load_variance : ℕ → F × F → F
  load_variance n (sum, squares) =
      let mean = div sum (of_int64 (pos n)) in
      div (sub squares (mul sum mean)) (of_int64 (pos (n - 1)))

  unfoldable pub load_standard_dev : List (ℤ × ℤ) → F
  unfolding load_sums load_variance
  load_standard_dev d =
      let zero = of_int64 (pos 0) in
      let variance = load_variance (length d) (load_sums zero zero d) in
      if ltb 1 (length d) then (if is_positive variance then variance else zero) else zero

  -- What `GetStats` gives, with its fields of floating-point numbers.
  pub record MeasuredStats : Type 0 where
    pub stats : MetricsStats
    pub shard_contention : List (ℤ × F)
    pub load_standard_dev : F
    pub script_success_rate : List (String × F)

  unfoldable pub get_measured_stats : MeasuredMetrics → MeasuredStats
  unfolding load_standard_dev script_success_rates
  get_measured_stats m = record {
    stats = get_stats m.counters;
    shard_contention = m.shard_contention;
    load_standard_dev = load_standard_dev m.counters.shard_distribution;
    script_success_rate =
        script_success_rates m.counters.script_success_count m.counters.script_executions;
  }

  abbrev pub names_of : {A : Type 0} → List (String × A) → List String
  names_of [] = []
  names_of ((k, a) ∷ m) = k ∷ names_of m

  -- `GetStats` has a success rate for just the scripts for which it has an average time.
  pub script_success_rates-average_script_times :
      (successes sums executions : Counters)
      → names_of (script_success_rates successes executions)
        ≡ names_of (average_script_times sums executions)
  unfolding script_success_rates average_script_times
  script_success_rates-average_script_times successes sums [] = refl
  script_success_rates-average_script_times successes sums ((k, n) ∷ m) =
      elim (Bool-cases (ltb_ℤ (pos 0) (to_int64 n))) [
        | inl run ↦
            rw (run, script_success_rates, average_script_times)
              (ap (λ r. k ∷ r) (script_success_rates-average_script_times successes sums m))
        | inr unrun ↦
            rw (unrun, script_success_rates, average_script_times)
              (script_success_rates-average_script_times successes sums m)
      ]
