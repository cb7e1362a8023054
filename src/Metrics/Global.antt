-- ===== src/Metrics/Global.antt =====
-- metrics.go: the global metrics, which a client may replace, also by nil (`none`), and `EnableMetrics`,
-- which runs under `metricsOnce`.
use x_ailock.Base.{
  Bool, true, false, Option, none, some, List, [], ◌∷◌, ◌≡◌, ap, arith, if◌then◌else◌,
}
use x_ailock.Metrics.{DefaultMetrics, new_default_metrics}

pub record GlobalMetrics : Type 0 where
  pub global : Option DefaultMetrics
  pub once : Bool

unfoldable pub initial_metrics : GlobalMetrics
unfolding new_default_metrics
initial_metrics = record { global = some new_default_metrics; once = false }

unfoldable pub get_global_metrics : GlobalMetrics → Option DefaultMetrics
get_global_metrics g = g.global

unfoldable pub set_global_metrics : Option DefaultMetrics → GlobalMetrics → GlobalMetrics
set_global_metrics m g = record g { global = m }

abbrev pub or_new : Option DefaultMetrics → Option DefaultMetrics
or_new none = some new_default_metrics
or_new (some m) = some m

unfoldable pub enable_metrics : GlobalMetrics → GlobalMetrics
enable_metrics g = if g.once then g else record { global = or_new g.global; once = true }

-- What a client does with the global metrics.
pub data GlobalCall : Type 0 where
  sets : Option DefaultMetrics → GlobalCall
  enables : GlobalCall

pub call_global : GlobalCall → GlobalMetrics → GlobalMetrics
call_global (sets m) g = set_global_metrics m g
call_global enables g = enable_metrics g

pub call_globals : List GlobalCall → GlobalMetrics → GlobalMetrics
call_globals [] g = g
call_globals (c ∷ cs) g = call_globals cs (call_global c g)

enables_once : (g : GlobalMetrics) → (enable_metrics g).once ≡ true
unfolding enable_metrics
enables_once g = ground arith

enabled_already : (g : GlobalMetrics) → g.once ≡ true → enable_metrics g ≡ g
unfolding enable_metrics
enabled_already g h = ground arith

once_stays :
    (cs : List GlobalCall) (g : GlobalMetrics) → g.once ≡ true → (call_globals cs g).once ≡ true
unfolding call_globals call_global set_global_metrics
once_stays [] g h = h
once_stays (sets m ∷ cs) g h = once_stays cs (set_global_metrics m g) h
once_stays (enables ∷ cs) g h = once_stays cs (enable_metrics g) (enables_once g)

-- `EnableMetrics` has an effect once: after one call of it, and any others since, metrics that are replaced by nil
-- stay nil, however often it is called.
pub enable_metrics-once :
    (cs : List GlobalCall) (g : GlobalMetrics)
    → get_global_metrics
        (enable_metrics (set_global_metrics none (call_globals cs (enable_metrics g))))
      ≡ none
unfolding get_global_metrics set_global_metrics
enable_metrics-once cs g =
    let done = once_stays cs (enable_metrics g) (enables_once g) in
    ap (λ m. m.global)
      (enabled_already (set_global_metrics none (call_globals cs (enable_metrics g))) done)
