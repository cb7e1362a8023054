-- ===== src/Metrics/Wrapper/Kinds.antt =====
-- The wrappers of metrics_wrapper.go by the kind of lock that they wrap.
use x_ailock.Base.{String, Option}
use x_ailock.Interface.Calls.{Kind, simple, read_write, fair, LockOf}
use x_ailock.Metrics.Interface.{Metrics}
use x_ailock.Metrics.Wrapper.{Runtime, new_metrics_wrapper, wrapped_lock}
use x_ailock.Metrics.Wrapper.ReadWrite.{new_rw_lock_metrics_wrapper, wrapped_rw_lock}
use x_ailock.Metrics.Wrapper.Fair.{new_fair_lock_metrics_wrapper, wrapped_fair_lock}

-- The texts are the type of a simple lock and the back end.
unfoldable pub wrap :
    {S M : Type 0}
    → Runtime S
    → Metrics M
    → String
    → String
    → Option (Metrics M)
    → (k : Kind) → LockOf k S
    → LockOf k (S × M)
unfolding wrapped_lock wrapped_rw_lock wrapped_fair_lock new_metrics_wrapper
    new_rw_lock_metrics_wrapper new_fair_lock_metrics_wrapper
wrap r global lock_type backend metrics simple l =
    wrapped_lock r (new_metrics_wrapper global l lock_type backend metrics)
wrap r global lock_type backend metrics read_write l =
    wrapped_rw_lock r (new_rw_lock_metrics_wrapper global l backend metrics)
wrap r global lock_type backend metrics fair l =
    wrapped_fair_lock r (new_fair_lock_metrics_wrapper global l backend metrics)
