-- ===== src/Factory/Layers.antt =====
-- What the constructors of lock.go put around a lock, metrics and a watchdog, keeps the promises of it.
use x_ailock.Base.{ℤ, pos, negsuc, String, Option, List, refl}
use x_ailock.Config.{LockOption}
use x_ailock.Interface.{Method, Lock}
use x_ailock.Interface.Contract.{Lifted, IsLifted, IsHonest, IsLifted-IsHonest}
use x_ailock.Shard.Lock.{until}
use x_ailock.Metrics.Interface.{Metrics}
use x_ailock.Metrics.Wrapper.{
  Runtime, MetricsWrapper, new_metrics_wrapper, timed, passed, note_outcome, note_attempt,
  note_extension, lock_timed, try_lock, unlock, extend, wrapped_lock,
}
use x_ailock.Watchdog.Guarded.{on_lock, guarded_lock}

module _ {S M : Type 0} (r : Runtime S) where
  timed-Lifted :
      {A : Type 0} (call : Method S A) (log : S → A → ℤ → M → M) → Lifted (timed r call log) call
  unfolding timed
  timed-Lifted call log s t m a e = (log t a (until (r.now s) (r.now t)) m, rw (timed, e) refl)

  passed-Lifted : {A : Type 0} (call : Method S A) → Lifted {M = M} (passed r call) call
  unfolding passed
  passed-Lifted call s t m a e = (m, rw e refl)

  wrapped_lock-IsLifted : (w : MetricsWrapper S M) → IsLifted (wrapped_lock r w) w.lock
  unfolding wrapped_lock lock_timed try_lock unlock extend
  wrapped_lock-IsLifted w = record {
    lock = λ opts. timed-Lifted (w.lock.lock opts) (
        note_outcome r w.metrics w.lock_type w.backend
          (w.metrics.record_lock_acquire w.lock_type w.backend) (pos 1));
    try_lock = λ opts. timed-Lifted (w.lock.try_lock opts) (
        note_attempt r w.metrics w.lock_type w.backend
          (w.metrics.record_lock_try_acquire w.lock_type w.backend));
    unlock = timed-Lifted w.lock.unlock (
        note_outcome r w.metrics w.lock_type w.backend
          (w.metrics.record_lock_release w.lock_type w.backend) (negsuc 0));
    extend = λ ttl. timed-Lifted (w.lock.extend ttl) (
        note_extension r w.metrics w.lock_type w.backend
          (w.metrics.record_lock_extend w.lock_type w.backend));
    is_locked = passed-Lifted w.lock.is_locked;
    get_ttl = passed-Lifted w.lock.get_ttl;
    get_key = passed-Lifted w.lock.get_key;
    get_value = passed-Lifted w.lock.get_value;
  }

module _ {S : Type 0} (l : Lock S) where
  on_lock-Lifted : {A : Type 0} (call : Method S A) → Lifted (on_lock l call) call
  unfolding on_lock
  on_lock-Lifted call s t d a e = (d, rw e refl)

  guarded_lock-IsLifted : IsLifted (guarded_lock l) l
  unfolding guarded_lock
  guarded_lock-IsLifted = record {
    lock = λ opts. on_lock-Lifted (l.lock opts);
    try_lock = λ opts. on_lock-Lifted (l.try_lock opts);
    unlock = on_lock-Lifted l.unlock;
    extend = λ ttl. on_lock-Lifted (l.extend ttl);
    is_locked = on_lock-Lifted l.is_locked;
    get_ttl = on_lock-Lifted l.get_ttl;
    get_key = on_lock-Lifted l.get_key;
    get_value = on_lock-Lifted l.get_value;
  }

-- A lock with metrics around it, of any kind, and a watchdog around these, keeps the promises that the
-- lock keeps.
pub guarded_lock-IsHonest :
    {S M : Type 0} (r : Runtime S) (global : Metrics M) (lock_type backend : String)
    (metrics : Option (Metrics M)) (l : Lock S) (Usable Held : List LockOption → S → Type 0)
    (Locked : S → Type 0) (Freed : S → S → Type 0) (least : ℤ) (key : String)
    → IsHonest Usable Held Locked Freed least key l
    → IsHonest
        (λ opts s. Usable opts s.0.0)
        (λ opts s. Held opts s.0.0)
        (λ s. Locked s.0.0)
        (λ s t. Freed s.0.0 t.0.0)
        least
        key
        (guarded_lock (wrapped_lock r (new_metrics_wrapper global l lock_type backend metrics)))
unfolding new_metrics_wrapper
guarded_lock-IsHonest r global lock_type backend metrics l Usable Held Locked Freed least key h =
    let w = new_metrics_wrapper global l lock_type backend metrics in
    IsLifted-IsHonest _ _ (guarded_lock-IsLifted (wrapped_lock r w))
      (IsLifted-IsHonest _ _ (wrapped_lock-IsLifted r w) h)
