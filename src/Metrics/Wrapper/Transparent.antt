-- ===== src/Metrics/Wrapper/Transparent.antt =====
-- A client of a wrapped lock sees what it would see of the lock itself.
use mathlib.Core.Option
use x_ailock.Base.{String, Option, List, [], ◌∷◌, ◌≡◌, refl, Option-cases, inl, inr, arith}
use x_ailock.Interface.{Method}
use x_ailock.Interface.Calls.{
  Reply, LockCall, locks, tries, releases, extends_by, asks_locked, asks_ttl, asks_key, asks_value,
  RwCall, rlocks, tries_rlock, runlocks, wlocks, tries_wlock, wunlocks, asks_read_count,
  asks_write_locked, asks_rw_key, FairCall, common, asks_position, asks_length, asks_info,
  call_lock, call_rw_lock, call_fair_lock, run,
}
use x_ailock.Interface.Calls.{Kind, simple, read_write, fair, LockOf, CallOf, perform}
use x_ailock.Metrics.Interface.{Metrics}
use x_ailock.Metrics.Wrapper.Kinds.{wrap}
use x_ailock.Metrics.Wrapper.{
  new_metrics_wrapper, Runtime, MetricsWrapper, timed, passed, wrapped_lock,
}
use x_ailock.Metrics.Wrapper.ReadWrite.{
  new_rw_lock_metrics_wrapper, RwLockMetricsWrapper, wrapped_rw_lock,
}
use x_ailock.Metrics.Wrapper.Fair.{
  new_fair_lock_metrics_wrapper, FairLockMetricsWrapper, wrapped_fair_lock,
}

module _ {S M : Type 0} where
  -- What a client sees: the state of the lock and its world, and the result.
  abbrev pub visible : {A : Type 0} → Option ((S × M) × A) → Option (S × A)
  visible = Option.map (λ r. (r.0.0, r.1))

  -- A method on both states that behaves on the first as another.
  abbrev pub Transparent : {A : Type 0} → Method (S × M) A → Method S A → Type 0
  Transparent f g = (s : S) (m : M) → visible (f (s, m)) ≡ g s

  run-Transparent :
      {C : Type 0} (f : C → Method (S × M) Reply) (g : C → Method S Reply)
      → ((c : C) → Transparent (f c) (g c))
      → (cs : List C) → (s : S) → (m : M) → visible (run f cs (s, m)) ≡ run g cs s
  unfolding run
  run-Transparent f g t [] s m = refl
  run-Transparent f g t (c ∷ cs) s m = elim (Option-cases (f c (s, m))) [
    | inl e ↦ rw (e, run, ← t c s m, e) refl
    | inr (((s', m'), a), e) ↦
        rw (e, run, ← t c s m, e) (rw (← run-Transparent f g t cs s' m') (ground arith))
  ]

  call_lock-Transparent :
      (r : Runtime S) (w : MetricsWrapper S M) (c : LockCall)
      → Transparent (call_lock (wrapped_lock r w) c) (call_lock w.lock c)
  unfolding call_lock wrapped_lock timed passed
  call_lock-Transparent r w (locks opts) s m = ground arith
  call_lock-Transparent r w (tries opts) s m = ground arith
  call_lock-Transparent r w releases s m = ground arith
  call_lock-Transparent r w (extends_by ttl) s m = ground arith
  call_lock-Transparent r w asks_locked s m = ground arith
  call_lock-Transparent r w asks_ttl s m = ground arith
  call_lock-Transparent r w asks_key s m = ground arith
  call_lock-Transparent r w asks_value s m = ground arith

  call_rw_lock-Transparent :
      (r : Runtime S) (w : RwLockMetricsWrapper S M) (c : RwCall)
      → Transparent (call_rw_lock (wrapped_rw_lock r w) c) (call_rw_lock w.lock c)
  unfolding call_rw_lock wrapped_rw_lock timed passed
  call_rw_lock-Transparent r w (rlocks opts) s m = ground arith
  call_rw_lock-Transparent r w (tries_rlock opts) s m = ground arith
  call_rw_lock-Transparent r w runlocks s m = ground arith
  call_rw_lock-Transparent r w (wlocks opts) s m = ground arith
  call_rw_lock-Transparent r w (tries_wlock opts) s m = ground arith
  call_rw_lock-Transparent r w wunlocks s m = ground arith
  call_rw_lock-Transparent r w asks_read_count s m = ground arith
  call_rw_lock-Transparent r w asks_write_locked s m = ground arith
  call_rw_lock-Transparent r w asks_rw_key s m = ground arith

  call_fair_lock-Transparent :
      (r : Runtime S) (w : FairLockMetricsWrapper S M) (c : FairCall)
      → Transparent (call_fair_lock (wrapped_fair_lock r w) c) (call_fair_lock w.lock c)
  unfolding call_fair_lock wrapped_fair_lock timed passed
  call_fair_lock-Transparent r w (common (locks opts)) s m = ground arith
  call_fair_lock-Transparent r w (common (tries opts)) s m = ground arith
  call_fair_lock-Transparent r w (common releases) s m = ground arith
  call_fair_lock-Transparent r w (common (extends_by ttl)) s m = ground arith
  call_fair_lock-Transparent r w (common asks_locked) s m = ground arith
  call_fair_lock-Transparent r w (common asks_ttl) s m = ground arith
  call_fair_lock-Transparent r w (common asks_key) s m = ground arith
  call_fair_lock-Transparent r w (common asks_value) s m = ground arith
  call_fair_lock-Transparent r w asks_position s m = ground arith
  call_fair_lock-Transparent r w asks_length s m = ground arith
  call_fair_lock-Transparent r w asks_info s m = ground arith

  perform-Transparent :
      (r : Runtime S) (global : Metrics M) (lock_type backend : String)
      (metrics : Option (Metrics M)) (k : Kind) (l : LockOf k S) (c : CallOf k)
      → Transparent (perform k (wrap r global lock_type backend metrics k l) c) (perform k l c)
  unfolding perform wrap new_metrics_wrapper new_rw_lock_metrics_wrapper
      new_fair_lock_metrics_wrapper
  perform-Transparent r global lock_type backend metrics simple l c =
      call_lock-Transparent r (new_metrics_wrapper global l lock_type backend metrics) c
  perform-Transparent r global lock_type backend metrics read_write l c =
      call_rw_lock-Transparent r (new_rw_lock_metrics_wrapper global l backend metrics) c
  perform-Transparent r global lock_type backend metrics fair l c =
      call_fair_lock-Transparent r (new_fair_lock_metrics_wrapper global l backend metrics) c

  -- A client that makes any calls, on a lock, a read-write lock or a fair lock, gets from the wrapper the
  -- replies that it would get from the lock itself, and leaves the lock and the world as it would; and its
  -- calls return through the wrapper exactly when they do without it. This holds for any metrics.
  pub wrap-Transparent :
      (r : Runtime S) (global : Metrics M) (lock_type backend : String)
      (metrics : Option (Metrics M)) (k : Kind) (l : LockOf k S) (cs : List (CallOf k)) (s : S)
      (m : M)
      → visible (run (perform k (wrap r global lock_type backend metrics k l)) cs (s, m))
        ≡ run (perform k l) cs s
  wrap-Transparent r global lock_type backend metrics k l cs s m =
      run-Transparent _ _ (perform-Transparent r global lock_type backend metrics k l) cs s m
