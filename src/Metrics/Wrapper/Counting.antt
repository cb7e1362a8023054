-- ===== src/Metrics/Wrapper/Counting.antt =====
-- The counters of the default metrics count the calls through the wrappers.
use mathlib.Core.Option
use x_ailock.Base.{
  ◌+◌, ◌^◌, ◌<◌, pos, String, Option, none, some, List, [], ◌∷◌, ◌≡◌, refl, arith, subst,
}
use x_ailock.Interface.{Method}
use x_ailock.Interface.Calls.{Reply, run, Kind, CallOf, LockOf, perform}
use x_ailock.Metrics.{DefaultMetrics, Operation, new_default_metrics, to_int64}
use x_ailock.Metrics.Snapshot.{operation_stats}
use x_ailock.Metrics.Counting.{to_int64-small}
use x_ailock.Metrics.Interface.{default_metrics}
use x_ailock.Metrics.Wrapper.{Runtime}
use x_ailock.Metrics.Wrapper.Kinds.{wrap}
use x_ailock.Metrics.Wrapper.Balance.{entry, Balance, Books, balance, operation_of}
use x_ailock.Metrics.Wrapper.Booking.{After}
use x_ailock.Metrics.Wrapper.Entering.{perform-Enters}

module _ {S C : Type 0} (o : Operation) (kind : C → Option Operation)
    (call : C → Method (S × DefaultMetrics) Reply)
    (enters : (c : C) (s : S) (m : DefaultMetrics) (b : Balance)
      → Books o b m
      → After (λ m' a. Books o (entry (kind c) o a b) m') (call c (s, m))) where
  run-Books :
      (cs : List C) (s : S) (m : DefaultMetrics) (b : Balance)
      → Books o b m
      → After (λ m' rs. Books o (balance kind o cs rs b) m') (run call cs (s, m))
  unfolding run balance
  run-Books [] s m b h = h
  run-Books (c ∷ cs) s m b h =
      go (call c (s, m)) (enters c s m b h) (λ t n b' k. run-Books cs t n b' k)
    where
      prepend :
          (a : Reply) (x : Option ((S × DefaultMetrics) × List Reply))
          → After (λ m' rs. Books o (balance kind o cs rs (entry (kind c) o a b)) m') x
          → After
              (λ m' rs. Books o (balance kind o (c ∷ cs) rs b) m')
              (Option.map (λ r. (r.0, a ∷ r.1)) x)
      prepend a none k = tt
      prepend a (some ((t, n), rs)) k = k

      go :
          (x : Option ((S × DefaultMetrics) × Reply))
          → After (λ m' a. Books o (entry (kind c) o a b) m') x
          → ((t : S) (n : DefaultMetrics) (b' : Balance)
              → Books o b' n
              → After (λ m' rs. Books o (balance kind o cs rs b') m') (run call cs (t, n)))
          → After
              (λ m' rs. Books o (balance kind o (c ∷ cs) rs b) m')
              (elim x [
                | none ↦ none
                | some (t, a) ↦ Option.map (λ r. (r.0, a ∷ r.1)) (run call cs t)
              ])
      go none k rest = tt
      go (some ((t, n), a)) k rest = prepend a (run call cs (t, n)) (rest t n _ k)

new_default_metrics-Books : (o : Operation) → Books o (0, 0, 0) new_default_metrics
unfolding new_default_metrics
new_default_metrics-Books o = (refl, refl, refl, refl, refl, refl)

-- A client makes any calls on a lock, a read-write lock or a fair lock whose wrapper has new default
-- metrics, and all of them return. For each operation, `GetStats` then gives the successes and the
-- failures among the replies to its calls and their sum, and the errors among the replies to the calls of
-- all operations; and still no concurrent locks, whatever is held. A call counts as a success when it
-- replied so without an error; queries are no operations. The counts have to be below 2^63.
pub run-operation_stats :
    {S : Type 0} (r : Runtime S) (lock_type backend : String) (k : Kind) (l : LockOf k S)
    (cs : List (CallOf k)) (s s' : S) (m : DefaultMetrics) (rs : List Reply) (o : Operation)
    → run
        (perform k (wrap r default_metrics lock_type backend none k l))
        cs
        (s, new_default_metrics)
      ≡ some ((s', m), rs)
    → (let (successes, failures, errors) = balance (operation_of k) o cs rs (0, 0, 0) in
        (successes + failures < 2 ^ 63) × (errors < 2 ^ 63))
    → let (successes, failures, errors) = balance (operation_of k) o cs rs (0, 0, 0) in
      let stats = operation_stats o m in
      (stats.count ≡ pos (successes + failures))
      × (stats.success ≡ pos successes)
      × (stats.failed ≡ pos failures)
      × (to_int64 m.total_errors ≡ pos errors)
      × (m.current_locks ≡ pos 0)
      × (m.max_concurrent_locks ≡ pos 0)
unfolding operation_stats
run-operation_stats r lock_type backend k l cs s s' m rs o e bound =
    let call = perform k (wrap r default_metrics lock_type backend none k l) in
    let books =
      run-Books o (operation_of k) call (perform-Enters r o lock_type backend k l) cs s
        new_default_metrics (0, 0, 0) (new_default_metrics-Books o) in
    let (successes, failures, errors) = balance (operation_of k) o cs rs (0, 0, 0) in
    let b =
      subst (After (λ n qs. Books o (balance (operation_of k) o cs qs (0, 0, 0)) n)) e books in
    rw (b.0, b.1, b.2, b.3)
      (
        to_int64-small (successes + failures) bound.0,
        to_int64-small successes (omega (arith, bound.0)),
        to_int64-small failures (omega (arith, bound.0)),
        to_int64-small errors bound.1,
        b.4,
        b.5,
      )
