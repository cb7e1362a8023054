-- ===== src/Metrics/Wrapper/Entering.antt =====
-- What a single call through each wrapper adds to the balance.
use x_ailock.Base.{ℤ, pos, negsuc, String, Bool, true, false, Option, none, some, if◌then◌else◌}
use x_ailock.Errors.{GoError, is_nil}
use x_ailock.Interface.{Method, Lock, RwLock, FairLock}
use x_ailock.Interface.Calls.{
  returns, Reply, names, replies, answer, measure, listing, LockCall, locks, tries, releases,
  extends_by, asks_locked, asks_ttl, asks_key, asks_value, RwCall, rlocks, tries_rlock, runlocks,
  wlocks, tries_wlock, wunlocks, asks_read_count, asks_write_locked, asks_rw_key, FairCall, common,
  asks_position, asks_length, asks_info, Kind, simple, read_write, fair, CallOf, LockOf, perform,
}
use x_ailock.Metrics.{
  DefaultMetrics, Operation, acquiring, releasing, extending, trying, record_operation,
  record_queue_length, record_wait_time,
}
use x_ailock.Metrics.Interface.{default_metrics}
use x_ailock.Metrics.Wrapper.{
  note_outcome, note_extension, note_attempt, Runtime, new_metrics_wrapper, timed, note_length,
}
use x_ailock.Metrics.Wrapper.Kinds.{wrap}
use x_ailock.Metrics.Wrapper.Balance.{
  entry, Balance, Books, Booking, operation_of, lock_operation, rw_operation, fair_operation,
}
use x_ailock.Metrics.Wrapper.ReadWrite.{new_rw_lock_metrics_wrapper}
use x_ailock.Metrics.Wrapper.Fair.{new_fair_lock_metrics_wrapper, record_waiting}
use x_ailock.Metrics.Wrapper.Booking.{
  After, passed-After, timed-After, record_operation-Booking, outcome-After, extension-After,
  attempt-After,
}

module _ {S : Type 0} (r : Runtime S) (o : Operation) (lock_type backend : String) where
  -- The metrics after a call, for any balance before.
  abbrev pub Enters :
      {C : Type 0}
      → (C → Option Operation)
      → C
      → Option ((S × DefaultMetrics) × Reply)
      → Balance
      → Type 0
  Enters kind c x b = After (λ m a. Books o (entry (kind c) o a b) m) x

  outcome-Enters :
      (p : Operation) (delta : ℤ) (call : Method S GoError) (s : S) (m : DefaultMetrics)
      (b : Balance)
      → Books o b m
      → After
          (λ m' a. Books o (entry (some p) o a b) m')
          (replies returns
            (timed r call
              (note_outcome r default_metrics lock_type backend (record_operation p) delta))
            (s, m))
  outcome-Enters p delta call s m b h =
      outcome-After r o lock_type backend p (record_operation p) (record_operation-Booking p o)
        delta call s m b h

  extension-Enters :
      (p : Operation) (call : Method S (Bool × GoError)) (s : S) (m : DefaultMetrics) (b : Balance)
      → Books o b m
      → After
          (λ m' a. Books o (entry (some p) o a b) m')
          (replies answer
            (timed r call (note_extension r default_metrics lock_type backend (record_operation p)))
            (s, m))
  extension-Enters p call s m b h =
      extension-After r o lock_type backend p (record_operation p) (record_operation-Booking p o)
        call s m b h

  attempt-Enters :
      (p : Operation) (call : Method S (Bool × GoError)) (s : S) (m : DefaultMetrics) (b : Balance)
      → Books o b m
      → After
          (λ m' a. Books o (entry (some p) o a b) m')
          (replies answer
            (timed r call (note_attempt r default_metrics lock_type backend (record_operation p)))
            (s, m))
  attempt-Enters p call s m b h =
      attempt-After r o lock_type backend p (record_operation p) (record_operation-Booking p o) call
        s m b h

  call_lock-Enters :
      (l : Lock S) (c : LockCall) (s : S) (m : DefaultMetrics) (b : Balance)
      → Books o b m
      → Enters lock_operation c
          (perform simple (wrap r default_metrics lock_type backend none simple l) c (s, m))
          b
  unfolding perform wrap new_metrics_wrapper new_rw_lock_metrics_wrapper
      new_fair_lock_metrics_wrapper default_metrics
  call_lock-Enters l (locks opts) s m b h = outcome-Enters acquiring (pos 1) (l.lock opts) s m b h
  call_lock-Enters l (tries opts) s m b h = attempt-Enters trying (l.try_lock opts) s m b h
  call_lock-Enters l releases s m b h = outcome-Enters releasing (negsuc 0) l.unlock s m b h
  call_lock-Enters l (extends_by ttl) s m b h = extension-Enters extending (l.extend ttl) s m b h
  call_lock-Enters l asks_locked s m b h = passed-After _ r answer l.is_locked s m (λ a. h)
  call_lock-Enters l asks_ttl s m b h = passed-After _ r measure l.get_ttl s m (λ a. h)
  call_lock-Enters l asks_key s m b h = passed-After _ r names l.get_key s m (λ a. h)
  call_lock-Enters l asks_value s m b h = passed-After _ r names l.get_value s m (λ a. h)

  length-After :
      (call : Method S (ℤ × GoError)) (s : S) (m : DefaultMetrics) (b : Balance)
      → Books o b m
      → After
          (λ m' a. Books o b m')
          (replies measure (timed r call (note_length record_queue_length)) (s, m))
  unfolding note_length record_queue_length
  length-After call s m b h = timed-After _ r measure call _ s m (λ t a d. keep (is_nil a.1) a.0)
    where
      keep : (good : Bool) (n : ℤ) → Books o b (if good then record_queue_length n m else m)
      keep true n = h
      keep false n = h

  call_rw_lock-Enters :
      (l : RwLock S) (c : RwCall) (s : S) (m : DefaultMetrics) (b : Balance)
      → Books o b m
      → Enters rw_operation c
          (perform read_write (wrap r default_metrics lock_type backend none read_write l) c (s, m))
          b
  unfolding perform wrap new_metrics_wrapper new_rw_lock_metrics_wrapper
      new_fair_lock_metrics_wrapper default_metrics
  call_rw_lock-Enters l (rlocks opts) s m b h =
      outcome-Enters acquiring (pos 1) (l.rlock opts) s m b h
  call_rw_lock-Enters l (tries_rlock opts) s m b h =
      attempt-Enters trying (l.try_rlock opts) s m b h
  call_rw_lock-Enters l runlocks s m b h = outcome-Enters releasing (negsuc 0) l.runlock s m b h
  call_rw_lock-Enters l (wlocks opts) s m b h =
      outcome-Enters acquiring (pos 1) (l.wlock opts) s m b h
  call_rw_lock-Enters l (tries_wlock opts) s m b h =
      attempt-Enters trying (l.try_wlock opts) s m b h
  call_rw_lock-Enters l wunlocks s m b h = outcome-Enters releasing (negsuc 0) l.wunlock s m b h
  call_rw_lock-Enters l asks_read_count s m b h = length-After l.get_read_count s m b h
  call_rw_lock-Enters l asks_write_locked s m b h =
      passed-After _ r answer l.is_write_locked s m (λ a. h)
  call_rw_lock-Enters l asks_rw_key s m b h = passed-After _ r names l.get_key s m (λ a. h)

  waiting-Booking :
      (l : FairLock S)
      → Booking acquiring o
          (record_waiting r (new_fair_lock_metrics_wrapper default_metrics l backend none))
  unfolding record_waiting new_fair_lock_metrics_wrapper default_metrics record_wait_time
  waiting-Booking l good duration m b h = record_operation-Booking acquiring o good duration m b h

  call_fair_lock-Enters :
      (l : FairLock S) (c : FairCall) (s : S) (m : DefaultMetrics) (b : Balance)
      → Books o b m
      → Enters fair_operation c
          (perform fair (wrap r default_metrics lock_type backend none fair l) c (s, m))
          b
  unfolding perform wrap new_metrics_wrapper new_rw_lock_metrics_wrapper
      new_fair_lock_metrics_wrapper default_metrics
  call_fair_lock-Enters l (common (locks opts)) s m b h =
      outcome-After r o "FairLock" backend acquiring
        (record_waiting r (new_fair_lock_metrics_wrapper default_metrics l backend none))
        (waiting-Booking l) (pos 1) (l.lock opts) s m b h
  call_fair_lock-Enters l (common (tries opts)) s m b h =
      attempt-Enters trying (l.try_lock opts) s m b h
  call_fair_lock-Enters l (common releases) s m b h =
      outcome-Enters releasing (negsuc 0) l.unlock s m b h
  call_fair_lock-Enters l (common (extends_by ttl)) s m b h =
      extension-Enters extending (l.extend ttl) s m b h
  call_fair_lock-Enters l (common asks_locked) s m b h =
      passed-After _ r answer l.is_locked s m (λ a. h)
  call_fair_lock-Enters l (common asks_ttl) s m b h =
      passed-After _ r measure l.get_ttl s m (λ a. h)
  call_fair_lock-Enters l (common asks_key) s m b h = passed-After _ r names l.get_key s m (λ a. h)
  call_fair_lock-Enters l (common asks_value) s m b h =
      passed-After _ r names l.get_value s m (λ a. h)
  call_fair_lock-Enters l asks_position s m b h =
      passed-After _ r measure l.get_queue_position s m (λ a. h)
  call_fair_lock-Enters l asks_length s m b h = length-After l.get_queue_length s m b h
  call_fair_lock-Enters l asks_info s m b h = passed-After _ r listing l.get_queue_info s m (λ a. h)

  pub perform-Enters :
      (k : Kind) (l : LockOf k S) (c : CallOf k) (s : S) (m : DefaultMetrics) (b : Balance)
      → Books o b m
      → Enters
          (operation_of k)
          c
          (perform k (wrap r default_metrics lock_type backend none k l) c (s, m))
          b
  perform-Enters simple l c s m b h = call_lock-Enters l c s m b h
  perform-Enters read_write l c s m b h = call_rw_lock-Enters l c s m b h
  perform-Enters fair l c s m b h = call_fair_lock-Enters l c s m b h
