-- ===== src/Metrics/Wrapper/Booking.antt =====
-- What the default metrics hold after a call through a wrapper.
use mathlib.Core.Option
use x_ailock.Base.{
  ℕ, ◌+◌, ◌==◌, ℤ, pos, String, Bool, true, false, ◌&&◌, Option, none, some, if◌then◌else◌, arith,
  Bool-cases, inl, inr,
}
use x_ailock.Errors.{GoError, nil, lock, foreign, is_nil}
use x_ailock.Interface.{Method}
use x_ailock.Interface.Calls.{Reply, returns, answers, replies, answer}
use x_ailock.Metrics.{
  DefaultMetrics, Operation, operation_index, record_operation, record_error,
  record_goroutine_count, count_operation, add64, pattern64,
}
use x_ailock.Metrics.Interface.{default_metrics}
use x_ailock.Metrics.Wrapper.{
  Runtime, timed, passed, record_failure, update_concurrent_locks, note_outcome, note_extension,
  note_attempt,
}
use x_ailock.Metrics.Wrapper.Balance.{tick, charge, entry, Balance, Books, Booking}

-- What a call leaves, if it returns.
abbrev pub After : {S M A : Type 0} → (M → A → Type 0) → Option ((S × M) × A) → Type 0
After P none = Unit {0}
After P (some ((s, m), a)) = P m a

module _ {S M : Type 0} (P : M → Reply → Type 0) where
  map-map-After :
      {A B : Type 0} (f : A → (S × M) × B) (h : B → Reply) (x : Option A)
      → ((a : A) → P (f a).0.1 (h (f a).1))
      → After P (Option.map (λ y. (y.0, h y.1)) (Option.map f x))
  map-map-After f h none g = tt
  map-map-After f h (some a) g = g a

  pub timed-After :
      (r : Runtime S) {A : Type 0} (h : A → Reply) (call : Method S A) (log : S → A → ℤ → M → M)
      (s : S) (m : M)
      → ((t : S) (a : A) (duration : ℤ) → P (log t a duration m) (h a))
      → After P (replies h (timed r call log) (s, m))
  unfolding timed
  timed-After r h call log s m g = map-map-After _ h (call s) (λ y. g y.0 y.1 _)

  pub passed-After :
      (r : Runtime S) {A : Type 0} (h : A → Reply) (call : Method S A) (s : S) (m : M)
      → ((a : A) → P m (h a))
      → After P (replies h (passed r call) (s, m))
  unfolding passed
  passed-After r h call s m g = map-map-After _ h (call s) (λ y. g y.1)

pub record_operation-Booking : (p o : Operation) → Booking p o (record_operation p)
unfolding record_operation count_operation add64 pattern64
record_operation-Booking p o true duration m (k, f, e) h =
    elim (Bool-cases (operation_index p == operation_index o)) [
      | inl q ↦ rw q (omega (arith, h), omega (arith, h), h.2, h.3, h.4, h.5)
      | inr q ↦ rw q h
    ]
record_operation-Booking p o false duration m (k, f, e) h =
    elim (Bool-cases (operation_index p == operation_index o)) [
      | inl q ↦ rw q (omega (arith, h), h.1, omega (arith, h), h.3, h.4, h.5)
      | inr q ↦ rw q h
    ]

record_error-Books :
    (o : Operation) (backend error_code error_type : String) (m : DefaultMetrics) (k f e : ℕ)
    → Books o (k, f, e) m
    → Books o (k, f, e + 1) (record_error backend error_code error_type m)
unfolding record_error add64 pattern64
record_error-Books o backend error_code error_type m k f e h =
    (h.0, h.1, h.2, omega (arith, h), h.4, h.5)

module _ {S : Type 0} (r : Runtime S) (o : Operation) (lock_type backend : String) where
  charge-Books :
      (delta : ℤ) (t : S) (err : GoError) (m : DefaultMetrics) (b : Balance)
      → Books o b m
      → Books o (charge err b) (
          if is_nil err
          then update_concurrent_locks r default_metrics lock_type backend delta t m
          else record_failure r default_metrics lock_type backend err m)
  unfolding record_failure update_concurrent_locks default_metrics record_goroutine_count
  charge-Books delta t nil m b h = h
  charge-Books delta t (lock err) m (k, f, e) h = record_error-Books o backend _ _ m k f e h
  charge-Books delta t (foreign x err) m (k, f, e) h = record_error-Books o backend _ _ m k f e h

  module _ (p : Operation) (book : Bool → ℤ → DefaultMetrics → DefaultMetrics)
      (books : Booking p o book) where
    note_outcome-Books :
        (delta : ℤ) (t : S) (err : GoError) (duration : ℤ) (m : DefaultMetrics) (b : Balance)
        → Books o b m
        → Books o
            (entry (some p) o (returns err) b)
            (note_outcome r default_metrics lock_type backend book delta t err duration m)
    unfolding note_outcome
    note_outcome-Books delta t err duration m b h =
        charge-Books delta t err (book (is_nil err) duration m) (tick p o (is_nil err) b)
          (books (is_nil err) duration m b h)

    note_extension-Books :
        (t : S) (success : Bool) (err : GoError) (duration : ℤ) (m : DefaultMetrics) (b : Balance)
        → Books o b m
        → Books o
            (entry (some p) o (answers success err) b)
            (note_extension r default_metrics lock_type backend book t (success, err) duration m)
    unfolding note_extension
    note_extension-Books t success nil duration m b h = books (success && true) duration m b h
    note_extension-Books t success (lock err) duration m b h =
        charge-Books (pos 0) t (lock err) (book (success && false) duration m)
          (tick p o (success && false) b) (books (success && false) duration m b h)
    note_extension-Books t success (foreign x err) duration m b h =
        charge-Books (pos 0) t (foreign x err) (book (success && false) duration m)
          (tick p o (success && false) b) (books (success && false) duration m b h)

    note_attempt-Books :
        (t : S) (success : Bool) (err : GoError) (duration : ℤ) (m : DefaultMetrics) (b : Balance)
        → Books o b m
        → Books o
            (entry (some p) o (answers success err) b)
            (note_attempt r default_metrics lock_type backend book t (success, err) duration m)
    unfolding note_attempt update_concurrent_locks default_metrics record_goroutine_count
    note_attempt-Books t true nil duration m b h = note_extension-Books t true nil duration m b h
    note_attempt-Books t true (lock err) duration m b h =
        note_extension-Books t true (lock err) duration m b h
    note_attempt-Books t true (foreign x err) duration m b h =
        note_extension-Books t true (foreign x err) duration m b h
    note_attempt-Books t false nil duration m b h = note_extension-Books t false nil duration m b h
    note_attempt-Books t false (lock err) duration m b h =
        note_extension-Books t false (lock err) duration m b h
    note_attempt-Books t false (foreign x err) duration m b h =
        note_extension-Books t false (foreign x err) duration m b h

    pub outcome-After :
        (delta : ℤ) (call : Method S GoError) (s : S) (m : DefaultMetrics) (b : Balance)
        → Books o b m
        → After
            (λ m' a. Books o (entry (some p) o a b) m')
            (replies returns
              (timed r call (note_outcome r default_metrics lock_type backend book delta))
              (s, m))
    outcome-After delta call s m b h =
        timed-After _ r returns call _ s m (λ t err d. note_outcome-Books delta t err d m b h)

    pub extension-After :
        (call : Method S (Bool × GoError)) (s : S) (m : DefaultMetrics) (b : Balance)
        → Books o b m
        → After
            (λ m' a. Books o (entry (some p) o a b) m')
            (replies answer
              (timed r call (note_extension r default_metrics lock_type backend book))
              (s, m))
    extension-After call s m b h =
        timed-After _ r answer call _ s m (λ t a d. note_extension-Books t a.0 a.1 d m b h)

    pub attempt-After :
        (call : Method S (Bool × GoError)) (s : S) (m : DefaultMetrics) (b : Balance)
        → Books o b m
        → After
            (λ m' a. Books o (entry (some p) o a b) m')
            (replies answer
              (timed r call (note_attempt r default_metrics lock_type backend book))
              (s, m))
    attempt-After call s m b h =
        timed-After _ r answer call _ s m (λ t a d. note_attempt-Books t a.0 a.1 d m b h)
