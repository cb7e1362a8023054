-- ===== src/Redis/Fair/Holder.antt =====
-- The holder of the fair lock in Redis: a script that grants the lock writes its value, and no script of
-- another value takes the lock away.
use x_ailock.Base.{
  ℤ, pos, negsuc, ◌<ℤ◌, leb_ℤ, String, false, Option, none, some, List, [], ◌∷◌, ◌≡◌, ◌≢◌, arith,
  str_eq, eq_iff, eq_refl, inl, inr, Bool-cases, Option-cases, ◌⊎◌,
}
use x_ailock.Redis.Expiry.{Expiry-cases}
use x_ailock.Redis.Server.{Redis, IsRefused, first}
use x_ailock.Redis.Scripts.{
  fair_lock_try_acquire, fair_lock_acquire, fair_lock_release, fair_lock_extend, fair_lock_cleanup,
  take_front, equals, or_refused,
}

module _ (r : Redis) (k qk : String) (apart : str_eq qk k ≡ false) where
  open r use {State, get, list, put, lpop, rpush}

  pub take_front_accepted :
      (v : String) (m : ℤ) (s : State)
      → pos 0 <ℤ m
      → take_front r k qk v (some m) s ≡ (lpop qk (put k v m s), some (pos 1))
  unfolding take_front
  take_front_accepted v m s p = ground (arith, r.set_ex_accepted k v m s p)

  pub take_front_refused :
      (v : String) (t : Option ℤ) (s : State) → IsRefused t → take_front r k qk v t s ≡ (s, none)
  unfolding take_front
  take_front_refused v t s h = ground (arith, r.set_ex_refused k v t s h)

  get-taken : (v : String) (m : ℤ) (s : State) → get k (lpop qk (put k v m s)) ≡ some v
  get-taken v m s = ground (arith, r.get-lpop qk k (put k v m s), r.get-put k k v m s, eq_refl k)

  take_front_one :
      (v : String) (t : Option ℤ) (s : State)
      → (take_front r k qk v t s).1 ≡ some (pos 1)
      → get k (take_front r k qk v t s).0 ≡ some v
  take_front_one v t s = elim (Expiry-cases t) [
    | inl h ↦ rw (take_front_refused v t s h) (λ e. absurd (ground arith))
    | inr (m, e, p) ↦ rw (e, take_front_accepted v m s p) (λ q. get-taken v m s)
  ]

  -- A reply of 1 means that the key of the lock now holds the value of the caller.
  pub fair_acquire_one :
      (v : String) (t : Option ℤ) (s : State)
      → (fair_lock_acquire r k qk v t s).1 ≡ some (pos 1)
      → get k (fair_lock_acquire r k qk v t s).0 ≡ some v
  unfolding fair_lock_acquire
  fair_acquire_one v t s = elim (Bool-cases (equals (first (list qk s)) v)) [
    | inl h ↦ elim (Option-cases (get k s)) [
      | inl e ↦ rw (h, e) (take_front_one v t s)
      | inr (w, e) ↦ rw (h, e) (λ q. absurd (ground arith))
    ]
    | inr h ↦ rw h (λ q. absurd (ground arith))
  ]

  -- Joining the queue does not touch the key of the lock.
  queued-get :
      (v : String) (qt : Option ℤ) (s s' : State)
      → r.expire qk qt (rpush qk v s) ≡ some s'
      → get k s' ≡ get k s
  queued-get v none s s' e = ground (arith, r.expire_refused qk (rpush qk v s))
  queued-get v (some m) s s' e = elim (Bool-cases (leb_ℤ m (pos 0))) [
    | inl past ↦ ground (
      arith,
      r.expire_past qk m (rpush qk v s) (ground arith),
      r.get-del qk k (rpush qk v s),
      r.get-rpush qk k v s apart,
    )
    | inr future ↦ ground (
      arith,
      r.expire_accepted qk m (rpush qk v s) (ground arith),
      r.get-keep qk k m (rpush qk v s),
      r.get-rpush qk k v s apart,
    )
  ]

  -- On a lock that is held, the script of `TryLock` replies -1 or is refused, and the holder stays.
  pub try_acquire_held :
      (owner v : String) (t qt : Option ℤ) (s : State)
      → get k s ≡ some owner
      → (((fair_lock_try_acquire r k qk v t qt s).1 ≡ some (negsuc 0))
          ⊎ ((fair_lock_try_acquire r k qk v t qt s).1 ≡ none))
        × (get k (fair_lock_try_acquire r k qk v t qt s).0 ≡ some owner)
  unfolding fair_lock_try_acquire
  try_acquire_held owner v t qt s h = elim (Option-cases (r.expire qk qt (rpush qk v s))) [
    | inl e ↦ ground (arith, r.exists-get k s, r.get-rpush qk k v s apart)
    | inr (s', e) ↦ ground (arith, r.exists-get k s, queued-get v qt s s' e)
  ]

  pub try_acquire_free :
      (v : String) (t qt : Option ℤ) (s : State)
      → get k s ≡ none
      → fair_lock_try_acquire r k qk v t qt s ≡ or_refused s (r.set_ex k v t s) (pos 1)
  unfolding fair_lock_try_acquire
  try_acquire_free v t qt s h = ground (arith, r.exists-get k s)

  pub fair_try_one :
      (v : String) (t qt : Option ℤ) (s : State)
      → (fair_lock_try_acquire r k qk v t qt s).1 ≡ some (pos 1)
      → get k (fair_lock_try_acquire r k qk v t qt s).0 ≡ some v
  fair_try_one v t qt s = elim (Option-cases (get k s)) [
    | inl e ↦ elim (Expiry-cases t) [
      | inl h ↦
          rw (try_acquire_free v t qt s e, r.set_ex_refused k v t s h) (λ q. absurd (ground arith))
      | inr (m, i, p) ↦
          rw (try_acquire_free v t qt s e, i, r.set_ex_accepted k v m s p)
            (λ q. ground (arith, r.get-put k k v m s, eq_refl k))
    ]
    | inr (w, e) ↦ λ q. absurd (ground (arith, try_acquire_held w v t qt s e))
  ]

  acquire_held :
      (owner v : String) (t : Option ℤ) (s : State)
      → get k s ≡ some owner
      → get k (fair_lock_acquire r k qk v t s).0 ≡ some owner
  unfolding fair_lock_acquire
  acquire_held owner v t s h = ground arith

  release_held :
      (owner v : String) (s : State)
      → v ≢ owner
      → get k s ≡ some owner
      → get k (fair_lock_release r k qk v s).0 ≡ some owner
  unfolding fair_lock_release
  release_held owner v s n h = ground (arith, eq_iff owner v)

  extend_held :
      (owner v : String) (ms : ℤ) (s : State)
      → v ≢ owner
      → get k s ≡ some owner
      → get k (fair_lock_extend r k v ms s).0 ≡ some owner
  unfolding fair_lock_extend
  extend_held owner v ms s n h = ground (arith, eq_iff owner v)

  -- The scripts of the clients of one lock.
  pub data Request : Type 0 where
    tries : String → Option ℤ → Option ℤ → Request
    acquires : String → Option ℤ → Request
    releases : String → Request
    extends : String → ℤ → Request
    cleans : String → Request

  unfoldable pub perform : Request → State → State
  unfolding fair_lock_cleanup
  perform (tries v t qt) s = (fair_lock_try_acquire r k qk v t qt s).0
  perform (acquires v t) s = (fair_lock_acquire r k qk v t s).0
  perform (releases v) s = (fair_lock_release r k qk v s).0
  perform (extends v ms) s = (fair_lock_extend r k v ms s).0
  perform (cleans v) s = fair_lock_cleanup r qk v s

  pub perform_all : List Request → State → State
  perform_all [] s = s
  perform_all (q ∷ qs) s = perform_all qs (perform q s)

  -- A release and an extension come from other values than the owner's.
  abbrev pub IsForeign : String → Request → Type 0
  IsForeign owner (tries v t qt) = Unit {0}
  IsForeign owner (acquires v t) = Unit {0}
  IsForeign owner (releases v) = v ≢ owner
  IsForeign owner (extends v ms) = v ≢ owner
  IsForeign owner (cleans v) = Unit {0}

  abbrev pub AllForeign : String → List Request → Type 0
  AllForeign owner [] = Unit {0}
  AllForeign owner (q ∷ qs) = IsForeign owner q × AllForeign owner qs

  -- Until it expires, a fair lock stays with its holder: no sequence of scripts of the lock's clients takes it,
  -- releases it or replaces its value, if the releases and extensions among them are of other values.
  pub fair_requests_harmless :
      (owner : String) (qs : List Request) (s : State)
      → get k s ≡ some owner
      → AllForeign owner qs
      → get k (perform_all qs s) ≡ some owner
  unfolding perform_all perform fair_lock_cleanup
  fair_requests_harmless owner [] s h f = h
  fair_requests_harmless owner (tries v t qt ∷ qs) s h f =
      fair_requests_harmless owner qs _ (try_acquire_held owner v t qt s h).1 f.1
  fair_requests_harmless owner (acquires v t ∷ qs) s h f =
      fair_requests_harmless owner qs _ (acquire_held owner v t s h) f.1
  fair_requests_harmless owner (releases v ∷ qs) s h f =
      fair_requests_harmless owner qs _ (release_held owner v s f.0 h) f.1
  fair_requests_harmless owner (extends v ms ∷ qs) s h f =
      fair_requests_harmless owner qs _ (extend_held owner v ms s f.0 h) f.1
  fair_requests_harmless owner (cleans v ∷ qs) s h f =
      fair_requests_harmless owner qs (r.lrem qk v s) (ground (arith, r.get-lrem qk k v s)) f.1
