-- ===== src/Redis/Simple/Exclusion.antt =====
-- The holder of the simple lock in Redis and the requests of other clients.
use x_ailock.Base.{
  ℤ, pos, leb_ℤ, String, Option, none, some, List, [], ◌∷◌, ◌≡◌, ◌≢◌, ap, inl, inr, arith, eq_iff,
  Bool-cases,
}
use x_ailock.Redis.Expiry.{Expiry-cases}
use x_ailock.Redis.Server.{Redis}
use x_ailock.Redis.Scripts.{simple_lock_acquire, simple_lock_release, simple_lock_extend}
use x_ailock.Redis.Simple.Steps.{acquire_accepted, acquire_refused}

module _ (r : Redis) where
  open r use {State, get, put, del}

  -- The calls that clients send, on any keys.
  pub data Request : Type 0 where
    acquires : String → String → Option ℤ → Request
    releases : String → String → Request
    extends : String → String → Option ℤ → Request

  perform : Request → State → State × Option ℤ
  perform (acquires k v t) s = simple_lock_acquire r k v t s
  perform (releases k v) s = simple_lock_release r k v s
  perform (extends k v t) s = simple_lock_extend r k v t s

  -- The server after some requests.
  pub perform_all : List Request → State → State
  perform_all [] s = s
  perform_all (q ∷ qs) s = perform_all qs (perform q s).0

  -- Requests on a key other than `key`, or with a value other than `owner`.
  abbrev pub IsForeign : String → String → Request → Type 0
  IsForeign key owner (acquires k v t) = Unit {0}
  IsForeign key owner (releases k v) = v ≢ owner
  IsForeign key owner (extends k v t) = v ≢ owner

  abbrev pub AllForeign : String → String → List Request → Type 0
  AllForeign key owner [] = Unit {0}
  AllForeign key owner (q ∷ qs) = IsForeign key owner q × AllForeign key owner qs

  acquire_held :
      (key owner k v : String) (t : Option ℤ) (s : State)
      → get key s ≡ some owner
      → get key (simple_lock_acquire r k v t s).0 ≡ some owner
  acquire_held key owner k v t s h = elim (Expiry-cases t) [
    | inl b ↦ rw (acquire_refused r k v t s b) h
    | inr (n, e, p) ↦ rw e (
        ground (
          arith,
          acquire_accepted r k v key n s p,
          eq_iff k key,
          ap (λ j. get j s) {x = k} {y = key},
        ))
  ]

  release_held :
      (key owner k v : String) (s : State)
      → v ≢ owner
      → get key s ≡ some owner
      → get key (simple_lock_release r k v s).0 ≡ some owner
  unfolding simple_lock_release
  release_held key owner k v s n h =
      ground (
        arith,
        r.get-del k key s,
        eq_iff k key,
        eq_iff owner v,
        ap (λ j. get j s) {x = k} {y = key},
      )

  extend_held :
      (key owner k v : String) (t : Option ℤ) (s : State)
      → v ≢ owner
      → get key s ≡ some owner
      → get key (simple_lock_extend r k v t s).0 ≡ some owner
  unfolding simple_lock_extend
  extend_held key owner k v none s n h = ground (arith, r.expire_refused k s)
  extend_held key owner k v (some m) s n h = elim (Bool-cases (leb_ℤ m (pos 0))) [
    | inl past ↦ ground (
      arith,
      r.expire_past k m s (ground arith),
      r.get-del k key s,
      eq_iff k key,
      eq_iff owner v,
      ap (λ j. get j s) {x = k} {y = key},
    )
    | inr future ↦ ground (arith, r.expire_accepted k m s (ground arith), r.get-keep k key m s)
  ]

  -- Until it expires, a lock stays with its owner: no sequence of requests by clients with other values, on
  -- any keys and with any arguments, takes it, releases it or replaces its value.
  pub foreign_requests_harmless :
      (key owner : String) (qs : List Request) (s : State)
      → get key s ≡ some owner
      → AllForeign key owner qs
      → get key (perform_all qs s) ≡ some owner
  unfolding perform_all perform
  foreign_requests_harmless key owner [] s h f = h
  foreign_requests_harmless key owner (acquires k v t ∷ qs) s h f =
      foreign_requests_harmless key owner qs (simple_lock_acquire r k v t s).0
        (acquire_held key owner k v t s h) f.1
  foreign_requests_harmless key owner (releases k v ∷ qs) s h f =
      foreign_requests_harmless key owner qs (simple_lock_release r k v s).0
        (release_held key owner k v s f.0 h) f.1
  foreign_requests_harmless key owner (extends k v t ∷ qs) s h f =
      foreign_requests_harmless key owner qs (simple_lock_extend r k v t s).0
        (extend_held key owner k v t s f.0 h) f.1
