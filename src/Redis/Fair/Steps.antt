-- ===== src/Redis/Fair/Steps.antt =====
-- What the scripts of the fair lock do to the key and the queue, step by step.
use x_ailock.Base.{
  ℕ, ◌+◌, ℤ, pos, negsuc, ◌<ℤ◌, ◌++◌, String, true, false, Option, none, some, List, [], ◌∷◌, ◌≡◌,
  ◌≢◌, refl, arith, str_eq, eq_iff, eq_refl, inl, inr, Bool-cases,
}
use x_ailock.Redis.Server.{Redis, drop_all}
use x_ailock.Redis.Scripts.{
  fair_lock_try_acquire, fair_lock_acquire, fair_lock_release, equals, index_from,
}

-- A value that was dropped from a queue has no position in it.
pub index_from-drop_all :
    (i : ℕ) (v : String) (q : List String) → index_from i v (drop_all v q) ≡ negsuc 0
unfolding index_from drop_all
index_from-drop_all i v [] = refl
index_from-drop_all i v (w ∷ q) = elim (Bool-cases (str_eq w v)) [
  | inl e ↦ rw e (index_from-drop_all i v q)
  | inr e ↦ rw (e, e) (index_from-drop_all (i + 1) v q)
]

pub equals→some : (o : Option String) (v : String) → equals o v ≡ true → o ≡ some v
equals→some none v h = ground arith
equals→some (some w) v h = ground (arith, eq_iff w v)

pub not_equals→ne : (o : Option String) (v : String) → equals o v ≡ false → o ≢ some v
not_equals→ne none v h = λ q. ground arith
not_equals→ne (some w) v h = λ q. ground (arith, eq_iff w v)

module _ (r : Redis) (k qk : String) (apart : str_eq qk k ≡ false) where
  open r use {State, get, list, put, lpop, rpush}

  -- The server after a release by the holder.
  pub released-get : (v : String) (s : State) → get k (r.lrem qk v (r.del k s)) ≡ none
  released-get v s = ground (arith, r.get-lrem qk k v (r.del k s), r.get-del k k s, eq_refl k)

  pub released-list :
      (v : String) (s : State) → list qk (r.lrem qk v (r.del k s)) ≡ drop_all v (list qk s)
  released-list v s = ground (
    arith,
    r.list-lrem qk qk v (r.del k s),
    r.list-del k qk s,
    eq_refl qk,
    eq_iff qk k,
    eq_iff k qk,
  )

  pub joined-get : (v : String) (m : ℤ) (s : State) → get k (r.keep qk m (rpush qk v s)) ≡ get k s
  joined-get v m s = ground (arith, r.get-keep qk k m (rpush qk v s), r.get-rpush qk k v s apart)

  pub queued-list :
      (v : String) (m : ℤ) (s : State) → list qk (r.keep qk m (rpush qk v s)) ≡ list qk s ++ v ∷ []
  queued-list v m s =
      ground (arith, r.list-keep qk qk m (rpush qk v s), r.list-rpush qk qk v s, eq_refl qk)

  -- On a held lock, with expiries that Redis accepts, the script of `TryLock` joins the queue.
  pub try_acquire_joins :
      (owner v : String) (t : Option ℤ) (qm : ℤ) (s : State)
      → pos 0 <ℤ qm
      → get k s ≡ some owner
      → fair_lock_try_acquire r k qk v t (some qm) s
        ≡ (r.keep qk qm (rpush qk v s), some (negsuc 0))
  unfolding fair_lock_try_acquire
  try_acquire_joins owner v t qm s p h = ground (
    arith,
    r.exists-get k s,
    r.expire_accepted qk qm (rpush qk v s) p,
    r.get-keep qk k qm (rpush qk v s),
    r.get-rpush qk k v s apart,
  )

  pub release_own :
      (v : String) (s : State)
      → get k s ≡ some v
      → fair_lock_release r k qk v s ≡ (r.lrem qk v (r.del k s), some (pos 1))
  unfolding fair_lock_release
  release_own v s e = ground (arith, eq_refl v)

  pub release_foreign :
      (v : String) (s : State)
      → equals (get k s) v ≡ false
      → fair_lock_release r k qk v s ≡ (s, some (pos 0))
  unfolding fair_lock_release
  release_foreign v s e = rw e refl

  pub acquire_early :
      (v w : String) (q : List String) (t : Option ℤ) (s : State)
      → get k s ≡ some w
      → list qk s ≡ v ∷ q
      → fair_lock_acquire r k qk v t s ≡ (s, some (negsuc 0))
  unfolding fair_lock_acquire
  acquire_early v w q t s h e = ground (arith, eq_refl v)

  pub acquire_behind :
      (v x : String) (q : List String) (t : Option ℤ) (s : State)
      → v ≢ x
      → list qk s ≡ v ∷ q
      → fair_lock_acquire r k qk x t s ≡ (s, some (pos 0))
  unfolding fair_lock_acquire
  acquire_behind v x q t s n e = ground (arith, eq_iff v x)
