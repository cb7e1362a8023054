-- ===== src/Shard/Fair/Turn.antt =====
-- What a successful attempt on a local fair lock leaves.
use x_ailock.Base.{
  ℤ, String, true, false, Option, none, some, List, [], ◌∷◌, ◌≡◌, refl, inl, inr, arith, eq_iff,
  Bool-cases, ltb_ℤ, sym, ap, ◌∙◌,
}
use x_ailock.Errors.{nil}
use x_ailock.Config.{LockConfig}
use x_ailock.Shard.Lock.{acquire}
use x_ailock.Shard.Lock.Holding.{IsLeased}
use x_ailock.Shard.Fair.{FairLock, try_lock, take_turn, release_expired, enqueue}

-- The three ways through `TryFairLockFair`.
pub data TryCase (now later : ℤ) (config : LockConfig) (l : FairLock) : Type 0 where
  free :
      l.unlocked ≡ true
      → try_lock now later config l ≡ take_turn later config l
      → TryCase now later config l
  over :
      l.unlocked ≡ false
      → try_lock now later config l ≡ take_turn later config (release_expired l)
      → TryCase now later config l
  held :
      l.unlocked ≡ false
      → try_lock now later config l ≡ (enqueue config.value l, false, nil)
      → TryCase now later config l

pub try_lock-TryCase :
    (now later : ℤ) (config : LockConfig) (l : FairLock) → TryCase now later config l
unfolding try_lock
try_lock-TryCase now later config l = elim (Bool-cases l.unlocked) [
  | inl u ↦ free u (ground arith)
  | inr u ↦ elim (Bool-cases (ltb_ℤ l.expire_at now)) [
    | inl x ↦ over u (ground arith)
    | inr x ↦ held u (ground arith)
  ]
]

-- The front of a queue.
abbrev pub front : List String → Option String
front [] = none
front (v ∷ q) = some v

abbrev IsTaken : LockConfig → ℤ → FairLock → Type 0
IsTaken config later l = IsLeased config later l × (front l.content.queue ≡ some config.value)

take_turn-IsTaken :
    (later : ℤ) (config : LockConfig) (l : FairLock)
    → (take_turn later config l).1 ≡ true
    → IsTaken config later (take_turn later config l).0
unfolding take_turn acquire enqueue
take_turn-IsTaken later config l h = go l.content.queue refl h
  where
    go :
        (q : List String)
        → l.content.queue ≡ q
        → (take_turn later config l).1 ≡ true
        → IsTaken config later (take_turn later config l).0
    go [] e k = ground arith
    go (v ∷ q) e k = ground (arith, eq_iff v config.value)

pub try_lock-front :
    (now later : ℤ) (config : LockConfig) (l : FairLock)
    → (try_lock now later config l).1 ≡ true
    → IsTaken config later (try_lock now later config l).0
try_lock-front now later config l h = elim (try_lock-TryCase now later config l) [
  | free u e ↦ rw e (take_turn-IsTaken later config l (ap (λ r. r.1) (sym e) ∙ h))
  | over u e ↦ rw e (take_turn-IsTaken later config (release_expired l) (ap (λ r. r.1) (sym e) ∙ h))
  | held u e ↦ absurd (ground (arith, ap (λ r. r.1) (sym e) ∙ h))
]

take_turn-quiet :
    (later : ℤ) (config : LockConfig) (l : FairLock) → (take_turn later config l).2 ≡ nil
unfolding take_turn
take_turn-quiet later config l = ground arith

-- An attempt has no error of its own.
pub try_lock-quiet :
    (now later : ℤ) (config : LockConfig) (l : FairLock) → (try_lock now later config l).2 ≡ nil
try_lock-quiet now later config l = elim (try_lock-TryCase now later config l) [
  | free u e ↦ rw e (take_turn-quiet later config l)
  | over u e ↦ rw e (take_turn-quiet later config (release_expired l))
  | held u e ↦ rw e refl
]
