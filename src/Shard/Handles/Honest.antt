-- ===== src/Shard/Handles/Honest.antt =====
-- The handle of a local lock keeps the promises of its interface.
pub mod Fair
use x_ailock.Base.{
  ℕ, ◌==◌, ℤ, pos, ◌<ℤ◌, ◌≤ℤ◌, leb_ℤ, ltb_ℤ, String, true, false, List, ◌≡◌, refl, inl, inr, arith,
  +ℤ_parts, Bool-cases, Option-cases,
}
use x_ailock.Errors.{GoError, nil, lock, foreign}
use x_ailock.Config.{LockOption, apply_lock_options}
use x_ailock.Interface.Contract.{Returns, IsHonest, IfTrue, IfFalse}
use x_ailock.Retry.Settled.{succeeded, Settled-nil}
use x_ailock.Shard.Lock.{ShardedLock, try_lock, unlock, extend, is_locked, to_int32, decrement32}
use x_ailock.Shard.Lock.Holding.{IsLeased}
use x_ailock.Shard.Manager.{
  ShardedLockManager, write, reset, retire, cleanup_lock, release_lock, handle_unlock,
}
use x_ailock.Shard.Surroundings.{Surroundings}
use x_ailock.Shard.Blocking.{attempt_on}
use x_ailock.Shard.Blocking.Returns.{attempt_on-holds, lock_sharded-IsLeased, try_lock-IsLeased}
use x_ailock.Shard.Handles.{
  Handle, local_simple_lock, lock_handle, tries_on, unlocks_by, acts, acts_twice, reads,
}

-- The object is held at `now`, by whomever.
abbrev pub IsLive : {T : Type 0} → ℤ → ShardedLock T → Type 0
IsLive now l = (l.unlocked ≡ false) × (now ≤ℤ l.expire_at)

module _ {T : Type 0} where
  -- An `Unlock` that leaves the object open, when it has no error.
  abbrev pub Opens : (ShardedLock T → ShardedLock T × GoError) → Type 0
  Opens method = (l : ShardedLock T) → (method l).1 ≡ nil → (method l).0.unlocked ≡ true

  pub unlock-Opens : Opens unlock
  unfolding unlock
  unlock-Opens l e = ground (arith, e)

  is_locked_true :
      (now : ℤ) (l : ShardedLock T)
      → IfTrue (IsLive now (is_locked now l).0) ((is_locked now l).1, (is_locked now l).2)
        × IfFalse (¬ (IsLive now (is_locked now l).0)) ((is_locked now l).1, (is_locked now l).2)
  unfolding is_locked
  is_locked_true now l = ground arith

  pub extend_true :
      (now ttl : ℤ) (l : ShardedLock T)
      → pos 1 ≤ℤ ttl
      → IfTrue (IsLive now (extend now ttl l).0) ((extend now ttl l).1, (extend now ttl l).2)
  unfolding extend
  extend_true now ttl l h = ground (arith, +ℤ_parts now ttl)

module _ {T : Type 0} (u : Surroundings T) (h : Handle) where
  open u use {W, manager, now, unique}

  abbrev pub Usable : List LockOption → W → Type 0
  Usable opts w = pos 0 <ℤ (apply_lock_options (unique w) opts).retry_interval

  -- The object is held from this instant on, for a value that an attempt has drawn, and for the TTL.
  abbrev pub Held : List LockOption → W → Type 0
  Held opts w =
      (v : String) × IsLeased (apply_lock_options v opts) (now w) ((manager w).object h.object)

  abbrev pub Locked : W → Type 0
  Locked w = IsLive (now w) ((manager w).object h.object)

  local_locks :
      (opts : List LockOption) (w : W)
      → Usable opts w
      → Returns ((local_simple_lock u h).lock opts) (λ t err. err ≡ nil → Held opts t) w
  unfolding local_simple_lock lock_handle
  local_locks opts w i =
      let (t, err, e, settled) = lock_sharded-IsLeased u h.object opts w i in
      (t, err, e, Settled-nil settled)

  local_tries :
      (opts : List LockOption) (w : W)
      → Returns ((local_simple_lock u h).try_lock opts) (λ t a. IfTrue (Held opts t) a) w
  unfolding local_simple_lock tries_on
  local_tries opts w =
      let tried = attempt_on u try_lock h.object opts w in
      (
        tried.0,
        tried.1,
        refl,
        λ z y.
            let (before, leased) =
              attempt_on-holds u try_lock h.object opts
                (λ config now before l. IsLeased config now l) try_lock-IsLeased w tried.0
                (succeeded tried z y) in
            (unique w, leased),
      )

  -- At an instant of the call the object was free, and after it a reference of it was released, as the last
  -- step of the call.
  abbrev pub Freed : W → W → Type 0
  Freed w t =
      (left : W) × (((manager left).object h.object).unlocked ≡ true)
      × (now w ≤ℤ now left)
      × (manager t ≡ release_lock h.object (manager (u.meets left)))

  pub unlocks_by-Returns :
      (method : ShardedLock T → ShardedLock T × GoError)
      → Opens method
      → (w : W) → Returns (unlocks_by u h method) (λ t err. err ≡ nil → Freed w t) w
  unfolding unlocks_by
  unlocks_by-Returns method opens w = go (method l).1 refl
    where
      taken : W
      taken = u.meets w

      l : ShardedLock T
      l = (manager taken).object h.object

      left : W
      left = u.put (write h.object (method l).0 (manager taken)) taken

      open_ : (method l).1 ≡ nil → ((manager left).object h.object).unlocked ≡ true
      open_ e =
          let itself : (h.object == h.object) ≡ true = ground arith in
          rw (u.manager_put _ taken, itself) (opens l e)

      go :
          (err : GoError)
          → (method l).1 ≡ err
          → Returns (unlocks_by u h method) (λ t err. err ≡ nil → Freed w t) w
      go nil e = (
        u.put (release_lock h.object (manager (u.meets left))) (u.meets left),
        nil,
        rw (e, unlocks_by) refl,
        λ z. (left, open_ e, rw (u.now_put _ taken) (u.meets_forward w), u.manager_put _ _),
      )
      go (lock x) e = (left, lock x, rw (e, unlocks_by) refl, λ z. absurd (ground (arith, z)))
      go (foreign t x) e =
          (left, foreign t x, rw (e, unlocks_by) refl, λ z. absurd (ground (arith, z)))

  pub acts-Returns :
      {B : Type 0} (method : ℤ → ShardedLock T → ShardedLock T × B × GoError)
      (P : ℤ → ShardedLock T → B × GoError → Type 0)
      → ((at : ℤ) (l : ShardedLock T) → P at (method at l).0 ((method at l).1, (method at l).2))
      → (w : W) → Returns (acts u h method) (λ t a. P (now t) ((manager t).object h.object) a) w
  unfolding acts
  acts-Returns method P holds w =
      let taken = u.meets w in
      let (l, b, err) = method (now taken) ((manager taken).object h.object) in
      let itself : (h.object == h.object) ≡ true = ground arith in
      (
        u.put (write h.object l (manager taken)) taken,
        (b, err),
        refl,
        rw (u.manager_put _ taken, u.now_put _ taken, itself)
            (holds (now taken) ((manager taken).object h.object)),
      )

  pub local_simple_lock-IsHonest :
      IsHonest Usable Held Locked Freed (pos 1) h.key (local_simple_lock u h)
  unfolding local_simple_lock acts_twice reads
  local_simple_lock-IsHonest = record {
    locks = local_locks;
    tries = local_tries;
    frees = unlocks_by-Returns unlock unlock-Opens;
    extends = λ ttl w p.
        acts-Returns (λ at. extend at ttl) (λ at l a. IfTrue (IsLive at l) a)
          (λ at l. extend_true at ttl l p) w;
    tells =
        acts-Returns is_locked (λ at l a. IfTrue (IsLive at l) a × IfFalse (¬ (IsLive at l)) a)
          is_locked_true;
    measures = λ w. (_, _, refl, tt);
    names = λ w. (w, h.key, refl, refl);
    values = λ w. (_, _, refl, tt);
  }
