-- ===== src/Shard/Lock/Holding.antt =====
-- The methods of a lock against what a lease is: a holder and an instant, or nobody.
use x_ailock.Base.{
  ◌-◌, ◌^◌, ℤ, pos, ◌+ℤ◌, ◌-ℤ◌, ◌≤ℤ◌, ◌<ℤ◌, ltb_ℤ, String, true, false, Option, none, some, ◌≡◌,
  ◌≢◌, ◌⊎◌, refl, arith, if◌then◌else◌, -ℤ_parts, +ℤ_parts,
}
use x_ailock.Errors.{nil, lock}
use x_ailock.Config.{LockConfig}
use x_ailock.Shard.Lock.{ShardedLock, try_lock, extend, is_locked, get_ttl, expired_error}

-- Who holds the lock at an instant, and until when.
abbrev pub Lease : Type 0
Lease = String × ℤ

module _ {T : Type 0} where
  abbrev pub holder : ℤ → ShardedLock T → Option Lease
  holder t l =
      if l.unlocked then none else if ltb_ℤ l.expire_at t then none else some (l.value, l.expire_at)

  -- An attempt succeeds exactly when nobody holds the lock at that instant. Then the caller holds it
  -- until the TTL has passed; otherwise the object is left as it was. It never fails with an error.
  pub try_lock-holder :
      (now later : ℤ) (config : LockConfig) (l : ShardedLock T) (t : ℤ)
      → let (l', success, err) = try_lock now later config l in
        (err ≡ nil)
        × (((holder now l ≡ none)
              × (success ≡ true)
              × (holder t l' ≡ (
                  if ltb_ℤ (later +ℤ config.lock_ttl) t
                  then none
                  else some (config.value, later +ℤ config.lock_ttl))))
            ⊎ ((holder now l ≢ none) × (success ≡ false) × (l' ≡ l)))
  unfolding try_lock
  try_lock-holder now later config l t = ground arith

  -- The two queries agree with the lease, and with each other, and they leave the lease as it was:
  -- a lock is locked when it has a holder, and then, for a lease of at most 2^63 - 1 ns more, the
  -- time to live is what is left of it.
  pub queries-holder :
      (now t : ℤ) (l : ShardedLock T)
      → now ≤ℤ t
      → l.expire_at ≤ℤ now +ℤ pos (2 ^ 63 - 1)
      → ((is_locked now l).1 ≡ (elim (holder now l) [ none ↦ false | some h ↦ true ]))
        × (holder t (is_locked now l).0 ≡ holder t l)
        × (holder t (get_ttl now now l).0 ≡ holder t l)
        × ((get_ttl now now l).1 ≡ (elim (holder now l) [ none ↦ pos 0 | some (v, e) ↦ e -ℤ now ]))
  unfolding is_locked get_ttl
  queries-holder now t l after near =
      ground (arith, -ℤ_parts l.expire_at now, +ℤ_parts now (pos (2 ^ 63 - 1)))

  -- `Extend` of an object that is held, by whomever, gives a lease from that instant on.
  pub extend_held :
      (at ttl : ℤ) (l : ShardedLock T)
      → l.unlocked ≡ false
      → extend at ttl l ≡ (record l { ttl = ttl; expire_at = at +ℤ ttl }, true, nil)
  unfolding extend
  extend_held at ttl l e = rw (extend, e) refl

  -- A lease that has run out is reported as expired, and yet an extension at the same instant
  -- succeeds and gives the lock back to its last holder.
  pub extend_revives :
      (now ttl : ℤ) (l : ShardedLock T)
      → l.unlocked ≡ false
      → l.expire_at <ℤ now
      → pos 0 ≤ℤ ttl
      → (holder now l ≡ none)
        × ((get_ttl now now l).2 ≡ lock (expired_error l))
        × ((extend now ttl l).1 ≡ true)
        × (holder now (extend now ttl l).0 ≡ some (l.value, now +ℤ ttl))
  unfolding get_ttl extend
  extend_revives now ttl l u e p = ground (arith, +ℤ_parts now ttl)

-- A lease for a value, from an instant on, by a configuration.
abbrev pub IsLeased : {T : Type 0} → LockConfig → ℤ → ShardedLock T → Type 0
IsLeased config now l =
    (l.unlocked ≡ false) × (l.value ≡ config.value) × (l.expire_at ≡ now +ℤ config.lock_ttl)
