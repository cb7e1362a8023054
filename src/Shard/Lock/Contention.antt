-- ===== src/Shard/Lock/Contention.antt =====
-- Mutual exclusion over a history: what contenders can do to a lock that is held.
use x_ailock.Base.{◌||◌, ℤ, ◌≤ℤ◌, Bool, false, List, [], ◌∷◌, ◌≡◌, refl, arith}
use x_ailock.Config.{LockConfig}
use x_ailock.Shard.Lock.{ShardedLock, try_lock, is_locked, get_ttl}

-- The calls that a client makes without holding the lock, each with the instants that it reads.
pub data Contender : Type 0 where
  tries : ℤ → ℤ → LockConfig → Contender
  checks : ℤ → Contender
  asks : ℤ → ℤ → Contender

abbrev pub instant : Contender → ℤ
instant (tries now later config) = now
instant (checks now) = now
instant (asks now later) = now

-- The object after the call, and whether the call took the lock.
pub contend : {T : Type 0} → Contender → ShardedLock T → ShardedLock T × Bool
contend (tries now later config) l =
    let (l', success, err) = try_lock now later config l in (l', success)
contend (checks now) l = ((is_locked now l).0, false)
contend (asks now later) l = ((get_ttl now later l).0, false)

abbrev note : {T : Type 0} → Bool → ShardedLock T × Bool → ShardedLock T × Bool
note took (l, later) = (l, took || later)

-- The object after a history, and whether some call of it took the lock.
pub contend_all : {T : Type 0} → List Contender → ShardedLock T → ShardedLock T × Bool
contend_all [] l = (l, false)
contend_all (c ∷ cs) l = note (contend c l).1 (contend_all cs (contend c l).0)

abbrev pub Within : ℤ → List Contender → Type 0
Within e [] = Unit {0}
Within e (c ∷ cs) = (instant c ≤ℤ e) × Within e cs

-- One call leaves a lease that lasts.
pub contend_excluded :
    {T : Type 0} (c : Contender) (l : ShardedLock T)
    → l.unlocked ≡ false
    → instant c ≤ℤ l.expire_at
    → contend c l ≡ (l, false)
unfolding contend try_lock is_locked get_ttl
contend_excluded (tries now later config) l u h = ground arith
contend_excluded (checks now) l u h = ground arith
contend_excluded (asks now later) l u h = ground arith

-- While a lease lasts, no history of attempts and queries, however long, takes the lock or changes
-- the object at all: its holder, value and expiry stay.
pub contenders_excluded :
    {T : Type 0} (cs : List Contender) (l : ShardedLock T)
    → l.unlocked ≡ false
    → Within l.expire_at cs
    → contend_all cs l ≡ (l, false)
unfolding contend_all
contenders_excluded [] l u w = refl
contenders_excluded (c ∷ cs) l u w =
    rw (contend_excluded c l u w.0) (rw (contenders_excluded cs l u w.1))
