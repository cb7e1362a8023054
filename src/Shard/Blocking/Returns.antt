-- ===== src/Shard/Blocking/Returns.antt =====
-- The blocking calls of the local locks return, and a nil error means that the lock was obtained.
use x_ailock.Base.{
  ℕ, suc, ◌+◌, ◌%◌, ◌^◌, ◌==◌, ℤ, pos, pos_part, ◌<ℤ◌, ◌≤ℤ◌, String, true, some, List, ◌≡◌, sym,
  ◌∙◌, ap, arith, int_laws,
}
use x_ailock.Errors.{GoError, nil}
use x_ailock.Config.{LockOption, LockConfig, apply_lock_options}
use x_ailock.Retry.{new_retry_config_from_lock_options}
use x_ailock.Retry.Settled.{Settled, Settled-map, retry_lock_operation-Settled}
use x_ailock.Shard.Lock.{ShardedLock, try_lock}
use x_ailock.Shard.ReadWrite.{RwLockData, try_rlock}
use x_ailock.Shard.Fair.{FairLockData}
use x_ailock.Shard.Fair as Fair
use x_ailock.Shard.Manager.{handle_try_lock, write}
use x_ailock.Shard.Fair.Turn.{front, try_lock-front, try_lock-quiet}
use x_ailock.Shard.Lock.Holding.{IsLeased}
use x_ailock.Shard.Surroundings.{Surroundings}
use x_ailock.Shard.Blocking.{
  Trial, retry_world, attempt_on, lock_on, lock_sharded, rlock_local, lock_local_fair,
}

module _ {T : Type 0} (u : Surroundings T) (trial : Trial T) (p : ℕ) (opts : List LockOption) where
  open u use {W, manager, put, now, meets, stays, unique}

  -- An object before and after a trial that succeeded, its configuration and the instant of the lease.
  abbrev pub Outcome : Type 1
  Outcome = LockConfig → ℤ → ShardedLock T → ShardedLock T → Type 0

  attempt_on-forward : (w : W) → now w ≤ℤ now (attempt_on u trial p opts w).0
  unfolding attempt_on
  attempt_on-forward w =
      let taken = meets w in
      let done = stays p taken in
      rw (u.now_put _ done) (omega (int_laws, u.meets_forward w, u.stays_forward p taken))

  attempt_on-silent :
      ((now later : ℤ) (config : LockConfig) (l : ShardedLock T)
        → (trial now later config l).2 ≡ nil)
      → (w : W) → (attempt_on u trial p opts w).1.1 ≡ nil
  unfolding attempt_on handle_try_lock
  attempt_on-silent silent w = silent _ _ _ _

  module _ (Q : Outcome)
      (succeeds : (now later : ℤ) (config : LockConfig) (l : ShardedLock T)
        → (trial now later config l).1 ≡ true
        → Q config later l (trial now later config l).0) where
    pub attempt_on-holds :
        (w t : W)
        → attempt_on u trial p opts w ≡ (t, (true, nil))
        → (before : W) × Q
            (apply_lock_options (unique w) opts)
            (now t)
            ((manager before).object p)
            ((manager t).object p)
    unfolding attempt_on handle_try_lock
    attempt_on-holds w t e =
        let taken = meets w in
        let done = stays p taken in
        let config = apply_lock_options (unique w) opts in
        let l = (manager done).object p in
        let ended : put (write p (trial (now taken) (now done) config l).0 (manager done)) done
            ≡ t =
          ap (λ q. q.0) e in
        let itself : (p == p) ≡ true = ground arith in
        (
          done,
          rw⁻¹ ended (
              rw (u.now_put _ done, u.manager_put _ done, itself)
                (succeeds (now taken) (now done) config l (ap (λ q. q.1.0) e))),
        )

    -- The loop returns; a nil error comes with the outcome of a trial that succeeded, and no trial has an
    -- error of its own.
    pub lock_on-Settled :
        ((now later : ℤ) (config : LockConfig) (l : ShardedLock T)
          → (trial now later config l).2 ≡ nil)
        → (key : String) (w : W) → pos 0 <ℤ (apply_lock_options (unique w) opts).retry_interval
        → (t : W) × (err : GoError) × (lock_on u trial
              (suc (suc (pos_part (apply_lock_options (unique w) opts).acquire_timeout)))
              key
              p
              opts
              w
            ≡ some (t, err))
          × Settled
              (retry_world u)
              (new_retry_config_from_lock_options key (unique w) opts)
              (λ s.
                (v : String) × (before : W) × Q
                  (apply_lock_options v opts)
                  (now s)
                  ((manager before).object p)
                  ((manager s).object p))
              (λ e. ⊥)
              (now w)
              t
              err
    unfolding lock_on new_retry_config_from_lock_options
    lock_on-Settled silent key w h =
        retry_lock_operation-Settled (retry_world u)
          (new_retry_config_from_lock_options key (unique w) opts) (attempt_on u trial p opts)
          (λ s.
            (v : String) × (before : W) × Q (apply_lock_options v opts) (now s)
              ((manager before).object p) ((manager s).object p))
          (λ e. ⊥) (λ b t a. (let (before, k) = attempt_on-holds b t a in (unique b, before, k)))
          (λ b t success err a n. n (sym (ap (λ q. q.1.1) a) ∙ attempt_on-silent silent b))
          attempt_on-forward h w

pub try_lock-IsLeased :
    {T : Type 0} (now later : ℤ) (config : LockConfig) (l : ShardedLock T)
    → (try_lock now later config l).1 ≡ true
    → IsLeased config later (try_lock now later config l).0
unfolding try_lock
try_lock-IsLeased now later config l h = ground arith

try_lock-silent :
    {T : Type 0} (now later : ℤ) (config : LockConfig) (l : ShardedLock T)
    → (try_lock now later config l).2 ≡ nil
unfolding try_lock
try_lock-silent now later config l = ground arith

pub lock_sharded-IsLeased :
    {T : Type 0} (u : Surroundings T) (p : ℕ) (opts : List LockOption) (w : u.W)
    → pos 0 <ℤ (apply_lock_options (u.unique w) opts).retry_interval
    → (t : u.W) × (err : GoError) × (lock_sharded u
          (suc (suc (pos_part (apply_lock_options (u.unique w) opts).acquire_timeout)))
          p
          opts
          w
        ≡ some (t, err))
      × Settled
          (retry_world u)
          (new_retry_config_from_lock_options ((u.manager w).object p).key (u.unique w) opts)
          (λ s.
            (v : String) × IsLeased (apply_lock_options v opts) (u.now s) ((u.manager s).object p))
          (λ e. ⊥)
          (u.now w)
          t
          err
unfolding lock_sharded
lock_sharded-IsLeased u p opts w h =
    let (t, err, q, e) =
      lock_on-Settled u try_lock p opts (λ config now before l. IsLeased config now l)
        try_lock-IsLeased try_lock-silent ((u.manager w).object p).key w h in
    (t, err, q, Settled-map _ (λ k. (k.0, k.2)) e)

try_rlock-counts :
    (now : ℤ) (l : ShardedLock RwLockData)
    → (try_rlock now l).1 ≡ true
    → ((try_rlock now l).0.unlocked ≡ true)
      × ((try_rlock now l).0.content.readers ≡ (l.content.readers + 1) % 2 ^ 32)
unfolding try_rlock
try_rlock-counts now l h = ground arith

try_rlock-silent : (now : ℤ) (l : ShardedLock RwLockData) → (try_rlock now l).2 ≡ nil
unfolding try_rlock
try_rlock-silent now l = ground arith

-- The blocking `RLock` of a local read-write lock returns in the same way; and a nil error means that no
-- writer holds the object, and that the reader was counted.
pub rlock_local-counts :
    (u : Surroundings RwLockData) (key : String) (p : ℕ) (opts : List LockOption) (w : u.W)
    → pos 0 <ℤ (apply_lock_options (u.unique w) opts).retry_interval
    → (t : u.W) × (err : GoError) × (rlock_local u
          (suc (suc (pos_part (apply_lock_options (u.unique w) opts).acquire_timeout)))
          key
          p
          opts
          w
        ≡ some (t, err))
      × Settled
          (retry_world u)
          (new_retry_config_from_lock_options key (u.unique w) opts)
          (λ s.
            (before : u.W) × (((u.manager s).object p).unlocked ≡ true)
            × (((u.manager s).object p).content.readers
                ≡ (((u.manager before).object p).content.readers + 1) % 2 ^ 32))
          (λ e. ⊥)
          (u.now w)
          t
          err
unfolding rlock_local
rlock_local-counts u key p opts w h =
    let (t, err, q, e) =
      lock_on-Settled u (λ now later config. try_rlock now) p opts
        (λ config now before l.
          (l.unlocked ≡ true) × (l.content.readers ≡ (before.content.readers + 1) % 2 ^ 32))
        (λ now later config l k. try_rlock-counts now l k)
        (λ now later config l. try_rlock-silent now l) key w h in
    (t, err, q, Settled-map _ (λ k. (k.1, k.2.0, k.2.1)) e)

-- The blocking `Lock` of a local fair lock, with a positive retry interval, returns within a fuel of its
-- timeout in nanoseconds plus two, whatever other goroutines do meanwhile. Either it returns nil, and the
-- object is held for a value that an attempt has drawn, which is at the front of the queue; or the error of
-- its context; or a timeout, once its timeout has passed.
pub lock_local_fair-front :
    (u : Surroundings FairLockData) (key : String) (p : ℕ) (opts : List LockOption) (w : u.W)
    → pos 0 <ℤ (apply_lock_options (u.unique w) opts).retry_interval
    → (t : u.W) × (err : GoError) × (lock_local_fair u
          (suc (suc (pos_part (apply_lock_options (u.unique w) opts).acquire_timeout)))
          key
          p
          opts
          w
        ≡ some (t, err))
      × Settled
          (retry_world u)
          (new_retry_config_from_lock_options key (u.unique w) opts)
          (λ s.
            (v : String) × IsLeased (apply_lock_options v opts) (u.now s) ((u.manager s).object p)
            × (front ((u.manager s).object p).content.queue
                ≡ some (apply_lock_options v opts).value))
          (λ e. ⊥)
          (u.now w)
          t
          err
unfolding lock_local_fair
lock_local_fair-front u key p opts w h =
    let (t, err, q, e) =
      lock_on-Settled u Fair.try_lock p opts
        (λ config now before l. IsLeased config now l × (front l.content.queue ≡ some config.value))
        try_lock-front try_lock-quiet key w h in
    (t, err, q, Settled-map _ (λ k. (k.0, k.2.0, k.2.1)) e)
