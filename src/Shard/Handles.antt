-- ===== src/Shard/Handles.antt =====
-- local_simple.go, local_rw.go and local_fair.go: the handles of the local locks, as implementations of
-- the interfaces. A handle keeps its key and a pointer to its object. A blocking call gets the fuel that
-- it needs.
pub mod Honest
pub mod Readers
use x_ailock.Base.{ℕ, suc, ℤ, pos, pos_part, String, Bool, some, List}
use x_ailock.Errors.{GoError, nil, lock, foreign}
use x_ailock.Config.{LockOption, apply_lock_options}
use x_ailock.Interface.{Method, Lock, RwLock, FairLock}
use x_ailock.Shard.Lock.{ShardedLock, try_lock, unlock, extend, is_locked, get_ttl, get_value}
use x_ailock.Shard.ReadWrite.{
  RwLockData, try_rlock, runlock, get_read_count, try_wlock, is_write_locked,
}
use x_ailock.Shard.Fair.{FairLockData, get_queue_position, get_queue_length, get_queue_info}
use x_ailock.Shard.Fair as Fair
use x_ailock.Shard.Manager.{write, release_lock}
use x_ailock.Shard.Surroundings.{Surroundings}
use x_ailock.Shard.Blocking.{Trial, attempt_on, lock_sharded, rlock_local, lock_local_fair}

pub record Handle : Type 0 where
  pub key : String
  pub object : ℕ

module _ {T : Type 0} (u : Surroundings T) (h : Handle) where
  open u use {W, manager, put, now, meets, stays}

  -- Enough turns for the timeout of the options.
  abbrev pub enough : List LockOption → W → ℕ
  enough opts w = suc (suc (pos_part (apply_lock_options (u.unique w) opts).acquire_timeout))

  unfoldable pub tries_on : Trial T → List LockOption → Method W (Bool × GoError)
  unfolding attempt_on
  tries_on trial opts w = some (attempt_on u trial h.object opts w)

  -- A method that reads the clock once, or not at all, under the mutex of the object.
  unfoldable pub acts :
      {B : Type 0} → (ℤ → ShardedLock T → ShardedLock T × B × GoError) → Method W (B × GoError)
  acts method w =
      let taken = meets w in
      let (l, b, err) = method (now taken) ((manager taken).object h.object) in
      some (put (write h.object l (manager taken)) taken, (b, err))

  unfoldable pub acts_only : (ShardedLock T → ShardedLock T × GoError) → Method W GoError
  acts_only method w =
      let taken = meets w in
      let (l, err) = method ((manager taken).object h.object) in
      some (put (write h.object l (manager taken)) taken, err)

  -- One that reads it twice.
  unfoldable pub acts_twice :
      {B : Type 0} → (ℤ → ℤ → ShardedLock T → ShardedLock T × B × GoError) → Method W (B × GoError)
  acts_twice method w =
      let taken = meets w in
      let done = stays h.object taken in
      let (l, b, err) = method (now taken) (now done) ((manager done).object h.object) in
      some (put (write h.object l (manager done)) done, (b, err))

  unfoldable pub reads : {A : Type 0} → (ShardedLock T → A) → Method W A
  reads query w = let taken = meets w in some (taken, query ((manager taken).object h.object))

  -- `Unlock`: the object is released under its mutex, and then its reference; between these the mutex is
  -- free, and other goroutines act.
  unfoldable pub unlocks_by : (ShardedLock T → ShardedLock T × GoError) → Method W GoError
  unfolding release_lock
  unlocks_by method w =
      let taken = meets w in
      let (l, err) = method ((manager taken).object h.object) in
      let left = put (write h.object l (manager taken)) taken in
      elim err [
        | nil ↦
            let later = meets left in some (put (release_lock h.object (manager later)) later, nil)
        | lock e ↦ some (left, lock e)
        | foreign t e ↦ some (left, foreign t e)
      ]

  -- `Lock` of the simple kind, which is `WLock` of a read-write lock too.
  unfoldable pub lock_handle : List LockOption → Method W GoError
  unfolding lock_sharded
  lock_handle opts w = lock_sharded u (enough opts w) h.object opts w

  unfoldable pub local_simple_lock : Lock W
  unfolding lock_handle tries_on acts acts_twice reads unlocks_by
  local_simple_lock = record {
    lock = lock_handle;
    try_lock = tries_on try_lock;
    unlock = unlocks_by unlock;
    extend = λ ttl. acts (λ at. extend at ttl);
    is_locked = acts is_locked;
    get_ttl = acts_twice get_ttl;
    get_key = λ w. some (w, h.key);
    get_value = reads get_value;
  }

-- The handle of a read-write lock has the methods of a simple lock too; its `WLock`, `TryWLock` and `WUnlock`
-- are three of these.
unfoldable pub local_rw_as_lock : (u : Surroundings RwLockData) → Handle → Lock u.W
unfolding local_simple_lock
local_rw_as_lock u h = local_simple_lock u h

unfoldable pub local_rw_lock : (u : Surroundings RwLockData) → Handle → RwLock u.W
unfolding lock_handle tries_on acts acts_only reads unlocks_by rlock_local
local_rw_lock u h = record {
  rlock = λ opts w. rlock_local u (enough u h opts w) h.key h.object opts w;
  try_rlock = tries_on u h (λ now later config. try_rlock now);
  runlock = acts_only u h runlock;
  wlock = lock_handle u h;
  try_wlock = tries_on u h try_wlock;
  wunlock = unlocks_by u h unlock;
  get_read_count = reads u h get_read_count;
  is_write_locked = acts u h is_write_locked;
  get_key = λ w. some (w, h.key);
}

unfoldable pub local_fair_lock : (u : Surroundings FairLockData) → Handle → FairLock u.W
unfolding tries_on acts acts_twice reads unlocks_by lock_local_fair
local_fair_lock u h = record {
  lock = λ opts w. lock_local_fair u (enough u h opts w) h.key h.object opts w;
  try_lock = tries_on u h Fair.try_lock;
  unlock = unlocks_by u h Fair.unlock;
  extend = λ ttl. acts u h (λ at. extend at ttl);
  is_locked = acts u h Fair.is_locked;
  get_ttl = acts_twice u h Fair.get_ttl;
  get_queue_position = reads u h get_queue_position;
  get_queue_length = reads u h (λ l. (pos (get_queue_length l).0, (get_queue_length l).1));
  get_queue_info = reads u h get_queue_info;
  get_key = λ w. some (w, h.key);
  get_value = reads u h get_value;
}
