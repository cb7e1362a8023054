-- ===== src/Shard/Manager.antt =====
-- sharded_lock.go, `ShardedLockManager`: the tables of lock objects, their reference counts and pools;
-- and local_simple.go, local_rw.go and local_fair.go, whose handles point at objects of a manager.
-- Objects are shared and mutated through pointers, so they stand in a heap, and a pointer is a number.
-- Each function is one step. A release and a cleanup hold no mutex between their parts: what may come
-- between these is in `Sound.History`.
pub mod Table
pub mod Detached
pub mod Stats
pub mod Sound
pub mod Collecting
pub mod Background
pub mod Race
mod Tests
use x_ailock.Base.{
  ℕ, suc, ◌+◌, ℤ, pos, leb_ℤ, ltb_ℤ, ◌==◌, ltb, String, Bool, true, false, not, ◌&&◌, ◌||◌, Option,
  none, some, List, [], ◌∷◌, if◌then◌else◌, str_eq,
}
use x_ailock.Errors.{GoError, nil, lock, foreign}
use x_ailock.Shard.Lock.{ShardedLock, to_int32, increment32, decrement32}
use x_ailock.Shard.Index.{shard_index}

-- `locks` is the table of a shard, `pool` what its sync.Pool holds.
pub record LockShard : Type 0 where
  pub locks : List (String × ℕ)
  pub pool : List ℕ

-- `next` is the first pointer not in use.
pub record ShardedLockManager (T : Type 0) : Type 0 where
  pub shards : ℕ → LockShard
  pub shard_count : ℕ
  pub shard_mask : ℕ
  pub object : ℕ → ShardedLock T
  pub next : ℕ

unfoldable pub lookup : String → List (String × ℕ) → Option ℕ
lookup k [] = none
lookup k ((j, p) ∷ m) = if str_eq j k then some p else lookup k m

unfoldable pub delete : String → List (String × ℕ) → List (String × ℕ)
delete k [] = []
delete k ((j, p) ∷ m) = if str_eq j k then delete k m else (j, p) ∷ delete k m

abbrev pub update {ℓ} : {A : Type ℓ} → (ℕ → A) → ℕ → A → ℕ → A
update f p a q = if p == q then a else f q

module _ {T : Type 0} where
  abbrev pub write : ℕ → ShardedLock T → ShardedLockManager T → ShardedLockManager T
  write p l m = record m { object = update m.object p l }

  abbrev pub write_shard : ℕ → LockShard → ShardedLockManager T → ShardedLockManager T
  write_shard i s m = record m { shards = update m.shards i s }

  -- What the pool's `New` makes.
  unfoldable pub new_object : T → ShardedLock T
  new_object fresh = record {
    key = "";
    value = "";
    content = fresh;
    unlocked = true;
    ttl = pos 0;
    expire_at = pos 0;
    ref_count = 0;
    shard = none;
  }

  -- `pool.Get`: a pool may always answer with a new object, so the caller's `reuse` decides. It may answer
  -- with any of its objects, and lose some: this one gives the first, and what may become of a pool in the
  -- meantime is an event of `Sound.History`.
  unfoldable pub pool_get : Bool → T → ℕ → ShardedLockManager T → ShardedLockManager T × ℕ
  unfolding new_object
  pool_get reuse fresh i m = elim ((m.shards i).pool) [
    | [] ↦ (record (write m.next (new_object fresh) m) { next = suc m.next }, m.next)
    | p ∷ rest ↦
        if reuse
        then (write_shard i (record (m.shards i) { pool = rest }) m, p)
        else (record (write m.next (new_object fresh) m) { next = suc m.next }, m.next)
  ]

  -- The object for a key that the table lacks.
  unfoldable pub enter : ℕ → String → ShardedLockManager T × ℕ → ShardedLockManager T × ℕ
  enter i key (m, p) =
      let l = record (m.object p) { key = key; unlocked = true; ref_count = 1; shard = some i } in
      let s = record (m.shards i) { locks = (key, p) ∷ (m.shards i).locks } in
      (write_shard i s (write p l m), p)

  unfoldable pub get_lock : Bool → T → String → ShardedLockManager T → ShardedLockManager T × ℕ
  unfolding lookup pool_get enter increment32
  get_lock reuse fresh key m =
      let i = shard_index m.shard_mask key in
      elim (lookup key (m.shards i).locks) [
        | some p ↦
            (write p (record (m.object p) { ref_count = increment32 (m.object p).ref_count }) m, p)
        | none ↦ enter i key (pool_get reuse fresh i m)
      ]

  -- The fields that a cleanup resets. The content is not among them.
  unfoldable pub reset : ShardedLock T → ShardedLock T
  reset l = record l {
    key = "";
    value = "";
    unlocked = true;
    ttl = pos 0;
    expire_at = pos 0;
    ref_count = 0;
    shard = none;
  }

  -- Takes an object out of the table of shard `i`, and puts it into the pool.
  unfoldable pub retire : ℕ → ℕ → ShardedLockManager T → ShardedLockManager T
  unfolding delete reset
  retire i p m =
      let s = m.shards i in
      write_shard i (record { locks = delete (m.object p).key s.locks; pool = p ∷ s.pool })
        (write p (reset (m.object p)) m)

  -- `cleanupLock` once it has the mutex of shard `i`, which it has read off the object before that.
  unfoldable pub finish_cleanup : ℕ → ℕ → ShardedLockManager T → ShardedLockManager T
  unfolding retire to_int32
  finish_cleanup i p m = if ltb_ℤ (pos 0) (to_int32 (m.object p).ref_count) then m else retire i p m

  -- The whole of it, when nothing comes between these.
  unfoldable pub cleanup_lock : ℕ → ShardedLockManager T → ShardedLockManager T
  unfolding finish_cleanup
  cleanup_lock p m = elim ((m.object p).shard) [ none ↦ m | some i ↦ finish_cleanup i p m ]

  unfoldable pub release_lock : ℕ → ShardedLockManager T → ShardedLockManager T
  unfolding cleanup_lock decrement32
  release_lock p m =
      let less = decrement32 (m.object p).ref_count in
      let m' = write p (record (m.object p) { ref_count = less }) m in
      if leb_ℤ (to_int32 less) (pos 0) then cleanup_lock p m' else m'

  -- The test of `performCleanup` on an object.
  unfoldable pub is_idle : ℤ → ShardedLock T → Bool
  unfolding to_int32
  is_idle now l = (l.unlocked || ltb_ℤ l.expire_at now) && leb_ℤ (to_int32 l.ref_count) (pos 1)

  -- The objects of a table that are to be cleaned up.
  unfoldable pub collect : ℤ → ShardedLockManager T → List (String × ℕ) → List ℕ
  unfolding is_idle
  collect now m [] = []
  collect now m ((k, p) ∷ rest) =
      let others = collect now m rest in if is_idle now (m.object p) then p ∷ others else others

  unfoldable pub retire_all : ℕ → List ℕ → ShardedLockManager T → ShardedLockManager T
  unfolding retire
  retire_all i [] m = m
  retire_all i (p ∷ ps) m = retire_all i ps (retire i p m)

  -- The loop over `n` more shards, from index `i`.
  unfoldable pub clean_shards : ℕ → ℕ → ℤ → ShardedLockManager T → ShardedLockManager T
  unfolding collect retire_all
  clean_shards ℕ.zero i now m = m
  clean_shards (suc n) i now m =
      clean_shards n (suc i) now (retire_all i (collect now m (m.shards i).locks) m)

  unfoldable pub perform_cleanup : ℤ → ShardedLockManager T → ShardedLockManager T
  unfolding clean_shards
  perform_cleanup now m = clean_shards m.shard_count 0 now m

  -- `Unlock` of a local lock's handle, over the `Unlock` of its kind: the object is released, and then
  -- its reference, when nothing comes between these; `Shard.Handles.unlocks_by` is the one with a gap.
  unfoldable pub handle_unlock :
      (ShardedLock T → ShardedLock T × GoError)
      → ℕ
      → ShardedLockManager T
      → ShardedLockManager T × GoError
  unfolding release_lock
  handle_unlock method p m =
      let (l, err) = method (m.object p) in
      let m' = write p l m in
      elim err [
        | nil ↦ (release_lock p m', nil)
        | lock e ↦ (m', lock e)
        | foreign t e ↦ (m', foreign t e)
      ]

  -- `TryLock` of a local lock's handle, over the `TryLock` of its kind.
  unfoldable pub handle_try_lock :
      (ShardedLock T → ShardedLock T × Bool × GoError)
      → ℕ
      → ShardedLockManager T
      → ShardedLockManager T × Bool × GoError
  handle_try_lock method p m =
      let (l, success, err) = method (m.object p) in (write p l m, success, err)
