-- ===== src/Shard/Manager/Detached.antt =====
-- What becomes of a lock object when its last reference is released: handles that still point at it,
-- and the keys that get it from the pool.
use x_ailock.Base.{
  ℕ, ◌<◌, ℤ, String, true, false, none, some, ◌≡◌, ◌≢◌, refl, sym, ◌∙◌, arith, eq_refl,
}
use x_ailock.Errors.{nil}
use x_ailock.Config.{LockConfig}
use x_ailock.Shard.Lock.{unlock, try_lock}
use x_ailock.Shard.Index.{shard_index}
use x_ailock.Shard.Manager.{
  ShardedLockManager, perform_cleanup, get_lock, retire, enter, pool_get, handle_unlock,
  handle_try_lock,
}
use x_ailock.Shard.Manager.Sound.{IsSound}
use x_ailock.Shard.Manager.Collecting.{perform_cleanup-gone}
use x_ailock.Shard.Manager.Table.{lookup-delete, table, get_lock_new}

module _ {T : Type 0} where
  -- An object that is registered for a key, with one reference.
  pub record IsSole (k : String) (p : ℕ) (m : ShardedLockManager T) : Type 0 where
    pub found : table k m ≡ some p
    pub named : (m.object p).key ≡ k
    pub placed : (m.object p).shard ≡ some (shard_index m.shard_mask k)
    pub single : (m.object p).ref_count ≡ 1
    pub in_use : p < m.next

  -- Releasing the sole reference of a held lock retires the object.
  sole_unlock :
      (k : String) (p : ℕ) (m : ShardedLockManager T)
      → IsSole k p m
      → (m.object p).unlocked ≡ false
      → ((handle_unlock unlock p m).1 ≡ nil)
        × (table k (handle_unlock unlock p m).0 ≡ none)
        × (((handle_unlock unlock p m).0.object p).unlocked ≡ true)
        × ((handle_unlock unlock p m).0.next ≡ m.next)
        × ((handle_unlock unlock p m).0.shard_mask ≡ m.shard_mask)
  unfolding handle_unlock unlock table
  sole_unlock k p m v u =
      ground (arith, lookup-delete k k (m.shards (shard_index m.shard_mask k)).locks, eq_refl k)

  -- A new object is entered for a key that has none, when the pool does not serve.
  fresh_pointer :
      (fresh : T) (k : String) (m : ShardedLockManager T)
      → table k m ≡ none
      → ((get_lock false fresh k m).1 ≡ m.next)
        × (((get_lock false fresh k m).0.object m.next).unlocked ≡ true)
        × ((q : ℕ) → q ≢ m.next → (get_lock false fresh k m).0.object q ≡ m.object q)
  fresh_pointer fresh k m e =
      rw (get_lock_new false fresh k m e)
        (unfold enter pool_get in (ground arith, ground arith, λ q n. ground arith))

  free_succeeds :
      (now later : ℤ) (config : LockConfig) (p : ℕ) (m : ShardedLockManager T)
      → (m.object p).unlocked ≡ true
      → ((handle_try_lock (try_lock now later config) p m).1 ≡ true)
        × (((handle_try_lock (try_lock now later config) p m).0.object p).unlocked ≡ false)
        × ((q : ℕ)
            → q ≢ p
            → (handle_try_lock (try_lock now later config) p m).0.object q ≡ m.object q)
  unfolding handle_try_lock try_lock
  free_succeeds now later config p m u = (ground arith, ground arith, λ q n. ground arith)

  try_lock_elsewhere :
      (now later : ℤ) (config : LockConfig) (k : String) (p : ℕ) (m : ShardedLockManager T)
      → (table k (handle_try_lock (try_lock now later config) p m).0 ≡ table k m)
        × ((handle_try_lock (try_lock now later config) p m).0.next ≡ m.next)
  unfolding handle_try_lock table
  try_lock_elsewhere now later config k p m = (refl, refl)

  -- A handle and a new client of a key both get its lock, the client with a new object: the pool does not
  -- serve it.
  abbrev pub BothHold :
      ℤ → ℤ → LockConfig → LockConfig → T → String → ℕ → ShardedLockManager T → Type 0
  BothHold now later config config' fresh k p m =
      let (first, taken, err) = handle_try_lock (try_lock now later config) p m in
      let (found, q) = get_lock false fresh k first in
      let (second, taken', err') = handle_try_lock (try_lock now later config') q found in
      (q ≢ p)
      × (taken ≡ true)
      × (taken' ≡ true)
      × ((second.object p).unlocked ≡ false)
      × ((second.object q).unlocked ≡ false)

  pub detached-BothHold :
      (now later : ℤ) (config config' : LockConfig) (fresh : T) (k : String) (p : ℕ)
      (m : ShardedLockManager T)
      → table k m ≡ none
      → (m.object p).unlocked ≡ true
      → p < m.next
      → BothHold now later config config' fresh k p m
  detached-BothHold now later config config' fresh k p m gone free in_use =
      let first = (handle_try_lock (try_lock now later config) p m).0 in
      let found = (get_lock false fresh k first).0 in
      let q = (get_lock false fresh k first).1 in
      let (taken, held, _) = free_succeeds now later config p m free in
      let (kept, same) = try_lock_elsewhere now later config k p m in
      let (new, open_, old) = fresh_pointer fresh k first (kept ∙ gone) in
      let other : p ≢ first.next = omega (arith, in_use, same) in
      let open' : (found.object q).unlocked ≡ true = rw new open_ in
      let (taken', held', rest) = free_succeeds now later config' q found open' in
      let apart : p ≢ q = λ e. other (e ∙ new) in
      (λ e. apart (sym e), taken, taken', rw (rest p apart, old p other) held, held')

  -- A handle that has the sole reference of a held object unlocks, and then locks again, with nothing in
  -- between: it holds an object that is in no table. A client that then asks for the same key, and whom the
  -- pool does not serve, gets another object, and both hold the key's lock at once.
  pub two_holders :
      (now later : ℤ) (config config' : LockConfig) (fresh : T) (k : String) (p : ℕ)
      (m : ShardedLockManager T)
      → IsSole k p m
      → (m.object p).unlocked ≡ false
      → BothHold now later config config' fresh k p (handle_unlock unlock p m).0
  two_holders now later config config' fresh k p m v u =
      let (_, gone, free, next, _) = sole_unlock k p m v u in
      detached-BothHold now later config config' fresh k p (handle_unlock unlock p m).0 gone free
        (omega (arith, v, next))

  -- In a sound manager, whose shards have the key's, a handle has the sole reference of an unlocked object
  -- of the table when a cleanup comes, which collects the object. When the handle then locks, and after it a
  -- client asks for the same key, whom the pool does not serve, both get the key's lock.
  pub orphan-BothHold :
      (cleaned now later : ℤ) (config config' : LockConfig) (fresh : T) (k : String) (p : ℕ)
      (m : ShardedLockManager T)
      → IsSound m
      → shard_index m.shard_mask k < m.shard_count
      → IsSole k p m
      → (m.object p).unlocked ≡ true
      → BothHold now later config config' fresh k p (perform_cleanup cleaned m)
  orphan-BothHold cleaned now later config config' fresh k p m s b v u =
      let (gone, free, next) = perform_cleanup-gone cleaned k p m s b v.found u v.single in
      detached-BothHold now later config config' fresh k p (perform_cleanup cleaned m) gone free
        (omega (arith, v, next))

  -- An object keeps its content when it is retired, and the next key that gets it from the pool starts
  -- with that content: a fair lock with the old queue, a read-write lock with the old count.
  pub pooled_content :
      (fresh : T) (p : ℕ) (k : String) (m : ShardedLockManager T)
      → let i = shard_index m.shard_mask k in
        table k (retire i p m) ≡ none
        → ((get_lock true fresh k (retire i p m)).1 ≡ p)
          × (((get_lock true fresh k (retire i p m)).0.object p).content ≡ (m.object p).content)
          × (((get_lock true fresh k (retire i p m)).0.object p).key ≡ k)
  pooled_content fresh p k m e =
      rw (get_lock_new true fresh k (retire (shard_index m.shard_mask k) p m) e)
        (unfold enter pool_get retire in (ground arith, ground arith, ground arith))
