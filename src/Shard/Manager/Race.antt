-- ===== src/Shard/Manager/Race.antt =====
-- sharded_lock.go, `cleanupLock`: it reads the shard of its object before it has the mutex of the shard, and
-- does not look at it again.
use x_ailock.Base.{
  ℕ, String, true, false, none, some, List, ◌∷◌, ◌≡◌, ◌≢◌, refl, sym, ◌∙◌, ap, arith, str_eq,
  eq_iff, eq_refl,
}
use x_ailock.Shard.Index.{shard_index}
use x_ailock.Shard.Manager.{
  ShardedLockManager, write_shard, pool_get, enter, get_lock, reset, retire, finish_cleanup,
}
use x_ailock.Shard.Manager.Table.{table, get_lock_new, get_lock-table}

module _ {T : Type 0} where
  taken_head : ℕ → List ℕ → ShardedLockManager T → ShardedLockManager T
  taken_head i rest m = write_shard i (record (m.shards i) { pool = rest }) m

  pool_get-head :
      (fresh : T) (i p : ℕ) (rest : List ℕ) (m : ShardedLockManager T)
      → (m.shards i).pool ≡ p ∷ rest
      → pool_get true fresh i m ≡ (taken_head i rest m, p)
  unfolding pool_get taken_head
  pool_get-head fresh i p rest m e = rw (e, pool_get) refl

  enter-head :
      (i p : ℕ) (k : String) (rest : List ℕ) (m : ShardedLockManager T)
      → let m' = (enter i k (taken_head i rest m, p)).0 in
        ((m'.shards i).pool ≡ rest)
        × (m'.shard_mask ≡ m.shard_mask)
        × ((m'.object p).key ≡ k)
        × ((m'.object p).ref_count ≡ 1)
  unfolding enter taken_head
  enter-head i p k rest m = (ground arith, refl, ground arith, ground arith)

  enter-pointer : (i p : ℕ) (k : String) (m : ShardedLockManager T) → (enter i k (m, p)).1 ≡ p
  unfolding enter
  enter-pointer i p k m = refl

  -- `GetLock` of a key that the table lacks, when the pool serves its first object.
  get_lock-pooled :
      (fresh : T) (k : String) (p : ℕ) (rest : List ℕ) (m : ShardedLockManager T)
      → table k m ≡ none
      → (m.shards (shard_index m.shard_mask k)).pool ≡ p ∷ rest
      → let m' = (get_lock true fresh k m).0 in
        ((get_lock true fresh k m).1 ≡ p)
        × ((m'.shards (shard_index m.shard_mask k)).pool ≡ rest)
        × (m'.shard_mask ≡ m.shard_mask)
        × ((m'.object p).key ≡ k)
        × ((m'.object p).ref_count ≡ 1)
  get_lock-pooled fresh k p rest m gone e =
      let i = shard_index m.shard_mask k in
      let (a, b, c, d) = enter-head i p k rest m in
      rw (get_lock_new true fresh k m gone, pool_get-head fresh i p rest m e)
        (enter-pointer i p k (taken_head i rest m), a, b, c, d)

  raced-pool :
      (i p : ℕ) (m : ShardedLockManager T)
      → ((finish_cleanup i p (retire i p m)).shards i).pool ≡ p ∷ p ∷ (m.shards i).pool
  unfolding finish_cleanup retire reset
  raced-pool i p m = ground arith

  raced-mask :
      (i p : ℕ) (m : ShardedLockManager T)
      → (finish_cleanup i p (retire i p m)).shard_mask ≡ m.shard_mask
  unfolding finish_cleanup retire
  raced-mask i p m = ground arith

  -- A cleanup retires an object of a shard, and the late part of a `cleanupLock` of it, which has read that
  -- shard before, comes next: the object is retired again, and the pool has it twice. Two different keys of
  -- that shard that have no object, and are asked for next, both get it when the pool serves its first
  -- object. The table then gives one object for the two keys, with the second key and a count of one reference.
  pub race_shares :
      (fresh : T) (k j : String) (i p : ℕ) (m : ShardedLockManager T)
      → shard_index m.shard_mask k ≡ i
      → shard_index m.shard_mask j ≡ i
      → k ≢ j
      → table k (finish_cleanup i p (retire i p m)) ≡ none
      → table j (finish_cleanup i p (retire i p m)) ≡ none
      → let first = get_lock true fresh k (finish_cleanup i p (retire i p m)) in
        let second = get_lock true fresh j first.0 in
        (first.1 ≡ p)
        × (second.1 ≡ p)
        × (table k second.0 ≡ some p)
        × (table j second.0 ≡ some p)
        × ((second.0.object p).key ≡ j)
        × ((second.0.object p).ref_count ≡ 1)
  race_shares fresh k j i p m at_k at_j other no_k no_j =
      let raced = finish_cleanup i p (retire i p m) in
      let first = (get_lock true fresh k raced).0 in
      let second = (get_lock true fresh j first).0 in
      let mask = raced-mask i p m in
      let i_k : shard_index raced.shard_mask k ≡ i = rw mask at_k in
      let i_j : shard_index raced.shard_mask j ≡ i = rw mask at_j in
      let pool : (raced.shards (shard_index raced.shard_mask k)).pool ≡ p ∷ p ∷ (m.shards i).pool =
        rw i_k (raced-pool i p m) in
      let (a, left, same, _, _) =
        get_lock-pooled fresh k p (p ∷ (m.shards i).pool) raced no_k pool in
      let different : str_eq k j ≡ false = ground (arith, other, eq_iff k j) in
      let different' : str_eq j k ≡ false =
        ground (arith, other, eq_iff j k, λ (z : j ≡ k). sym z) in
      let no_j' : table j first ≡ none = rw (get_lock-table true fresh k j raced, different) no_j in
      let pool' : (first.shards (shard_index first.shard_mask j)).pool ≡ p ∷ (m.shards i).pool =
        ap (λ x. (first.shards (shard_index x j)).pool) same
        ∙ ap (λ x. (first.shards x).pool) (i_j ∙ sym i_k)
        ∙ left in
      let (b, _, _, key, count) = get_lock-pooled fresh j p (m.shards i).pool first no_j' pool' in
      (
        a,
        b,
        rw (get_lock-table true fresh j k first, different')
            (rw (get_lock-table true fresh k k raced, eq_refl k) (ap some a)),
        rw (get_lock-table true fresh j j first, eq_refl j) (ap some b),
        key,
        count,
      )
