-- ===== src/Shard/Manager/Stats.antt =====
-- sharded_lock.go: `NewShardedLockManager`, after its loop over the number of shards, and `GetStats`.
use x_ailock.Base.{ℕ, zero, suc, ◌+◌, ◌-◌, List, [], ◌∷◌, length}
use x_ailock.Shard.Manager.{ShardedLockManager, new_object}

-- A manager of `count` shards; no object is in use yet.
unfoldable pub new_sharded_lock_manager : {T : Type 0} → ℕ → T → ShardedLockManager T
unfolding new_object
new_sharded_lock_manager count fresh = record {
  shards = λ i. record { locks = []; pool = [] };
  shard_count = count;
  shard_mask = count - 1;
  object = λ p. new_object fresh;
  next = 0;
}

pub record ShardedLockStats : Type 0 where
  pub shard_count : ℕ
  pub total_locks : ℕ
  pub shards : List ℕ

module _ {T : Type 0} where
  -- The loop over `n` more shards, from index `i`.
  unfoldable pub count_locks : ℕ → ℕ → ShardedLockManager T → ℕ × List ℕ
  count_locks zero i m = (0, [])
  count_locks (suc n) i m =
      let (total, counts) = count_locks n (suc i) m in
      let here = length (m.shards i).locks in (here + total, here ∷ counts)

  unfoldable pub get_stats : ShardedLockManager T → ShardedLockStats
  unfolding count_locks
  get_stats m =
      let (total, counts) = count_locks m.shard_count 0 m in
      record { shard_count = m.shard_count; total_locks = total; shards = counts }
