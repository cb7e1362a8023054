-- ===== src/Shard/Index/Tests.antt =====
-- Shard counts and hashes that can be followed by hand.
use x_ailock.Base.{pos, some, ◌≡◌, refl}
use x_ailock.Shard.Index.{actual_shard_count, double_until, requested, to_uint32, sum32a}

twenty_shards : actual_shard_count 32 (pos 20) ≡ some 32
unfolding actual_shard_count double_until requested to_uint32
twenty_shards = refl

-- The published FNV-1a value of "a".
hash_of_a : sum32a "a" ≡ 0xe40c292c
unfolding sum32a
hash_of_a = refl
