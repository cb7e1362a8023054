-- ===== src/Shard/Manager/Tests.antt =====
-- A manager of 32 shards, and one key in it.
use x_ailock.Base.{pos, true, false, [], ◌≡◌, ◌≢◌, refl, arith}
use x_ailock.Config.{LockConfig, apply_lock_options}
use x_ailock.Shard.Lock.{unlock, try_lock}
use x_ailock.Shard.Index.{shard_index, sum32a}
use x_ailock.Shard.Manager.{
  ShardedLockManager, new_object, get_lock, handle_unlock, handle_try_lock,
}
use x_ailock.Shard.Manager.Table.{table}
use x_ailock.Shard.Manager.Detached.{IsSole, two_holders}

abbrev config : LockConfig
unfolding apply_lock_options
config = apply_lock_options "client" []

abbrev blank : {T : Type 0} → T → ShardedLockManager T
unfolding new_object
blank x = record {
  shards = λ i. record { locks = []; pool = [] };
  shard_count = 32;
  shard_mask = 31;
  object = λ p. new_object x;
  next = 0;
}

-- One client, which holds the lock of "orders".
abbrev taken : ShardedLockManager (Unit {0})
unfolding new_object get_lock handle_try_lock try_lock shard_index config blank
taken =
    (handle_try_lock (try_lock (pos 1) (pos 1) config) 0
      (get_lock false tt "orders" (blank tt)).0).0

taken-IsSole : IsSole "orders" 0 taken
unfolding taken table sum32a
taken-IsSole = record {
  found = refl;
  named = refl;
  placed = refl;
  single = refl;
  in_use = omega arith;
}

two_holders_example :
    let released = (handle_unlock unlock 0 taken).0 in
    let (first, took, err) = handle_try_lock (try_lock (pos 2) (pos 2) config) 0 released in
    let (found, q) = get_lock false tt "orders" first in
    let (second, took', err') = handle_try_lock (try_lock (pos 2) (pos 2) config) q found in
    (q ≢ 0)
    × (took ≡ true)
    × (took' ≡ true)
    × ((second.object 0).unlocked ≡ false)
    × ((second.object q).unlocked ≡ false)
two_holders_example =
    two_holders (pos 2) (pos 2) config config tt "orders" 0 taken taken-IsSole
      (unfold taken in refl)
