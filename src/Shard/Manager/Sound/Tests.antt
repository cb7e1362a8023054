-- ===== src/Shard/Manager/Sound/Tests.antt =====
-- Two keys of one manager, one of them locked and then released; its object is in the pool again.
use x_ailock.Base.{
  eq_iff, ℕ, ◌≤◌, ◌<◌, String, pos, true, false, some, List, [], ◌∷◌, ◌≡◌, refl, arith,
}
use x_ailock.Config.{LockConfig, apply_lock_options}
use x_ailock.Shard.Lock.{ShardedLock, try_lock}
use x_ailock.Shard.Index.{actual_shard_count, shard_index, sum32a}
use x_ailock.Shard.Manager.{
  ShardedLockManager, finish_cleanup, retire, get_lock, release_lock, retire_all, collect,
  perform_cleanup,
}
use x_ailock.Shard.Manager.Detached.{IsSole, BothHold, orphan-BothHold}
use x_ailock.Shard.Manager.Sound.Range.{served-within}
use x_ailock.Shard.Manager.Stats.{new_sharded_lock_manager}
use x_ailock.Shard.Manager.Table.{table}
use x_ailock.Shard.Manager.Sound.History.{
  ManagerEvent, gets, releases, drops, collects, sweeps, refills, acts, Timely, served,
  served-IsSound, served-table, cleans, run_history,
}
use x_ailock.Shard.Manager.Race.{race_shares}
use x_ailock.Shard.Manager.Sound.References.{shared_object_stays}

abbrev config : LockConfig
unfolding apply_lock_options
config = apply_lock_options "client" []

abbrev orders : String
orders = "orders"

abbrev day : List (ManagerEvent (Unit {0}))
day =
    gets false orders
    ∷ acts 0 (λ l. (try_lock (pos 1) (pos 1) config l).0)
    ∷ gets false "stock"
    ∷ releases 0
    ∷ drops 1
    ∷ collects 1
    ∷ sweeps 7 (pos 2)
    ∷ refills 3 []
    ∷ gets true orders
    ∷ []

try_lock_keeps :
    (l : ShardedLock (Unit {0}))
    → ((try_lock (pos 1) (pos 1) config l).0.key ≡ l.key)
      × ((try_lock (pos 1) (pos 1) config l).0.shard ≡ l.shard)
unfolding try_lock
try_lock_keeps l = ground arith

day-Timely : Timely tt day (new_sharded_lock_manager 32 tt)
day-Timely = (tt, (tt, (tt, (tt, (tt, (tt, (tt, ((tt, λ p here. absurd here), (tt, tt)))))))))

served-table_example :
    (orders ≡ orders)
    × (((served tt day 32).object 0).key ≡ orders)
    × (((served tt day 32).object 0).shard
        ≡ some (shard_index (served tt day 32).shard_mask orders))
served-table_example =
    served-table tt day 32 orders orders 0 (try_lock_keeps, tt) day-Timely
      (unfold served table shard_index sum32a get_lock release_lock retire_all collect try_lock
          new_sharded_lock_manager in
        refl)
      (unfold served table shard_index sum32a get_lock release_lock retire_all collect try_lock
          new_sharded_lock_manager in
        refl)

-- A client has a handle, and has not locked yet, when a cleanup comes.
abbrev morning : List (ManagerEvent (Unit {0}))
morning = gets false orders ∷ []

morning-IsSole : IsSole orders 0 (served tt morning 32)
unfolding served table shard_index sum32a get_lock new_sharded_lock_manager
morning-IsSole = record {
  found = refl;
  named = refl;
  placed = refl;
  single = refl;
  in_use = omega arith;
}

orphan-BothHold_example :
    BothHold
      (pos 5)
      (pos 5)
      config
      config
      tt
      orders
      0
      (perform_cleanup (pos 3) (served tt morning 32))
orphan-BothHold_example =
    orphan-BothHold (pos 3) (pos 5) (pos 5) config config tt orders 0 (served tt morning 32)
      (served-IsSound tt morning 32 tt (tt, tt))
      (unfold served shard_index sum32a get_lock new_sharded_lock_manager in omega arith)
      morning-IsSole (unfold served shard_index sum32a get_lock new_sharded_lock_manager in refl)

served-within_example :
    (count : ℕ) × (actual_shard_count 32 (pos 3) ≡ some count)
    × ((served tt day count).shard_count ≡ count)
    × ((k : String) → shard_index (served tt day count).shard_mask k < count)
    × ((p i : ℕ) → ((served tt day count).object p).shard ≡ some i → i < count)
    × ((i : ℕ) → count ≤ i → (served tt day count).shards i ≡ record { locks = []; pool = [] })
served-within_example = served-within tt (pos 3) day (omega arith) (try_lock_keeps, tt)

-- Two handles of one key; a cleanup comes, one of them locks, and another client's handle is made and released.
abbrev handles : List (ManagerEvent (Unit {0}))
handles = gets false orders ∷ gets false orders ∷ []

abbrev evening : List (ManagerEvent (Unit {0}))
evening =
    cleans (pos 7)
    ∷ acts 0 (λ l. (try_lock (pos 1) (pos 1) config l).0)
    ∷ gets false "stock"
    ∷ releases 1
    ∷ collects 0
    ∷ []

try_lock_spares :
    (l : ShardedLock (Unit {0})) → (try_lock (pos 1) (pos 1) config l).0.ref_count ≡ l.ref_count
unfolding try_lock
try_lock_spares l = ground arith

shared_object_stays_example :
    let m = run_history tt evening (served tt handles 32) in
    (table orders m ≡ some 0) × (2 ≤ (m.object 0).ref_count) × ((get_lock true tt orders m).1 ≡ 0)
shared_object_stays_example =
    shared_object_stays tt handles evening 32 orders 0 true tt (tt, (tt, tt)) (try_lock_keeps, tt)
      (tt, (tt, (tt, (tt, (tt, tt))))) (try_lock_spares, (λ z. omega (arith, z), tt))
      (unfold served table shard_index sum32a get_lock new_sharded_lock_manager in refl)
      (unfold served shard_index sum32a get_lock new_sharded_lock_manager in omega arith)
      (unfold served shard_index sum32a get_lock new_sharded_lock_manager in omega arith)

-- The lock of "orders" is released and collected, and its release is in the middle when a cleanup comes.
abbrev late : ShardedLockManager (Unit {0})
late = served tt (gets false orders ∷ drops 0 ∷ []) 1

race_shares_example :
    let raced = finish_cleanup 0 0 (retire 0 0 late) in
    let first = get_lock true tt orders raced in
    let second = get_lock true tt "stock" first.0 in
    (first.1 ≡ 0)
    × (second.1 ≡ 0)
    × (table orders second.0 ≡ some 0)
    × (table "stock" second.0 ≡ some 0)
    × ((second.0.object 0).key ≡ "stock")
    × ((second.0.object 0).ref_count ≡ 1)
race_shares_example =
    race_shares tt orders "stock" 0 0 late
      (unfold served shard_index sum32a get_lock new_sharded_lock_manager in refl)
      (unfold served shard_index sum32a get_lock new_sharded_lock_manager in refl)
      (λ z. ground (arith, (eq_iff orders "stock").1 z))
      (unfold served table shard_index sum32a get_lock finish_cleanup retire
          new_sharded_lock_manager in
        refl)
      (unfold served table shard_index sum32a get_lock finish_cleanup retire
          new_sharded_lock_manager in
        refl)
