-- ===== src/Factory/Sharing.antt =====
-- The local locks of a key share an object, and the first constructor sets the number of shards for all.
use mathlib.Core.Option
use x_ailock.Base.{
  ℕ, ◌^◌, ◌≤◌, ℤ, pos, pos_part, ◌≤ℤ◌, String, Bool, none, some, List, [], ◌∷◌, ◌≡◌, refl, ap,
}
use x_ailock.Interface.Calls.{Kind, simple, read_write, fair}
use x_ailock.Shard.Index.{requested}
use x_ailock.Shard.Index.PowerOfTwo.{actual_shard_count-pow}
use x_ailock.Shard.Manager.{get_lock}
use x_ailock.Shard.Manager.Stats.{new_sharded_lock_manager}
use x_ailock.Shard.Manager.Table.{HasKey, get_lock-HasKey, get_lock-found, get_lock-enters}
use x_ailock.Shard.Handles.{Handle}
use x_ailock.Factory.{
  GlobalManagers, fresh_content, set_manager, init_global_managers, new_local_lock,
}

-- A local lock of some kind that a client creates, with nothing but such creations in a history, for a key and with a number of shards.
pub record Creation : Type 0 where
  pub kind : Kind
  pub key : String
  pub shard_count : ℤ
  pub reuse : Bool

pub create_all : List Creation → GlobalManagers → GlobalManagers
create_all [] g = g
create_all (c ∷ cs) g = elim (new_local_lock 32 c.reuse c.kind c.key c.shard_count (some g)) [
  | none ↦ g
  | some (g', h) ↦ create_all cs g'
]

set_manager-HasKey :
    (k k' : Kind) (reuse : Bool) (j key : String) (p count : ℕ) (g : GlobalManagers)
    → HasKey key p count (g k)
    → HasKey key p count (set_manager k' (get_lock reuse (fresh_content k') j (g k')).0 g k)
set_manager-HasKey simple simple reuse j key p count g h =
    get_lock-HasKey reuse _ j key p count (g simple) h
set_manager-HasKey simple read_write reuse j key p count g h = h
set_manager-HasKey simple fair reuse j key p count g h = h
set_manager-HasKey read_write simple reuse j key p count g h = h
set_manager-HasKey read_write read_write reuse j key p count g h =
    get_lock-HasKey reuse _ j key p count (g read_write) h
set_manager-HasKey read_write fair reuse j key p count g h = h
set_manager-HasKey fair simple reuse j key p count g h = h
set_manager-HasKey fair read_write reuse j key p count g h = h
set_manager-HasKey fair fair reuse j key p count g h =
    get_lock-HasKey reuse _ j key p count (g fair) h

create_all-HasKey :
    (cs : List Creation) (k : Kind) (key : String) (p count : ℕ) (g : GlobalManagers)
    → HasKey key p count (g k)
    → HasKey key p count (create_all cs g k)
unfolding create_all new_local_lock init_global_managers
create_all-HasKey [] k key p count g h = h
create_all-HasKey (c ∷ cs) k key p count g h =
    create_all-HasKey cs k key p count _ (set_manager-HasKey k c.kind c.reuse c.key key p count g h)

-- The object of a key that a new lock is given is the one in the table.
set_manager-same :
    (k : Kind) (m : GlobalManagers) (reuse : Bool) (key : String)
    → let (m', p) = get_lock reuse (fresh_content k) key (m k) in
      HasKey key p (m k).shard_count (set_manager k m' m k)
set_manager-same simple m reuse key = get_lock-enters reuse tt key (m simple)
set_manager-same read_write m reuse key = get_lock-enters reuse _ key (m read_write)
set_manager-same fair m reuse key = get_lock-enters reuse _ key (m fair)

-- The first local lock of a program, of any kind and for any number of shards up to 2^31, is made; the
-- number of shards is then a power of two that is at least what its back end asked for. Whatever other local
-- locks are made meanwhile, of any kind, key and number of shards, and as long as no lock is released and no
-- cleanup comes, a later lock of the kind and the key of
-- the first one points to the same object, and the number of shards is still that of the first, whatever
-- number the later back end asks for.
pub new_local_lock-shared :
    (k : Kind) (key : String) (n n' : ℤ) (reuse reuse' : Bool) (cs : List Creation)
    → n ≤ℤ pos (2 ^ 31)
    → (g : GlobalManagers) × (h : Handle) × (j : ℕ) × (new_local_lock 32 reuse k key n none
        ≡ some (g, h))
      × ((g k).shard_count ≡ 2 ^ j)
      × (pos_part (requested n) ≤ 2 ^ j)
      × ((create_all cs g k).shard_count ≡ 2 ^ j)
      × (Option.map (λ r. r.1) (new_local_lock 32 reuse' k key n' (some (create_all cs g)))
          ≡ some h)
unfolding new_local_lock init_global_managers new_sharded_lock_manager
new_local_lock-shared k key n n' reuse reuse' cs small =
    let (j, e, enough, tight) = actual_shard_count-pow n small in
    let blank : GlobalManagers = λ i. new_sharded_lock_manager (2 ^ j) (fresh_content i) in
    let (m, p) = get_lock reuse (fresh_content k) key (blank k) in
    let g = set_manager k m blank in
    let has = set_manager-same k blank reuse key in
    let later = create_all-HasKey cs k key p (2 ^ j) g has in
    (
      g,
      record { key = key; object = p },
      j,
      rw (e, new_local_lock) refl,
      has.1,
      enough,
      later.1,
      ap (λ q. some (record { key = key; object = q }))
          (get_lock-found reuse' (fresh_content k) key p (create_all cs g k) later.0),
    )
