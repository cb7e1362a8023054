-- ===== src/Factory.antt =====
-- lock.go, the back ends, the factories and the constructors of locks; local_simple.go, local_rw.go and
-- local_fair.go, the constructors of handles; sharded_lock.go, the global managers.
-- A client of Redis is of another package. The globals are the state, and `none` before `initOnce` has
-- run; a constructor whose loop over the number of shards does not end has no result.
pub mod Sharing
pub mod Choice
pub mod Guarded
pub mod Layers
mod Tests
use mathlib.Core.Option
use x_ailock.Base.{ℕ, ℤ, String, Bool, Option, none, some, [], if◌then◌else◌, str_eq}
use x_ailock.Errors.{GoError, nil, lock, err_unsupported_backend}
use x_ailock.Interface.Calls.{Kind, simple, read_write, fair}
use x_ailock.Shard.Index.{requested, actual_shard_count}
use x_ailock.Shard.ReadWrite.{RwLockData}
use x_ailock.Shard.Fair.{FairLockData}
use x_ailock.Shard.Manager.{ShardedLockManager, get_lock}
use x_ailock.Shard.Manager.Stats.{new_sharded_lock_manager}
use x_ailock.Shard.Handles.{Handle}

-- What an object keeps besides the lock, for each kind, and what a new object keeps.
abbrev pub ContentOf : Kind → Type 0
ContentOf simple = Unit {0}
ContentOf read_write = RwLockData
ContentOf fair = FairLockData

abbrev pub fresh_content : (k : Kind) → ContentOf k
fresh_content simple = tt
fresh_content read_write = record { readers = 0 }
fresh_content fair = record { queue = [] }

-- The three managers.
abbrev pub GlobalManagers : Type 0
GlobalManagers = (k : Kind) → ShardedLockManager (ContentOf k)

abbrev pub set_manager :
    (k : Kind) → ShardedLockManager (ContentOf k) → GlobalManagers → GlobalManagers
set_manager simple m g simple = m
set_manager simple m g read_write = g read_write
set_manager simple m g fair = g fair
set_manager read_write m g simple = g simple
set_manager read_write m g read_write = m
set_manager read_write m g fair = g fair
set_manager fair m g simple = g simple
set_manager fair m g read_write = g read_write
set_manager fair m g fair = m

abbrev pub Globals : Type 0
Globals = Option GlobalManagers

-- Under `initOnce`: a later call changes nothing.
unfoldable pub init_global_managers : ℕ → ℤ → Globals → Option GlobalManagers
init_global_managers fuel n (some g) = some g
init_global_managers fuel n none =
    Option.map (λ count k. new_sharded_lock_manager count (fresh_content k))
      (actual_shard_count fuel n)

-- The constructors of the local handles, over the manager of their kind. `reuse` is the choice of the
-- pool.
unfoldable pub new_local_lock :
    ℕ → Bool → (k : Kind) → String → ℤ → Globals → Option (GlobalManagers × Handle)
unfolding init_global_managers
new_local_lock fuel reuse k key n g = elim (init_global_managers fuel n g) [
  | none ↦ none
  | some managers ↦
      let (m, p) = get_lock reuse (fresh_content k) key (managers k) in
      some (set_manager k m managers, record { key = key; object = p })
]

-- A back end: the package's own two, or another type that implements the interface with some name.
pub data Backend (C : Type 0) : Type 0 where
  redis_backend : C → Backend C
  local_backend : ℤ → Backend C
  custom : String → Backend C

-- A lock that a constructor has made, or its error; one in a metrics wrapper has the labels of that.
pub data Created (C : Type 0) : Type 0 where
  redis_lock : Kind → String → C → Created C
  local_lock : Kind → Handle → Created C
  failed : GoError → Created C
  with_metrics : String → String → Created C → Created C

pub data LockFactory (C : Type 0) : Type 0 where
  redis_lock_factory : C → LockFactory C
  local_lock_factory : ℤ → LockFactory C

-- The first label of the wrappers.
abbrev pub lock_type_of : Kind → String
lock_type_of simple = "SimpleLock"
lock_type_of read_write = "RWLock"
lock_type_of fair = "FairLock"

module _ {C : Type 0} where
  unfoldable pub backend_type : Backend C → String
  backend_type (redis_backend client) = "Redis"
  backend_type (local_backend n) = "Local"
  backend_type (custom name) = name

  unfoldable pub new_local_backend : ℤ → Backend C
  new_local_backend n = local_backend (requested n)

  unfoldable pub new_local_lock_factory : ℤ → LockFactory C
  new_local_lock_factory n = local_lock_factory (requested n)

  unfoldable pub get_backend_type : LockFactory C → String
  get_backend_type (redis_lock_factory client) = "Redis"
  get_backend_type (local_lock_factory n) = "Local"

  -- `CreateSimpleLock`, `CreateRWLock` and `CreateFairLock`.
  unfoldable pub create_lock :
      ℕ → Bool → LockFactory C → (k : Kind) → String → Globals → Option (Globals × Created C)
  unfolding new_local_lock
  create_lock fuel reuse (redis_lock_factory client) k key g = some (g, redis_lock k key client)
  create_lock fuel reuse (local_lock_factory n) k key g =
      Option.map (λ r. (some r.0, local_lock k r.1)) (new_local_lock fuel reuse k key n g)

  -- The type assertions of the two branches.
  abbrev pub as_redis : Backend C → Option C
  as_redis (redis_backend client) = some client
  as_redis (local_backend n) = none
  as_redis (custom name) = none

  abbrev pub as_local : Backend C → Option ℤ
  as_local (redis_backend client) = none
  as_local (local_backend n) = some n
  as_local (custom name) = none

  -- The choice of a factory by the name of the back end, and then by its type.
  unfoldable pub choose_factory : Backend C → Option (LockFactory C)
  unfolding backend_type new_local_lock_factory
  choose_factory b =
      if str_eq (backend_type b) "Redis"
      then Option.map redis_lock_factory (as_redis b)
      else if str_eq (backend_type b) "Local"
      then Option.map new_local_lock_factory (as_local b)
      else none

  -- `NewSimpleLock`, `NewRWLock` and `NewFairLock`.
  unfoldable pub new_lock :
      ℕ → Bool → (k : Kind) → String → Backend C → Globals → Option (Globals × Created C)
  unfolding choose_factory create_lock
  new_lock fuel reuse k key b g = elim (choose_factory b) [
    | none ↦ some (g, failed (lock err_unsupported_backend))
    | some f ↦ create_lock fuel reuse f k key g
  ]

  -- `getBackendName` of the wrappers with metrics, by the type alone.
  unfoldable pub get_backend_name : Backend C → String
  get_backend_name (redis_backend client) = "Redis"
  get_backend_name (local_backend n) = "Local"
  get_backend_name (custom name) = "Unknown"

  abbrev pub monitored : Kind → Backend C → Created C → Created C
  monitored k b (failed err) = failed err
  monitored k b (redis_lock j key client) =
      with_metrics (lock_type_of k) (get_backend_name b) (redis_lock j key client)
  monitored k b (local_lock j h) =
      with_metrics (lock_type_of k) (get_backend_name b) (local_lock j h)
  monitored k b (with_metrics t n l) =
      with_metrics (lock_type_of k) (get_backend_name b) (with_metrics t n l)

  -- `NewSimpleLockWithMetrics`, `NewRWLockWithMetrics` and `NewFairLockWithMetrics`.
  unfoldable pub new_lock_with_metrics :
      ℕ → Bool → (k : Kind) → String → Backend C → Globals → Option (Globals × Created C)
  unfolding new_lock get_backend_name
  new_lock_with_metrics fuel reuse k key b g =
      Option.map (λ r. (r.0, monitored k b r.1)) (new_lock fuel reuse k key b g)
