-- ===== src/Shard/ReadWrite.antt =====
-- sharded_lock.go, the methods of the read-write kind, and local_rw.go's names for them. The counter
-- of readers is an int32, kept as its bit pattern.
pub mod Counting
use x_ailock.Base.{
  ℕ, ◌+◌, ◌-◌, ◌%◌, ◌^◌, ℤ, pos, negsuc, ltb, ltb_ℤ, Bool, true, false, if◌then◌else◌,
}
use x_ailock.Errors.{GoError, nil}
use x_ailock.Config.{LockConfig}
use x_ailock.Shard.Lock.{ShardedLock, to_int32, increment32, decrement32, try_lock, is_locked}

pub record RwLockData : Type 0 where
  pub readers : ℕ

abbrev pub RwLock : Type 0
RwLock = ShardedLock RwLockData

add_reader : RwLock → RwLock
unfolding increment32
add_reader l = record l { content = record { readers = increment32 l.content.readers } }

unfoldable pub try_rlock : ℤ → RwLock → RwLock × Bool × GoError
unfolding add_reader
try_rlock now l =
    if l.unlocked
    then (add_reader l, true, nil)
    else if ltb_ℤ l.expire_at now
    then (add_reader (record l { unlocked = true }), true, nil)
    else (l, false, nil)

unfoldable pub runlock : RwLock → RwLock × GoError
unfolding decrement32
runlock l = (record l { content = record { readers = decrement32 l.content.readers } }, nil)

unfoldable pub get_read_count : RwLock → ℤ × GoError
unfolding to_int32
get_read_count l = (to_int32 l.content.readers, nil)

-- `TryWLock`, `WUnlock` and `IsWriteLocked` of a local read-write lock are the methods of every kind.
unfoldable pub try_wlock : ℤ → ℤ → LockConfig → RwLock → RwLock × Bool × GoError
unfolding try_lock
try_wlock now later config l = try_lock now later config l

unfoldable pub is_write_locked : ℤ → RwLock → RwLock × Bool × GoError
unfolding is_locked
is_write_locked now l = is_locked now l
