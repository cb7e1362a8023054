-- ===== src/Interface.antt =====
-- lock.go, the interfaces of the locks. An implementation acts on a state of its own, which may be the
-- whole world; a context is part of that state. A call that never returns has no result.
pub mod Calls
pub mod Contract
use x_ailock.Base.{ℤ, String, Bool, Option, List}
use x_ailock.Errors.{GoError}
use x_ailock.Config.{LockOption}

abbrev pub Method : Type 0 → Type 0 → Type 0
Method S A = S → Option (S × A)

pub record Lock (S : Type 0) : Type 0 where
  pub lock : List LockOption → Method S GoError
  pub try_lock : List LockOption → Method S (Bool × GoError)
  pub unlock : Method S GoError
  pub extend : ℤ → Method S (Bool × GoError)
  pub is_locked : Method S (Bool × GoError)
  pub get_ttl : Method S (ℤ × GoError)
  pub get_key : Method S String
  pub get_value : Method S String

pub record RwLock (S : Type 0) : Type 0 where
  pub rlock : List LockOption → Method S GoError
  pub try_rlock : List LockOption → Method S (Bool × GoError)
  pub runlock : Method S GoError
  pub wlock : List LockOption → Method S GoError
  pub try_wlock : List LockOption → Method S (Bool × GoError)
  pub wunlock : Method S GoError
  pub get_read_count : Method S (ℤ × GoError)
  pub is_write_locked : Method S (Bool × GoError)
  pub get_key : Method S String

pub record FairLock (S : Type 0) : Type 0 where
  pub lock : List LockOption → Method S GoError
  pub try_lock : List LockOption → Method S (Bool × GoError)
  pub unlock : Method S GoError
  pub extend : ℤ → Method S (Bool × GoError)
  pub is_locked : Method S (Bool × GoError)
  pub get_ttl : Method S (ℤ × GoError)
  pub get_queue_position : Method S (ℤ × GoError)
  pub get_queue_length : Method S (ℤ × GoError)
  pub get_queue_info : Method S (List String × GoError)
  pub get_key : Method S String
  pub get_value : Method S String

-- `LockType` is an int: `other_type` is any value but the three constants.
pub data LockType : Type 0 where
  type_simple type_fair type_rw other_type : LockType

unfoldable pub lock_type_string : LockType → String
lock_type_string type_simple = "Simple"
lock_type_string type_fair = "Fair"
lock_type_string type_rw = "ReadWrite"
lock_type_string other_type = "Unknown"
