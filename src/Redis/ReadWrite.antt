-- ===== src/Redis/ReadWrite.antt =====
-- redis_rw.go: the read-write lock, over a key for the count of readers and one for the writer. A
-- handle keeps its key and the value of its last attempt to write.
pub mod Exclusion
pub mod Count
pub mod Blocking
pub mod Methods
pub mod Honest
use Prim.Native.String.{◌++◌}
use x_ailock.Base.{ℕ, ℤ, pos, eq_ℤ, String, Bool, true, false, Option, none, some, if◌then◌else◌}
use x_ailock.Errors.{
  GoError, LockError, nil, lock, error, text, with_context, wrap_network_error, new_lock_error,
  err_code_internal_error,
}
use x_ailock.Config.{LockConfig}
use x_ailock.Redis.Server.{Redis, Delivery, Evaluated, value, fault, eval, seconds}
use x_ailock.Redis.Scripts.{
  rw_lock_acquire_read, rw_lock_release_read, rw_lock_acquire_write, rw_lock_release_write,
  rw_lock_status,
}
use x_ailock.Redis.Simple.{replied_one, released}

pub record RedisRwLock : Type 0 where
  pub key : String
  pub write_value : String

unfoldable pub new_redis_rw_lock : String → RedisRwLock
new_redis_rw_lock key = record { key = key; write_value = "" }

unfoldable pub read_key : RedisRwLock → String
read_key l = l.key ++ ":read"

unfoldable pub write_key : RedisRwLock → String
write_key l = l.key ++ ":write"

unfoldable pub unexpected_response : String → LockError
unexpected_response operation =
    with_context
      (new_lock_error err_code_internal_error "unexpected response from status script" error)
      "operation" (text operation)

-- The count of readers, and whether there is a writer, from the reply of the status script.
unfoldable pub status_count : Evaluated (Option (ℕ × ℤ)) → ℕ × GoError
unfolding unexpected_response
status_count (value none) = (0, lock (unexpected_response "get_read_count"))
status_count (value (some t)) = (t.0, nil)
status_count (fault e) = (0, lock (wrap_network_error e "get_read_count"))

unfoldable pub status_written : Evaluated (Option (ℕ × ℤ)) → Bool × GoError
unfolding unexpected_response
status_written (value none) = (false, lock (unexpected_response "check_write_locked"))
status_written (value (some t)) = (eq_ℤ t.1 (pos 1), nil)
status_written (fault e) = (false, lock (wrap_network_error e "check_write_locked"))

module _ (r : Redis) where
  open r use {State}

  unfoldable pub try_rlock : Delivery → LockConfig → RedisRwLock → State → State × Bool × GoError
  try_rlock d config l s =
      let (s', answer) =
        eval d (rw_lock_acquire_read r (read_key l) (write_key l) (seconds config.lock_ttl)) s in
      let (success, err) = replied_one "acquire_read_lock" answer in (s', success, err)

  unfoldable pub runlock : Delivery → RedisRwLock → State → State × GoError
  runlock d l s =
      let (s', answer) = eval d (rw_lock_release_read r (read_key l)) s in
      (s', released l.key "release_read_lock" answer)

  unfoldable pub try_wlock :
      Delivery → LockConfig → RedisRwLock → State → RedisRwLock × State × Bool × GoError
  try_wlock d config l s =
      let (s', answer) =
        eval d
          (rw_lock_acquire_write r (read_key l) (write_key l) config.value
            (seconds config.lock_ttl))
          s in
      let (success, err) = replied_one "acquire_write_lock" answer in
      (record l { write_value = config.value }, s', success, err)

  unfoldable pub wunlock : Delivery → RedisRwLock → State → State × GoError
  wunlock d l s =
      let (s', answer) = eval d (rw_lock_release_write r (write_key l) l.write_value) s in
      (s', released l.key "release_write_lock" answer)

  unfoldable pub get_read_count : Delivery → RedisRwLock → State → ℕ × GoError
  unfolding status_count
  get_read_count d l s = status_count (eval d (rw_lock_status r (read_key l) (write_key l)) s).1

  unfoldable pub is_write_locked : Delivery → RedisRwLock → State → Bool × GoError
  unfolding status_written
  is_write_locked d l s = status_written (eval d (rw_lock_status r (read_key l) (write_key l)) s).1
