-- ===== src/Redis/Simple.antt =====
-- redis_simple.go: the simple lock. A handle keeps its key and the value of its last attempt. Each
-- method makes one call of `Eval`, whose delivery is its first argument.
pub mod Steps
pub mod Exclusion
pub mod Handle
pub mod Blocking
pub mod Methods
pub mod Told
pub mod Honest
use x_ailock.Base.{
  ℤ, pos, negsuc, eq_ℤ, ltb_ℤ, String, Bool, true, false, Option, none, some, List, if◌then◌else◌,
  ◌*ℤ◌,
}
use x_ailock.Errors.{
  GoError, nil, lock, error, text, with_context, wrap_network_error, new_lock_not_found_error,
  new_lock_error, err_code_internal_error,
}
use x_ailock.Config.{LockConfig}
use x_ailock.Redis.Server.{Redis, Delivery, Evaluated, Reply, value, fault, eval, seconds}
use x_ailock.Redis.Scripts.{
  simple_lock_acquire, simple_lock_release, simple_lock_extend, simple_lock_status,
}

pub record RedisSimpleLock : Type 0 where
  pub key : String
  pub held_value : String

unfoldable pub new_redis_simple_lock : String → RedisSimpleLock
new_redis_simple_lock key = record { key = key; held_value = "" }

-- A boolean and an error, from the integer that a script replied with.
abbrev pub replied_one : String → Evaluated ℤ → Bool × GoError
replied_one operation (value n) = (eq_ℤ n (pos 1), nil)
replied_one operation (fault e) = (false, lock (wrap_network_error e operation))

-- The error of a release.
abbrev pub released : String → String → Evaluated ℤ → GoError
released key operation (value n) =
    if eq_ℤ n (pos 0) then lock (new_lock_not_found_error key) else nil
released key operation (fault e) = lock (wrap_network_error e operation)

-- Whether the lock is held, from the reply of the status script. It has two integers, so the last error
-- of the method is not reached.
abbrev pub status_locked : Evaluated (ℤ × ℤ) → Bool × GoError
status_locked (value t) = (eq_ℤ t.0 (pos 1), nil)
status_locked (fault e) = (false, lock (wrap_network_error e "check_lock_status"))

-- The time to live from that reply, in seconds, which becomes a duration; -1 ns stands for a lock that
-- never expires.
abbrev pub status_ttl : String → Evaluated (ℤ × ℤ) → ℤ × GoError
status_ttl key (value t) =
    if eq_ℤ t.0 (pos 0)
    then (pos 0, lock (new_lock_not_found_error key))
    else if ltb_ℤ t.1 (pos 0)
    then (negsuc 0, nil)
    else (t.1 *ℤ pos 1_000_000_000, nil)
status_ttl key (fault e) = (pos 0, lock (wrap_network_error e "get_lock_ttl"))

module _ (r : Redis) where
  open r use {State}

  unfoldable pub try_lock :
      Delivery → LockConfig → RedisSimpleLock → State → RedisSimpleLock × State × Bool × GoError
  try_lock d config l s =
      let (s', answer) =
        eval d (simple_lock_acquire r l.key config.value (seconds config.lock_ttl)) s in
      let (success, err) = replied_one "acquire_lock" answer in
      (record l { held_value = config.value }, s', success, err)

  unfoldable pub unlock : Delivery → RedisSimpleLock → State → State × GoError
  unlock d l s =
      let (s', answer) = eval d (simple_lock_release r l.key l.held_value) s in
      (s', released l.key "unlock" answer)

  unfoldable pub extend : Delivery → ℤ → RedisSimpleLock → State → State × Bool × GoError
  extend d ttl l s =
      let (s', answer) = eval d (simple_lock_extend r l.key l.held_value (seconds ttl)) s in
      let (success, err) = replied_one "extend" answer in (s', success, err)

  unfoldable pub is_locked : Delivery → RedisSimpleLock → State → Bool × GoError
  is_locked d l s = status_locked (eval d (simple_lock_status r l.key) s).1

  unfoldable pub get_ttl : Delivery → RedisSimpleLock → State → ℤ × GoError
  get_ttl d l s = status_ttl l.key (eval d (simple_lock_status r l.key) s).1
