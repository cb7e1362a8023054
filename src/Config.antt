-- ===== src/Config.antt =====
-- lock.go, `LockConfig`, its options, `ApplyLockOptions`, `Validate` and `Clone`.
-- A duration is a number of nanoseconds. The value that `generateUniqueValue` draws is an argument.
pub mod Validation
use x_ailock.Base.{
  ℤ, pos, negsuc, quot_ℤ, eq_ℤ, leb_ℤ, ltb_ℤ, String, Bool, true, Option, none, some, List, [], ◌∷◌,
  ◌&&◌, if◌then◌else◌,
}
use x_ailock.Errors.{LockError, duration, new_invalid_config_error}

pub record LockConfig : Type 0 where
  pub acquire_timeout : ℤ
  pub lock_ttl : ℤ
  pub enable_watchdog : Bool
  pub watchdog_interval : ℤ
  pub retry_interval : ℤ
  pub value : String
  pub queue_ttl : ℤ

abbrev pub default_acquire_timeout : ℤ
default_acquire_timeout = pos 10_000_000_000

abbrev pub default_lock_ttl : ℤ
default_lock_ttl = pos 30_000_000_000

abbrev pub default_watchdog_interval : ℤ
default_watchdog_interval = pos 10_000_000_000

abbrev pub default_retry_interval : ℤ
default_retry_interval = pos 100_000_000

abbrev pub default_queue_ttl : ℤ
default_queue_ttl = pos 300_000_000_000

abbrev pub default_shard_count : ℤ
default_shard_count = pos 32

-- An option is what its `Apply` does to the configuration; `LockOption` is an interface, so a
-- caller may pass any such function.
abbrev pub LockOption : Type 0
LockOption = LockConfig → LockConfig

unfoldable pub with_acquire_timeout : ℤ → LockOption
with_acquire_timeout d c = record c { acquire_timeout = d }

unfoldable pub with_lock_ttl : ℤ → LockOption
with_lock_ttl d c = record c { lock_ttl = d }

unfoldable pub with_watchdog : Bool → LockOption
with_watchdog b c = record c { enable_watchdog = b }

unfoldable pub with_watchdog_interval : ℤ → LockOption
with_watchdog_interval d c = record c { watchdog_interval = d }

unfoldable pub with_retry_interval : ℤ → LockOption
with_retry_interval d c = record c { retry_interval = d }

unfoldable pub with_value : String → LockOption
with_value v c = record c { value = v }

unfoldable pub with_queue_ttl : ℤ → LockOption
with_queue_ttl d c = record c { queue_ttl = d }

unfoldable pub default_config : String → LockConfig
default_config unique = record {
  acquire_timeout = default_acquire_timeout;
  lock_ttl = default_lock_ttl;
  enable_watchdog = true;
  watchdog_interval = default_watchdog_interval;
  retry_interval = default_retry_interval;
  value = unique;
  queue_ttl = default_queue_ttl;
}

-- The loop over the options.
unfoldable pub apply_all : List LockOption → LockConfig → LockConfig
apply_all [] c = c
apply_all (opt ∷ opts) c = apply_all opts (opt c)

unfoldable pub set_watchdog_interval : LockConfig → LockConfig
set_watchdog_interval c =
    if eq_ℤ c.watchdog_interval default_watchdog_interval
    then record c { watchdog_interval = quot_ℤ c.lock_ttl 3 }
    else c

unfoldable pub apply_lock_options : String → List LockOption → LockConfig
unfolding default_config apply_all set_watchdog_interval
apply_lock_options unique opts = set_watchdog_interval (apply_all opts (default_config unique))

unfoldable pub validate : LockConfig → Option LockError
validate c =
    if leb_ℤ c.acquire_timeout (pos 0)
    then some (new_invalid_config_error "AcquireTimeout" (duration c.acquire_timeout) "必须大于0")
    else if leb_ℤ c.lock_ttl (pos 0)
    then some (new_invalid_config_error "LockTTL" (duration c.lock_ttl) "必须大于0")
    else if leb_ℤ c.retry_interval (pos 0)
    then some (new_invalid_config_error "RetryInterval" (duration c.retry_interval) "必须大于0")
    else if c.enable_watchdog && leb_ℤ c.watchdog_interval (pos 0)
    then some
        (new_invalid_config_error "WatchdogInterval" (duration c.watchdog_interval) "启用看门狗时必须大于0")
    else if ltb_ℤ c.queue_ttl (pos 0)
    then some (new_invalid_config_error "QueueTTL" (duration c.queue_ttl) "不能小于0")
    else none

unfoldable pub clone : LockConfig → LockConfig
clone c = record {
  acquire_timeout = c.acquire_timeout;
  lock_ttl = c.lock_ttl;
  enable_watchdog = c.enable_watchdog;
  watchdog_interval = c.watchdog_interval;
  retry_interval = c.retry_interval;
  value = c.value;
  queue_ttl = c.queue_ttl;
}
