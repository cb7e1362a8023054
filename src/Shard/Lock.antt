-- ===== src/Shard/Lock.antt =====
-- sharded_lock.go: `ShardedLock` and the methods of every kind of lock.
pub mod Holding
pub mod Contention
use x_ailock.Base.{
  ℕ, ◌+◌, ◌-◌, ◌%◌, ◌^◌, ltb, ℤ, pos, negsuc, ◌+ℤ◌, ◌-ℤ◌, ltb_ℤ, String, Bool, true, false, Option,
  none, some, List, if◌then◌else◌,
}
use x_ailock.Errors.{
  GoError, LockError, nil, lock, new_lock_not_found_error, new_lock_error, with_context, text, info,
  err_code_lock_expired,
}
use x_ailock.Config.{LockConfig}

-- `content` is the field `data`; `shard` is the shard that the object belongs to, if any;
-- `ref_count` is an int32 as its bit pattern.
pub record ShardedLock (T : Type 0) : Type 0 where
  pub key : String
  pub value : String
  pub content : T
  pub unlocked : Bool
  pub ttl : ℤ
  pub expire_at : ℤ
  pub ref_count : ℕ
  pub shard : Option ℕ

-- The int32 that a bit pattern stands for, and `atomic.AddInt32` by 1 and by -1.
unfoldable pub to_int32 : ℕ → ℤ
to_int32 n = if ltb n (2 ^ 31) then pos n else negsuc (2 ^ 32 - n - 1)

unfoldable pub increment32 : ℕ → ℕ
increment32 n = (n + 1) % 2 ^ 32

unfoldable pub decrement32 : ℕ → ℕ
decrement32 n = (n + (2 ^ 32 - 1)) % 2 ^ 32

-- `time.Until` and the difference of two instants: at its ends a Duration saturates.
unfoldable pub until : ℤ → ℤ → ℤ
until now t =
    let d = t -ℤ now in
    let top = pos (2 ^ 63 - 1) in
    let bottom = negsuc (2 ^ 63 - 1) in
    if ltb_ℤ top d then top else if ltb_ℤ d bottom then bottom else d

module _ {T : Type 0} where
  -- The fields that a successful attempt writes.
  unfoldable pub acquire : ℤ → LockConfig → ShardedLock T → ShardedLock T
  acquire later config l = record l {
    unlocked = false;
    value = config.value;
    ttl = config.lock_ttl;
    expire_at = later +ℤ config.lock_ttl;
  }

  unfoldable pub try_lock : ℤ → ℤ → LockConfig → ShardedLock T → ShardedLock T × Bool × GoError
  unfolding acquire
  try_lock now later config l =
      if l.unlocked
      then (acquire later config l, true, nil)
      else if ltb_ℤ l.expire_at now
      then (acquire later config (record l { unlocked = true }), true, nil)
      else (l, false, nil)

  unfoldable pub unlock : ShardedLock T → ShardedLock T × GoError
  unlock l =
      if l.unlocked
      then (l, lock (new_lock_not_found_error l.key))
      else (record l { unlocked = true }, nil)

  unfoldable pub extend : ℤ → ℤ → ShardedLock T → ShardedLock T × Bool × GoError
  extend now ttl l =
      if l.unlocked
      then (l, false, lock (new_lock_not_found_error l.key))
      else (record l { ttl = ttl; expire_at = now +ℤ ttl }, true, nil)

  unfoldable pub is_locked : ℤ → ShardedLock T → ShardedLock T × Bool × GoError
  is_locked now l =
      if l.unlocked
      then (l, false, nil)
      else if ltb_ℤ l.expire_at now
      then (record l { unlocked = true }, false, nil)
      else (l, true, nil)

  unfoldable pub expired_error : ShardedLock T → LockError
  expired_error l =
      with_context (new_lock_error err_code_lock_expired "锁已过期" info) "key" (text l.key)

  unfoldable pub get_ttl : ℤ → ℤ → ShardedLock T → ShardedLock T × ℤ × GoError
  unfolding expired_error until
  get_ttl now later l =
      if l.unlocked
      then (l, pos 0, lock (new_lock_not_found_error l.key))
      else if ltb_ℤ l.expire_at now
      then (record l { unlocked = true }, pos 0, lock (expired_error l))
      else (l, until later l.expire_at, nil)

  unfoldable pub get_value : ShardedLock T → String
  get_value l = l.value
