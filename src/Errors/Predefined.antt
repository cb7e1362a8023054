-- ===== src/Errors/Predefined.antt =====
-- lock.go, the predefined errors, which clients compare with by `errors.Is`, and how that comparison
-- stands to `IsErrorCode`.
use x_ailock.Base.{String, Bool, false, ◌||◌, none, some, str_eq, ◌≡◌, refl}
use x_ailock.Errors.{
  ErrorCode, ErrorSeverity, info, warning, error, GoError, LockError, nil, lock, foreign,
  lock_error, code, is, unwrap, new_lock_error, get_lock_error, is_error_code, wrap_error,
  err_code_lock_not_acquired, err_code_lock_not_found, err_code_lock_already_released,
  err_code_invalid_config, err_code_watchdog_stopped, err_code_lock_expired,
  err_code_acquire_timeout,
}

abbrev pub err_lock_not_acquired : LockError
unfolding new_lock_error
err_lock_not_acquired = new_lock_error err_code_lock_not_acquired "锁获取失败" error

abbrev pub err_lock_not_found : LockError
unfolding new_lock_error
err_lock_not_found = new_lock_error err_code_lock_not_found "锁不存在" error

abbrev pub err_lock_already_released : LockError
unfolding new_lock_error
err_lock_already_released = new_lock_error err_code_lock_already_released "锁已释放" warning

abbrev pub err_invalid_config : LockError
unfolding new_lock_error
err_invalid_config = new_lock_error err_code_invalid_config "无效的配置" error

abbrev pub err_watchdog_stopped : LockError
unfolding new_lock_error
err_watchdog_stopped = new_lock_error err_code_watchdog_stopped "看门狗已停止" warning

abbrev pub err_lock_expired : LockError
unfolding new_lock_error
err_lock_expired = new_lock_error err_code_lock_expired "锁已过期" info

abbrev pub err_acquire_timeout : LockError
unfolding new_lock_error
err_acquire_timeout = new_lock_error err_code_acquire_timeout "获取锁超时" warning

-- `errors.Is` at a `*LockError`: the method `Is` along the whole chain. Two equal pointers have one code.
unfoldable mutual
  unfolding is

  pub errors_is : GoError → LockError → Bool
  errors_is nil t = false
  errors_is (lock e) t = lock_error_is e t
  errors_is (foreign m e) t = errors_is e t

  pub lock_error_is : LockError → LockError → Bool
  lock_error_is (lock_error c m s x cause) t =
      is (lock_error c m s x cause) (lock t) || errors_is cause t

-- The same for what is behind the first lock error of a chain.
abbrev pub behind : GoError → LockError → Bool
behind err t = elim (get_lock_error err) [ none ↦ false | some e ↦ errors_is (unwrap e) t ]

first_lock_error :
    (err : GoError) (t : LockError) → errors_is err t ≡ (is_error_code err (code t) || behind err t)
unfolding errors_is lock_error_is is is_error_code get_lock_error unwrap
first_lock_error nil t = refl
first_lock_error (lock (lock_error c m s x cause)) t = refl
first_lock_error (foreign m e) t = first_lock_error e t

-- `errors.Is` finds what `IsErrorCode` finds at the first lock error of a chain, and goes on behind it, where
-- `IsErrorCode` does not look. So an error that is wrapped by `WrapError` is still found by `errors.Is`, but
-- `IsErrorCode` sees the code of the wrapping alone.
pub errors_is-is_error_code :
    (err : GoError) (t : LockError) (c : ErrorCode) (message : String) (severity : ErrorSeverity)
    → (errors_is err t ≡ (is_error_code err (code t) || behind err t))
      × (errors_is (lock (wrap_error err c message severity)) t
          ≡ (str_eq c (code t) || errors_is err t))
      × (is_error_code (lock (wrap_error err c message severity)) (code t) ≡ str_eq c (code t))
unfolding errors_is lock_error_is is is_error_code get_lock_error wrap_error
errors_is-is_error_code err t c message severity = (first_lock_error err t, refl, refl)
