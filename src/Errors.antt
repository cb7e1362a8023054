-- ===== src/Errors.antt =====
-- lock.go, the structured errors: codes, severities, `LockError` and the helpers on error chains.
-- The timestamp of an error is left out: no function of the package reads it. A Go `error` is a
-- `GoError`, with `nil` for the absence of one; `foreign` is an error of another package with its
-- text and what its `Unwrap` returns.
pub mod Predefined
mod Tests
use Prim.Native.String.{◌++◌}
use x_ailock.Base.{
  ℤ, String, Bool, true, false, Option, none, some, List, [], ◌∷◌, ◌||◌, if◌then◌else◌, str_eq,
}

-- An error code is a text.
abbrev pub ErrorCode : Type 0
ErrorCode = String

abbrev pub err_code_lock_not_acquired : ErrorCode
err_code_lock_not_acquired = "LOCK_NOT_ACQUIRED"

abbrev pub err_code_lock_not_found : ErrorCode
err_code_lock_not_found = "LOCK_NOT_FOUND"

abbrev pub err_code_lock_already_released : ErrorCode
err_code_lock_already_released = "LOCK_ALREADY_RELEASED"

abbrev pub err_code_lock_expired : ErrorCode
err_code_lock_expired = "LOCK_EXPIRED"

abbrev pub err_code_acquire_timeout : ErrorCode
err_code_acquire_timeout = "ACQUIRE_TIMEOUT"

abbrev pub err_code_invalid_config : ErrorCode
err_code_invalid_config = "INVALID_CONFIG"

abbrev pub err_code_unsupported_backend : ErrorCode
err_code_unsupported_backend = "UNSUPPORTED_BACKEND"

abbrev pub err_code_watchdog_stopped : ErrorCode
err_code_watchdog_stopped = "WATCHDOG_STOPPED"

abbrev pub err_code_watchdog_failed : ErrorCode
err_code_watchdog_failed = "WATCHDOG_FAILED"

abbrev pub err_code_invalid_operation : ErrorCode
err_code_invalid_operation = "INVALID_OPERATION"

abbrev pub err_code_network_error : ErrorCode
err_code_network_error = "NETWORK_ERROR"

abbrev pub err_code_connection_failed : ErrorCode
err_code_connection_failed = "CONNECTION_FAILED"

abbrev pub err_code_internal_error : ErrorCode
err_code_internal_error = "INTERNAL_ERROR"

-- `ErrorSeverity` is an int: `other` is any value but the four constants.
pub data ErrorSeverity : Type 0 where
  info warning error critical other : ErrorSeverity

unfoldable pub severity_string : ErrorSeverity → String
severity_string info = "INFO"
severity_string warning = "WARNING"
severity_string error = "ERROR"
severity_string critical = "CRITICAL"
severity_string other = "UNKNOWN"

-- The values that the package puts into an error's context; `duration_text d` is the text that
-- `d.String()` gives.
pub data ContextValue : Type 0 where
  text : String → ContextValue
  duration : ℤ → ContextValue
  duration_text : ℤ → ContextValue

mutual
  pub data GoError : Type 0 where
    nil : GoError
    lock : LockError → GoError
    foreign : String → GoError → GoError

  pub data LockError : Type 0 where
    lock_error :
        ErrorCode → String → ErrorSeverity → List (String × ContextValue) → GoError → LockError

-- `err == nil`.
abbrev pub is_nil : GoError → Bool
is_nil nil = true
is_nil (lock e) = false
is_nil (foreign m e) = false

abbrev pub code : LockError → ErrorCode
code (lock_error c m s x e) = c

abbrev pub severity : LockError → ErrorSeverity
severity (lock_error c m s x e) = s

-- Assignment to a key of a map.
insert : String → ContextValue → List (String × ContextValue) → List (String × ContextValue)
insert k v [] = (k, v) ∷ []
insert k v ((j, w) ∷ m) = if str_eq j k then (k, v) ∷ m else (j, w) ∷ insert k v m

unfoldable pub with_context : LockError → String → ContextValue → LockError
unfolding insert
with_context (lock_error c m s x e) k v = lock_error c m s (insert k v x) e

unfoldable pub with_cause : LockError → GoError → LockError
with_cause (lock_error c m s x e) cause = lock_error c m s x cause

-- `Error()`, over a whole chain; a nil error prints as Go prints it.
unfoldable mutual
  pub error_text : GoError → String
  error_text nil = "<nil>"
  error_text (lock e) = lock_error_text e
  error_text (foreign m e) = m

  pub lock_error_text : LockError → String
  lock_error_text (lock_error c m s x nil) = "[" ++ (c ++ ("] " ++ m))
  lock_error_text (lock_error c m s x (lock e)) =
      "[" ++ (c ++ ("] " ++ (m ++ (": " ++ lock_error_text e))))
  lock_error_text (lock_error c m s x (foreign t e)) = "[" ++ (c ++ ("] " ++ (m ++ (": " ++ t))))

unfoldable pub unwrap : LockError → GoError
unwrap (lock_error c m s x e) = e

-- The method `Is`: the target is a `*LockError` of the same code.
unfoldable pub is : LockError → GoError → Bool
is e nil = false
is e (lock t) = str_eq (code e) (code t)
is e (foreign m c) = false

unfoldable pub is_temporary : LockError → Bool
is_temporary e =
    str_eq (code e) err_code_acquire_timeout
    || (str_eq (code e) err_code_network_error || str_eq (code e) err_code_connection_failed)

unfoldable pub is_retryable : LockError → Bool
is_retryable e =
    str_eq (code e) err_code_lock_not_acquired
    || (str_eq (code e) err_code_acquire_timeout || str_eq (code e) err_code_network_error)

unfoldable pub new_lock_error : ErrorCode → String → ErrorSeverity → LockError
new_lock_error c m s = lock_error c m s [] nil

unfoldable pub new_lock_error_with_cause : ErrorCode → String → ErrorSeverity → GoError → LockError
new_lock_error_with_cause c m s cause = lock_error c m s [] cause

-- `errors.As` at a `*LockError`: the first one along the chain.
unfoldable pub get_lock_error : GoError → Option LockError
get_lock_error nil = none
get_lock_error (lock e) = some e
get_lock_error (foreign m e) = get_lock_error e

unfoldable pub is_lock_error : GoError → Bool
unfolding get_lock_error
is_lock_error err = elim (get_lock_error err) [ none ↦ false | some e ↦ true ]

unfoldable pub is_error_code : GoError → ErrorCode → Bool
unfolding get_lock_error
is_error_code err c = elim (get_lock_error err) [ none ↦ false | some e ↦ str_eq (code e) c ]

unfoldable pub is_temporary_error : GoError → Bool
unfolding get_lock_error is_temporary
is_temporary_error err = elim (get_lock_error err) [ none ↦ false | some e ↦ is_temporary e ]

unfoldable pub is_retryable_error : GoError → Bool
unfolding get_lock_error is_retryable
is_retryable_error err = elim (get_lock_error err) [ none ↦ false | some e ↦ is_retryable e ]

unfoldable pub wrap_error : GoError → ErrorCode → String → ErrorSeverity → LockError
unfolding new_lock_error_with_cause
wrap_error err c m s = new_lock_error_with_cause c m s err

unfoldable pub wrap_network_error : GoError → String → LockError
unfolding new_lock_error_with_cause with_context
wrap_network_error err operation =
    with_context
      (new_lock_error_with_cause err_code_network_error ("网络错误: " ++ operation) error err)
      "operation" (text operation)

unfoldable pub wrap_connection_error : GoError → String → LockError
unfolding new_lock_error_with_cause with_context
wrap_connection_error err backend =
    with_context
      (new_lock_error_with_cause err_code_connection_failed ("连接失败: " ++ backend) error err)
      "backend" (text backend)

unfoldable pub new_lock_not_acquired_error : String → String → LockError
unfolding new_lock_error with_context
new_lock_not_acquired_error key reason =
    with_context
      (with_context (new_lock_error err_code_lock_not_acquired "锁获取失败" error) "key" (text key))
      "reason" (text reason)

unfoldable pub new_lock_not_found_error : String → LockError
unfolding new_lock_error with_context
new_lock_not_found_error key =
    with_context (new_lock_error err_code_lock_not_found "锁不存在" error) "key" (text key)

unfoldable pub new_acquire_timeout_error : String → ℤ → LockError
unfolding new_lock_error with_context
new_acquire_timeout_error key timeout =
    with_context
      (with_context (new_lock_error err_code_acquire_timeout "获取锁超时" warning) "key" (text key))
      "timeout" (duration_text timeout)

unfoldable pub new_invalid_config_error : String → ContextValue → String → LockError
unfolding new_lock_error with_context
new_invalid_config_error field value reason =
    with_context
      (with_context
        (with_context (new_lock_error err_code_invalid_config "无效的配置" error) "field" (text field))
        "value" value)
      "reason" (text reason)

-- The predefined errors that the package's functions return.
abbrev pub err_unsupported_backend : LockError
unfolding new_lock_error
err_unsupported_backend = new_lock_error err_code_unsupported_backend "不支持的后端类型" error
