-- ===== src/Errors/Tests.antt =====
-- Concrete error chains.
use x_ailock.Base.{true, false, ◌≡◌, refl}
use x_ailock.Errors.{
  GoError, LockError, code, lock, foreign, nil, is_error_code, error, wrap_error,
  wrap_network_error, new_lock_not_found_error, lock_error_text,
}
use x_ailock.Errors.Predefined.{errors_is, err_lock_not_found, errors_is-is_error_code}

abbrev not_found : LockError
unfolding new_lock_not_found_error
not_found = new_lock_not_found_error "orders"

-- A lock error inside an error of another package.
abbrev wrapped : GoError
wrapped = foreign "release failed" (lock not_found)

text_of_wrapped : lock_error_text (wrap_network_error nil "unlock") ≡ "[NETWORK_ERROR] 网络错误: unlock"
unfolding lock_error_text wrap_network_error
text_of_wrapped = refl

wrapped_is_found : is_error_code wrapped (code not_found) ≡ true
unfolding not_found is_error_code
wrapped_is_found = refl

errors_is-is_error_code_example :
    (errors_is wrapped err_lock_not_found ≡ true)
    × (errors_is (lock (wrap_error wrapped "RELEASE" "release" error)) err_lock_not_found ≡ true)
    × (is_error_code (lock (wrap_error wrapped "RELEASE" "release" error)) (code err_lock_not_found)
        ≡ false)
unfolding errors_is is_error_code not_found
errors_is-is_error_code_example =
    errors_is-is_error_code wrapped err_lock_not_found "RELEASE" "release" error
