-- ===== src/Config/Validation.antt =====
-- `Validate` against the conditions that it is to enforce.
use x_ailock.Base.{
  ◌⊎◌, ℤ, pos, negsuc, quot_ℤ, ◌≤ℤ◌, ◌<ℤ◌, String, false, none, List, [], ◌∷◌, ◌≡◌, ◌↔◌, arith,
}
use x_ailock.Config.{
  LockConfig, LockOption, validate, apply_lock_options, apply_all, set_watchdog_interval,
}

-- What a usable configuration is.
pub record IsValid (c : LockConfig) : Type 0 where
  pub timeout_pos : pos 0 <ℤ c.acquire_timeout
  pub ttl_pos : pos 0 <ℤ c.lock_ttl
  pub retry_pos : pos 0 <ℤ c.retry_interval
  pub watchdog_pos : (c.enable_watchdog ≡ false) ⊎ (pos 0 <ℤ c.watchdog_interval)
  pub queue_nonneg : pos 0 ≤ℤ c.queue_ttl

validate_sound : (c : LockConfig) → validate c ≡ none → IsValid c
unfolding validate
validate_sound c h = ground arith

validate_complete : (c : LockConfig) → IsValid c → validate c ≡ none
unfolding validate
validate_complete c v = ground arith

-- `Validate` accepts a configuration exactly when the timeouts, the TTL and the retry interval are
-- positive, the queue TTL is not negative, and the watchdog is off or its interval is positive.
pub validate-IsValid : (c : LockConfig) → (validate c ≡ none) ↔ IsValid c
validate-IsValid c = (validate_sound c, validate_complete c)

-- What an option has to keep for the result to be valid.
pub record IsUsable (c : LockConfig) : Type 0 where
  pub timeout_pos : pos 0 <ℤ c.acquire_timeout
  pub ttl_three : pos 3 ≤ℤ c.lock_ttl
  pub retry_pos : pos 0 <ℤ c.retry_interval
  pub interval_pos : pos 0 <ℤ c.watchdog_interval
  pub queue_nonneg : pos 0 ≤ℤ c.queue_ttl

-- Every option of a list keeps the configuration usable.
abbrev pub Keep : List LockOption → Type 0
Keep [] = Unit {0}
Keep (opt ∷ opts) = ((c : LockConfig) → IsUsable c → IsUsable (opt c)) × Keep opts

apply_all-IsUsable :
    (opts : List LockOption) (c : LockConfig) → Keep opts → IsUsable c → IsUsable (apply_all opts c)
unfolding apply_all
apply_all-IsUsable [] c k u = u
apply_all-IsUsable (opt ∷ opts) c k u = apply_all-IsUsable opts (opt c) k.1 (k.0 c u)

quot_three : (d : ℤ) → pos 3 ≤ℤ d → pos 0 <ℤ quot_ℤ d 3
unfolding quot_ℤ
quot_three (pos n) h = omega arith
quot_three (negsuc n) h = absurd (omega arith)

set_watchdog_interval-IsValid : (c : LockConfig) → IsUsable c → IsValid (set_watchdog_interval c)
unfolding set_watchdog_interval
set_watchdog_interval-IsValid c u = ground (arith, quot_three c.lock_ttl)

-- Options that keep every duration positive, and the lock's TTL at 3 ns at least, give a
-- configuration that `Validate` accepts, whatever the generated value.
pub apply_lock_options-validate :
    (unique : String) (opts : List LockOption)
    → Keep opts
    → validate (apply_lock_options unique opts) ≡ none
unfolding apply_lock_options
apply_lock_options-validate unique opts k =
    validate_complete _
      (set_watchdog_interval-IsValid _ (apply_all-IsUsable opts _ k (omega arith)))
