-- ===== src/Redis/Expiry.antt =====
-- The expiry of a script's `SET` or `EXPIRE`: which durations give one that Redis accepts.
use x_ailock.Base.{
  ℕ, ◌<◌, ◌*◌, ◌%◌, ◌/◌, ◌==◌, negsuc, ℤ, pos, ◌<ℤ◌, leb_ℤ, Option, none, some, ◌≡◌, refl, ◌⊎◌, inl,
  inr, arith, Bool-cases,
}
use x_ailock.Redis.Server.{IsRefused, no_integer, not_positive, seconds}

-- Redis refuses an expiry or it is positive.
pub Expiry-cases : (t : Option ℤ) → IsRefused t ⊎ ((n : ℤ) × (t ≡ some n) × (pos 0 <ℤ n))
Expiry-cases none = inl no_integer
Expiry-cases (some n) = elim (Bool-cases (leb_ℤ n (pos 0))) [
  | inl h ↦ inl (not_positive n (ground arith))
  | inr h ↦ inr (n, refl, ground arith)
]

-- A positive number of whole seconds is an expiry that Redis accepts.
pub seconds_whole :
    (n : ℕ) → 0 < n → (m : ℤ) × (seconds (pos (n * 1_000_000_000)) ≡ some m) × (pos 0 <ℤ m)
unfolding seconds
seconds_whole n h = (pos n, ground arith, omega arith)

-- A positive duration is no integer to Redis, or an expiry that it accepts.
pub seconds-cases :
    (d : ℤ) → pos 0 <ℤ d → (seconds d ≡ none) ⊎ ((m : ℤ) × (seconds d ≡ some m) × (pos 0 <ℤ m))
unfolding seconds
seconds-cases (pos n) h = elim (Bool-cases (n % 1_000_000_000 == 0)) [
  | inl whole ↦ rw whole (inr (pos (n / 1_000_000_000), refl, ground arith))
  | inr part ↦ rw part (inl refl)
]
seconds-cases (negsuc n) h = absurd (omega (arith, h))
