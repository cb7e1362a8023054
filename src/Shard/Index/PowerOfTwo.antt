-- ===== src/Shard/Index/PowerOfTwo.antt =====
-- The number of shards is the next power of two, and the mask of it picks a shard.
use native.Mathlib.Nat.{pow-suc, mod-lt, pow-le-pow_right}
use native.Mathlib.Decide.{dec_lt}
use x_ailock.Base.{
  ℕ, zero, suc, ◌+◌, ◌-◌, ◌*◌, ◌%◌, ◌^◌, ◌≤◌, ◌<◌, ltb, pos_part, ℤ, pos, negsuc, ◌≤ℤ◌, String,
  true, none, some, ◌≡◌, refl, ap, ◌⊎◌, inl, inr, arith, Bool-cases, bit_and_mask, pow_pos,
}
use x_ailock.Shard.Index.{
  double_until, actual_shard_count, requested, to_uint32, shard_index, sum32a,
}

double_until-pow :
    (fuel k target : ℕ)
    → k + fuel ≡ 32
    → target ≤ 2 ^ 31
    → (k ≡ 0) ⊎ (2 ^ k < 2 * target)
    → (j : ℕ) × (double_until fuel target (2 ^ k) ≡ some (2 ^ j))
      × (target ≤ 2 ^ j)
      × ((j ≡ 0) ⊎ (2 ^ j < 2 * target))
unfolding double_until
double_until-pow zero k target e b h =
    let top : k ≡ 32 = omega arith in absurd (omega (arith, ap (λ t. 2 ^ t) top, top, h))
double_until-pow (suc fuel) k target e b h = elim (Bool-cases (ltb (2 ^ k) target)) [
  | inl more ↦
      let below : 2 ^ k < target = ground arith in
      let twice : 2 ^ k * 2 % 2 ^ 32 ≡ 2 ^ suc k = omega (arith, pow-suc 2 k, below) in
      rw (more, twice)
        (double_until-pow fuel (suc k) target (omega arith) b
          (inr (omega (arith, pow-suc 2 k, below))))
  | inr enough ↦ (k, rw enough, ground arith, h)
]

requested_small :
    (n : ℤ)
    → n ≤ℤ pos (2 ^ 31)
    → (to_uint32 (requested n) ≡ pos_part (requested n)) × (pos_part (requested n) ≤ 2 ^ 31)
unfolding to_uint32 requested
requested_small (pos zero) h = (refl, omega arith)
requested_small (pos (suc n)) h = ground arith
requested_small (negsuc n) h = ground arith

-- For a request of at most 2^31 shards, 32 rounds of the loop are enough: it ends with a power of two
-- that is at least the request (or the default, for a request that is not positive), and is 1 or less
-- than twice that.
pub actual_shard_count-pow :
    (n : ℤ)
    → n ≤ℤ pos (2 ^ 31)
    → (j : ℕ) × (actual_shard_count 32 n ≡ some (2 ^ j))
      × (pos_part (requested n) ≤ 2 ^ j)
      × ((j ≡ 0) ⊎ (2 ^ j < 2 * pos_part (requested n)))
unfolding actual_shard_count
actual_shard_count-pow n h =
    let (low, small) = requested_small n h in
    rw low (double_until-pow 32 0 (pos_part (requested n)) refl small (inl refl))

double_until-zero : (fuel target : ℕ) → 0 < target → double_until fuel target 0 ≡ none
unfolding double_until
double_until-zero zero target h = refl
double_until-zero (suc fuel) target h = ground (arith, double_until-zero fuel target h)

double_until-overflow :
    (fuel k target : ℕ) → k ≤ 31 → 2 ^ 31 < target → double_until fuel target (2 ^ k) ≡ none
unfolding double_until
double_until-overflow zero k target h t = refl
double_until-overflow (suc fuel) k target h t = elim (dec_lt k 31) [
  | yes less ↦
      let small : 2 ^ suc k ≤ 2 ^ 31 = pow-le-pow_right (omega arith) less in
      let twice : 2 ^ k * 2 % 2 ^ 32 ≡ 2 ^ suc k = omega (arith, pow-suc 2 k, small) in
      let go : ltb (2 ^ k) target ≡ true = ground (arith, pow-suc 2 k, small) in
      rw (go, twice) (double_until-overflow fuel (suc k) target less t)
  | no last ↦
      let top : k ≡ 31 = omega arith in
      let go : ltb (2 ^ k) target ≡ true = ground (arith, ap (λ t. 2 ^ t) top) in
      let gone : 2 ^ k * 2 % 2 ^ 32 ≡ 0 = omega (arith, ap (λ t. 2 ^ t) top) in
      rw (go, gone) (double_until-zero fuel target (omega arith))
]

-- With a power of two for the number of shards, the mask takes the remainder of the hash by it; so every
-- key has a shard, and the same one each time.
pub shard_index-mod :
    (k : ℕ) (key : String)
    → (shard_index (2 ^ k - 1) key ≡ sum32a key % 2 ^ k) × (shard_index (2 ^ k - 1) key < 2 ^ k)
unfolding shard_index
shard_index-mod k key = (
  bit_and_mask (sum32a key) k,
  omega (arith, bit_and_mask (sum32a key) k, mod-lt (sum32a key) (pow_pos k)),
)
