-- ===== src/Shard/Index.antt =====
-- sharded_lock.go, `NewShardedLockManager` and `getShard`: how many shards there are, and which one a key
-- belongs to. The hash is `hash/fnv`'s New32a over the key's bytes in UTF-8.
pub mod PowerOfTwo
mod Tests
use Prim.Native.Nat.{bit_and, bit_xor}
use Prim.Native.Char.{code}
use x_ailock.Base.{
  ℕ, zero, suc, ◌+◌, ◌-◌, ◌*◌, ◌/◌, ◌%◌, ◌^◌, ltb, leb_ℤ, ℤ, pos, negsuc, String, Option, none,
  some, List, [], ◌∷◌, ◌++◌, if◌then◌else◌,
}
use x_ailock.Config.{default_shard_count}

-- Go's conversion of an int to uint32 keeps the low 32 bits.
unfoldable pub to_uint32 : ℤ → ℕ
to_uint32 (pos n) = n % 2 ^ 32
to_uint32 (negsuc n) = 2 ^ 32 - 1 - n % 2 ^ 32

-- `for c < target { c <<= 1 }` on uint32, with fuel.
pub double_until : ℕ → ℕ → ℕ → Option ℕ
double_until zero target c = none
double_until (suc fuel) target c =
    let rest = double_until fuel target (c * 2 % 2 ^ 32) in if ltb c target then rest else some c

-- The guard on the caller's number.
unfoldable pub requested : ℤ → ℤ
requested n = if leb_ℤ n (pos 0) then default_shard_count else n

-- The number of shards for the number that the caller asks for.
unfoldable pub actual_shard_count : ℕ → ℤ → Option ℕ
actual_shard_count fuel n = double_until fuel (to_uint32 (requested n)) 1

-- The bytes of a code point.
utf8 : ℕ → List ℕ
utf8 c =
    if ltb c 128
    then c ∷ []
    else if ltb c 2048
    then (192 + c / 64) ∷ (128 + c % 64) ∷ []
    else if ltb c 65536
    then (224 + c / 4096) ∷ (128 + c / 64 % 64) ∷ (128 + c % 64) ∷ []
    else (240 + c / 262144) ∷ (128 + c / 4096 % 64) ∷ (128 + c / 64 % 64) ∷ (128 + c % 64) ∷ []

unfoldable pub bytes : String → List ℕ
unfolding utf8
bytes String.[] = []
bytes (String.◌∷◌ c s) = utf8 (code c) ++ bytes s

-- One round of FNV-1a for each byte.
fnv_from : ℕ → List ℕ → ℕ
fnv_from h [] = h
fnv_from h (b ∷ bs) = fnv_from (bit_xor h b * 16777619 % 2 ^ 32) bs

unfoldable pub sum32a : String → ℕ
unfolding fnv_from bytes
sum32a key = fnv_from 2166136261 (bytes key)

unfoldable pub shard_index : ℕ → String → ℕ
shard_index mask key = bit_and (sum32a key) mask
