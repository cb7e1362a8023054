-- ===== src/Metrics/Sums.antt =====
-- metrics.go: sums of int64 counters, which wrap around.
use x_ailock.Base.{
  ℕ, ◌+◌, ◌<◌, ◌^◌, ◌%◌, ltb, ℤ, pos, String, List, [], ◌∷◌, ◌≡◌, refl, ◌∙◌, ap, str_eq, arith,
  Bool-cases, inl, inr,
}
use x_ailock.Metrics.{Counters, add_to, add64, pattern64, to_int64}
use x_ailock.Metrics.Snapshot.{copy, total_roundtrips}

-- Go's addition of int64, which wraps around, and the sum of a map.
abbrev pub plus64 : ℤ → ℤ → ℤ
plus64 a b = to_int64 ((pattern64 a + pattern64 b) % 2 ^ 64)

unfoldable pub sum64 : List (String × ℤ) → ℤ
sum64 [] = pos 0
sum64 ((k, n) ∷ m) = plus64 n (sum64 m)

pattern64-to_int64 : (n : ℕ) → n < 2 ^ 64 → pattern64 (to_int64 n) ≡ n
unfolding pattern64 to_int64
pattern64-to_int64 n h = elim (Bool-cases (ltb n (2 ^ 63))) [
  | inl small ↦ rw small (omega arith)
  | inr large ↦ rw large (omega arith)
]

pub plus64-to_int64 :
    (n k : ℕ)
    → n < 2 ^ 64
    → k < 2 ^ 64
    → plus64 (to_int64 n) (to_int64 k) ≡ to_int64 ((n + k) % 2 ^ 64)
plus64-to_int64 n k a b = rw (pattern64-to_int64 n a, pattern64-to_int64 k b) refl

-- Every counter of a map is an int64.
abbrev pub Small : Counters → Type 0
Small [] = Unit {0}
Small ((k, n) ∷ m) = (n < 2 ^ 64) × Small m

total_small : (m : Counters) → total_roundtrips m < 2 ^ 64
unfolding total_roundtrips
total_small [] = omega arith
total_small ((k, n) ∷ m) = omega arith

pub sum64-copy : (m : Counters) → Small m → sum64 (copy m) ≡ to_int64 (total_roundtrips m)
unfolding sum64 copy total_roundtrips
sum64-copy [] s = unfold to_int64 in ground arith
sum64-copy ((k, n) ∷ m) s =
    ap (plus64 (to_int64 n)) (sum64-copy m s.1)
    ∙ plus64-to_int64 n (total_roundtrips m) s.0 (total_small m)

pub add_to-Small : (name : String) (d : ℤ) (m : Counters) → Small m → Small (add_to name d m)
unfolding add_to add64
add_to-Small name d [] s = (omega arith, tt)
add_to-Small name d ((k, n) ∷ m) s = elim (Bool-cases (str_eq k name)) [
  | inl same ↦ rw same (omega arith, s.1)
  | inr other ↦ rw other (s.0, add_to-Small name d m s.1)
]

pub add_to-total :
    (name : String) (m : Counters)
    → total_roundtrips (add_to name (pos 1) m) ≡ (total_roundtrips m + 1) % 2 ^ 64
unfolding add_to add64 pattern64 total_roundtrips
add_to-total name [] = omega arith
add_to-total name ((k, n) ∷ m) = elim (Bool-cases (str_eq k name)) [
  | inl same ↦ rw same (omega arith)
  | inr other ↦ rw other (omega (arith, add_to-total name m))
]
