-- ===== src/Base/Text.antt =====
-- Go strings as native texts, which the program only compares and joins.
pub use text.Mathlib.Text.{◌==◌ as str_eq}
pub use text.Mathlib.TextEquality.{eq_iff}
pub use text.Mathlib.TextPositions.{eq_refl}
