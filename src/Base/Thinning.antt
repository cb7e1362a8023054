-- ===== src/Base/Thinning.antt =====
-- Lists of texts from which entries go, in any place.
use Prim.Native.String.{String}
use mathlib.Core.Path.{◌≡◌, refl, ◌∙◌, subst}
use mathlib.Core.Logic.{◌⊎◌, inl, inr}
use mathlib.Core.List.{List, [], ◌∷◌, ◌++◌, append-nil}

-- The second list is what is left of the first when some entries go.
abbrev pub Thinned : List String → List String → Type 0
Thinned [] [] = Unit {0}
Thinned [] (x ∷ p) = ⊥
Thinned (v ∷ q) [] = Unit {0}
Thinned (v ∷ q) (x ∷ p) = ((v ≡ x) × Thinned q p) ⊎ Thinned q (x ∷ p)

pub Thinned-refl : (q : List String) → Thinned q q
Thinned-refl [] = tt
Thinned-refl (v ∷ q) = inl (refl, Thinned-refl q)

pub Thinned-nil : (q : List String) → Thinned q []
Thinned-nil [] = tt
Thinned-nil (v ∷ q) = tt

pub Thinned-cons : (v : String) (q p : List String) → Thinned q p → Thinned (v ∷ q) p
Thinned-cons v q [] t = tt
Thinned-cons v q (x ∷ p) t = inr t

pub Thinned-trans : (q r s : List String) → Thinned q r → Thinned r s → Thinned q s
Thinned-trans q r [] a b = Thinned-nil q
Thinned-trans q [] (x ∷ s) a b = absurd b
Thinned-trans [] (w ∷ r) (x ∷ s) a b = absurd a
Thinned-trans (v ∷ q) (w ∷ r) (x ∷ s) (inl (e, a)) (inl (f, b)) =
    inl (e ∙ f, Thinned-trans q r s a b)
Thinned-trans (v ∷ q) (w ∷ r) (x ∷ s) (inl (e, a)) (inr b) = inr (Thinned-trans q r (x ∷ s) a b)
Thinned-trans (v ∷ q) (w ∷ r) (x ∷ s) (inr a) b = inr (Thinned-trans q (w ∷ r) (x ∷ s) a b)

pub Thinned-append : (q p a b : List String) → Thinned q p → Thinned a b → Thinned (q ++ a) (p ++ b)
Thinned-append [] [] a b t u = u
Thinned-append [] (x ∷ p) a b t u = absurd t
Thinned-append (v ∷ q) [] a b t u =
    Thinned-cons v (q ++ a) b (Thinned-append q [] a b (Thinned-nil q) u)
Thinned-append (v ∷ q) (x ∷ p) a b (inl (e, t)) u = inl (e, Thinned-append q p a b t u)
Thinned-append (v ∷ q) (x ∷ p) a b (inr t) u = inr (Thinned-append q (x ∷ p) a b t u)

pub Thinned-more : (q p a : List String) → Thinned q p → Thinned (q ++ a) p
Thinned-more q p a t =
    subst (Thinned (q ++ a)) (append-nil p) (Thinned-append q p a [] t (Thinned-nil a))
