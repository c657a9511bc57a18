-- ===== src/Common/Texts.antt =====
-- The order of texts: one comparison read backwards, and the third way out of two refusals.
use Prim.Native.Nat.{ℕ, Ordering, compare as compare_ℕ}
use Prim.Native.Char.{code}
use Prim.Native.String.{String, [], ◌∷◌, compare, then}
use Prim.Native.String.compare
use mathlib.Core.Path.{◌≡◌, refl, sym, ◌∙◌, ap}
use mathlib.Core.Bool.{Bool, true, false, false≢true}
use native.Mathlib.Omega.{arith}
use text.Mathlib.TextEquality.{path_by_compare}

abbrev flip : Ordering → Ordering
flip Ordering.lt = Ordering.gt
flip Ordering.eq = Ordering.eq
flip Ordering.gt = Ordering.lt

compare_ℕ-flip : (a b : ℕ) → compare_ℕ b a ≡ flip (compare_ℕ a b)
compare_ℕ-flip a b = ground arith

then-flip : (a b : Ordering) → then (flip a) (flip b) ≡ flip (then a b)
then-flip Ordering.lt b = refl
then-flip Ordering.eq b = refl
then-flip Ordering.gt b = refl

compare-flip : (s t : String) → compare t s ≡ flip (compare s t)
compare-flip [] [] = refl
compare-flip [] (d ∷ t) =
    (λ i. compare.cons-nil d t i) ∙ ap flip (sym (λ i. compare.nil-cons d t i))
compare-flip (c ∷ s) [] =
    (λ i. compare.nil-cons c s i) ∙ ap flip (sym (λ i. compare.cons-nil c s i))
compare-flip (c ∷ s) (d ∷ t) =
    (λ i. compare.cons-cons d c t s i)
    ∙ ((λ i. then (compare_ℕ-flip (code c) (code d) i) (compare-flip s t i))
        ∙ (then-flip (compare_ℕ (code c) (code d)) (compare s t)
            ∙ ap flip (sym (λ i. compare.cons-cons c d s t i))))

-- s < t on strings
abbrev pub string_lt : String → String → Bool
string_lt s t = elim (compare s t) [ Ordering.lt ↦ true | _ ↦ false ]

abbrev is_lt : Ordering → Bool
is_lt Ordering.lt = true
is_lt _ = false

flip-eq : (o : Ordering) → is_lt o ≡ false → is_lt (flip o) ≡ false → o ≡ Ordering.eq
flip-eq Ordering.lt h k = cc
flip-eq Ordering.eq h k = refl
flip-eq Ordering.gt h k = cc

pub string_lt_antisymm : (s t : String) → string_lt s t ≡ false → string_lt t s ≡ false → s ≡ t
string_lt_antisymm s t h k =
    path_by_compare s t (flip-eq (compare s t) h (ap is_lt (sym (compare-flip s t)) ∙ k))

then_trans :
    (a b c : ℕ) (p q r : Ordering)
    → (is_lt p ≡ false → is_lt q ≡ false → is_lt r ≡ false)
    → is_lt (then (compare_ℕ b a) p) ≡ false
    → is_lt (then (compare_ℕ c b) q) ≡ false
    → is_lt (then (compare_ℕ c a) r) ≡ false
then_trans a b c p q r ih h k = ground (arith, ih, h, k)

compare_trans :
    (s t u : String)
    → is_lt (compare t s) ≡ false
    → is_lt (compare u t) ≡ false
    → is_lt (compare u s) ≡ false
compare_trans [] t [] h k = refl
compare_trans [] t (e ∷ u) h k = ap is_lt (λ i. compare.cons-nil e u i)
compare_trans (c ∷ s) [] u h k =
    absurd (false≢true (sym (sym (ap is_lt (λ i. compare.nil-cons c s i)) ∙ h)))
compare_trans (c ∷ s) (d ∷ t) [] h k =
    absurd (false≢true (sym (sym (ap is_lt (λ i. compare.nil-cons d t i)) ∙ k)))
compare_trans (c ∷ s) (d ∷ t) (e ∷ u) h k =
    ap is_lt (λ i. compare.cons-cons e c u s i)
    ∙ then_trans (code c) (code d) (code e) (compare t s) (compare u t) (compare u s)
        (compare_trans s t u) (ap is_lt (sym (λ i. compare.cons-cons d c t s i)) ∙ h)
        (ap is_lt (sym (λ i. compare.cons-cons e d u t i)) ∙ k)

-- "Not less" passes on.
pub string_lt_trans :
    (s t u : String) → string_lt t s ≡ false → string_lt u t ≡ false → string_lt u s ≡ false
string_lt_trans = compare_trans

flip-lt : (o : Ordering) → is_lt o ≡ true → is_lt (flip o) ≡ false
flip-lt Ordering.lt h = refl
flip-lt Ordering.eq h = refl
flip-lt Ordering.gt h = cc

pub string_lt_asymm : (s t : String) → string_lt s t ≡ true → string_lt t s ≡ false
string_lt_asymm s t h = ap is_lt (compare-flip s t) ∙ flip-lt (compare s t) h
