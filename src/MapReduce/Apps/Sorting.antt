-- ===== src/MapReduce/Apps/Sorting.antt =====
-- sort.Strings, as indexer.go uses it: what it makes of a list depends on the members only.
use mathlib.Core.List.{Perm}
use mathlib.Core.List.Perm
use lab_implementation.Common.{
  suc, ◌<◌, ◌≡◌, ◌≢◌, ◌⊎◌, inl, inr, refl, sym, subst, ◌∙◌, false, List, [], ◌∷◌, All, String,
  string_discrete, string_lt, string_lt_antisymm, if_pos, if_neg, arith,
}
use lab_implementation.MapReduce.Apps.Counts.{occurrences, occurrences-Perm}

abbrev pub Ascending : List String → Type 0
Ascending [] = Unit
Ascending (x ∷ xs) = All (λ y. string_lt y x ≡ false) xs × Ascending xs

-- sort.Strings sorts in increasing order.
pub record IsStringSort (sort : List String → List String) : Type 0 where
  pub permutes : (xs : List String) → Perm (sort xs) xs
  pub sorts : (xs : List String) → Ascending (sort xs)

pub here :
    (w x : String) (xs : List String) → x ≡ w → occurrences w (x ∷ xs) ≡ suc (occurrences w xs)
here w x xs e = if_pos (string_discrete x w) e _ _

pub elsewhere :
    (w x : String) (xs : List String) → x ≢ w → occurrences w (x ∷ xs) ≡ occurrences w xs
elsewhere w x xs n = if_neg (string_discrete x w) n _ _

occurs-All :
    (P : String → Type 0) (w : String) (xs : List String) → All P xs → 0 < occurrences w xs → P w
occurs-All P w [] a h = absurd (omega (arith, h))
occurs-All P w (x ∷ xs) a h = elim (string_discrete x w) [
  | yes e ↦ subst P e a.0
  | no n ↦ occurs-All P w xs a.1 (subst (λ k. 0 < k) (elsewhere w x xs n) h)
]

-- The first of an ascending list is not greater than a member.
first_least :
    (w x : String) (xs : List String)
    → Ascending (x ∷ xs)
    → 0 < occurrences w (x ∷ xs)
    → (x ≡ w) ⊎ (string_lt w x ≡ false)
first_least w x xs a h = elim (string_discrete x w) [
  | yes e ↦ inl e
  | no n ↦
      inr (
        occurs-All (λ y. string_lt y x ≡ false) w xs a.0
          (subst (λ k. 0 < k) (elsewhere w x xs n) h))
]

same_first :
    (x y : String) (xs ys : List String)
    → Ascending (x ∷ xs)
    → Ascending (y ∷ ys)
    → ((w : String) → occurrences w (x ∷ xs) ≡ occurrences w (y ∷ ys))
    → x ≡ y
same_first x y xs ys a b h =
    let mine = here x x xs refl in
    let yours = here y y ys refl in
    elim (first_least y x xs a (omega (arith, h y, yours))) [
      | inl e ↦ e
      | inr p ↦ elim (first_least x y ys b (omega (arith, h x, mine))) [
        | inl e ↦ sym e
        | inr q ↦ string_lt_antisymm x y q p
      ]
    ]

tails :
    (x y : String) (xs ys : List String) (w : String)
    → x ≡ y
    → occurrences w (x ∷ xs) ≡ occurrences w (y ∷ ys)
    → occurrences w xs ≡ occurrences w ys
tails x y xs ys w e h = elim (string_discrete x w) [
  | yes p ↦ omega (arith, h, here w x xs p, here w y ys (sym e ∙ p))
  | no n ↦ sym (elsewhere w x xs n) ∙ h ∙ elsewhere w y ys (λ q. n (e ∙ q))
]

Ascending-unique :
    (xs ys : List String)
    → Ascending xs
    → Ascending ys
    → ((w : String) → occurrences w xs ≡ occurrences w ys)
    → xs ≡ ys
Ascending-unique [] [] a b h = refl
Ascending-unique [] (y ∷ ys) a b h = absurd (omega (arith, h y, here y y ys refl))
Ascending-unique (x ∷ xs) [] a b h = absurd (omega (arith, h x, here x x xs refl))
Ascending-unique (x ∷ xs) (y ∷ ys) a b h =
    let e = same_first x y xs ys a b h in
    λ i. e i ∷ Ascending-unique xs ys a.1 b.1 (λ w. tails x y xs ys w e (h w)) i

pub sort-Perm :
    (sort : List String → List String) (xs ys : List String)
    → IsStringSort sort
    → Perm xs ys
    → sort xs ≡ sort ys
sort-Perm sort xs ys s p = Ascending-unique (sort xs) (sort ys) (s.sorts xs) (s.sorts ys) λ w.
    occurrences-Perm w (sort xs) (sort ys)
      (Perm.trans (s.permutes xs) (Perm.trans p (Perm.symm (s.permutes ys))))
