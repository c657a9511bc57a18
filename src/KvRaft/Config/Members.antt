-- ===== src/KvRaft/Config/Members.antt =====
-- config.go, make_partition: the members of the two lists.
use lab_implementation.Common.{
  ℕ, zero, suc, ◌+◌, ◌-◌, ◌*◌, ◌≤◌, ◌<◌, ◌≡◌, ◌≢◌, ◌⊎◌, inl, inr, refl, sym, ap, subst, ◌∙◌, true,
  some, List, [], ◌∷◌, All, length, get_elem?, some-injective, if◌then◌else◌, Bool-cases, ltb, ◌==◌,
  ℕ_discrete, arith,
}
use lab_implementation.KvRaft.Config.Switches.{mem}
use lab_implementation.KvRaft.Config.Split.{Disjoint}
use lab_implementation.KvRaft.Config.Majority.{other, Halved, ltb-lt, ltb-ge}

mem-get_elem? : (xs : List ℕ) (q a : ℕ) → get_elem? xs q ≡ some a → mem a xs ≡ true
mem-get_elem? [] q a h = cc
mem-get_elem? (x ∷ xs) zero a h = let e = some-injective x a h in ground (arith, e)
mem-get_elem? (x ∷ xs) (suc q) a h = let m = mem-get_elem? xs q a h in ground (arith, m)

get_elem?-mem :
    (xs : List ℕ) (a : ℕ) → mem a xs ≡ true → (q : ℕ) × (q < length xs) × (get_elem? xs q ≡ some a)
get_elem?-mem [] a h = cc
get_elem?-mem (x ∷ xs) a h = elim (Bool-cases (x == a)) [
  | inl e ↦ (0, omega arith, ground (arith, e))
  | inr e ↦
      let (q, l, found) = get_elem?-mem xs a (ground (arith, h, e)) in
      (suc q, omega (arith, l), found)
]

All-of_get_elem? :
    {P : ℕ → Type 0} (xs : List ℕ)
    → ((q a : ℕ) → q < length xs → get_elem? xs q ≡ some a → P a)
    → All P xs
All-of_get_elem? [] h = tt
All-of_get_elem? (x ∷ xs) h =
    (h 0 x (omega arith) refl, All-of_get_elem? xs (λ q a l e. h (suc q) a (omega (arith, l)) e))

-- Where a server but l stands among the others.
abbrev place_of : ℕ → ℕ → ℕ
place_of l a = if ltb a l then a else a - 1

module _ (m l : ℕ) (some_m : 0 < m) (leads : l < 2 * m + 1) (p1 p2 : List ℕ)
    (h : Halved m l p1 p2) where
  at_first : (q a : ℕ) → q < length p1 → get_elem? p1 q ≡ some a → (q < m + 1) × (a ≡ other l q)
  at_first q a b e =
      let c : q < m + 1 = omega (arith, b, h.size1) in (c, some-injective _ _ (sym e ∙ h.first q c))

  at_second :
      (q a : ℕ)
      → q < length p2
      → get_elem? p2 q ≡ some a
      → (a ≡ l) ⊎ ((suc q < m) × (a ≡ other l (m + 1 + q)))
  at_second q a b e = elim (Bool-cases (ltb (suc q) m)) [
    | inl low ↦
        let c : suc q < m = ground (arith, low) in
        inr (c, some-injective _ _ (sym e ∙ h.second q c))
    | inr high ↦
        let c : q ≡ m - 1 = ground (arith, high, b, h.size2) in
        inl (some-injective _ _ (sym e ∙ ap (get_elem? p2) c ∙ h.last))
  ]

  pub below_first : All (λ a. a < 2 * m + 1) p1
  below_first =
      All-of_get_elem? p1 (λ q a b e. let (c, v) = at_first q a b e in ground (arith, c, v))

  pub below_second : All (λ a. a < 2 * m + 1) p2
  below_second = All-of_get_elem? p2 λ q a b e. elim (at_second q a b e) [
    | inl v ↦ omega (arith, v, leads)
    | inr (c, v) ↦ ground (arith, c, v)
  ]

  apart_at :
      (q r a : ℕ)
      → q < m + 1
      → a ≡ other l q
      → (a ≡ l) ⊎ ((suc r < m) × (a ≡ other l (m + 1 + r)))
      → ⊥
  apart_at q r a c v (inl e) = ground (arith, c, v, e)
  apart_at q r a c v (inr (d, e)) = ground (arith, c, v, d, e)

  pub halves_Disjoint : Disjoint p1 p2
  halves_Disjoint a k = elim (Bool-cases (mem a p2)) [
    | inr off ↦ off
    | inl on ↦
        let (q, b, e) = get_elem?-mem p1 a k in
        let (r, d, f) = get_elem?-mem p2 a on in
        let (c, v) = at_first q a b e in absurd (apart_at q r a c v (at_second r a d f))
  ]

  pub leader_second : mem l p2 ≡ true
  leader_second = mem-get_elem? p2 (m - 1) l h.last

  other-place_of : (a : ℕ) → a ≢ l → other l (place_of l a) ≡ a
  other-place_of a ne = ground (arith, ne)

  place_of-lt : (a : ℕ) → a ≢ l → a < 2 * m + 1 → place_of l a < 2 * m
  place_of-lt a ne b = ground (arith, ne, b, leads)

  in_first : (a q : ℕ) → q < m + 1 → other l q ≡ a → mem a p1 ≡ true
  in_first a q c e = mem-get_elem? p1 q a (h.first q c ∙ ap some e)

  in_second : (a q : ℕ) → m + 1 ≤ q → q < 2 * m → other l q ≡ a → mem a p2 ≡ true
  in_second a q c d e =
      mem-get_elem? p2 (q - (m + 1)) a (
        h.second (q - (m + 1)) (omega (arith, c, d))
        ∙ ap some (ap (other l) (omega (arith, c)) ∙ e))

  pub halves_complete : (a : ℕ) → a < 2 * m + 1 → (mem a p1 ≡ true) ⊎ (mem a p2 ≡ true)
  halves_complete a b = elim (ℕ_discrete a l) [
    | yes e ↦ inr (subst (λ x. mem x p2 ≡ true) (sym e) leader_second)
    | no ne ↦ elim (Bool-cases (ltb (place_of l a) (m + 1))) [
      | inl low ↦ inl (in_first a (place_of l a) (ltb-lt _ _ low) (other-place_of a ne))
      | inr high ↦
          inr (
            in_second a (place_of l a) (ltb-ge _ _ high) (place_of-lt a ne b) (other-place_of a ne))
    ]
  ]
