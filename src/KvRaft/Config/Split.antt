-- ===== src/KvRaft/Config/Split.antt =====
-- config.go, partition: which ends are on after the loops, as a function of two servers.
use lab_implementation.Common.{
  ℕ, ◌≡◌, inl, inr, refl, ap, ◌∙◌, Bool, true, false, ◌&&◌, ◌||◌, List, [], ◌∷◌, if◌then◌else◌,
  ◌==◌, Bool-cases, arith,
}
use lab_implementation.KvRaft.Config.Switches.{mem}

-- Whether the end from a to c is one of those between i and the servers of l.
abbrev pub touch : ℕ → List ℕ → ℕ → ℕ → Bool
touch i l a c = (i == a && mem c l) || (i == c && mem a l)

abbrev pub split_val : List ℕ → List ℕ → List ℕ → ℕ → ℕ → Bool → Bool
split_val own others [] a c v = v
split_val own others (i ∷ is) a c v =
    split_val own others is a c
      (if touch i own a c then true else (if touch i others a c then false else v))

-- An end within one side is on, one between the sides is off, any other is as it was.
abbrev pub divided : List ℕ → List ℕ → ℕ → ℕ → Bool → Bool
divided p1 p2 a c v =
    if (mem a p1 && mem c p1) || (mem a p2 && mem c p2)
    then true
    else (if (mem a p1 && mem c p2) || (mem a p2 && mem c p1) then false else v)

abbrev pub Disjoint : List ℕ → List ℕ → Type 0
Disjoint p1 p2 = (a : ℕ) → mem a p1 ≡ true → mem a p2 ≡ false

or_left : (a b : Bool) → a ≡ true → (a || b) ≡ true
or_left true b h = refl
or_left false b h = cc

or_right : (a b : Bool) → b ≡ true → (a || b) ≡ true
or_right true b h = refl
or_right false b h = h

-- One round before the others, where i, j tell whether the round is that of a or of c, m, n whether a
-- or c is among the later ones, and o, p and t, u whether they are on the side itself and on the other.
round_first :
    (i j m n o p t u v : Bool)
    → (i ≡ true → o ≡ true)
    → (j ≡ true → p ≡ true)
    → (o ≡ true → t ≡ false)
    → (p ≡ true → u ≡ false)
    → (if (m && p) || (n && o)
        then true
        else (if (m && u) || (n && t)
            then false
            else (if (i && p) || (j && o)
                then true
                else (if (i && u) || (j && t) then false else v))))
      ≡ (if ((i || m) && p) || ((j || n) && o)
          then true
          else (if ((i || m) && u) || ((j || n) && t) then false else v))
round_first i j m n o p t u v ho hp ht hu = ground (arith, ho, hp, ht, hu)

-- The loop over the servers `is` of one side.
split_val-lem :
    (own others is : List ℕ) (a c : ℕ) (v : Bool)
    → ((i : ℕ) → mem i is ≡ true → mem i own ≡ true)
    → Disjoint own others
    → split_val own others is a c v ≡ (
        if (mem a is && mem c own) || (mem c is && mem a own)
        then true
        else (if (mem a is && mem c others) || (mem c is && mem a others) then false else v))
split_val-lem own others [] a c v sub d = refl
split_val-lem own others (i ∷ is) a c v sub d =
    split_val-lem own others is a c
      (if touch i own a c then true else (if touch i others a c then false else v))
      (λ x h. sub x (or_right (i == x) (mem x is) h)) d
    ∙ round_first (i == a) (i == c) (mem a is) (mem c is) (mem a own) (mem c own) (mem a others)
        (mem c others) v (λ h. sub a (or_left (i == a) (mem a is) h))
        (λ h. sub c (or_left (i == c) (mem c is) h)) (d a) (d c)

both_rounds :
    (a1 a2 c1 c2 v : Bool)
    → (a1 ≡ true → a2 ≡ false)
    → (c1 ≡ true → c2 ≡ false)
    → (if (a2 && c2) || (c2 && a2)
        then true
        else (if (a2 && c1) || (c2 && a1)
            then false
            else (if (a1 && c1) || (c1 && a1)
                then true
                else (if (a1 && c2) || (c1 && a2) then false else v))))
      ≡ (if (a1 && c1) || (a2 && c2) then true else (if (a1 && c2) || (a2 && c1) then false else v))
both_rounds a1 a2 c1 c2 v ha hc = ground (arith, ha, hc)

pub Disjoint-symm : (p1 p2 : List ℕ) → Disjoint p1 p2 → Disjoint p2 p1
Disjoint-symm p1 p2 d a h = elim (Bool-cases (mem a p1)) [
  | inl e ↦ let out = d a e in cc
  | inr e ↦ e
]

-- Both loops of partition.
pub split_val-divided :
    (p1 p2 : List ℕ) (a c : ℕ) (v : Bool)
    → Disjoint p1 p2
    → split_val p2 p1 p2 a c (split_val p1 p2 p1 a c v) ≡ divided p1 p2 a c v
split_val-divided p1 p2 a c v d =
    split_val-lem p2 p1 p2 a c (split_val p1 p2 p1 a c v) (λ i h. h) (Disjoint-symm p1 p2 d)
    ∙ ap
        (λ w.
          if (mem a p2 && mem c p2) || (mem c p2 && mem a p2)
          then true
          else (if (mem a p2 && mem c p1) || (mem c p2 && mem a p1) then false else w))
        (split_val-lem p1 p2 p1 a c v (λ i h. h) d)
    ∙ both_rounds (mem a p1) (mem a p2) (mem c p1) (mem c p2) v (d a) (d c)
