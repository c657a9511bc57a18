-- ===== src/Labgob/Marks.antt =====
-- labgob.go, checkType: the types that are marked, and what is counted over them.
use lab_implementation.Common.{
  ℕ, zero, suc, ◌+◌, ◌≤◌, ◌<◌, ◌≡◌, ◌⊎◌, refl, Bool, true, false, List, [], ◌∷◌, All, update,
  ℕ_discrete, if◌then◌else◌, arith,
}
use lab_implementation.Labgob.{
  Field, Kind, struct, slice, array, ptr, map_of, other, Table, Checker,
}

-- The types that checkType goes on to.
abbrev pub field_types : List Field → List ℕ
field_types [] = []
field_types (f ∷ fs) = f.type ∷ field_types fs

abbrev pub parts : Kind → List ℕ
parts (struct fs) = field_types fs
parts (slice elem) = elem ∷ []
parts (array elem) = elem ∷ []
parts (ptr elem) = elem ∷ []
parts (map_of key elem) = elem ∷ key ∷ []
parts other = []

-- The sum of `f` over the first n types that are marked.
abbrev pub sum_marked : (ℕ → ℕ) → (ℕ → Bool) → ℕ → ℕ
sum_marked f c zero = 0
sum_marked f c (suc n) = sum_marked f c n + (if c n then f n else 0)

abbrev pub unmarked : (ℕ → Bool) → ℕ → ℕ
unmarked c zero = 0
unmarked c (suc n) = unmarked c n + (if c n then 0 else 1)

sum_marked-above :
    (f : ℕ → ℕ) (c : ℕ → Bool) (n t : ℕ)
    → n ≤ t
    → sum_marked f (update ℕ_discrete c t true) n ≡ sum_marked f c n
sum_marked-above f c zero t h = refl
sum_marked-above f c (suc n) t h = ground (arith, sum_marked-above f c n t)

pub sum_marked-update :
    (f : ℕ → ℕ) (c : ℕ → Bool) (n t : ℕ)
    → t < n
    → c t ≡ false
    → sum_marked f (update ℕ_discrete c t true) n ≡ sum_marked f c n + f t
sum_marked-update f c zero t h e = absurd (omega (arith, h))
sum_marked-update f c (suc n) t h e =
    ground (arith, sum_marked-above f c n t, sum_marked-update f c n t)

unmarked-above :
    (c : ℕ → Bool) (n t : ℕ) → n ≤ t → unmarked (update ℕ_discrete c t true) n ≡ unmarked c n
unmarked-above c zero t h = refl
unmarked-above c (suc n) t h = ground (arith, unmarked-above c n t)

pub unmarked-update :
    (c : ℕ → Bool) (n t : ℕ)
    → t < n
    → c t ≡ false
    → suc (unmarked (update ℕ_discrete c t true) n) ≡ unmarked c n
unmarked-update c zero t h e = absurd (omega (arith, h))
unmarked-update c (suc n) t h e = ground (arith, unmarked-above c n t, unmarked-update c n t)

module _ (table : Table) where
  -- The lower-case fields.
  abbrev pub lower : List Field → ℕ
  lower [] = 0
  lower (f ∷ fs) = (if table.is_upper f.name then 0 else 1) + lower fs

  abbrev pub kind_lower : Kind → ℕ
  kind_lower (struct fs) = lower fs
  kind_lower _ = 0

  abbrev pub type_lower : ℕ → ℕ
  type_lower t = kind_lower (table.kind t)

  abbrev pub Marked : Checker → List ℕ → Type 0
  Marked s ts = All (λ t. s.checked t ≡ true) ts

  module _ (n : ℕ) where
    -- From s to s' nothing is unmarked, every newly marked type has its parts marked, and the errors
    -- grow by `k` and by the lower-case fields of the newly marked types.
    pub record Grows (k : ℕ) (s s' : Checker) : Type 0 where
      pub keeps : (u : ℕ) → s.checked u ≡ true → s'.checked u ≡ true
      pub closes :
          (u : ℕ) → s'.checked u ≡ true → (s.checked u ≡ true) ⊎ Marked s' (parts (table.kind u))
      pub counts :
          s'.error_count + sum_marked type_lower s.checked n
          ≡ s.error_count + k + sum_marked type_lower s'.checked n
      pub shrinks : unmarked s'.checked n ≤ unmarked s.checked n

pub unmarked-le : (c : ℕ → Bool) (n : ℕ) → unmarked c n ≤ n
unmarked-le c zero = omega arith
unmarked-le c (suc n) = ground (arith, unmarked-le c n)
