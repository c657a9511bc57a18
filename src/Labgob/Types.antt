-- ===== src/Labgob/Types.antt =====
-- labgob.go: what the checks of a program's types, one after another, find.
use mathlib.Core.List.{Memᴰ}
use lab_implementation.Common.{
  ℕ, zero, suc, ◌≤◌, ◌<◌, ◌≡◌, inl, inr, refl, sym, ap, subst, ◌∙◌, Bool, true, false, Option, some,
  List, [], ◌∷◌, All, ℕ_discrete, arith,
}
use lab_implementation.Labgob.{Table, Checker, bind, check_type}
use lab_implementation.Labgob.Marks.{parts, sum_marked, type_lower, Marked, Grows, unmarked-le}
use lab_implementation.Labgob.Visits.{Marked-mono, check_type-Visits}

-- errorCount and checked when the program starts.
abbrev pub fresh_checker : Checker
fresh_checker = record { error_count = 0; checked = λ _. false; printed = [] }

-- checkValue on values of these types; the fuel is one more than the number of types.
abbrev pub check_values : Table → ℕ → List ℕ → Checker → Option Checker
check_values table n [] s = some s
check_values table n (t ∷ ts) s =
    bind table (check_type table (suc n) t s) (check_values table n ts)

-- The types that a value of type t may hold, t itself included.
pub data Part (table : Table) (t : ℕ) : ℕ → Type 0 where
  whole : Part table t t
  below : {u v : ℕ} → Part table t u → Memᴰ v (parts (table.kind u)) → Part table t v

-- The table holds every type below one of its own.
abbrev pub IsClosed : Table → ℕ → Type 0
IsClosed table n = (t : ℕ) → t < n → All (λ u. u < n) (parts (table.kind t))

All-Memᴰ : (P : ℕ → Type 0) (ts : List ℕ) (t : ℕ) → All P ts → Memᴰ t ts → P t
All-Memᴰ P [] t a m = elim m [ ]
All-Memᴰ P (x ∷ xs) t a (Memᴰ.head e) = subst P (sym e) a.0
All-Memᴰ P (x ∷ xs) t a (Memᴰ.tail m) = All-Memᴰ P xs t a.1 m

module _ (table : Table) (n : ℕ) where
  record Inv (s : Checker) : Type 0 where
    closes : (u : ℕ) → s.checked u ≡ true → Marked table s (parts (table.kind u))
    counts : s.error_count ≡ sum_marked (type_lower table) s.checked n

  Inv-Grows : (s s' : Checker) → Inv s → Grows table n 0 s s' → Inv s'
  Inv-Grows s s' i g = record {
    closes = λ u e. elim (g.closes u e) [
      | inl old ↦ Marked-mono table s s' (parts (table.kind u)) g.keeps (i.closes u old)
      | inr m ↦ m
    ];
    counts = omega (arith, i.counts, g.counts);
  }

  sum_marked-nothing : (m : ℕ) → sum_marked (type_lower table) (λ _. false) m ≡ 0
  sum_marked-nothing zero = refl
  sum_marked-nothing (suc m) = omega (arith, sum_marked-nothing m)

  fresh_checker-Inv : Inv fresh_checker
  fresh_checker-Inv = record { closes = λ u e. absurd cc; counts = sym (sum_marked-nothing n) }

  Part-marked :
      (s : Checker) (t u : ℕ) → Inv s → s.checked t ≡ true → Part table t u → s.checked u ≡ true
  Part-marked s t _ i e whole = e
  Part-marked s t v i e (below {u} p m) =
      All-Memᴰ (λ w. s.checked w ≡ true) (parts (table.kind u)) v
        (i.closes u (Part-marked s t u i e p)) m

  check_values-Inv :
      IsClosed table n
      → (ts : List ℕ) (s : Checker) → All (λ t. t < n) ts
      → Inv s
      → (s' : Checker) × (check_values table n ts s ≡ some s')
        × Inv s'
        × Marked table s' ts
        × ((u : ℕ) → s.checked u ≡ true → s'.checked u ≡ true)
  check_values-Inv closed [] s b i = (s, refl, i, tt, λ u e. e)
  check_values-Inv closed (t ∷ ts) s b i =
      let (s1, e1, g1, m1) =
        check_type-Visits table n closed (suc n) t s b.0 (omega (arith, unmarked-le s.checked n)) in
      let (s2, e2, i2, m2, k2) = check_values-Inv closed ts s1 b.1 (Inv-Grows s s1 i g1) in
      (
        s2,
        ap (λ o. bind table o (check_values table n ts)) e1 ∙ e2,
        i2,
        (k2 t m1.0, m2),
        λ u e. k2 u (g1.keeps u e),
      )

  Part-lt : IsClosed table n → (t u : ℕ) → t < n → Part table t u → u < n
  Part-lt closed t _ h whole = h
  Part-lt closed t v h (below {u} p m) =
      All-Memᴰ (λ w. w < n) (parts (table.kind u)) v (closed u (Part-lt closed t u h p)) m

  sum_marked-ge :
      (c : ℕ → Bool) (m u : ℕ)
      → u < m
      → c u ≡ true
      → type_lower table u ≤ sum_marked (type_lower table) c m
  sum_marked-ge c zero u h e = absurd (omega (arith, h))
  sum_marked-ge c (suc m) u h e = elim (ℕ_discrete u m) [
    | yes p ↦ ground (arith, p, e)
    | no q ↦ omega (arith, sum_marked-ge c m u (omega (arith, h, q)) e)
  ]

  -- The checks of any sequence of types, recursive ones included, end, and then errorCount is the
  -- number of lower-case fields of the types that have been checked, each type counted once.
  pub errors_counted_once :
      (ts : List ℕ)
      → IsClosed table n
      → All (λ t. t < n) ts
      → (s : Checker) × (check_values table n ts fresh_checker ≡ some s)
        × (s.error_count ≡ sum_marked (type_lower table) s.checked n)
  errors_counted_once ts closed b =
      let (s, e, i, m, k) = check_values-Inv closed ts fresh_checker b fresh_checker-Inv in
      (s, e, i.counts)

  -- When a struct with a lower-case field lies anywhere below one of the types of a sequence, the
  -- checks of the sequence end with at least one error counted.
  pub lower_case_found :
      (ts : List ℕ) (t u : ℕ)
      → IsClosed table n
      → All (λ t. t < n) ts
      → Memᴰ t ts
      → Part table t u
      → 0 < type_lower table u
      → (s : Checker) × (check_values table n ts fresh_checker ≡ some s) × (0 < s.error_count)
  lower_case_found ts t u closed b m p h =
      let (s, e, i, marked, keeps) = check_values-Inv closed ts fresh_checker b fresh_checker-Inv in
      let found = Part-marked s t u i (All-Memᴰ (λ w. s.checked w ≡ true) ts t marked m) p in
      let lt = Part-lt closed t u (All-Memᴰ (λ w. w < n) ts t b m) p in
      (s, e, omega (arith, h, i.counts, sum_marked-ge s.checked n u lt found))
