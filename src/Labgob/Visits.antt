-- ===== src/Labgob/Visits.antt =====
-- labgob.go, checkType: how far one call takes the checker. `n` bounds the table.
use lab_implementation.Common.{
  ℕ, zero, suc, ◌+◌, ◌<◌, ◌≡◌, ◌⊎◌, inl, inr, refl, sym, ap, subst, ◌∙◌, Bool, true, false,
  Bool-cases, Option, some, List, [], ◌∷◌, All, update, update_self, update_other, ℕ_discrete, ◌++◌,
  if◌then◌else◌, arith,
}
use lab_implementation.Labgob.{
  Field, Kind, struct, slice, array, ptr, map_of, other, Table, Checker, mark, complain, bind,
  check_fields, check_kind, check_type,
}
use lab_implementation.Labgob.Marks.{
  field_types, parts, unmarked, sum_marked-update, unmarked-update, lower, kind_lower, type_lower,
  Marked, Grows,
}

pub Marked-mono :
    (table : Table) (s s' : Checker) (ts : List ℕ)
    → ((u : ℕ) → s.checked u ≡ true → s'.checked u ≡ true)
    → Marked table s ts
    → Marked table s' ts
Marked-mono table s s' [] h m = tt
Marked-mono table s s' (t ∷ ts) h m = (h t m.0, Marked-mono table s s' ts h m.1)

update_keeps : (c : ℕ → Bool) (t v : ℕ) → c v ≡ true → update ℕ_discrete c t true v ≡ true
update_keeps c t v e = ground (arith, e)

update-true :
    (c : ℕ → Bool) (t v : ℕ) → update ℕ_discrete c t true v ≡ true → (c v ≡ true) ⊎ (t ≡ v)
update-true c t v e = elim (ℕ_discrete t v) [
  | yes p ↦ inr p
  | no q ↦ inl (sym (update_other ℕ_discrete c t true v q) ∙ e)
]

module _ (table : Table) (n : ℕ) where
  Grows-trans :
      (j k l : ℕ) (s t u : Checker)
      → l ≡ j + k
      → Grows table n j s t
      → Grows table n k t u
      → Grows table n l s u
  Grows-trans j k l s t u e g h = record {
    keeps = λ v e. h.keeps v (g.keeps v e);
    closes = λ v e. elim (h.closes v e) [
      | inr m ↦ inr m
      | inl old ↦ elim (g.closes v old) [
        | inl older ↦ inl older
        | inr m ↦ inr (Marked-mono table t u (parts (table.kind v)) h.keeps m)
      ]
    ];
    counts = omega (arith, e, g.counts, h.counts);
    shrinks = omega (arith, g.shrinks, h.shrinks);
  }

  Grows-refl : (s : Checker) → Grows table n 0 s s
  Grows-refl s = record {
    keeps = λ v e. e;
    closes = λ v e. inl e;
    counts = omega arith;
    shrinks = omega arith;
  }

  report-Grows :
      (upper : Bool) (t : ℕ) (f : Field) (s : Checker)
      → Grows table n (if upper then 0 else 1) s (
          if upper then s else record s {
            error_count = s.error_count + 1;
            printed = s.printed ++ (f.name, t) ∷ [];
          })
  report-Grows true t f s = Grows-refl s
  report-Grows false t f s = record {
    keeps = λ v e. e;
    closes = λ v e. inl e;
    counts = omega arith;
    shrinks = omega arith;
  }

  complain-Grows :
      (t : ℕ) (f : Field) (s : Checker)
      → Grows table n (if table.is_upper f.name then 0 else 1) s (complain table t f s)
  complain-Grows t f s = report-Grows (table.is_upper f.name) t f s

  -- What one call does: it returns, and the type is marked.
  abbrev pub Visits : Option Checker → ℕ → List ℕ → Checker → Type 0
  Visits o k ts s = (s' : Checker) × (o ≡ some s') × Grows table n k s s' × Marked table s' ts

  -- What holds of the calls with less fuel: they visit while fewer than `limit` types are unmarked.
  abbrev AllVisit : (ℕ → Checker → Option Checker) → ℕ → Type 0
  AllVisit call limit =
      (t : ℕ) (s : Checker) → t < n → unmarked s.checked n < limit → Visits (call t s) 0 (t ∷ []) s

  check_fields-Visits :
      (call : ℕ → Checker → Option Checker) (limit : ℕ)
      → AllVisit call limit
      → (t : ℕ) (fs : List Field) (s : Checker) → All (λ u. u < n) (field_types fs)
      → unmarked s.checked n < limit
      → Visits (check_fields table call t fs s) (lower table fs) (field_types fs) s
  check_fields-Visits call limit v t [] s b m = (s, refl, Grows-refl s, tt)
  check_fields-Visits call limit v t (f ∷ fs) s b m =
      let c = complain-Grows t f s in
      let (s1, e1, g1, m1) = v f.type (complain table t f s) b.0 (omega (arith, m, c.shrinks)) in
      let (s2, e2, g2, m2) =
        check_fields-Visits call limit v t fs s1 b.1 (omega (arith, m, c.shrinks, g1.shrinks)) in
      (
        s2,
        ap (λ o. bind table o (check_fields table call t fs)) e1 ∙ e2,
        Grows-trans (if table.is_upper f.name then 0 else 1) (lower table fs) (lower table (f ∷ fs))
            s s1 s2 refl
            (Grows-trans (if table.is_upper f.name then 0 else 1) 0
              (if table.is_upper f.name then 0 else 1) s (complain table t f s) s1 (omega arith) c
              g1)
            g2,
        (g2.keeps f.type m1.0, m2),
      )

  check_kind-Visits :
      (call : ℕ → Checker → Option Checker) (limit : ℕ)
      → AllVisit call limit
      → (t : ℕ) (k : Kind) (s : Checker) → All (λ u. u < n) (parts k)
      → unmarked s.checked n < limit
      → Visits (check_kind table call t k s) (kind_lower table k) (parts k) s
  check_kind-Visits call limit v t (struct fs) s b m = check_fields-Visits call limit v t fs s b m
  check_kind-Visits call limit v t (slice elem) s b m = v elem s b.0 m
  check_kind-Visits call limit v t (array elem) s b m = v elem s b.0 m
  check_kind-Visits call limit v t (ptr elem) s b m = v elem s b.0 m
  check_kind-Visits call limit v t (map_of key elem) s b m =
      let (s1, e1, g1, m1) = v elem s b.0 m in
      let (s2, e2, g2, m2) = v key s1 b.1.0 (omega (arith, m, g1.shrinks)) in
      (
        s2,
        ap (λ o. bind table o (call key)) e1 ∙ e2,
        Grows-trans 0 0 0 s s1 s2 (omega arith) g1 g2,
        (g2.keeps elem m1.0, m2),
      )
  check_kind-Visits call limit v t other s b m = (s, refl, Grows-refl s, tt)

  -- Marking a type and then visiting its parts.
  mark-Grows :
      (t : ℕ) (s s' : Checker)
      → t < n
      → s.checked t ≡ false
      → Grows table n (type_lower table t) (mark t s) s'
      → Marked table s' (parts (table.kind t))
      → Grows table n 0 s s'
  mark-Grows t s s' h e g m = record {
    keeps = λ v f. g.keeps v (update_keeps s.checked t v f);
    closes = λ v f. elim (g.closes v f) [
      | inr closed ↦ inr closed
      | inl old ↦ elim (update-true s.checked t v old) [
        | inl older ↦ inl older
        | inr p ↦ inr (subst (λ w. Marked table s' (parts (table.kind w))) p m)
      ]
    ];
    counts = omega (arith, g.counts, sum_marked-update (type_lower table) s.checked n t h e);
    shrinks = omega (arith, g.shrinks, unmarked-update s.checked n t h e);
  }

  -- With fuel above the number of unmarked types, no call runs out of it.
  pub check_type-Visits :
      ((t : ℕ) → t < n → All (λ u. u < n) (parts (table.kind t)))
      → (fuel t : ℕ) (s : Checker) → t < n
      → unmarked s.checked n < fuel
      → Visits (check_type table fuel t s) 0 (t ∷ []) s
  check_type-Visits closed zero t s h m = absurd (omega (arith, m))
  check_type-Visits closed (suc fuel) t s h m = elim (Bool-cases (s.checked t)) [
    | inl e ↦ (s, switch true e, Grows-refl s, (e, tt))
    | inr e ↦
        let (s', f, g, p) =
          check_kind-Visits (check_type table fuel) fuel (check_type-Visits closed fuel) t
            (table.kind t) (mark t s) (closed t h)
            (omega (arith, m, unmarked-update s.checked n t h e)) in
        (
          s',
          switch false e ∙ f,
          mark-Grows t s s' h e g p,
          (g.keeps t (update_self ℕ_discrete s.checked t true), tt),
        )
  ]
    where
      switch :
          (b : Bool)
          → s.checked t ≡ b
          → check_type table (suc fuel) t s ≡ elim b [
            | true ↦ some s
            | false ↦ check_kind table (check_type table fuel) t (table.kind t) (mark t s)
          ]
      switch b e =
          ap
            (λ b. elim b [
              | true ↦ some s
              | false ↦ check_kind table (check_type table fuel) t (table.kind t) (mark t s)
            ])
            e
