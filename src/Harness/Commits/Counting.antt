-- ===== src/Harness/Commits/Counting.antt =====
-- config.go, nCommitted and one: how many servers hold an entry.
use mathlib.Core.List.{Memᴰ}
use lab_implementation.Common.{
  ℕ, zero, suc, ◌+◌, ◌≤◌, ◌<◌, ◌≡◌, inl, inr, refl, sym, ap, subst, ◌∙◌, Bool, true, false, not,
  ◌&&◌, Bool-cases, Option, none, some, Option-cases, List, [], ◌∷◌, ltb, leb, if◌then◌else◌,
  if_true, if_false, and-eq-true, some-injective, ℕ_discrete, arith,
}
use lab_implementation.Harness.Commits.{
  Look, read_logs, is_same, count_entry, count_from, n_committed, right_entry, on_poll, agreed,
  poll_all,
}
use lab_implementation.Harness.Commits.Agreement.{is_same-eq, none-not_some}

positive_same : (n : ℕ) (b : Bool) → 0 < n → (ltb 0 n && not b) ≡ false → b ≡ true
positive_same n true h e = refl
positive_same n false h e = ground (arith, h, e)

never : (a b : Bool) → (a && (b && false)) ≡ false
never true true = refl
never true false = refl
never false b = refl

module _ {C : Type 0} (same : Discrete C) where
  -- The servers among the first n that hold the command at the index.
  abbrev pub holders : ℕ → (ℕ → ℕ → Option C) → ℕ → C → ℕ
  holders zero logs index cmd = 0
  holders (suc n) logs index cmd =
      holders n logs index cmd + (if right_entry same cmd (logs n index) then 1 else 0)

  -- What the loop of nCommitted holds after the first i servers.
  abbrev Counted : (ℕ → ℕ → Option C) → ℕ → ℕ → ℕ × Option C → Type 0
  Counted logs index i (count, none) = (count ≡ 0) × ((j : ℕ) → j < i → logs j index ≡ none)
  Counted logs index i (count, some cmd) = (0 < count) × (count ≡ holders i logs index cmd)

  pub is_same_refl : (a : C) → is_same same a a ≡ true
  is_same_refl a = elim (same a a) as (λ d. elim d [ yes _ ↦ true | no _ ↦ false ] ≡ true) [
    | yes _ ↦ refl
    | no n ↦ absurd (n refl)
  ]

  -- One more server, whose entry is known.
  holders-suc :
      (logs : ℕ → ℕ → Option C) (index : ℕ) (cmd : C) (i : ℕ) (o : Option C)
      → logs i index ≡ o
      → holders (suc i) logs index cmd
        ≡ holders i logs index cmd + (if right_entry same cmd o then 1 else 0)
  holders-suc logs index cmd i o f =
      λ t. holders i logs index cmd + (if right_entry same cmd (f t) then 1 else 0)

  holders-none :
      (logs : ℕ → ℕ → Option C) (index : ℕ) (cmd : C) (i : ℕ)
      → ((j : ℕ) → j < i → logs j index ≡ none)
      → holders i logs index cmd ≡ 0
  holders-none logs index cmd zero h = refl
  holders-none logs index cmd (suc i) h = omega (
    arith,
    holders-none logs index cmd i (λ j l. h j (omega (arith, l))),
    holders-suc logs index cmd i none (h i (omega arith)),
  )

  count_entry-Counted :
      (logs : ℕ → ℕ → Option C) (index i : ℕ) (o : Option C) (acc r : ℕ × Option C)
      → logs i index ≡ o
      → Counted logs index i acc
      → count_entry same o acc ≡ some r
      → Counted logs index (suc i) r
  count_entry-Counted logs index i none (count, none) r f c e =
      subst (Counted logs index (suc i)) (some-injective (count, none) r e) (
        c.0,
        λ j h. elim (ℕ_discrete j i) [
          | yes p ↦ ap (λ j. logs j index) p ∙ f
          | no n ↦ c.1 j (omega (arith, h, n))
        ],
      )
  count_entry-Counted logs index i none (count, some cmd) r f c e =
      subst (Counted logs index (suc i)) (some-injective (count, some cmd) r e)
        (c.0, omega (arith, c.1, holders-suc logs index cmd i none f))
  count_entry-Counted logs index i (some x) (count, none) r f c e =
      elim (Bool-cases (ltb 0 count)) [
        | inl t ↦ absurd (none-not_some r (sym (if_true _ _ t) ∙ e))
        | inr g ↦
            subst (Counted logs index (suc i))
              (some-injective (count + 1, some x) r (sym (if_false _ _ g) ∙ e))
              (
                omega arith,
                omega (
                  arith,
                  c.0,
                  holders-none logs index x i c.1,
                  holders-suc logs index x i (some x) f
                      ∙ ap (λ b. holders i logs index x + (if b then 1 else 0)) (is_same_refl x),
                ),
              )
      ]
  count_entry-Counted logs index i (some x) (count, some cmd) r f c e =
      elim (Bool-cases (ltb 0 count && not (is_same same cmd x))) [
        | inl t ↦ absurd (none-not_some r (sym (if_true _ _ t) ∙ e))
        | inr g ↦
            let eq = is_same-eq same cmd x (positive_same count (is_same same cmd x) c.0 g) in
            subst (Counted logs index (suc i))
              (some-injective (count + 1, some x) r (sym (if_false _ _ g) ∙ e))
              (
                omega arith,
                omega (
                  arith,
                  c.1,
                  ap (holders i logs index) eq,
                  holders-suc logs index x i (some x) f
                      ∙ ap (λ b. holders i logs index x + (if b then 1 else 0)) (is_same_refl x),
                ),
              )
      ]

  count_from-none :
      (logs : ℕ → ℕ → Option C) (index k i : ℕ) (r : ℕ × Option C)
      → count_from same logs index k i none ≡ some r
      → ⊥
  count_from-none logs index zero i r e = none-not_some r e
  count_from-none logs index (suc k) i r e = none-not_some r e

  count_from-Counted :
      (logs : ℕ → ℕ → Option C) (index k i n : ℕ) (acc r : ℕ × Option C)
      → i + k ≡ n
      → Counted logs index i acc
      → count_from same logs index k i (some acc) ≡ some r
      → Counted logs index n r
  count_from-Counted logs index zero i n acc r h c e =
      subst (λ i. Counted logs index i r) (omega (arith, h))
        (subst (Counted logs index i) (some-injective acc r e) c)
  count_from-Counted logs index (suc k) i n acc r h c e =
      elim (Option-cases (count_entry same (logs i index) acc)) [
        | inl f ↦ absurd (
            count_from-none logs index k (suc i) r
              (ap (count_from same logs index k (suc i)) (sym f) ∙ e))
        | inr (next, f) ↦
            count_from-Counted logs index k (suc i) n next r (omega (arith, h))
              (count_entry-Counted logs index i (logs i index) acc next refl c f)
              (ap (count_from same logs index k (suc i)) (sym f) ∙ e)
      ]

  n_committed-holders :
      (n index : ℕ) (s : Look C) (nd : ℕ) (cmd : C)
      → n_committed same n index s ≡ some (nd, some cmd)
      → nd ≡ holders n (read_logs s) index cmd
  n_committed-holders n index s nd cmd e =
      (count_from-Counted (read_logs s) index n 0 n (0, none) (nd, some cmd) (omega arith)
        (refl, λ j h. absurd (omega (arith, h))) e).1

  by_count :
      (n index expected : ℕ) (cmd : C) (s : Look C) (ss : List (Look C)) (o : Option (ℕ × Option C))
      → n_committed same n index s ≡ o
      → (poll_all same n index expected cmd ss ≡ agreed
          → (t : Look C) × Memᴰ t ss × (expected ≤ holders n (read_logs t) index cmd))
      → on_poll same expected cmd o (poll_all same n index expected cmd ss) ≡ agreed
      → (t : Look C) × Memᴰ t (s ∷ ss) × (expected ≤ holders n (read_logs t) index cmd)
  by_count n index expected cmd s ss none f ih e = cc
  by_count n index expected cmd s ss (some (nd, none)) f ih e =
      let (t, m, h) = ih (sym (if_false _ _ (never (ltb 0 nd) (leb expected nd))) ∙ e) in
      (t, Memᴰ.tail m, h)
  by_count n index expected cmd s ss (some (nd, some x)) f ih e =
      elim (Bool-cases (ltb 0 nd && (leb expected nd && is_same same x cmd))) [
        | inr g ↦ let (t, m, h) = ih (sym (if_false _ _ g) ∙ e) in (t, Memᴰ.tail m, h)
        | inl g ↦
            let (_, g1) = and-eq-true (ltb 0 nd) (leb expected nd && is_same same x cmd) g in
            let (enough, right) = and-eq-true (leb expected nd) (is_same same x cmd) g1 in
            let count =
              n_committed-holders n index s nd x f
              ∙ ap (holders n (read_logs s) index) (is_same-eq same x cmd right) in
            (s, Memᴰ.head refl, ground (arith, count, enough))
      ]

  -- A poll that agrees has seen enough holders.
  pub poll_all-holders :
      (n index expected : ℕ) (cmd : C) (ss : List (Look C))
      → poll_all same n index expected cmd ss ≡ agreed
      → (s : Look C) × Memᴰ s ss × (expected ≤ holders n (read_logs s) index cmd)
  poll_all-holders n index expected cmd [] e = cc
  poll_all-holders n index expected cmd (s ∷ ss) e =
      by_count n index expected cmd s ss (n_committed same n index s) refl
        (poll_all-holders n index expected cmd ss) e
