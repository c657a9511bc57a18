-- ===== src/Harness/Leaders/Terms.antt =====
-- config.go, checkTerms and checkNoLeader: what holds when they return.
use mathlib.Core.Bool.{false≢true}
use lab_implementation.Common.{
  ℕ, zero, suc, ◌+◌, ◌≤◌, ◌<◌, ◌≡◌, inl, inr, sym, ap, subst, ◌∙◌, true, ◌&&◌, Bool-cases,
  Option-cases, Option, none, some, if_true, if_false, arith, ℕ_discrete,
}
use lab_implementation.Raft.{get_state}
use lab_implementation.Harness.Leaders.{
  Look, same_term, check_term, check_terms_from, check_terms, check_no_leader_from, check_no_leader,
}
use lab_implementation.Harness.Leaders.Collect.{Leads}

-- The term that the loop holds is kept to its end.
same_term-some : (o : Option ℕ) (x : ℕ) (r : Option ℕ) → same_term o x ≡ some r → r ≡ some x
same_term-some none x r e = ground (arith, e)
same_term-some (some t) x r e = ground (arith, e)

same_term-kept : (t x : ℕ) (r : Option ℕ) → same_term (some t) x ≡ some r → r ≡ some t
same_term-kept t x r e = ground (arith, e)

check_terms_from-none :
    (look : Look) (k i : ℕ) (r : Option ℕ) → check_terms_from look k i none ≡ some r → ⊥
check_terms_from-none look zero i r e = cc
check_terms_from-none look (suc k) i r e = cc

check_term-kept :
    (look : Look) (i t : ℕ) (q : Option ℕ) → check_term look i (some t) ≡ some q → q ≡ some t
unfolding get_state
check_term-kept look i t q e = elim (Bool-cases (look.connected i)) [
  | inl on ↦ same_term-kept t (get_state (look.rafts i)).0 q (sym (if_true _ _ on) ∙ e)
  | inr off ↦ sym (ap (λ o. elim o [ none ↦ q | some y ↦ y ]) (sym (if_false _ _ off) ∙ e))
]

check_terms_from-kept :
    (look : Look) (k i t : ℕ) (r : Option ℕ)
    → check_terms_from look k i (some (some t)) ≡ some r
    → r ≡ some t
check_terms_from-kept look zero i t r e = sym (ap (λ o. elim o [ none ↦ r | some y ↦ y ]) e)
check_terms_from-kept look (suc k) i t r e = elim (Option-cases (check_term look i (some t))) [
  | inl f ↦
      absurd
        (check_terms_from-none look k (i + 1) r (ap (check_terms_from look k (i + 1)) (sym f) ∙ e))
  | inr (q, f) ↦ check_terms_from-kept look k (i + 1) t r (
      ap (check_terms_from look k (i + 1)) (ap some (sym (check_term-kept look i t q f)) ∙ sym f)
      ∙ e)
]

check_terms_from-agree :
    (look : Look) (k i : ℕ) (o r : Option ℕ) (j : ℕ)
    → check_terms_from look k i (some o) ≡ some r
    → i ≤ j
    → j < i + k
    → look.connected j ≡ true
    → r ≡ some (get_state (look.rafts j)).0
unfolding get_state
check_terms_from-agree look zero i o r j e l h on = absurd (omega (arith, l, h))
check_terms_from-agree look (suc k) i o r j e l h on = elim (Option-cases (check_term look i o)) [
  | inl f ↦
      absurd
        (check_terms_from-none look k (i + 1) r (ap (check_terms_from look k (i + 1)) (sym f) ∙ e))
  | inr (q, f) ↦
      let rest = ap (check_terms_from look k (i + 1)) (sym f) ∙ e in
      elim (ℕ_discrete j i) [
        | no n ↦
            check_terms_from-agree look k (i + 1) q r j rest (omega (arith, l, n))
              (omega (arith, h)) on
        | yes p ↦
            let x = (get_state (look.rafts i)).0 in
            let here = subst (λ j. look.connected j ≡ true) p on in
            let q_is = same_term-some o x q (sym (if_true _ _ here) ∙ f) in
            check_terms_from-kept look k (i + 1) x r
              (ap (λ q. check_terms_from look k (i + 1) (some q)) (sym q_is) ∙ rest)
            ∙ ap (λ j. some (get_state (look.rafts j)).0) (sym p)
      ]
]

-- When checkTerms returns, every connected server has the term that it returns.
pub check_terms-agree :
    (n : ℕ) (look : Look) (r : Option ℕ) (j : ℕ)
    → check_terms n look ≡ some r
    → j < n
    → look.connected j ≡ true
    → r ≡ some (get_state (look.rafts j)).0
check_terms-agree n look r j e h on =
    check_terms_from-agree look n 0 none r j e (omega arith) (omega (arith, h)) on

check_no_leader_from-Leads :
    (look : Look) (k i t j : ℕ)
    → check_no_leader_from look k i ≡ true
    → i ≤ j
    → Leads look (i + k) t j
    → ⊥
unfolding get_state
check_no_leader_from-Leads look zero i t j e l h = absurd (omega (arith, l, h.known))
check_no_leader_from-Leads look (suc k) i t j e l h =
    elim (Bool-cases (look.connected i && (get_state (look.rafts i)).1)) [
      | inl leads ↦ false≢true (sym (if_true _ _ leads) ∙ e)
      | inr follows ↦ elim (ℕ_discrete j i) [
        | no n ↦
            check_no_leader_from-Leads look k (i + 1) t j (sym (if_false _ _ follows) ∙ e)
              (omega (arith, l, n))
              (record { known = omega (arith, h.known); on = h.on; claims = h.claims })
        | yes p ↦ false≢true (
            sym follows
            ∙ (ap (λ j. look.connected j && (get_state (look.rafts j)).1) (sym p) ∙ λ x.
                h.on x && (h.claims x).1))
      ]
    ]

-- When checkNoLeader returns, no connected server claims to lead, in whatever term.
pub check_no_leader-Leads :
    (n : ℕ) (look : Look) (t j : ℕ) → check_no_leader n look ≡ true → ¬ Leads look n t j
check_no_leader-Leads n look t j e h =
    check_no_leader_from-Leads look n 0 t j e (omega arith)
      (record { known = omega (arith, h.known); on = h.on; claims = h.claims })
