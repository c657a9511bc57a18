-- ===== src/Harness/Leaders/Sound.antt =====
-- config.go, checkOneLeader: what the server that it returns is.
use mathlib.Core.List.{Memᴰ}
use lab_implementation.Common.{
  ℕ, ◌≤◌, ◌≡◌, inl, inr, refl, sym, ap, subst, ◌∙◌, false, Bool-cases, Option, none, some, List, [],
  ◌∷◌, length, ltb, if_true, if_false, arith,
}
use lab_implementation.Harness.Leaders.{
  Look, LeaderMap, no_leaders, collect, later, last_term, Round, failed, again, found, first_of,
  decide, look_for_leader, try_again, check_one_leader,
}
use lab_implementation.Harness.Leaders.Collect.{Leads, Collected, collect-Collected}

abbrev Bound : Option ℕ → ℕ → Type 0
Bound none t = ⊥
Bound (some last) t = t ≤ last

later-Bound : (term : ℕ) (last : Option ℕ) → Bound (later term last) term
later-Bound term none = omega arith
later-Bound term (some last) = ground arith

later-Bound_old : (term t : ℕ) (last : Option ℕ) → Bound last t → Bound (later term last) t
later-Bound_old term t none h = absurd h
later-Bound_old term t (some last) h = ground (arith, h)

-- What the loop over the map leaves, when it does not fail.
last_term-Bound :
    (of : ℕ → List ℕ) (terms : List ℕ) (last r : Option ℕ)
    → last_term of terms last ≡ some r
    → ((t : ℕ) → Memᴰ t terms → (length (of t) ≤ 1) × Bound r t)
      × ((t : ℕ) → Bound last t → Bound r t)
last_term-Bound of [] last r e = (
  λ t m. elim m [ ],
  λ t h. subst (λ o. Bound o t) (ap (λ o. elim o [ none ↦ last | some x ↦ x ]) e) h,
)
last_term-Bound of (term ∷ terms) last r e = elim (Bool-cases (ltb 1 (length (of term)))) [
  | inl many ↦ absurd (none≢some r (sym (if_true _ _ many) ∙ e))
  | inr few ↦
      let i = last_term-Bound of terms (later term last) r (sym (if_false _ _ few) ∙ e) in
      (λ t m. of_member t m i few, λ t h. i.1 t (later-Bound_old term t last h))
]
  where
    none≢some : (r : Option ℕ) → ◌≡◌ {A = Option (Option ℕ)} none (some r) → ⊥
    none≢some r e = cc

    of_member :
        (t : ℕ)
        → Memᴰ t (term ∷ terms)
        → ((t : ℕ) → Memᴰ t terms → (length (of t) ≤ 1) × Bound r t)
          × ((t : ℕ) → Bound (later term last) t → Bound r t)
        → ltb 1 (length (of term)) ≡ false
        → (length (of t) ≤ 1) × Bound r t
    of_member t (Memᴰ.tail m) i few = i.0 t m
    of_member t (Memᴰ.head p) i few =
        subst (λ t. (length (of t) ≤ 1) × Bound r t) (sym p)
          (ground (arith, few), i.1 term (later-Bound term last))

-- The verdict of one iteration about a server.
pub record IsTheLeader (look : Look) (n i : ℕ) : Type 0 where
  pub term : ℕ
  pub leads : Leads look n term i
  pub alone : (j : ℕ) → Leads look n term j → j ≡ i
  pub newest : (t j : ℕ) → Leads look n t j → t ≤ term

only_one : (l : List ℕ) (i j : ℕ) → length l ≤ 1 → first_of l ≡ found i → Memᴰ j l → j ≡ i
only_one [] i j h e m = elim m [ ]
only_one (x ∷ []) i j h e (Memᴰ.head p) = p ∙ ap (λ r. elim r [ found y ↦ y | _ ↦ x ]) e
only_one (x ∷ []) i j h e (Memᴰ.tail m) = elim m [ ]
only_one (x ∷ y ∷ l) i j h e m = absurd (omega (arith, h))

first_of-Memᴰ : (l : List ℕ) (i : ℕ) → first_of l ≡ found i → Memᴰ i l
first_of-Memᴰ [] i e = cc
first_of-Memᴰ (x ∷ l) i e = Memᴰ.head (sym (ap (λ r. elim r [ found y ↦ y | _ ↦ x ]) e))

decide-IsTheLeader :
    (look : Look) (n i : ℕ) (m : LeaderMap) (o : Option (Option ℕ))
    → Collected look n m
    → last_term m.of m.terms none ≡ o
    → decide m o ≡ found i
    → IsTheLeader look n i
decide-IsTheLeader look n i m none c e d = cc
decide-IsTheLeader look n i m (some none) c e d = cc
decide-IsTheLeader look n i m (some (some last)) c e d =
    let b = last_term-Bound m.of m.terms none (some last) e in
    let here = first_of-Memᴰ (m.of last) i d in
    record {
      term = last;
      leads = c.sound last i here;
      alone =
          λ j l. only_one (m.of last) i j (b.0 last (c.keys last i here)).0 d (c.complete last j l);
      newest = λ t j l. (b.0 t (c.keys t j (c.complete t j l))).1;
    }

no_leaders-Collected : (look : Look) → Collected look 0 no_leaders
no_leaders-Collected look = record {
  sound = λ t j h. elim h [ ];
  complete = λ t j l. absurd (omega (arith, l.known));
  keys = λ t j h. elim h [ ];
}

by_round :
    (n i : ℕ) (look : Look) (looks : List Look) (r : Round)
    → (check_one_leader n looks ≡ some i → (l : Look) × Memᴰ l looks × IsTheLeader l n i)
    → look_for_leader n look ≡ r
    → try_again r (check_one_leader n looks) ≡ some i
    → (l : Look) × Memᴰ l (look ∷ looks) × IsTheLeader l n i
by_round n i look looks failed ih f g = cc
by_round n i look looks again ih f g = let (l, h, k) = ih g in (l, Memᴰ.tail h, k)
by_round n i look looks (found j) ih f g =
    let m = collect look n 0 no_leaders in
    (
      look,
      Memᴰ.head refl,
      decide-IsTheLeader look n i m (last_term m.of m.terms none)
          (collect-Collected look n 0 n no_leaders (omega arith) (no_leaders-Collected look)) refl
          (f ∙ ap found (ap (λ o. elim o [ none ↦ j | some y ↦ y ]) g)),
    )

-- When checkOneLeader returns a server, then in one of its iterations that server is connected and
-- claims to lead in some term, no other connected server claims to lead in that term, and none
-- claims to lead in a later one.
pub check_one_leader-IsTheLeader :
    (n i : ℕ) (looks : List Look)
    → check_one_leader n looks ≡ some i
    → (look : Look) × Memᴰ look looks × IsTheLeader look n i
check_one_leader-IsTheLeader n i [] e = cc
check_one_leader-IsTheLeader n i (look ∷ looks) e =
    by_round n i look looks (look_for_leader n look) (check_one_leader-IsTheLeader n i looks) refl e
