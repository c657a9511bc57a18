-- ===== src/Harness/Leaders/Collect.antt =====
-- config.go, checkOneLeader: the map of the leaders.
use mathlib.Core.List.{Memᴰ}
use mathlib.Core.Bool.{false≢true}
use lab_implementation.Common.{
  ℕ, zero, suc, ◌+◌, ◌<◌, ◌≡◌, ◌⊎◌, inl, inr, refl, sym, ap, subst, ◌∙◌, true, ◌&&◌, Bool-cases,
  List, [], ◌∷◌, ◌++◌, update_self, update_other, ℕ_discrete, if_true, if_false, arith,
}
use lab_implementation.Raft.{get_state}
use lab_implementation.Harness.Leaders.{Look, LeaderMap, add_key, add_leader, note_server, collect}

-- Server j, one of the first n, is connected and claims to lead in a term.
pub record Leads (look : Look) (n term j : ℕ) : Type 0 where
  pub known : j < n
  pub on : look.connected j ≡ true
  pub claims : get_state (look.rafts j) ≡ (term, true)

Memᴰ-append_left : (j : ℕ) (xs ys : List ℕ) → Memᴰ j xs → Memᴰ j (xs ++ ys)
Memᴰ-append_left j [] ys m = elim m [ ]
Memᴰ-append_left j (x ∷ xs) ys (Memᴰ.head e) = Memᴰ.head e
Memᴰ-append_left j (x ∷ xs) ys (Memᴰ.tail m) = Memᴰ.tail (Memᴰ-append_left j xs ys m)

Memᴰ-append_last : (j : ℕ) (xs : List ℕ) → Memᴰ j (xs ++ j ∷ [])
Memᴰ-append_last j [] = Memᴰ.head refl
Memᴰ-append_last j (x ∷ xs) = Memᴰ.tail (Memᴰ-append_last j xs)

Memᴰ-of_append_last : (j i : ℕ) (xs : List ℕ) → Memᴰ j (xs ++ i ∷ []) → Memᴰ j xs ⊎ (j ≡ i)
Memᴰ-of_append_last j i [] (Memᴰ.head e) = inr e
Memᴰ-of_append_last j i [] (Memᴰ.tail m) = elim m [ ]
Memᴰ-of_append_last j i (x ∷ xs) (Memᴰ.head e) = inl (Memᴰ.head e)
Memᴰ-of_append_last j i (x ∷ xs) (Memᴰ.tail m) = elim (Memᴰ-of_append_last j i xs m) [
  | inl k ↦ inl (Memᴰ.tail k)
  | inr e ↦ inr e
]

-- The map after the first b servers.
pub record Collected (look : Look) (b : ℕ) (m : LeaderMap) : Type 0 where
  pub sound : (t j : ℕ) → Memᴰ j (m.of t) → Leads look b t j
  pub complete : (t j : ℕ) → Leads look b t j → Memᴰ j (m.of t)
  pub keys : (t j : ℕ) → Memᴰ j (m.of t) → Memᴰ t m.terms

add_key-old : (t term : ℕ) (l terms : List ℕ) → Memᴰ t terms → Memᴰ t (add_key term l terms)
add_key-old t term [] terms h = Memᴰ-append_left t terms (term ∷ []) h
add_key-old t term (_ ∷ _) terms h = h

Leads-suc : (look : Look) (b t j : ℕ) → Leads look b t j → Leads look (b + 1) t j
Leads-suc look b t j l = record { known = omega (arith, l.known); on = l.on; claims = l.claims }

-- A server beyond the first b that stands among the first b + 1 is the server b.
Leads-cases : (look : Look) (b t j : ℕ) → Leads look (b + 1) t j → Leads look b t j ⊎ (j ≡ b)
Leads-cases look b t j l = elim (ℕ_discrete j b) [
  | yes e ↦ inr e
  | no n ↦ inl (record { known = omega (arith, l.known, n); on = l.on; claims = l.claims })
]

module _ (look : Look) (b term : ℕ) (m : LeaderMap) (c : Collected look b m) where
  add-old : (t j : ℕ) → Memᴰ j (m.of t) → Memᴰ j ((add_leader term b m).of t)
  add-old t j h = elim (ℕ_discrete term t) [
    | yes p ↦
        subst (λ t. Memᴰ j ((add_leader term b m).of t)) p
          (subst (Memᴰ j) (sym (update_self ℕ_discrete m.of term (m.of term ++ b ∷ [])))
            (Memᴰ-append_left j (m.of term) (b ∷ []) (subst (λ t. Memᴰ j (m.of t)) (sym p) h)))
    | no q ↦ subst (Memᴰ j) (sym (update_other ℕ_discrete m.of term (m.of term ++ b ∷ []) t q)) h
  ]

  add-cases :
      (t j : ℕ) → Memᴰ j ((add_leader term b m).of t) → Memᴰ j (m.of t) ⊎ ((term ≡ t) × (j ≡ b))
  add-cases t j h = elim (ℕ_discrete term t) [
    | no q ↦ inl (subst (Memᴰ j) (update_other ℕ_discrete m.of term (m.of term ++ b ∷ []) t q) h)
    | yes p ↦
        elim (Memᴰ-of_append_last j b (m.of term) (
          subst (Memᴰ j) (update_self ℕ_discrete m.of term (m.of term ++ b ∷ []))
            (subst (λ t. Memᴰ j ((add_leader term b m).of t)) (sym p) h))) [
              | inl k ↦ inl (subst (λ t. Memᴰ j (m.of t)) p k)
              | inr e ↦ inr (p, e)
            ]
  ]

  add_key-new :
      (l : List ℕ) → ((j : ℕ) → Memᴰ j l → Memᴰ term m.terms) → Memᴰ term (add_key term l m.terms)
  add_key-new [] h = Memᴰ-append_last term m.terms
  add_key-new (x ∷ l) h = h x (Memᴰ.head refl)

  Collected-add :
      look.connected b ≡ true
      → get_state (look.rafts b) ≡ (term, true)
      → Collected look (b + 1) (add_leader term b m)
  Collected-add on claims = record {
    sound = λ t j h. elim (add-cases t j h) [
      | inl k ↦ Leads-suc look b t j (c.sound t j k)
      | inr (p, e) ↦
          subst (λ x. Leads look (b + 1) t x) (sym e)
            (record {
              known = omega arith;
              on = on;
              claims = subst (λ t. get_state (look.rafts b) ≡ (t, true)) p claims;
            })
    ];
    complete = λ t j l. elim (Leads-cases look b t j l) [
      | inl k ↦ add-old t j (c.complete t j k)
      | inr e ↦
          subst (λ x. Memᴰ x ((add_leader term b m).of t)) (sym e)
            (subst (λ t. Memᴰ b ((add_leader term b m).of t))
              (ap (λ x. x.0) (sym claims)
                ∙ ap (λ x. x.0) (subst (λ x. get_state (look.rafts x) ≡ (t, true)) e l.claims))
              (subst (Memᴰ b) (sym (update_self ℕ_discrete m.of term (m.of term ++ b ∷ [])))
                (Memᴰ-append_last b (m.of term))))
    ];
    keys = λ t j h. elim (add-cases t j h) [
      | inl k ↦ add_key-old t term (m.of term) m.terms (c.keys t j k)
      | inr (p, e) ↦
          subst (λ t. Memᴰ t (add_key term (m.of term) m.terms)) p
            (add_key-new (m.of term) (c.keys term))
    ];
  }

  Collected-skip : ((t : ℕ) → Leads look (b + 1) t b → ⊥) → Collected look (b + 1) m
  Collected-skip none_here = record {
    sound = λ t j h. Leads-suc look b t j (c.sound t j h);
    complete = λ t j l. elim (Leads-cases look b t j l) [
      | inl k ↦ c.complete t j k
      | inr e ↦ absurd (none_here t (subst (λ x. Leads look (b + 1) t x) e l))
    ];
    keys = c.keys;
  }

note_server-Collected :
    (look : Look) (b : ℕ) (m : LeaderMap)
    → Collected look b m
    → Collected look (b + 1) (note_server look b m)
unfolding get_state
note_server-Collected look b m c =
    elim (Bool-cases (look.connected b && (get_state (look.rafts b)).1)) [
      | inl t ↦ subst (Collected look (b + 1)) (sym (if_true _ _ t)) (
          Collected-add look b (look.rafts b).current_term m c (ground (arith, t))
            (ground (arith, t)))
      | inr f ↦
          subst (Collected look (b + 1)) (sym (if_false _ _ f)) (
            Collected-skip look b 0 m c (λ t l. false≢true (sym f ∙ λ i. l.on i && (l.claims i).1)))
    ]

pub collect-Collected :
    (look : Look) (k b n : ℕ) (m : LeaderMap)
    → b + k ≡ n
    → Collected look b m
    → Collected look n (collect look k b m)
collect-Collected look zero b n m e c = subst (λ x. Collected look x m) (omega (arith, e)) c
collect-Collected look (suc k) b n m e c =
    collect-Collected look k (b + 1) n (note_server look b m) (omega (arith, e))
      (note_server-Collected look b m c)
