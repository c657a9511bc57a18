-- ===== src/Harness/Links/Loops.antt =====
-- config.go: what the loops over the ends do to the network.
use lab_implementation.Common.{
  ℕ, zero, suc, ◌<◌, ◌≡◌, ◌≢◌, ◌⊎◌, inl, inr, refl, sym, ap, ◌∙◌, Bool, true, false, String,
  update_other, string_discrete, ℕ_discrete, if◌then◌else◌, if_elim, if_pos, arith,
}
use lab_implementation.Labrpc.{Network, enable}
use lab_implementation.Harness.Links.{enable_all}

module _ (b : Bool) (flag : ℕ → Bool) (name : ℕ → String) where
  -- The loop has set an end, or it has left it alone.
  pub record Hit (k : ℕ) (e : String) : Type 0 where
    pub at : ℕ
    pub known : at < k
    pub flagged : flag at ≡ true
    pub named : name at ≡ e

  pub enable_all-ends : (k : ℕ) (net : Network) → (enable_all b flag name k net).ends ≡ net.ends
  enable_all-ends zero net = refl
  enable_all-ends (suc k) net =
      if_elim (λ (x : Network). x.ends ≡ net.ends) (flag k) (enable_all-ends k net)
        (enable_all-ends k net)

  Hit-suc : (k : ℕ) (e : String) → Hit k e → Hit (suc k) e
  Hit-suc k e h = record {
    at = h.at;
    known = omega (arith, h.known);
    flagged = h.flagged;
    named = h.named;
  }

  Missed-suc : (k : ℕ) (e : String) → ¬ Hit k e → (flag k ≡ true → name k ≢ e) → ¬ Hit (suc k) e
  Missed-suc k e m here h = elim (ℕ_discrete h.at k) [
    | yes p ↦ here (ap flag (sym p) ∙ h.flagged) (ap name (sym p) ∙ h.named)
    | no q ↦ m (record {
      at = h.at;
      known = omega (arith, h.known, q);
      flagged = h.flagged;
      named = h.named;
    })
  ]

  -- What the loop does to the end e, given what its first k rounds do.
  abbrev Cases : ℕ → String → Network → Network → Type 0
  Cases k e old new =
      (Hit k e × (new.enabled e ≡ b)) ⊎ ((¬ Hit k e) × (new.enabled e ≡ old.enabled e))

  enable_round :
      (k : ℕ) (e : String) (old new : Network) (f : Bool)
      → flag k ≡ f
      → Cases k e old new
      → Cases (suc k) e old (if f then enable (name k) b new else new)
  enable_round k e old new true on (inl (h, q)) = elim (string_discrete (name k) e) [
    | yes p ↦ inl (Hit-suc k e h, if_pos (string_discrete (name k) e) p b (new.enabled e))
    | no p ↦ inl (Hit-suc k e h, update_other string_discrete new.enabled (name k) b e p ∙ q)
  ]
  enable_round k e old new true on (inr (m, q)) = elim (string_discrete (name k) e) [
    | yes p ↦ inl (
      record { at = k; known = omega arith; flagged = on; named = p },
      if_pos (string_discrete (name k) e) p b (new.enabled e),
    )
    | no p ↦
        inr (Missed-suc k e m (λ _. p), update_other string_discrete new.enabled (name k) b e p ∙ q)
  ]
  enable_round k e old new false off (inl (h, q)) = inl (Hit-suc k e h, q)
  enable_round k e old new false off (inr (m, q)) = inr (Missed-suc k e m (λ on. cc), q)

  pub enable_all-cases :
      (k : ℕ) (net : Network) (e : String)
      → (Hit k e × ((enable_all b flag name k net).enabled e ≡ b))
        ⊎ ((¬ Hit k e) × ((enable_all b flag name k net).enabled e ≡ net.enabled e))
  enable_all-cases zero net e = inr (λ h. omega (arith, h.known), refl)
  enable_all-cases (suc k) net e =
      enable_round k e net (enable_all b flag name k net) (flag k) refl (enable_all-cases k net e)

-- What a loop that switches ends on leaves on, and what a loop that switches ends off leaves on.
module _ (flag : ℕ → Bool) (name : ℕ → String) (k : ℕ) (net : Network) (e : String) where
  pub on_after_on :
      (Hit true flag name k e) ⊎ (net.enabled e ≡ true)
      → (enable_all true flag name k net).enabled e ≡ true
  on_after_on (inl h) = elim (enable_all-cases true flag name k net e) [
    | inl (_, q) ↦ q
    | inr (m, _) ↦ absurd (m h)
  ]
  on_after_on (inr on) = elim (enable_all-cases true flag name k net e) [
    | inl (_, q) ↦ q
    | inr (_, q) ↦ q ∙ on
  ]

  pub on_before_on :
      (enable_all true flag name k net).enabled e ≡ true
      → (Hit true flag name k e) ⊎ (net.enabled e ≡ true)
  on_before_on on = elim (enable_all-cases true flag name k net e) [
    | inl (h, _) ↦ inl h
    | inr (_, q) ↦ inr (sym q ∙ on)
  ]

  pub on_before_off :
      (enable_all false flag name k net).enabled e ≡ true
      → (¬ Hit false flag name k e) × (net.enabled e ≡ true)
  on_before_off on = elim (enable_all-cases false flag name k net e) [
    | inl (_, q) ↦ cc
    | inr (m, q) ↦ (m, sym q ∙ on)
  ]

  pub on_after_off :
      ¬ Hit false flag name k e
      → net.enabled e ≡ true
      → (enable_all false flag name k net).enabled e ≡ true
  on_after_off m on = elim (enable_all-cases false flag name k net e) [
    | inl (h, _) ↦ absurd (m h)
    | inr (_, q) ↦ q ∙ on
  ]
