-- ===== src/Harness/Commits/Kept.antt =====
-- config.go, checkLogs and applier: no entry goes away.
use lab_implementation.Common.{
  ℕ, zero, suc, ◌≤◌, ◌<◌, ◌≡◌, inl, inr, sym, ap, ◌∙◌, true, false, not, ◌&&◌, ◌||◌, Bool-cases,
  Option, none, some, Option-cases, List, [], ◌∷◌, update, update_self, update_other, ℕ_discrete,
  ltb, if◌then◌else◌, if_true, if_false, or-eq-false, some-injective, arith,
}
use lab_implementation.Harness.Commits.{
  ApplyMsg, command_msg, other_msg, Logs, prev_ok, conflicts, note_command, apply_msg, go_on,
  apply_all, right_entry,
}
use lab_implementation.Harness.Commits.Agreement.{is_same-eq, conflicts-eq, none-not_some}
use lab_implementation.Harness.Commits.Counting.{holders, is_same_refl}

module _ {C : Type 0} (same : Discrete C) where
  note_command-keeps :
      (n i index : ℕ) (v : C) (s : Logs C) (j k : ℕ) (cmd : C)
      → conflicts same n s.logs index v ≡ false
      → j < n
      → s.logs j k ≡ some cmd
      → (note_command same i v index s).logs j k ≡ some cmd
  note_command-keeps n i index v s j k cmd c l e =
      let log = update ℕ_discrete (s.logs i) index (some v) in
      elim (ℕ_discrete i j) [
        | no q ↦ ap (λ f. f k) (update_other ℕ_discrete s.logs i log j q) ∙ e
        | yes p ↦
            ap (λ x. update ℕ_discrete s.logs i log x k) (sym p)
            ∙ ap (λ f. f k) (update_self ℕ_discrete s.logs i log)
            ∙ elim (ℕ_discrete index k) [
              | no q ↦
                  update_other ℕ_discrete (s.logs i) index (some v) k q ∙ ap (λ x. s.logs x k) p ∙ e
              | yes q ↦
                  ap (update ℕ_discrete (s.logs i) index (some v)) (sym q)
                  ∙ update_self ℕ_discrete (s.logs i) index (some v)
                  ∙ ap some
                      (sym (conflicts-eq same n s.logs index v j cmd c l (ap (s.logs j) q ∙ e)))
            ]
      ]

  apply_msg-keeps :
      (n i : ℕ) (m : ApplyMsg C) (s s' : Logs C) (j k : ℕ) (cmd : C)
      → apply_msg same n i m s ≡ some s'
      → j < n
      → s.logs j k ≡ some cmd
      → s'.logs j k ≡ some cmd
  apply_msg-keeps n i other_msg s s' j k cmd e l h =
      ap (λ (x : Logs C). x.logs j k) (sym (some-injective s s' e)) ∙ h
  apply_msg-keeps n i (command_msg v index) s s' j k cmd e l h =
      let err = conflicts same n s.logs index v in
      let gap = ltb 1 index && not (prev_ok (s.logs i) index) in
      elim (Bool-cases (err || gap)) [
        | inl bad ↦ absurd (none-not_some s' (sym (if_true _ _ bad) ∙ e))
        | inr good ↦
            ap (λ (x : Logs C). x.logs j k)
              (sym (some-injective _ s' (sym (if_false _ _ good) ∙ e)))
            ∙ note_command-keeps n i index v s j k cmd (or-eq-false err gap good).0 l h
      ]

  pub apply_all-keeps :
      (n : ℕ) (ms : List (ℕ × ApplyMsg C)) (s s' : Logs C) (j k : ℕ) (cmd : C)
      → apply_all same n ms s ≡ some s'
      → j < n
      → s.logs j k ≡ some cmd
      → s'.logs j k ≡ some cmd
  apply_all-keeps n [] s s' j k cmd e l h =
      ap (λ (x : Logs C). x.logs j k) (sym (some-injective s s' e)) ∙ h
  apply_all-keeps n ((i, m) ∷ ms) s s' j k cmd e l h =
      elim (Option-cases (apply_msg same n i m s)) [
        | inl f ↦ absurd (none-not_some s' (ap (go_on same (apply_all same n ms)) (sym f) ∙ e))
        | inr (s1, f) ↦
            apply_all-keeps n ms s1 s' j k cmd (ap (go_on same (apply_all same n ms)) (sym f) ∙ e) l
              (apply_msg-keeps n i m s s1 j k cmd f l h)
      ]

  holds_it : (o : Option C) (cmd : C) → right_entry same cmd o ≡ true → o ≡ some cmd
  holds_it none cmd e = cc
  holds_it (some x) cmd e = ap some (is_same-eq same x cmd e)

  one_more :
      (f g : Option C) (cmd : C)
      → (f ≡ some cmd → g ≡ some cmd)
      → (if right_entry same cmd f then 1 else 0) ≤ (if right_entry same cmd g then 1 else 0)
  one_more f g cmd keeps = elim (Bool-cases (right_entry same cmd f)) [
    | inr off ↦ ground (arith, off)
    | inl on ↦
        let there = ap (right_entry same cmd) (keeps (holds_it f cmd on)) ∙ is_same_refl same cmd in
        ground (arith, on, there)
  ]

  -- Servers that keep the entry are counted again.
  pub holders-keep :
      (n : ℕ) (f g : ℕ → ℕ → Option C) (index : ℕ) (cmd : C)
      → ((j : ℕ) → j < n → f j index ≡ some cmd → g j index ≡ some cmd)
      → holders same n f index cmd ≤ holders same n g index cmd
  holders-keep zero f g index cmd keeps = omega arith
  holders-keep (suc n) f g index cmd keeps = omega (
    arith,
    holders-keep n f g index cmd (λ j l. keeps j (omega (arith, l))),
    one_more (f n index) (g n index) cmd (keeps n (omega arith)),
  )
