-- ===== src/Harness/Commits/Agreement.antt =====
-- config.go, checkLogs and applier: what the logs are as long as no error has been reported.
use lab_implementation.Common.{
  ℕ, zero, suc, ◌≤◌, ◌<◌, ◌≡◌, ◌⊎◌, inl, inr, refl, sym, ap, subst, ◌∙◌, Bool, true, false, not,
  ◌&&◌, ◌||◌, Bool-cases, Option, none, some, Option-cases, List, [], ◌∷◌, update, update_self,
  update_other, ℕ_discrete, ltb, if_true, if_false, or-eq-false, not-eq-false, some-injective,
  arith,
}
use lab_implementation.Harness.Commits.{
  ApplyMsg, command_msg, other_msg, Logs, no_logs, has, prev_ok, is_same, differs, conflicts,
  note_command, apply_msg, go_on, apply_all,
}

above_one : (k : ℕ) (b : Bool) → (ltb 1 (suc (suc k)) && not b) ≡ false → b ≡ true
above_one k true e = refl
above_one k false e = ground (arith, e)

pub none-not_some : {A : Type 0} (a : A) → none ≡ some a → ⊥
none-not_some a e = cc

module _ {C : Type 0} (same : Discrete C) where
  pub is_same-eq : (a b : C) → is_same same a b ≡ true → a ≡ b
  is_same-eq a b h =
      elim (same a b) as (λ d. elim d [ yes _ ↦ true | no _ ↦ false ] ≡ true → a ≡ b) [
        | yes e ↦ λ _. e
        | no _ ↦ λ f. cc
      ]
        h

  -- Without a conflict every entry at the index is the command.
  pub conflicts-eq :
      (n : ℕ) (logs : ℕ → ℕ → Option C) (index : ℕ) (v : C) (j : ℕ) (w : C)
      → conflicts same n logs index v ≡ false
      → j < n
      → logs j index ≡ some w
      → w ≡ v
  conflicts-eq zero logs index v j w c h e = absurd (omega (arith, h))
  conflicts-eq (suc n) logs index v j w c h e =
      let (before, here) =
        or-eq-false (conflicts same n logs index v) (differs same (logs n index) v) c in
      elim (ℕ_discrete j n) [
        | no q ↦ conflicts-eq n logs index v j w before (omega (arith, h, q)) e
        | yes p ↦ is_same-eq w v (
            not-eq-false (is_same same w v)
              (ap (λ o. differs same o v) (sym e ∙ ap (λ j. logs j index) p) ∙ here))
      ]

  -- The logs agree at every index, and have no gaps.
  pub record Inv (n : ℕ) (s : Logs C) : Type 0 where
    pub agree :
        (i j index : ℕ) (v w : C)
        → i < n
        → j < n
        → s.logs i index ≡ some v
        → s.logs j index ≡ some w
        → v ≡ w
    pub no_gap :
        (i index : ℕ) (v : C)
        → s.logs i (suc (suc index)) ≡ some v
        → has (s.logs i (suc index)) ≡ true
    pub below_max : (i index : ℕ) (v : C) → s.logs i index ≡ some v → index ≤ s.max_index

  -- An entry after a new one is the new one or an old one.
  note_command-cases :
      (i index : ℕ) (v : C) (s : Logs C) (j k : ℕ) (w : C)
      → (note_command same i v index s).logs j k ≡ some w
      → (s.logs j k ≡ some w) ⊎ ((i ≡ j) × (index ≡ k) × (v ≡ w))
  note_command-cases i index v s j k w e =
      let log = update ℕ_discrete (s.logs i) index (some v) in
      elim (ℕ_discrete i j) [
        | no n ↦ inl (ap (λ l. l k) (sym (update_other ℕ_discrete s.logs i log j n)) ∙ e)
        | yes p ↦
            let here =
              ap (λ l. l k) (sym (update_self ℕ_discrete s.logs i log))
              ∙ (ap (λ j. update ℕ_discrete s.logs i log j k) p ∙ e) in
            elim (ℕ_discrete index k) [
              | no n ↦ inl (
                  ap (λ j. s.logs j k) (sym p)
                  ∙ (sym (update_other ℕ_discrete (s.logs i) index (some v) k n) ∙ here))
              | yes q ↦ inr (
                p,
                q,
                some-injective v w (
                    sym (update_self ℕ_discrete (s.logs i) index (some v))
                    ∙ (ap (update ℕ_discrete (s.logs i) index (some v)) q ∙ here)),
              )
            ]
      ]

  -- What was there stays there.
  note_command-has :
      (i index : ℕ) (v : C) (s : Logs C) (j k : ℕ)
      → has (s.logs j k) ≡ true
      → has ((note_command same i v index s).logs j k) ≡ true
  note_command-has i index v s j k h = ground (arith, h)

  note_command-Inv :
      (n i index : ℕ) (v : C) (s : Logs C)
      → Inv n s
      → conflicts same n s.logs index v ≡ false
      → (ltb 1 index && not (prev_ok (s.logs i) index)) ≡ false
      → Inv n (note_command same i v index s)
  note_command-Inv n i index v s inv c p = record {
    agree = λ a b k x y la lb ea eb. elim (note_command-cases i index v s a k x ea) [
      | inl old ↦ elim (note_command-cases i index v s b k y eb) [
        | inl old' ↦ inv.agree a b k x y la lb old old'
        | inr (_, q, f) ↦ conflicts-eq n s.logs index v a x c la (ap (s.logs a) q ∙ old) ∙ f
      ]
      | inr (_, q, f) ↦ elim (note_command-cases i index v s b k y eb) [
        | inl old' ↦ sym f ∙ sym (conflicts-eq n s.logs index v b y c lb (ap (s.logs b) q ∙ old'))
        | inr (_, _, g) ↦ sym f ∙ g
      ]
    ];
    no_gap = λ j k x e. elim (note_command-cases i index v s j (suc (suc k)) x e) [
      | inl old ↦ note_command-has i index v s j (suc k) (inv.no_gap j k x old)
      | inr (pi, q, _) ↦ note_command-has i index v s j (suc k) (
          subst (λ j. has (s.logs j (suc k)) ≡ true) pi
            (above_one k (has (s.logs i (suc k)))
              (subst (λ m. (ltb 1 m && not (prev_ok (s.logs i) m)) ≡ false) q p)))
    ];
    below_max = λ j k x e. elim (note_command-cases i index v s j k x e) [
      | inl old ↦ ground (arith, inv.below_max j k x old)
      | inr (_, q, _) ↦ ground (arith, q)
    ];
  }

  apply_msg-Inv :
      (n i : ℕ) (m : ApplyMsg C) (s s' : Logs C)
      → Inv n s
      → apply_msg same n i m s ≡ some s'
      → Inv n s'
  apply_msg-Inv n i other_msg s s' inv e = subst (Inv n) (some-injective s s' e) inv
  apply_msg-Inv n i (command_msg v index) s s' inv e =
      let err = conflicts same n s.logs index v in
      let gap = ltb 1 index && not (prev_ok (s.logs i) index) in
      elim (Bool-cases (err || gap)) [
        | inl bad ↦ absurd (none-not_some s' (sym (if_true _ _ bad) ∙ e))
        | inr good ↦
            let (c, g) = or-eq-false err gap good in
            subst (Inv n) (some-injective _ s' (sym (if_false _ _ good) ∙ e))
              (note_command-Inv n i index v s inv c g)
      ]

  apply_all-Inv :
      (n : ℕ) (ms : List (ℕ × ApplyMsg C)) (s s' : Logs C)
      → Inv n s
      → apply_all same n ms s ≡ some s'
      → Inv n s'
  apply_all-Inv n [] s s' inv e = subst (Inv n) (some-injective s s' e) inv
  apply_all-Inv n ((i, m) ∷ ms) s s' inv e = elim (Option-cases (apply_msg same n i m s)) [
    | inl f ↦ absurd (none-not_some s' (ap (go_on same (apply_all same n ms)) (sym f) ∙ e))
    | inr (s1, f) ↦
        apply_all-Inv n ms s1 s' (apply_msg-Inv n i m s s1 inv f)
          (ap (go_on same (apply_all same n ms)) (sym f) ∙ e)
  ]

  no_logs-Inv : (n : ℕ) → Inv n no_logs
  no_logs-Inv n = record {
    agree = λ i j k v w a b e f. absurd (none-not_some v e);
    no_gap = λ i k v e. absurd (none-not_some v e);
    below_max = λ i k v e. absurd (none-not_some v e);
  }

  -- As long as the appliers report no error, whatever the servers send in whatever order, two servers
  -- that have applied a command at the same index have applied the same command.
  pub applied_commands_agree :
      (n : ℕ) (ms : List (ℕ × ApplyMsg C)) (s : Logs C) (i j index : ℕ) (v w : C)
      → apply_all same n ms no_logs ≡ some s
      → i < n
      → j < n
      → s.logs i index ≡ some v
      → s.logs j index ≡ some w
      → v ≡ w
  applied_commands_agree n ms s i j index v w e a b f g =
      (apply_all-Inv n ms no_logs s (no_logs-Inv n) e).agree i j index v w a b f g

  -- As long as the appliers report no error, a server that has applied a command at an index above 1
  -- has applied one at the index before, and no index is above the largest one noted.
  pub applied_in_order :
      (n : ℕ) (ms : List (ℕ × ApplyMsg C)) (s : Logs C) (i index : ℕ) (v : C)
      → apply_all same n ms no_logs ≡ some s
      → s.logs i (suc (suc index)) ≡ some v
      → (has (s.logs i (suc index)) ≡ true) × (suc (suc index) ≤ s.max_index)
  applied_in_order n ms s i index v e f =
      let inv = apply_all-Inv n ms no_logs s (no_logs-Inv n) e in
      (inv.no_gap i index v f, inv.below_max i (suc (suc index)) v f)
