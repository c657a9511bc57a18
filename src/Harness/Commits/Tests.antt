-- ===== src/Harness/Commits/Tests.antt =====
-- Two servers that apply the same command at index 1, and an agreement on it.
use lab_implementation.Common.{
  ℕ, zero, suc, ◌≡◌, refl, false, none, some, List, [], ◌∷◌, ℕ_discrete, arith,
}
use lab_implementation.Harness.Commits.{
  ApplyMsg, Look, command_msg, other_msg, Logs, no_logs, apply_all, wait, decided, Attempt,
}
use lab_implementation.Harness.Commits.Agreement.{applied_commands_agree}
use lab_implementation.Harness.Commits.Agreed.{Agreement}

abbrev messages : List (ℕ × ApplyMsg ℕ)
messages = (0, command_msg 5 1) ∷ (1, command_msg 5 1) ∷ (1, other_msg) ∷ (0, command_msg 6 2) ∷ []

abbrev after_messages : Logs ℕ
after_messages = elim (apply_all ℕ_discrete 2 messages no_logs) [ none ↦ no_logs | some s ↦ s ]

conflict_found :
    apply_all ℕ_discrete 2 ((0, command_msg 5 1) ∷ (1, command_msg 6 1) ∷ []) no_logs ≡ none
unfolding ℕ_discrete
conflict_found = refl

applied_commands_agree_example : ◌≡◌ {A = ℕ} 5 5
unfolding ℕ_discrete
applied_commands_agree_example =
    applied_commands_agree ℕ_discrete 2 messages after_messages 0 1 1 5 5 refl (omega arith)
      (omega arith) refl refl

abbrev first_message : Logs ℕ
first_message = elim (apply_all ℕ_discrete 2 ((0, command_msg 5 1) ∷ []) no_logs) [
  | none ↦ no_logs
  | some s ↦ s
]

-- Server 0 is read after the first message and server 1 after all of them.
abbrev between : Look ℕ
between zero = first_message
between (suc j) = after_messages

-- Start succeeds on server 1 only, and the second poll sees the agreement.
abbrev attempt_at_1 : Attempt ℕ
attempt_at_1 = record {
  started = λ i. elim (ℕ_discrete i 1) [ yes _ ↦ some (some 1) | no _ ↦ none ];
  polls = (λ _. no_logs) ∷ between ∷ [];
}

waits_for_two :
    wait ℕ_discrete 2 1 2 between (((λ _. no_logs), false) ∷ (between, false) ∷ [])
    ≡ some (decided (some 5))
unfolding ℕ_discrete
waits_for_two = refl

abbrev LeadsOn : Logs ℕ → Type 0
LeadsOn s = (ms : List (ℕ × ApplyMsg ℕ)) × (apply_all ℕ_discrete 2 ms s ≡ some after_messages)
