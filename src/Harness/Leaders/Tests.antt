-- ===== src/Harness/Leaders/Tests.antt =====
-- Three servers: server 2 still claims to lead in the term before.
use mathlib.Core.List.{Memᴰ}
use lab_implementation.Common.{ℕ, zero, suc, refl, true, [], ◌∷◌, ℕ_discrete}
use lab_implementation.Raft.{Raft, make, leader, get_state}
use lab_implementation.Harness.Leaders.{Look}
use lab_implementation.Harness.Leaders.Sound.{IsTheLeader, check_one_leader-IsTheLeader}

abbrev raft_of : ℕ → Raft
raft_of zero = record (make 3 0) { current_term = 4; state = leader }
raft_of (suc zero) = record (make 3 1) { current_term = 4 }
raft_of _ = record (make 3 2) { current_term = 3; state = leader }

abbrev look : Look
look = record { connected = λ _. true; rafts = raft_of }

abbrev early : Look
early = record { connected = λ _. true; rafts = λ i. make 3 i }

check_one_leader-IsTheLeader_example : (l : Look) × Memᴰ l (early ∷ look ∷ []) × IsTheLeader l 3 0
unfolding ℕ_discrete get_state make
check_one_leader-IsTheLeader_example = check_one_leader-IsTheLeader 3 0 (early ∷ look ∷ []) refl
