-- ===== src/Raft/Tests.antt =====
-- Runs of three peers, and the theorems at them.
use lab_implementation.Common.{
  ℕ, ◌≤◌, ◌≡◌, refl, true, false, none, some, List, [], ◌∷◌, ℕ_discrete, arith,
}
use lab_implementation.Raft.Persister.{
  PersisterOp, save_op, copy_op, allocate_op, overwrite_op, read_raft_state, read_snapshot,
  raft_state_size, snapshot_size,
}
use lab_implementation.Raft.Persister.Saves.{run_all, fresh_world, reads_give_last_saved}
use lab_implementation.Raft.{
  Raft, RequestVoteArgs, RequestVoteReply, killed, request_vote, ticker_round, emit_election,
  on_vote_reply, get_heartbeat, make, get_state,
}
use lab_implementation.Raft.System.{
  System, doze, tick, elect, receive_vote, count_vote, Reach, start, later,
}
use lab_implementation.Raft.Safety.{TimelyReach, begin, next, TimelyReach-Reach, election_safety}
use lab_implementation.Raft.Terms.{elections_in, term-le-elections, vote_once}
use lab_implementation.Raft.Votes.{heartbeat_keeps_vote}

abbrev yes_at : ℕ → RequestVoteReply
yes_at t = record { term = t; vote_granted = true }

-- Server 0 asks in term 1, server 1 grants its vote, and server 0 becomes leader.
abbrev first_leader : (s : System) × TimelyReach 3 s
unfolding make killed ticker_round emit_election request_vote on_vote_reply ℕ_discrete
first_leader = (
  _,
  next
      (next
        (next
          (next (next begin (doze 0 1 (omega arith) refl refl) tt) (tick 0 1 (omega arith) refl) tt)
          (elect 0 (omega arith) (omega arith)) tt)
        (receive_vote 0 1 1 2 (omega arith) refl) tt)
      (count_vote 0 1 1 (yes_at 0) (omega arith) refl) refl,
)

first_leader_state : get_state (first_leader.0.server 0) ≡ (1, true)
unfolding make killed ticker_round emit_election request_vote on_vote_reply get_state ℕ_discrete
first_leader_state = refl

election_safety_example : ◌≡◌ {A = ℕ} 0 0
unfolding make killed ticker_round emit_election request_vote on_vote_reply ℕ_discrete
election_safety_example = election_safety first_leader.1 0 0 refl refl refl

-- The grant of server 1 in term 1 is delayed until server 0 asks again, in term 2, and is counted
-- there: servers 0 and 2 are both leaders in term 2.
two_leaders :
    (s : System) × Reach 3 s
    × (get_state (s.server 0) ≡ (2, true))
    × (get_state (s.server 2) ≡ (2, true))
unfolding make killed ticker_round emit_election request_vote on_vote_reply get_state ℕ_discrete
two_leaders =
    let r1 = later (later start (doze 0 1 (omega arith) refl refl)) (tick 0 1 (omega arith) refl) in
    let r2 = later r1 (elect 0 (omega arith) (omega arith)) in
    let r3 = later r2 (receive_vote 0 1 1 2 (omega arith) refl) in
    let r4 = later r3 (receive_vote 0 1 2 2 (omega arith) refl) in
    let r5 = later (later r4 (doze 0 5 (omega arith) refl refl)) (tick 0 5 (omega arith) refl) in
    let r6 = later r5 (elect 0 (omega arith) (omega arith)) in
    let r7 = later (later r6 (doze 2 5 (omega arith) refl refl)) (tick 2 5 (omega arith) refl) in
    let r8 = later r7 (elect 2 (omega arith) (omega arith)) in
    let r9 = later r8 (receive_vote 2 2 1 6 (omega arith) refl) in
    let r10 = later r9 (count_vote 2 2 1 (yes_at 1) (omega arith) refl) in
    let r11 = later r10 (count_vote 0 1 1 (yes_at 0) (omega arith) refl) in (_, r11, refl, refl)

vote_once_example : ◌≡◌ {A = ℕ} 0 0
unfolding make killed ticker_round emit_election request_vote on_vote_reply ℕ_discrete
vote_once_example = vote_once (TimelyReach-Reach first_leader.1) 0 0 1 1 refl refl

term-le-elections_example :
    (first_leader.0.server 0).current_term ≤ elections_in (TimelyReach-Reach first_leader.1)
term-le-elections_example = term-le-elections (TimelyReach-Reach first_leader.1) 0

-- Server 2 hears of term 1.

abbrev voter : Raft
voter = record (make 3 1) { current_term = 1; voted_for = some 0 }

abbrev ask_vote : ℕ → ℕ → RequestVoteArgs
ask_vote t c = record { term = t; candidate_id = c }

heartbeat_keeps_vote_example :
    (request_vote
      (ask_vote 2 1)
      9
      (get_heartbeat (record { term = 2; leader_id = 2 }) 8 voter).0).1.vote_granted
    ≡ false
heartbeat_keeps_vote_example =
    heartbeat_keeps_vote (record { term = 2; leader_id = 2 }) (ask_vote 2 1) 8 9 voter 0 refl
      (omega arith) refl (omega arith)

-- The caller changes its slice after the Save; the persister is copied and then saved to again.
abbrev save_and_change : List PersisterOp
save_and_change =
    allocate_op (1 ∷ [])
    ∷ save_op 0 (some 0) none
    ∷ copy_op 0
    ∷ overwrite_op 0 (9 ∷ [])
    ∷ save_op 0 (some 0) (some 0)
    ∷ []

reads_give_last_saved_example :
    ((read_raft_state 1 (run_all save_and_change fresh_world)).cell 5 ≡ 1 ∷ [])
    × ((read_snapshot 1 (run_all save_and_change fresh_world)).cell 5 ≡ [])
    × (raft_state_size 1 (run_all save_and_change fresh_world) ≡ 1)
    × (snapshot_size 1 (run_all save_and_change fresh_world) ≡ 0)
unfolding ℕ_discrete
reads_give_last_saved_example =
    reads_give_last_saved save_and_change 1
      (
        tt,
        (
          (omega arith, omega arith, tt),
          (omega arith, (tt, ((omega arith, omega arith, omega arith), tt))),
        ),
      )
      (omega arith)
