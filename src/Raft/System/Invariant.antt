-- ===== src/Raft/System/Invariant.antt =====
-- Votes of one server: what it has granted agrees with its `votedFor` and its term.
use lab_implementation.Common.{ℕ, ◌≤◌, ◌≡◌, refl, Bool, true, false, some, arith}
use lab_implementation.Raft.{
  kill, request_vote, ticker_round, emit_election, on_vote_reply, on_heartbeat_reply, get_heartbeat,
  make,
}
use lab_implementation.Raft.System.{
  VotePc, replied, counted, System, Step, tick, count_vote, init, Reach, start, later,
}

-- The peer has granted its vote, and the reply is not lost.
abbrev pub gives : VotePc → Bool
gives (replied r) = r.vote_granted
gives counted = true
gives _ = false

pub record VoteInv (s : System) : Type 0 where
  pub mine : (i : ℕ) → (s.server i).me ≡ i
  pub bound : (i t j : ℕ) → gives (s.votes i t j) ≡ true → t ≤ (s.server j).current_term
  pub current :
      (i t j : ℕ)
      → gives (s.votes i t j) ≡ true
      → t ≡ (s.server j).current_term
      → (s.server j).voted_for ≡ some i
  pub unique :
      (i i' t j : ℕ) → gives (s.votes i t j) ≡ true → gives (s.votes i' t j) ≡ true → i ≡ i'

VoteInv-init : (n : ℕ) → VoteInv (init n)
unfolding make
VoteInv-init n = record {
  mine = λ i. refl;
  bound = λ i t j h. cc;
  current = λ i t j h e. cc;
  unique = λ i i' t j h h'. cc;
}

module _ {n : ℕ} {s : System} (inv : VoteInv s) where
  open inv use {mine, bound, current, unique}

  Step-mine : {t : System} → Step n s t → (i : ℕ) → (t.server i).me ≡ i
  unfolding ticker_round emit_election request_vote on_vote_reply get_heartbeat on_heartbeat_reply
      kill
  Step-mine (tick i w lt asleep) k = ground (arith, mine k)
  Step-mine _ k = ground (arith, mine k)

  Step-bound :
      {u : System}
      → Step n s u
      → (i t j : ℕ) → gives (u.votes i t j) ≡ true
      → t ≤ (u.server j).current_term
  unfolding ticker_round emit_election request_vote on_vote_reply get_heartbeat on_heartbeat_reply
      kill
  Step-bound (count_vote a b c r lt pc) i t j h = ground (arith, bound i t j)
  Step-bound _ i t j h = ground (arith, bound i t j)

  Step-current :
      {u : System}
      → Step n s u
      → (i t j : ℕ) → gives (u.votes i t j) ≡ true
      → t ≡ (u.server j).current_term
      → (u.server j).voted_for ≡ some i
  unfolding ticker_round emit_election request_vote on_vote_reply get_heartbeat on_heartbeat_reply
      kill
  Step-current (count_vote a b c r lt pc) i t j h e =
      ground (arith, bound i t j, current i t j, mine j)
  Step-current _ i t j h e = ground (arith, bound i t j, current i t j, mine j)

  Step-unique :
      {u : System}
      → Step n s u
      → (i i' t j : ℕ) → gives (u.votes i t j) ≡ true
      → gives (u.votes i' t j) ≡ true
      → i ≡ i'
  unfolding ticker_round emit_election request_vote on_vote_reply get_heartbeat on_heartbeat_reply
      kill
  Step-unique (count_vote a b c r lt pc) i i' t j h h' = ground (arith, unique i i' t j)
  Step-unique _ i i' t j h h' =
      ground (arith, unique i i' t j, bound i t j, bound i' t j, current i t j, current i' t j)

  pub Step-VoteInv : {u : System} → Step n s u → VoteInv u
  Step-VoteInv st = record {
    mine = Step-mine st;
    bound = Step-bound st;
    current = Step-current st;
    unique = Step-unique st;
  }

pub Reach-VoteInv : {n : ℕ} {s : System} → Reach n s → VoteInv s
Reach-VoteInv {n} start = VoteInv-init n
Reach-VoteInv (later r st) = Step-VoteInv (Reach-VoteInv r) st
