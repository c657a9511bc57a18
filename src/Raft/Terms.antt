-- ===== src/Raft/Terms.antt =====
-- Terms only grow, and no faster than the elections.
use lab_implementation.Common.{ℕ, ◌+◌, ◌≤◌, ◌≡◌, true, arith}
use lab_implementation.Raft.{
  kill, request_vote, ticker_round, emit_election, on_vote_reply, heartbeat_args,
  on_heartbeat_reply, get_heartbeat, make,
}
use lab_implementation.Raft.System.{
  VotePc, unborn, System, Step, tick, elect, receive_vote, count_vote, lose_vote, receive_beat,
  init, Reach, start, later,
}
use lab_implementation.Raft.System.Invariant.{gives, Reach-VoteInv}

-- No step takes a server back to an earlier term.
pub term_grows :
    {n : ℕ} {s t : System}
    → Step n s t
    → (k : ℕ) → (s.server k).current_term ≤ (t.server k).current_term
unfolding ticker_round emit_election request_vote on_vote_reply get_heartbeat on_heartbeat_reply
    kill
term_grows (tick i w lt asleep) k = ground arith
term_grows _ k = ground arith

abbrev is_election : {n : ℕ} {s t : System} → Step n s t → ℕ
is_election (elect i lt one) = 1
is_election _ = 0

-- The calls of `emitElection` in a run.
abbrev pub elections_in : {n : ℕ} {s : System} → Reach n s → ℕ
elections_in start = 0
elections_in (later r st) = elections_in r + is_election st

abbrev IsBorn : VotePc → Type 0
IsBorn unborn = ⊥
IsBorn _ = Unit

record TermInv (m : ℕ) (s : System) : Type 0 where
  terms : (k : ℕ) → (s.server k).current_term ≤ m
  asked : (i t j : ℕ) → IsBorn (s.votes i t j) → t ≤ m
  beats : (i t : ℕ) → s.sent i t ≡ true → t ≤ m

TermInv-init : (n : ℕ) → TermInv 0 (init n)
unfolding make
TermInv-init n = record {
  terms = λ k. omega arith;
  asked = λ i t j h. elim h [ ];
  beats = λ i t h. cc;
}

module _ {n m : ℕ} {s : System} (inv : TermInv m s) where
  open inv use {terms, asked, beats}

  Step-terms :
      {u : System} (st : Step n s u) (k : ℕ) → (u.server k).current_term ≤ m + is_election st
  unfolding ticker_round emit_election request_vote on_vote_reply get_heartbeat on_heartbeat_reply
      kill
  Step-terms (receive_vote i t j now lt pc) k = ground (arith, terms k, asked i t j)
  Step-terms (receive_beat i t j now lt one) k = ground (arith, terms k, beats i t)
  Step-terms _ k = ground (arith, terms k)

  Step-asked :
      {u : System} (st : Step n s u) (i t j : ℕ) → IsBorn (u.votes i t j) → t ≤ m + is_election st
  unfolding emit_election
  Step-asked (elect _ lt one) i t j h = ground (arith, terms i, asked i t j)
  Step-asked (receive_vote a b c now lt pc) i t j h = ground (arith, asked i t j)
  Step-asked (count_vote a b c r lt pc) i t j h = ground (arith, asked i t j)
  Step-asked (lose_vote a b c pc) i t j h = ground (arith, asked i t j)
  Step-asked _ i t j h = ground (arith, asked i t j)

  Step-beats : {u : System} (st : Step n s u) (i t : ℕ) → u.sent i t ≡ true → t ≤ m + is_election st
  unfolding heartbeat_args
  Step-beats (elect _ lt one) i t h = ground (arith, beats i t)
  Step-beats _ i t h = ground (arith, terms i, beats i t)

  Step-TermInv : {u : System} (st : Step n s u) → TermInv (m + is_election st) u
  Step-TermInv st = record { terms = Step-terms st; asked = Step-asked st; beats = Step-beats st }

Reach-TermInv : {n : ℕ} {s : System} (r : Reach n s) → TermInv (elections_in r) s
Reach-TermInv {n} start = TermInv-init n
Reach-TermInv (later r st) = Step-TermInv (Reach-TermInv r) st

-- In every run, no server's term is larger than the number of calls of `emitElection` so far.
pub term-le-elections :
    {n : ℕ} {s : System} (r : Reach n s) (k : ℕ) → (s.server k).current_term ≤ elections_in r
term-le-elections r = (Reach-TermInv r).terms

-- In every run, whatever requests and heartbeats a server gets and in whatever order, the votes that
-- it has granted in one term and whose replies are not lost all went to one candidate.
pub vote_once :
    {n : ℕ} {s : System}
    → Reach n s
    → (i k t j : ℕ) → gives (s.votes i t j) ≡ true
    → gives (s.votes k t j) ≡ true
    → i ≡ k
vote_once r = (Reach-VoteInv r).unique
