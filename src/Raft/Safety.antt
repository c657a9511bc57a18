-- ===== src/Raft/Safety.antt =====
-- At most one leader in a term, if no reply to a vote request outlives its election.
use lab_implementation.Common.{
  ℕ, ◌*◌, ◌<◌, ◌≡◌, refl, update, ℕ_discrete, arith, sym, subst, Bool-cases, inl, inr,
}
use lab_implementation.Raft.{
  candidate, leader, kill, request_vote, ticker_round, emit_election, on_vote_reply,
  on_heartbeat_reply, get_heartbeat, make,
}
use lab_implementation.Raft.Tally.{
  tally, tally-ask_all, tally-disjoint, tally-set_vote, tally-set_same, tally-set_counted,
}
use lab_implementation.Raft.System.{
  replied, counted, ended, System, Step, tick, elect, receive_vote, count_vote, lose_vote, init,
  Reach, start, later,
}
use lab_implementation.Raft.System.Invariant.{Reach-VoteInv}

-- A candidate counts a vote in the term for which it asked for it.
abbrev pub IsTimely : {n : ℕ} {s t : System} → Step n s t → Type 0
IsTimely {s} (count_vote i t j r lt pc) = t ≡ (s.server i).current_term
IsTimely _ = Unit

pub data TimelyReach (n : ℕ) : System → Type 0 where
  begin : TimelyReach n (init n)
  next : {s t : System} → TimelyReach n s → (st : Step n s t) → IsTimely st → TimelyReach n t

pub TimelyReach-Reach : {n : ℕ} {s : System} → TimelyReach n s → Reach n s
TimelyReach-Reach begin = start
TimelyReach-Reach (next r st timely) = later (TimelyReach-Reach r) st

pub record CountInv (n : ℕ) (s : System) : Type 0 where
  pub size : (i : ℕ) → (s.server i).peers ≡ n
  pub standing :
      (i : ℕ)
      → (s.server i).state ≡ candidate
      → (s.server i).voted_number ≡ tally n (s.votes i (s.server i).current_term)
  pub won :
      (i : ℕ) → (s.server i).state ≡ leader → n < 2 * tally n (s.votes i (s.server i).current_term)

CountInv-init : (n : ℕ) → CountInv n (init n)
unfolding make
CountInv-init n = record { size = λ i. refl; standing = λ i h. cc; won = λ i h. cc }

module _ {n : ℕ} {s : System} (inv : CountInv n s) where
  open inv use {size, standing, won}

  Step-size : {u : System} → Step n s u → (i : ℕ) → (u.server i).peers ≡ n
  unfolding ticker_round emit_election request_vote on_vote_reply get_heartbeat on_heartbeat_reply
      kill
  Step-size (tick i w lt asleep) k = ground (arith, size k)
  Step-size _ k = ground (arith, size k)

  Step-standing :
      {u : System} (st : Step n s u)
      → IsTimely st
      → (k : ℕ) → (u.server k).state ≡ candidate
      → (u.server k).voted_number ≡ tally n (u.votes k (u.server k).current_term)
  unfolding ticker_round emit_election request_vote on_vote_reply get_heartbeat on_heartbeat_reply
      kill
  Step-standing (elect i lt one) timely k h = ground (arith, standing k, tally-ask_all n i)
  Step-standing (receive_vote i t j now lt pc) timely k h =
      let reply = (request_vote (record { term = t; candidate_id = i }) now (s.server j)).1 in
      ground (
        arith,
        standing k,
        tally-set_same n s.votes i t j (replied reply) (ground arith) k
            (update ℕ_discrete s.server j
              (request_vote (record { term = t; candidate_id = i }) now (s.server j)).0
              k).current_term,
      )
  Step-standing (count_vote i t j r lt pc) timely k h = elim (Bool-cases r.vote_granted) [
    | inl granted ↦ ground (
      arith,
      standing k,
      tally-set_vote n s.votes i t j counted k (s.server k).current_term,
      tally-set_counted n s.votes i t j lt (ground arith),
    )
    | inr refused ↦ ground (
      arith,
      standing k,
      tally-set_same n s.votes i t j ended (ground arith) k (s.server k).current_term,
    )
  ]
  Step-standing (lose_vote i t j pc) timely k h = ground (
    arith,
    standing k,
    tally-set_same n s.votes i t j ended (ground arith) k (s.server k).current_term,
  )
  Step-standing _ timely k h = ground (arith, standing k)

  Step-won :
      {u : System} (st : Step n s u)
      → IsTimely st
      → (k : ℕ) → (u.server k).state ≡ leader
      → n < 2 * tally n (u.votes k (u.server k).current_term)
  unfolding ticker_round emit_election request_vote on_vote_reply get_heartbeat on_heartbeat_reply
      kill
  Step-won (elect i lt one) timely k h = ground (arith, won k)
  Step-won (receive_vote i t j now lt pc) timely k h =
      let reply = (request_vote (record { term = t; candidate_id = i }) now (s.server j)).1 in
      ground (
        arith,
        won k,
        tally-set_same n s.votes i t j (replied reply) (ground arith) k
            (update ℕ_discrete s.server j
              (request_vote (record { term = t; candidate_id = i }) now (s.server j)).0
              k).current_term,
      )
  Step-won (count_vote i t j r lt pc) timely k h = elim (Bool-cases r.vote_granted) [
    | inl granted ↦ ground (
      arith,
      won k,
      size k,
      standing k,
      tally-set_vote n s.votes i t j counted k (s.server k).current_term,
      tally-set_counted n s.votes i t j lt (ground arith),
    )
    | inr refused ↦ ground (
      arith,
      won k,
      tally-set_same n s.votes i t j ended (ground arith) k (s.server k).current_term,
    )
  ]
  Step-won (lose_vote i t j pc) timely k h = ground (
    arith,
    won k,
    tally-set_same n s.votes i t j ended (ground arith) k (s.server k).current_term,
  )
  Step-won _ timely k h = ground (arith, won k)

  Step-CountInv : {u : System} (st : Step n s u) → IsTimely st → CountInv n u
  Step-CountInv st timely = record {
    size = Step-size st;
    standing = Step-standing st timely;
    won = Step-won st timely;
  }

TimelyReach-CountInv : {n : ℕ} {s : System} → TimelyReach n s → CountInv n s
TimelyReach-CountInv {n} begin = CountInv-init n
TimelyReach-CountInv (next r st timely) = Step-CountInv (TimelyReach-CountInv r) st timely

-- In every run in which a candidate counts a granted vote only while it is still in the term in
-- which it asked, two servers that are leaders in the same term are one.
pub election_safety :
    {n : ℕ} {s : System}
    → TimelyReach n s
    → (i k : ℕ) → (s.server i).state ≡ leader
    → (s.server k).state ≡ leader
    → (s.server i).current_term ≡ (s.server k).current_term
    → i ≡ k
election_safety {n} {s} r i k h h' same = elim (ℕ_discrete i k) [
  | yes e ↦ e
  | no other ↦ absurd (
      omega (
        arith,
        won i h,
        subst (λ u. n < 2 * tally n (s.votes k u)) (sym same) (won k h'),
        tally-disjoint n (s.votes i term) (s.votes k term)
            (λ j a b. other (unique i k term j (ground arith) (ground arith))),
      ))
]
  where
    open (TimelyReach-CountInv r) use {won}
    open (Reach-VoteInv (TimelyReach-Reach r)) use {unique}

    term : ℕ
    term = (s.server i).current_term
