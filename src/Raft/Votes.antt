-- ===== src/Raft/Votes.antt =====
-- What the handlers of one peer answer, and what they do to its term and its vote.
use lab_implementation.Common.{ℕ, ◌≤◌, ◌<◌, ◌≡◌, ◌≢◌, ◌↔◌, ◌⊎◌, true, false, none, some, arith}
use lab_implementation.Raft.{
  Raft, RequestVoteArgs, AppendEntries, request_vote, get_heartbeat, on_heartbeat_reply,
}

-- `RequestVote` grants a vote exactly if the candidate's term is newer than the server's, or is the
-- same and the server has voted for nobody or for this candidate.
pub request_vote-grants_iff :
    (args : RequestVoteArgs) (now : ℕ) (rf : Raft)
    → ((request_vote args now rf).1.vote_granted ≡ true) ↔ (
        (rf.current_term < args.term)
        ⊎ ((rf.current_term ≡ args.term)
            × ((rf.voted_for ≡ none) ⊎ (rf.voted_for ≡ some args.candidate_id))))
unfolding request_vote
request_vote-grants_iff args now rf = ground arith

-- Either `RequestVote` grants the vote, and then the server is in the candidate's term with its
-- vote for the candidate; or it refuses, and then its vote, its state and its term are unchanged,
-- and its term is not older than the candidate's.
pub request_vote-state :
    (args : RequestVoteArgs) (now : ℕ) (rf : Raft)
    → (let (rf', reply) = request_vote args now rf in
        ((reply.vote_granted ≡ true)
          × (rf'.voted_for ≡ some args.candidate_id)
          × (rf'.current_term ≡ args.term))
        ⊎ ((reply.vote_granted ≡ false)
            × (rf'.voted_for ≡ rf.voted_for)
            × (rf'.state ≡ rf.state)
            × (rf'.current_term ≡ rf.current_term)
            × (args.term ≤ rf.current_term)))
unfolding request_vote
request_vote-state args now rf = ground arith

-- A server that voted for `v` and then learns a newer term from a heartbeat keeps that vote: in the
-- new term, in which it has voted for nobody, it refuses every other candidate.
pub heartbeat_keeps_vote :
    (hb : AppendEntries) (args : RequestVoteArgs) (now later : ℕ) (rf : Raft) (v : ℕ)
    → rf.voted_for ≡ some v
    → rf.current_term < hb.term
    → args.term ≡ hb.term
    → args.candidate_id ≢ v
    → (request_vote args later (get_heartbeat hb now rf).0).1.vote_granted ≡ false
unfolding request_vote get_heartbeat
heartbeat_keeps_vote hb args now later rf v voted newer same other = ground arith

-- No reply that a server gives to a heartbeat changes the leader that gets it, whatever the terms.
pub heartbeat_reply_ignored :
    (args : AppendEntries) (now : ℕ) (peer rf : Raft)
    → on_heartbeat_reply (get_heartbeat args now peer).1 rf ≡ rf
unfolding on_heartbeat_reply get_heartbeat
heartbeat_reply_ignored args now peer rf = ground arith
