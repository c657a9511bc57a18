-- ===== src/Raft/System.antt =====
-- `n` peers and the goroutines between them, interleaved in any order. labrpc may delay, reorder
-- and lose what is sent; it runs the handler of one `Call` once at most.
pub mod Invariant
use lab_implementation.Common.{
  ℕ, ◌+◌, ◌-◌, ◌<◌, ◌≡◌, ◌≢◌, Bool, true, false, update, ℕ_discrete, ite, if◌then◌else◌, Option,
  none, some,
}
use lab_implementation.Raft.{
  Raft, leader, RequestVoteArgs, RequestVoteReply, AppendEntries, killed, kill, request_vote,
  ticker_round, emit_election, on_vote_reply, heartbeat_args, on_heartbeat_reply, get_heartbeat,
  make,
}

-- Where the goroutine is that asks one peer for its vote in one election.
pub data VotePc : Type 0 where
  unborn : VotePc
  calling : VotePc
  replied : RequestVoteReply → VotePc  -- the handler has run, the reply is under way
  counted : VotePc  -- the vote was granted and has been added to `votednumber`
  ended : VotePc

-- `votes i t j` is the goroutine of candidate `i` for peer `j` in the election of term `t`. The
-- loop skips the candidate itself: `votes i t i` stands for the vote that `votednumber = 1` counts.
pub record System : Type 0 where
  pub server : ℕ → Raft
  pub waiting : ℕ → Option ℕ  -- the `startWaitTime` with which the ticker of `i` sleeps
  pub elections : ℕ → ℕ  -- goroutines of `emitElection` that have not run yet
  pub votes : ℕ → ℕ → ℕ → VotePc
  pub beating : ℕ → ℕ  -- goroutines of `sendHeartBeat`
  pub sent : ℕ → ℕ → Bool  -- the heartbeats of server `i` at term `t`

abbrev pub set_vote : (ℕ → ℕ → ℕ → VotePc) → ℕ → ℕ → ℕ → VotePc → ℕ → ℕ → ℕ → VotePc
set_vote votes i t j pc =
    update ℕ_discrete votes i (update ℕ_discrete (votes i) t (update ℕ_discrete (votes i t) j pc))

abbrev pub set_server : System → ℕ → Raft → System
set_server s i rf = record s { server = update ℕ_discrete s.server i rf }

-- The goroutines that one `emitElection` starts.
abbrev pub ask_all : ℕ → ℕ → VotePc
ask_all i j = ite (ℕ_discrete i j) counted calling

abbrev pub after_reply : RequestVoteReply → VotePc
after_reply r = if r.vote_granted then counted else ended

abbrev pub IsUnderWay : VotePc → Type 0
IsUnderWay calling = Unit
IsUnderWay (replied _) = Unit
IsUnderWay _ = ⊥

pub data Step (n : ℕ) (s : System) : System → Type 0 where
  -- the test of the ticker's loop, and then its sleep, in which anything may happen
  doze :
      (i start_wait_time : ℕ)
      → i < n
      → s.waiting i ≡ none
      → killed (s.server i) ≡ false
      → Step n s (record s { waiting = update ℕ_discrete s.waiting i (some start_wait_time) })
  tick :
      (i start_wait_time : ℕ)
      → i < n
      → s.waiting i ≡ some start_wait_time
      → Step n s (record s {
        waiting = update ℕ_discrete s.waiting i none;
        server = update ℕ_discrete s.server i (ticker_round start_wait_time (s.server i)).0;
        elections = update ℕ_discrete s.elections i (
            if (ticker_round start_wait_time (s.server i)).1
            then s.elections i + 1
            else s.elections i);
      })
  elect :
      (i : ℕ)
      → i < n
      → 0 < s.elections i
      → Step n s (record s {
        server = update ℕ_discrete s.server i (emit_election (s.server i)).0;
        elections = update ℕ_discrete s.elections i (s.elections i - 1);
        votes =
            update ℕ_discrete s.votes i
              (update ℕ_discrete (s.votes i) (emit_election (s.server i)).1.term (ask_all i));
      })
  receive_vote :
      (i t j now : ℕ)
      → j < n
      → s.votes i t j ≡ calling
      → Step n s (record s {
        server =
            update ℕ_discrete s.server j
              (request_vote (record { term = t; candidate_id = i }) now (s.server j)).0;
        votes =
            set_vote s.votes i t j
              (replied (request_vote (record { term = t; candidate_id = i }) now (s.server j)).1);
      })
  count_vote :
      (i t j : ℕ) (r : RequestVoteReply)
      → j < n
      → s.votes i t j ≡ replied r
      → Step n s (record s {
        server = update ℕ_discrete s.server i (on_vote_reply true r (s.server i)).0;
        votes = set_vote s.votes i t j (after_reply r);
        beating =
            update ℕ_discrete s.beating i
              (if (on_vote_reply true r (s.server i)).1 then s.beating i + 1 else s.beating i);
      })
  -- the request or the reply is lost, and `Call` returns false
  lose_vote :
      (i t j : ℕ)
      → IsUnderWay (s.votes i t j)
      → Step n s (record s { votes = set_vote s.votes i t j ended })
  beat :
      (i : ℕ)
      → 0 < s.beating i
      → Step n s (record s {
        sent =
            update ℕ_discrete s.sent i
              (update ℕ_discrete (s.sent i) (heartbeat_args (s.server i)).term true);
      })
  stop_beating :
      (i : ℕ)
      → (s.server i).state ≢ leader
      → Step n s (record s { beating = update ℕ_discrete s.beating i (s.beating i - 1) })
  receive_beat :
      (i t j now : ℕ)
      → j < n
      → s.sent i t ≡ true
      → Step n s
          (set_server s j (get_heartbeat (record { term = t; leader_id = i }) now (s.server j)).0)
  -- a reply that some server has given to a heartbeat
  beat_reply :
      (i : ℕ) (args : AppendEntries) (now : ℕ) (rf : Raft)
      → Step n s (set_server s i (on_heartbeat_reply (get_heartbeat args now rf).1 (s.server i)))
  kill_server : (i : ℕ) → Step n s (set_server s i (kill (s.server i)))

abbrev pub init : ℕ → System
init n = record {
  server = λ i. make n i;
  waiting = λ _. none;
  elections = λ _. 0;
  votes = λ _ _ _. unborn;
  beating = λ _. 0;
  sent = λ _ _. false;
}

pub data Reach (n : ℕ) : System → Type 0 where
  start : Reach n (init n)
  later : {s t : System} → Reach n s → Step n s t → Reach n t
