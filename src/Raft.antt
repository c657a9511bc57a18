-- ===== src/Raft.antt =====
-- 6.5840/src/raft/raft.go: one Raft peer, leader election only. Each function is what the Go code
-- does under `mu`; a reply is returned beside the state, and `time.Now()` is an argument.
pub mod Votes
pub mod Persister
pub mod System
pub mod Tally
pub mod Terms
pub mod Safety
mod Tests
use lab_implementation.Common.{
  ℕ, ◌+◌, ◌/◌, Bool, true, false, not, ◌&&◌, Option, none, some, ltb, ◌==◌, if◌then◌else◌,
}

pub data ServerState : Type 0 where
  follower candidate leader : ServerState

abbrev pub is_candidate : ServerState → Bool
is_candidate candidate = true
is_candidate _ = false

abbrev pub is_leader : ServerState → Bool
is_leader leader = true
is_leader _ = false

-- `peers` is the number of servers; `voted_for` is `none` for the -1 of the source.
pub record Raft : Type 0 where
  pub peers : ℕ
  pub me : ℕ
  pub dead : Bool
  pub state : ServerState
  pub current_term : ℕ
  pub voted_for : Option ℕ
  pub voted_number : ℕ
  pub last_time_receive_rpc : ℕ

pub record RequestVoteArgs : Type 0 where
  pub term : ℕ
  pub candidate_id : ℕ

pub record RequestVoteReply : Type 0 where
  pub term : ℕ
  pub vote_granted : Bool

pub record AppendEntries : Type 0 where
  pub term : ℕ
  pub leader_id : ℕ

pub record HeartbeatReply : Type 0 where
  pub term : ℕ
  pub success : Bool

unfoldable pub get_state : Raft → ℕ × Bool
get_state rf = (rf.current_term, is_leader rf.state)

-- The middle of `RequestVote`: a newer term makes the server a follower that has not voted.
unfoldable pub adopt_term : ℕ → Raft → Raft
adopt_term term rf =
    if ltb rf.current_term term
    then record rf { current_term = term; voted_for = none; state = follower }
    else rf

abbrev pub may_vote : Option ℕ → ℕ → Bool
may_vote none c = true
may_vote (some v) c = v == c

unfoldable pub request_vote : RequestVoteArgs → ℕ → Raft → Raft × RequestVoteReply
unfolding adopt_term
request_vote args now rf =
    if ltb args.term rf.current_term
    then (
      record rf { last_time_receive_rpc = now },
      record { term = rf.current_term; vote_granted = false },
    )
    else (let rf' = adopt_term args.term rf in
        if may_vote rf'.voted_for args.candidate_id
        then (
          record rf' { voted_for = some args.candidate_id; last_time_receive_rpc = now },
          record { term = rf.current_term; vote_granted = true },
        )
        else (
          record rf' { last_time_receive_rpc = now },
          record { term = rf.current_term; vote_granted = false },
        ))

-- `Kill` and `killed`.
unfoldable pub kill : Raft → Raft
kill rf = record rf { dead = true }

unfoldable pub killed : Raft → Bool
killed rf = rf.dead

-- One round of `ticker` after its sleep; the flag says that it starts `emitElection`.
unfoldable pub ticker_round : ℕ → Raft → Raft × Bool
ticker_round start_wait_time rf = (
  record rf { last_time_receive_rpc = start_wait_time },
  ltb rf.last_time_receive_rpc start_wait_time && not (is_leader rf.state),
)

-- `emitElection` up to its loop over the peers, with the arguments that it sends to each.
unfoldable pub emit_election : Raft → Raft × RequestVoteArgs
emit_election rf =
    let rf' = record rf {
      current_term = rf.current_term + 1;
      state = candidate;
      voted_for = some rf.me;
      voted_number = 1;
    } in
    (rf', record { term = rf'.current_term; candidate_id = rf.me })

-- What the goroutine of `emitElection` does with the reply of one peer; the flag says that it
-- starts `LeaderOperation`, which starts `sendHeartBeat`.
unfoldable pub on_vote_reply : Bool → RequestVoteReply → Raft → Raft × Bool
on_vote_reply ok reply rf =
    if ok && reply.vote_granted
    then (let rf' = record rf { voted_number = rf.voted_number + 1 } in
        if is_candidate rf'.state && ltb (rf'.peers / 2) rf'.voted_number
        then (record rf' { state = leader }, true)
        else (rf', false))
    else (rf, false)

-- The head of the loop of `sendHeartBeat`.
unfoldable pub heartbeat_args : Raft → AppendEntries
heartbeat_args rf = record { term = rf.current_term; leader_id = rf.me }

-- What the goroutine of `sendHeartBeat` does with a reply.
unfoldable pub on_heartbeat_reply : HeartbeatReply → Raft → Raft
on_heartbeat_reply reply rf =
    if ltb rf.current_term reply.term then record rf { state = follower } else rf

-- The handler never sets the reply's `Term`, which stays 0.
unfoldable pub get_heartbeat : AppendEntries → ℕ → Raft → Raft × HeartbeatReply
get_heartbeat args now rf =
    if ltb args.term rf.current_term then (rf, record { term = 0; success = false }) else (
      record rf { state = follower; current_term = args.term; last_time_receive_rpc = now },
      record { term = 0; success = true },
    )

-- Start, which is still to be written: the index and the term are -1, `none` here.
abbrev pub start : {C : Type 0} → C → Option ℕ × Option ℕ × Bool
start command = (none, none, true)

-- `Make`; the state that it reads back is always empty, since `persist` saves nothing.
unfoldable pub make : ℕ → ℕ → Raft
make peers me = record {
  peers = peers;
  me = me;
  dead = false;
  state = follower;
  current_term = 0;
  voted_for = none;
  voted_number = 0;
  last_time_receive_rpc = 0;
}
