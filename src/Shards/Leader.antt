-- ===== src/Shards/Leader.antt =====
-- shardctrler/client.go: Query, Join, Leave and Move return once the leader answers.
use lab_implementation.Common.{
  ℕ, suc, String, ◌-◌, ◌≤◌, ◌<◌, ◌≡◌, ◌≢◌, sym, ap, ◌∙◌, Bool, true, false, if◌then◌else◌, if_false,
  Option, none, some, List, get_elem?,
}
use lab_implementation.Labrpc.{ClientEnd}
use lab_implementation.Shards.Rounds.{Verdict, accept, stop, next, judge, retry}
use lab_implementation.Shards.Ctrler.{
  Config, QueryArgs, QueryReply, Reply, MoveArgs, LeaveArgs, JoinArgs, query, query_verdict,
  verdict, join, leave, move,
}
use lab_implementation.Shards.Answers.{Answering, retry-Accepted, retry-answers}
use lab_implementation.Shards.Kv.{Calls}
use lab_implementation.Shards.Served.{ask_latest}
use lab_implementation.Shards.Settled.{query_verdict-accept}

-- From Call number `from` on, a listed server answers, and not with WrongLeader.
pub record LeaderAnswers {R : Type 0} (ask : ℕ → ClientEnd → Option R) (wrong_leader : R → Bool)
    (servers : List ClientEnd) (from : ℕ) : Type 0 where
  pub i : ℕ
  pub e : ClientEnd
  pub listed : get_elem? servers i ≡ some e
  pub answers : (s : ℕ) → from ≤ s → (r : R) × (ask s e ≡ some r) × (wrong_leader r ≡ false)

module _ {A R : Type 0} (ask : ℕ → ClientEnd → Option R) (wrong_leader : R → Bool)
    (result : R → A) where
  abbrev unless_wrong : R → Verdict A
  unless_wrong r = if wrong_leader r then next else accept (result r)

  if_stop : (b : Bool) (a : A) → (if b then next else accept a) ≢ stop
  if_stop true a h = cc
  if_stop false a h = cc

  judge_stop : (o : Option R) → judge unless_wrong o ≢ stop
  judge_stop none h = cc
  judge_stop (some r) h = if_stop (wrong_leader r) (result r) h

  pub LeaderAnswers-Answering :
      (servers : List ClientEnd) (from : ℕ)
      → LeaderAnswers ask wrong_leader servers from
      → Answering ask unless_wrong servers from
  LeaderAnswers-Answering servers from h = record {
    i = h.i;
    e = h.e;
    listed = h.listed;
    answers = λ s l.
        let (r, q, right) = h.answers s l in
        (result r, ap (judge unless_wrong) q ∙ if_false _ _ right);
    never_stops = λ s k f l at. judge_stop (ask s f);
  }

-- When from Call number `from` on a listed server answers every Query and is the leader, Query returns
-- within `from - t` and one more rounds, and what it returns is the configuration in the reply to its
-- last Call, which was made to a listed server and says nothing of a wrong leader.
pub query_returns :
    (ask : ℕ → ClientEnd → QueryArgs → Option QueryReply) (servers : List ClientEnd)
    (num : Option ℕ) (from fuel t : ℕ)
    → LeaderAnswers (λ s e. ask s e (record { num = num })) (λ r. r.wrong_leader) servers from
    → from - t < fuel
    → (c : Config) × (s i : ℕ) × (e : ClientEnd) × (r : QueryReply) × (query ask servers num fuel t
        ≡ some (c, suc s))
      × (t ≤ s)
      × (get_elem? servers i ≡ some e)
      × (ask s e (record { num = num }) ≡ some r)
      × (r.wrong_leader ≡ false)
      × (r.config ≡ c)
query_returns ask servers num from fuel t h enough =
    let (c, u, run) =
      retry-answers (λ s e. ask s e (record { num = num })) query_verdict servers from fuel t
        (LeaderAnswers-Answering (λ s e. ask s e (record { num = num })) (λ r. r.wrong_leader)
          (λ r. r.config) servers from h)
        enough in
    let by =
      retry-Accepted (λ s e. ask s e (record { num = num })) query_verdict servers fuel t u c run in
    let (right, same) = query_verdict-accept by.reply c by.accepts in
    (
      c,
      by.s,
      by.i,
      by.e,
      by.reply,
      run ∙ ap (λ x. some (c, x)) (sym by.last),
      by.late,
      by.listed,
      by.answered,
      right,
      same,
    )

change_returns :
    (ask : ℕ → ClientEnd → Option Reply) (servers : List ClientEnd) (from fuel t : ℕ)
    → LeaderAnswers ask (λ r. r.wrong_leader) servers from
    → from - t < fuel
    → (u : ℕ) × (retry ask verdict servers fuel t ≡ some (tt, u))
change_returns ask servers from fuel t h enough =
    let (a, u, run) =
      retry-answers ask verdict servers from fuel t
        (LeaderAnswers-Answering ask (λ r. r.wrong_leader) (λ r. tt) servers from h) enough in
    (u, run)

-- Join, Leave and Move return within as many rounds.
pub changes_return :
    (on_join : ℕ → ClientEnd → JoinArgs → Option Reply)
    (on_leave : ℕ → ClientEnd → LeaveArgs → Option Reply)
    (on_move : ℕ → ClientEnd → MoveArgs → Option Reply) (servers : List ClientEnd)
    (joined : ℕ → Option (List String)) (gids : List ℕ) (shard gid from fuel t : ℕ)
    → LeaderAnswers
        (λ s e. on_join s e (record { servers = joined }))
        (λ r. r.wrong_leader)
        servers
        from
    → LeaderAnswers
        (λ s e. on_leave s e (record { gids = gids }))
        (λ r. r.wrong_leader)
        servers
        from
    → LeaderAnswers
        (λ s e. on_move s e (record { shard = shard; gid = gid }))
        (λ r. r.wrong_leader)
        servers
        from
    → from - t < fuel
    → ((u : ℕ) × (join on_join servers joined fuel t ≡ some (tt, u)))
      × ((u : ℕ) × (leave on_leave servers gids fuel t ≡ some (tt, u)))
      × ((u : ℕ) × (move on_move servers shard gid fuel t ≡ some (tt, u)))
changes_return on_join on_leave on_move servers joined gids shard gid from fuel t h1 h2 h3 enough =
    (
      change_returns (λ s e. on_join s e (record { servers = joined })) servers from fuel t h1
          enough,
      change_returns (λ s e. on_leave s e (record { gids = gids })) servers from fuel t h2 enough,
      change_returns (λ s e. on_move s e (record { shard = shard; gid = gid })) servers from fuel t
          h3 enough,
    )

pub Latest-Answering :
    (calls : Calls) (servers : List ClientEnd) (from : ℕ)
    → LeaderAnswers (ask_latest calls) (λ r. r.wrong_leader) servers from
    → Answering (ask_latest calls) query_verdict servers from
Latest-Answering calls =
    LeaderAnswers-Answering (ask_latest calls) (λ r. r.wrong_leader) (λ r. r.config)
