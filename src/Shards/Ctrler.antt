-- ===== src/Shards/Ctrler.antt =====
-- 6.5840/src/shardctrler/common.go and client.go: configurations, and the clerk of the controller.
-- A group id is a natural number; 0 is the invalid group.
use lab_implementation.Common.{ℕ, Bool, Option, none, List, String, if◌then◌else◌}
use lab_implementation.Labrpc.{ClientEnd}
use lab_implementation.Shards.Rounds.{Verdict, accept, next, retry}

abbrev pub n_shards : ℕ
n_shards = 10

-- `shards` is read below n_shards; `groups` is `none` where the key is missing.
pub record Config : Type 0 where
  pub num : ℕ
  pub shards : ℕ → ℕ
  pub groups : ℕ → Option (List String)

-- The zero value, which is also configuration number 0.
abbrev pub no_config : Config
no_config = record { num = 0; shards = λ _. 0; groups = λ _. none }

pub record JoinArgs : Type 0 where
  pub servers : ℕ → Option (List String)

pub record LeaveArgs : Type 0 where
  pub gids : List ℕ

pub record MoveArgs : Type 0 where
  pub shard : ℕ
  pub gid : ℕ

-- `none` for the number -1, the latest configuration
pub record QueryArgs : Type 0 where
  pub num : Option ℕ

-- JoinReply, LeaveReply and MoveReply
pub record Reply : Type 0 where
  pub wrong_leader : Bool
  pub err : String

pub record QueryReply : Type 0 where
  pub wrong_leader : Bool
  pub err : String
  pub config : Config

abbrev pub query_verdict : QueryReply → Verdict Config
query_verdict r = if r.wrong_leader then next else accept r.config

abbrev pub verdict : Reply → Verdict (Unit {0})
verdict r = if r.wrong_leader then next else accept tt

-- The loops, for at most `fuel` rounds from Call number t on.
abbrev pub query :
    (ℕ → ClientEnd → QueryArgs → Option QueryReply)
    → List ClientEnd
    → Option ℕ
    → ℕ
    → ℕ
    → Option (Config × ℕ)
query ask servers num = retry (λ t e. ask t e (record { num = num })) query_verdict servers

abbrev pub join :
    (ℕ → ClientEnd → JoinArgs → Option Reply)
    → List ClientEnd
    → (ℕ → Option (List String))
    → ℕ
    → ℕ
    → Option (Unit {0} × ℕ)
join ask servers joined = retry (λ t e. ask t e (record { servers = joined })) verdict servers

abbrev pub leave :
    (ℕ → ClientEnd → LeaveArgs → Option Reply)
    → List ClientEnd
    → List ℕ
    → ℕ
    → ℕ
    → Option (Unit {0} × ℕ)
leave ask servers gids = retry (λ t e. ask t e (record { gids = gids })) verdict servers

abbrev pub move :
    (ℕ → ClientEnd → MoveArgs → Option Reply)
    → List ClientEnd
    → ℕ
    → ℕ
    → ℕ
    → ℕ
    → Option (Unit {0} × ℕ)
move ask servers shard gid =
    retry (λ t e. ask t e (record { shard = shard; gid = gid })) verdict servers
