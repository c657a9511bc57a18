-- ===== src/Shards/Kv.antt =====
-- 6.5840/src/shardkv/common.go and client.go: the clerk of the sharded key/value service.
use Prim.Native.Char.{code}
use lab_implementation.Common.{
  ℕ, zero, suc, ◌+◌, ◌/◌, ◌%◌, Option, none, some, List, String, string_discrete, if◌then◌else◌,
  ltb, ite, map,
}
use lab_implementation.Labrpc.{ClientEnd}
use lab_implementation.Shards.Rounds.{Verdict, accept, stop, next, try_each, or_else}
use lab_implementation.Shards.Ctrler.{Config, QueryArgs, QueryReply, n_shards, no_config, query}

-- The first byte of a character in UTF-8, which is what a Go string holds.
abbrev pub first_byte : ℕ → ℕ
first_byte c =
    if ltb c 128
    then c
    else (if ltb c 2048
        then 192 + c / 64
        else (if ltb c 65536 then 224 + c / 4096 else 240 + c / 262144))

abbrev pub key2shard : String → ℕ
key2shard String.[] = 0 % n_shards
key2shard (String.◌∷◌ c s) = first_byte (code c) % n_shards

abbrev pub ok : String
ok = "OK"

abbrev pub err_no_key : String
err_no_key = "ErrNoKey"

abbrev pub err_wrong_group : String
err_wrong_group = "ErrWrongGroup"

pub record PutAppendArgs : Type 0 where
  pub key : String
  pub value : String
  pub op : String

pub record PutAppendReply : Type 0 where
  pub err : String

pub record GetArgs : Type 0 where
  pub key : String

pub record GetReply : Type 0 where
  pub err : String
  pub value : String

-- What comes of each Call of a clerk.
pub record Calls : Type 0 where
  pub on_query : ℕ → ClientEnd → QueryArgs → Option QueryReply
  pub on_get : ℕ → ClientEnd → GetArgs → Option GetReply
  pub on_put_append : ℕ → ClientEnd → PutAppendArgs → Option PutAppendReply

-- `ctrlers` is the clerk of the controller.
pub record Clerk : Type 0 where
  pub ctrlers : List ClientEnd
  pub config : Config
  pub make_end : String → ClientEnd

abbrev pub make_clerk : List ClientEnd → (String → ClientEnd) → Clerk
make_clerk ctrlers make_end = record { ctrlers = ctrlers; config = no_config; make_end = make_end }

-- The servers of the group that has the shard of a key.
abbrev pub owners : String → Config → Option (List String)
owners key config = config.groups (config.shards (key2shard key))

-- The tests of the loop of Get, in their order; other errors, such as ErrWrongLeader, go on.
abbrev pub get_verdict : GetReply → Verdict String
get_verdict r = ite (string_discrete r.err ok) (accept r.value) (
    ite (string_discrete r.err err_no_key) (accept r.value)
      (ite (string_discrete r.err err_wrong_group) stop next))

abbrev pub put_append_verdict : PutAppendReply → Verdict (Unit {0})
put_append_verdict r =
    ite (string_discrete r.err ok) (accept tt)
      (ite (string_discrete r.err err_wrong_group) stop next)

-- After a Query that has returned, its configuration is the clerk's.
abbrev pub on_config :
    {B : Type 0} → Clerk → (Clerk → ℕ → Option B) → Option (Config × ℕ) → Option B
on_config ck rest none = none
on_config ck rest (some (config, t)) = rest (record ck { config = config }) t

module _ {A R : Type 0} where
  -- One round: the servers of the owner group one after another, if there is such a group.
  abbrev pub attempt_at :
      (ℕ → ClientEnd → Option R) → (R → Verdict A) → Clerk → Option (List String) → ℕ → Option A × ℕ
  attempt_at ask verdict ck none t = (none, t)
  attempt_at ask verdict ck (some servers) t = try_each ask verdict (map ck.make_end servers) t

  abbrev pub attempt :
      (ℕ → ClientEnd → Option R) → (R → Verdict A) → String → Clerk → ℕ → Option A × ℕ
  attempt ask verdict key ck t = attempt_at ask verdict ck (owners key ck.config) t

  -- The loop that Get and PutAppend share, for at most `fuel` rounds, and of as many in each Query.
  abbrev pub serve :
      Calls
      → (ℕ → ClientEnd → Option R)
      → (R → Verdict A)
      → String
      → ℕ
      → Clerk
      → ℕ
      → Option (A × Clerk × ℕ)
  serve calls ask verdict key zero ck t = none
  serve calls ask verdict key (suc fuel) ck t =
      or_else (λ a u. some (a, ck, u))
        (λ u.
          on_config ck (serve calls ask verdict key fuel)
            (query calls.on_query ck.ctrlers none fuel u))
        (attempt ask verdict key ck t)

abbrev pub get : Calls → String → ℕ → Clerk → ℕ → Option (String × Clerk × ℕ)
get calls key = serve calls (λ t e. calls.on_get t e (record { key = key })) get_verdict key

abbrev pub put_append :
    Calls → String → String → String → ℕ → Clerk → ℕ → Option (Unit {0} × Clerk × ℕ)
put_append calls key value op =
    serve calls (λ t e. calls.on_put_append t e (record { key = key; value = value; op = op }))
      put_append_verdict key

abbrev pub put : Calls → String → String → ℕ → Clerk → ℕ → Option (Unit {0} × Clerk × ℕ)
put calls key value = put_append calls key value "Put"

abbrev pub append : Calls → String → String → ℕ → Clerk → ℕ → Option (Unit {0} × Clerk × ℕ)
append calls key value = put_append calls key value "Append"
