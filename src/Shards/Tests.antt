-- ===== src/Shards/Tests.antt =====
-- shardctrler/client.go and shardkv/client.go: a controller of two servers that has no leader before Call
-- number 3, and a group of two servers.
use lab_implementation.Common.{
  ℕ, suc, ◌≤◌, ◌≡◌, ◌≢◌, inl, refl, sym, ap, ◌∙◌, some-injective, true, false, Option, none, some,
  List, [], ◌∷◌, String, string_discrete, if◌then◌else◌, ltb, ite, get_elem?, arith,
}
use lab_implementation.Labrpc.{ClientEnd}
use lab_implementation.Shards.Ctrler.{Config, QueryArgs, QueryReply, query}
use lab_implementation.Shards.Kv.{
  Calls, Clerk, GetArgs, GetReply, PutAppendArgs, PutAppendReply, make_clerk, key2shard, owners,
  get, ok, err_wrong_group,
}
use lab_implementation.Shards.Settled.{Settled}
use lab_implementation.Shards.Returns.{GroupAnswers, IsGetAnswer, get_returns}
use lab_implementation.Shards.Leader.{LeaderAnswers, Latest-Answering, query_returns}
use lab_implementation.Shards.Owner.{GotFromOwner, get-GotFromOwner}

abbrev end : String → ClientEnd
end name = record { endname = name }

abbrev controllers : List ClientEnd
controllers = end "c0" ∷ end "c1" ∷ []

abbrev group_servers : List String
group_servers = "s0" ∷ "s1" ∷ []

abbrev first_config : Config
first_config = record {
  num = 1;
  shards = λ _. 100;
  groups = λ g. if ltb g 100 then none else some group_servers;
}

-- Before Call number 3 the network loses the Queries.
abbrev queries : ℕ → ClientEnd → QueryArgs → Option QueryReply
queries t e args =
    if ltb t 3 then none else some record { wrong_leader = false; err = ok; config = first_config }

-- The first server of the group does not lead.
abbrev gets : ℕ → ClientEnd → GetArgs → Option GetReply
gets t e args =
    ite (string_discrete e.endname "s1") (some record { err = ok; value = "v" })
      (some record { err = "ErrWrongLeader"; value = "" })

abbrev put_appends : ℕ → ClientEnd → PutAppendArgs → Option PutAppendReply
put_appends t e args = some record { err = ok }

abbrev world : Calls
world = record { on_query = queries; on_get = gets; on_put_append = put_appends }

abbrev clerk : Clerk
clerk = make_clerk controllers end

-- The key "a" is the byte 97.
key2shard-a : key2shard "a" ≡ 7
key2shard-a = refl

key2shard-two_bytes : key2shard "é" ≡ 5
key2shard-two_bytes = refl

key2shard-empty : key2shard "" ≡ 0
key2shard-empty = refl

get-run : get world "a" 5 clerk 0 ≡ some ("v", record clerk { config = first_config }, 6)
unfolding string_discrete
get-run = refl

queries-late :
    (s : ℕ) (e : ClientEnd) (args : QueryArgs)
    → 3 ≤ s
    → queries s e args ≡ some record { wrong_leader = false; err = ok; config = first_config }
queries-late s e args l = ground (arith, l)

leader_answers :
    LeaderAnswers (λ s e. queries s e (record { num = none })) (λ r. r.wrong_leader) controllers 3
leader_answers = record {
  i = 0;
  e = end "c0";
  listed = refl;
  answers = λ s l. (
    record { wrong_leader = false; err = ok; config = first_config },
    queries-late s (end "c0") (record { num = none }) l,
    refl,
  );
}

settled : Settled world controllers "a" group_servers 3
settled = record {
  answering = Latest-Answering world controllers 3 leader_answers;
  agree = λ s e r l q right.
      ap (λ (x : QueryReply). owners "a" x.config)
        (some-injective _ _ (sym q ∙ queries-late s e (record { num = none }) l));
}

ok_ne : ok ≢ err_wrong_group
unfolding string_discrete
ok_ne h = let e : true ≡ false = ap (λ x. ite (string_discrete x ok) true false) h in absurd (cc)

wrong_leader_ne : "ErrWrongLeader" ≢ err_wrong_group
unfolding string_discrete
wrong_leader_ne h =
    let e : true ≡ false = ap (λ x. ite (string_discrete x "ErrWrongLeader") true false) h in
    absurd (cc)

right_of_either :
    {P : Type 0} (d : Dec P) (r : GetReply)
    → ite d
        (some record { err = ok; value = "v" })
        (some record { err = "ErrWrongLeader"; value = "" })
      ≡ some r
    → r.err ≢ err_wrong_group
right_of_either (yes p) r h w = ok_ne (ap (λ (x : GetReply). x.err) (some-injective _ _ h) ∙ w)
right_of_either (no p) r h w =
    wrong_leader_ne (ap (λ (x : GetReply). x.err) (some-injective _ _ h) ∙ w)

group_gets :
    GroupAnswers
      (λ s e. gets s e (record { key = "a" }))
      (λ r. r.err)
      IsGetAnswer
      end
      group_servers
      3
unfolding string_discrete
group_gets = record {
  i = 1;
  name = "s1";
  listed = refl;
  answers = λ s l. (record { err = ok; value = "v" }, refl, inl refl);
  right_group = λ s k n r l at q. right_of_either (string_discrete n "s1") r q;
}

query_returns_example :
    (c : Config) × (s i : ℕ) × (e : ClientEnd) × (r : QueryReply) × (query queries controllers none
        4 0
      ≡ some (c, suc s))
    × (0 ≤ s)
    × (get_elem? controllers i ≡ some e)
    × (queries s e (record { num = none }) ≡ some r)
    × (r.wrong_leader ≡ false)
    × (r.config ≡ c)
query_returns_example = query_returns queries controllers none 3 4 0 leader_answers (omega arith)

get_returns_example :
    (v : String) × (new : Clerk) × (u : ℕ) × (get world "a" 6 clerk 0 ≡ some (v, new, u))
get_returns_example =
    get_returns world "a" clerk group_servers 3 6 0 settled group_gets (omega arith)

get-GotFromOwner_example :
    GotFromOwner world "a" clerk 0 6 "v" (record clerk { config = first_config })
get-GotFromOwner_example =
    get-GotFromOwner world "a" 5 clerk (record clerk { config = first_config }) 0 6 "v" get-run
