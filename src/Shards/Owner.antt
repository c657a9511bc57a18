-- ===== src/Shards/Owner.antt =====
-- shardkv/client.go: where the value that Get returns comes from.
use lab_implementation.Common.{
  ℕ, zero, suc, ◌≤◌, ◌<◌, ◌≡◌, ◌⊎◌, inl, inr, refl, ap, ◌∙◌, some, List, [], ◌∷◌, String,
  string_discrete, get_elem?, ite, map, some-injective, arith,
}
use lab_implementation.Shards.Rounds.{Verdict, accept, stop, next}
use lab_implementation.Shards.Ctrler.{Config, n_shards}
use lab_implementation.Shards.Kv.{
  Calls, Clerk, GetReply, key2shard, owners, get, get_verdict, ok, err_no_key, err_wrong_group,
}
use lab_implementation.Shards.Served.{Held, serve-Served, accept-injective}

key2shard-lt : (key : String) → key2shard key < n_shards
key2shard-lt String.[] = omega arith
key2shard-lt (String.◌∷◌ c key) = omega arith

-- Get returned v at Call number u: a server has answered so that is listed, in a configuration that the
-- clerk had, for the group with the shard of the key.
pub record GotFromOwner (calls : Calls) (key : String) (ck : Clerk) (t u : ℕ) (v : String)
    (new : Clerk) : Type 0 where
  pub config : Config
  pub since : ℕ
  pub late : t ≤ since
  pub held : Held calls ck t since config
  pub kept : new ≡ record ck { config = config }
  pub servers : List String
  pub in_range : key2shard key < n_shards
  pub owned : owners key config ≡ some servers
  pub i : ℕ
  pub name : String
  pub listed : get_elem? servers i ≡ some name
  pub s : ℕ
  pub after_config : since ≤ s
  pub last : suc s ≡ u
  pub reply : GetReply
  pub answered : calls.on_get s (ck.make_end name) (record { key = key }) ≡ some reply
  pub good : (reply.err ≡ ok) ⊎ (reply.err ≡ err_no_key)
  pub value : reply.value ≡ v

ite-accept :
    {A P : Type 0} (d : Dec P) (x a : A) {rest : Verdict A}
    → ite d (accept x) rest ≡ accept a
    → (P × (x ≡ a)) ⊎ (rest ≡ accept a)
ite-accept (yes p) x a h = inl (p, accept-injective x a h)
ite-accept (no p) x a h = inr h

ite-never : {A P : Type 0} (d : Dec P) (a : A) → ite d stop next ≡ accept a → ⊥
ite-never (yes p) a h = cc
ite-never (no p) a h = cc

get_verdict-accept :
    (r : GetReply) (v : String)
    → get_verdict r ≡ accept v
    → ((r.err ≡ ok) ⊎ (r.err ≡ err_no_key)) × (r.value ≡ v)
get_verdict-accept r v h = elim (ite-accept (string_discrete r.err ok) r.value v h) [
  | inl (e, same) ↦ (inl e, same)
  | inr rest ↦ elim (ite-accept (string_discrete r.err err_no_key) r.value v rest) [
    | inl (e, same) ↦ (inr e, same)
    | inr last ↦ absurd (ite-never (string_discrete r.err err_wrong_group) v last)
  ]
]

pub map-get_elem? :
    {A B : Type 0} (f : A → B) (xs : List A) (i : ℕ) (b : B)
    → get_elem? (map f xs) i ≡ some b
    → (a : A) × (get_elem? xs i ≡ some a) × (f a ≡ b)
map-get_elem? f [] i b h = cc
map-get_elem? f (x ∷ xs) zero b h = (x, refl, some-injective (f x) b h)
map-get_elem? f (x ∷ xs) (suc i) b h = map-get_elem? f xs i b h

-- A Get that returns v, in whatever way the network, the servers and the controller behave, has v from
-- a reply OK or ErrNoKey to its last Call, which it made to a server of the group that had the shard of
-- the key in the clerk's configuration; and this configuration is the one that the clerk began with or
-- one that a server of the controller has since given as the latest. The index of the shard is in range.
pub get-GotFromOwner :
    (calls : Calls) (key : String) (fuel : ℕ) (ck new : Clerk) (t u : ℕ) (v : String)
    → get calls key fuel ck t ≡ some (v, new, u)
    → GotFromOwner calls key ck t u v new
get-GotFromOwner calls key fuel ck new t u v h =
    let (k, same) =
      serve-Served calls (λ s e. calls.on_get s e (record { key = key })) get_verdict key fuel ck
        new t u v h in
    let (good, value) = get_verdict-accept k.accepted.reply v k.accepted.accepts in
    let (name, listed, made) =
      map-get_elem? ck.make_end k.servers k.accepted.i k.accepted.e k.accepted.listed in
    record {
      config = k.config;
      since = k.since;
      late = k.late;
      held = k.held;
      kept = same;
      servers = k.servers;
      in_range = key2shard-lt key;
      owned = k.owned;
      i = k.accepted.i;
      name = name;
      listed = listed;
      s = k.accepted.s;
      after_config = k.accepted.late;
      last = k.accepted.last;
      reply = k.accepted.reply;
      answered =
          ap (λ e. calls.on_get k.accepted.s e (record { key = key })) made ∙ k.accepted.answered;
      good = good;
      value = value;
    }
