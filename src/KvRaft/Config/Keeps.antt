-- ===== src/KvRaft/Config/Keeps.antt =====
-- config.go: what keeps the names of all ends.
use lab_implementation.Common.{
  ℕ, ◌≡◌, refl, sym, ap, ◌∙◌, Bool, true, false, Option, none, some, List, [], ◌∷◌, String,
  some-injective, Bool-cases, if_true, if_false, ltb, inl, inr,
}
use lab_implementation.Labrpc.{Network, ClientEnd, delete_server}
use lab_implementation.Harness.Links.{and_then}
use lab_implementation.Harness.Links.Ends.{and_then-some}
use lab_implementation.KvRaft.Config.{
  Config, enable_each, connect_unlocked, disconnect_unlocked, connect_each, split_off, partition,
  connect_client, disconnect_client, copy_saved, fresh_disk, isolated, shutdown_server, all,
}
use lab_implementation.KvRaft.Config.Switches.{enable_each-ends}
use lab_implementation.KvRaft.Config.Names.{registry}

with_ends_same :
    (cfg : Config) (net : Network)
    → net.ends ≡ cfg.net.ends
    → registry (record cfg { net = net }) ≡ registry cfg
with_ends_same cfg net e =
    ap (λ (x : String → Option ClientEnd). record (registry cfg) { ends = x }) e

-- One loop, and two of them.
one_loop-registry :
    (b : Bool) (name : ℕ → ℕ → Option (Option String)) (l : List ℕ) (cfg new : Config)
    → and_then (enable_each b name 0 l cfg.net) (λ net. some (record cfg { net = net })) ≡ some new
    → registry new ≡ registry cfg
one_loop-registry b name l cfg new h =
    let (net, run, last) = and_then-some (enable_each b name 0 l cfg.net) _ h in
    ap registry (sym (some-injective _ _ last))
    ∙ with_ends_same cfg net (enable_each-ends b name 0 l cfg.net net run)

two_loops-registry :
    (b : Bool) (name next : ℕ → ℕ → Option (Option String)) (l : List ℕ) (cfg new : Config)
    → and_then
        (enable_each b name 0 l cfg.net)
        (λ mid. and_then (enable_each b next 0 l mid) (λ net. some (record cfg { net = net })))
      ≡ some new
    → registry new ≡ registry cfg
two_loops-registry b name next l cfg new h =
    let (mid, run, rest) = and_then-some (enable_each b name 0 l cfg.net) _ h in
    one_loop-registry b next l (record cfg { net = mid }) new rest
    ∙ with_ends_same cfg mid (enable_each-ends b name 0 l cfg.net mid run)

pub connect_unlocked-registry :
    (i : ℕ) (l : List ℕ) (cfg new : Config)
    → connect_unlocked i l cfg ≡ some new
    → registry new ≡ registry cfg
connect_unlocked-registry i l cfg new h = two_loops-registry true _ _ l cfg new h

pub disconnect_unlocked-registry :
    (i : ℕ) (l : List ℕ) (cfg new : Config)
    → disconnect_unlocked i l cfg ≡ some new
    → registry new ≡ registry cfg
disconnect_unlocked-registry i l cfg new h = two_loops-registry false _ _ l cfg new h

pub connect_each-registry :
    (is to : List ℕ) (cfg new : Config)
    → connect_each is to cfg ≡ some new
    → registry new ≡ registry cfg
connect_each-registry [] to cfg new h = ap registry (sym (some-injective _ _ h))
connect_each-registry (i ∷ is) to cfg new h =
    let (mid, run, rest) = and_then-some (connect_unlocked i to cfg) _ h in
    connect_each-registry is to mid new rest ∙ connect_unlocked-registry i to cfg mid run

split_off-registry :
    (own others is : List ℕ) (cfg new : Config)
    → split_off own others is cfg ≡ some new
    → registry new ≡ registry cfg
split_off-registry own others [] cfg new h = ap registry (sym (some-injective _ _ h))
split_off-registry own others (i ∷ is) cfg new h =
    let (cut, run, rest) = and_then-some (disconnect_unlocked i others cfg) _ h in
    let (joined, next, last) = and_then-some (connect_unlocked i own cut) _ rest in
    split_off-registry own others is joined new last
    ∙ connect_unlocked-registry i own cut joined next
    ∙ disconnect_unlocked-registry i others cfg cut run

pub partition-registry :
    (p1 p2 : List ℕ) (cfg new : Config)
    → partition p1 p2 cfg ≡ some new
    → registry new ≡ registry cfg
partition-registry p1 p2 cfg new h =
    let (half, run, rest) = and_then-some (split_off p1 p2 p1 cfg) _ h in
    split_off-registry p2 p1 p2 half new rest ∙ split_off-registry p1 p2 p1 cfg half run

pub connect_client-registry :
    (ck : ℕ) (l : List ℕ) (cfg new : Config)
    → connect_client ck l cfg ≡ some new
    → registry new ≡ registry cfg
connect_client-registry ck l cfg new h = one_loop-registry true _ l cfg new h

pub disconnect_client-registry :
    (ck : ℕ) (l : List ℕ) (cfg new : Config)
    → disconnect_client ck l cfg ≡ some new
    → registry new ≡ registry cfg
disconnect_client-registry ck l cfg new h = one_loop-registry false _ l cfg new h

copy_saved-registry :
    (i : ℕ) (o : Option ℕ) (cfg : Config) → registry (copy_saved i o cfg) ≡ registry cfg
copy_saved-registry i none cfg = refl
copy_saved-registry i (some a) cfg = refl

pub fresh_disk-registry :
    (i : ℕ) (o : Option ℕ) (cfg : Config) → registry (fresh_disk i o cfg) ≡ registry cfg
fresh_disk-registry i none cfg = refl
fresh_disk-registry i (some a) cfg = refl

isolated-registry :
    (i : ℕ) (cfg new : Config) → isolated i cfg ≡ some new → registry new ≡ registry cfg
isolated-registry i cfg new h =
    let (off, run, last) = and_then-some (disconnect_unlocked i (all cfg) cfg) _ h in
    ap registry (sym (some-injective _ _ last))
    ∙ copy_saved-registry i (off.saved i) (record off { net = delete_server i off.net })
    ∙ disconnect_unlocked-registry i (all cfg) cfg off run

pub shutdown_server-registry :
    (i : ℕ) (cfg new : Config) → shutdown_server i cfg ≡ some new → registry new ≡ registry cfg
shutdown_server-registry i cfg new h = elim (Bool-cases (ltb i cfg.n)) [
  | inl e ↦ isolated-registry i cfg new (sym (if_true _ none e) ∙ h)
  | inr e ↦ let out = sym (if_false (isolated i cfg) none e) ∙ h in absurd (cc)
]
