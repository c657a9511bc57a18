-- ===== src/KvRaft/Config/Started.antt =====
-- config.go, makeClient and StartServer: new names, and the others as they were.
use lab_implementation.Common.{
  ℕ, zero, suc, ◌<◌, ◌≡◌, ◌≢◌, ◌⊎◌, inl, inr, refl, sym, ap, subst, ◌∙◌, Bool, Option, none, some,
  List, String, update, update_other, ℕ_discrete, some-injective, if_pos, ltb, Bool-cases, if_true,
  if_false, arith,
}
use lab_implementation.Labrpc.{Network}
use lab_implementation.Harness.Links.{make_ends}
use lab_implementation.Harness.Links.Ends.{and_then-some, make_ends-Grown}
use lab_implementation.KvRaft.Config.{
  Config, make_client, delete_client, renewed, start_server, start_each, blank_config, connect_all,
  make_config, all,
}
use lab_implementation.KvRaft.Config.Names.{
  Owner, server, clerk, Registry, registry, names_of, IsNamed, renamed-IsNamed, forgotten-IsNamed,
}
use lab_implementation.KvRaft.Config.Keeps.{
  connect_client-registry, fresh_disk-registry, connect_each-registry,
}

-- Every server below k has names.
abbrev pub Started : ℕ → Registry → Type 0
Started k r = (i : ℕ) → i < k → (f : ℕ → String) × (r.endnames i ≡ some f)

clerk-injective : (c d : ℕ) → clerk c ≡ clerk d → c ≡ d
clerk-injective c d e = cc

pub server-injective : (c d : ℕ) → server c ≡ server d → c ≡ d
server-injective c d e = cc

abbrev with_client : ℕ → (ℕ → String) → Network → Config → Config
with_client ck name net cfg = record cfg {
  net = net;
  clerks = update ℕ_discrete cfg.clerks ck (some name);
  next_client_id = suc cfg.next_client_id;
}

client_lem :
    (ck : ℕ) (name : ℕ → String) (net : Network) (cfg : Config) (q : Owner)
    → ((clerk ck ≡ q) × (names_of (registry (with_client ck name net cfg)) q ≡ some name))
      ⊎ ((clerk ck ≢ q)
          × (names_of (registry (with_client ck name net cfg)) q ≡ names_of (registry cfg) q))
client_lem ck name net cfg (server i) = inr (λ e. cc, refl)
client_lem ck name net cfg (clerk c) = elim (ℕ_discrete ck c) [
  | yes p ↦ inl (ap clerk p, if_pos (ℕ_discrete ck c) p (some name) (cfg.clerks c))
  | no p ↦
      inr (λ e. p (clerk-injective ck c e), update_other ℕ_discrete cfg.clerks ck (some name) c p)
]

make_client-registry :
    (ck : ℕ) (name : ℕ → String) (to : List ℕ) (cfg new : Config)
    → make_client ck name to cfg ≡ some new
    → (net : Network) × (make_ends name cfg.n cfg.net ≡ some net)
      × (registry new ≡ registry (with_client ck name net cfg))
make_client-registry ck name to cfg new h =
    let (net, made, rest) = and_then-some (make_ends name cfg.n cfg.net) _ h in
    (net, made, connect_client-registry ck to (with_client ck name net cfg) new rest)

pub make_client-IsNamed :
    (ck : ℕ) (name : ℕ → String) (to : List ℕ) (cfg new : Config)
    → make_client ck name to cfg ≡ some new
    → IsNamed (registry cfg)
    → IsNamed (registry new)
make_client-IsNamed ck name to cfg new h w =
    let (net, made, same) = make_client-registry ck name to cfg new h in
    subst IsNamed (sym same) (
      renamed-IsNamed (clerk ck) name cfg.net net (registry cfg)
        (registry (with_client ck name net cfg)) w refl refl refl
        (make_ends-Grown name cfg.n cfg.net net made) (client_lem ck name net cfg))

pub make_client-Started :
    (ck : ℕ) (name : ℕ → String) (to : List ℕ) (k : ℕ) (cfg new : Config)
    → make_client ck name to cfg ≡ some new
    → Started k (registry cfg)
    → Started k (registry new)
make_client-Started ck name to k cfg new h st =
    let (net, made, same) = make_client-registry ck name to cfg new h in
    subst (Started k) (sym same) st

pub make_client-n :
    (ck : ℕ) (name : ℕ → String) (to : List ℕ) (cfg new : Config)
    → make_client ck name to cfg ≡ some new
    → new.n ≡ cfg.n
make_client-n ck name to cfg new h =
    let (net, made, same) = make_client-registry ck name to cfg new h in
    ap (λ (r : Registry). r.n) same

pub server_ne_clerk : (a c : ℕ) → server a ≢ clerk c
server_ne_clerk a c e = cc

pub delete_client-IsNamed :
    (ck : ℕ) (cfg : Config) → IsNamed (registry cfg) → IsNamed (registry (delete_client ck cfg))
delete_client-IsNamed ck cfg w =
    forgotten-IsNamed (registry cfg) (registry (delete_client ck cfg)) w refl refl back
  where
    back :
        (q : Owner) (f : ℕ → String)
        → names_of (registry (delete_client ck cfg)) q ≡ some f
        → names_of (registry cfg) q ≡ some f
    back (server i) f h = h
    back (clerk c) f h = elim (ℕ_discrete ck c) [
      | yes p ↦ let gone = sym (if_pos (ℕ_discrete ck c) p none (cfg.clerks c)) ∙ h in absurd (cc)
      | no p ↦ sym (update_other ℕ_discrete cfg.clerks ck none c p) ∙ h
    ]

abbrev with_server : ℕ → (ℕ → String) → Network → Config → Config
with_server i name net cfg = record cfg {
  endnames = update ℕ_discrete cfg.endnames i (some name);
  net = net;
}

server_lem :
    (i : ℕ) (name : ℕ → String) (net : Network) (cfg : Config) (q : Owner)
    → ((server i ≡ q) × (names_of (registry (with_server i name net cfg)) q ≡ some name))
      ⊎ ((server i ≢ q)
          × (names_of (registry (with_server i name net cfg)) q ≡ names_of (registry cfg) q))
server_lem i name net cfg (clerk c) = inr (λ e. cc, refl)
server_lem i name net cfg (server j) = elim (ℕ_discrete i j) [
  | yes p ↦ inl (ap server p, if_pos (ℕ_discrete i j) p (some name) (cfg.endnames j))
  | no p ↦
      inr (λ e. p (server-injective i j e), update_other ℕ_discrete cfg.endnames i (some name) j p)
]

start_server-registry :
    (i : ℕ) (name : ℕ → String) (srv : ℕ) (cfg new : Config)
    → start_server i name srv cfg ≡ some new
    → (net : Network) × (make_ends name cfg.n cfg.net ≡ some net)
      × (registry new ≡ registry (with_server i name net cfg))
start_server-registry i name srv cfg new h = elim (Bool-cases (ltb i cfg.n)) [
  | inl low ↦
      let (net, made, last) =
        and_then-some (make_ends name cfg.n cfg.net) _ (sym (if_true _ none low) ∙ h) in
      (
        net,
        made,
        ap registry (sym (some-injective _ _ last))
            ∙ fresh_disk-registry i (cfg.saved i) (with_server i name net cfg),
      )
  | inr high ↦ let out = sym (if_false (renewed i name srv cfg) none high) ∙ h in absurd (cc)
]

pub start_server-IsNamed :
    (i : ℕ) (name : ℕ → String) (srv : ℕ) (cfg new : Config)
    → start_server i name srv cfg ≡ some new
    → IsNamed (registry cfg)
    → IsNamed (registry new)
start_server-IsNamed i name srv cfg new h w =
    let (net, made, same) = start_server-registry i name srv cfg new h in
    subst IsNamed (sym same) (
      renamed-IsNamed (server i) name cfg.net net (registry cfg)
        (registry (with_server i name net cfg)) w refl refl refl
        (make_ends-Grown name cfg.n cfg.net net made) (server_lem i name net cfg))

-- The server itself has names afterwards, and those that had some still have.
pub start_server-Started :
    (i : ℕ) (name : ℕ → String) (srv k : ℕ) (cfg new : Config)
    → start_server i name srv cfg ≡ some new
    → ((j : ℕ) → j < k → (i ≡ j) ⊎ ((f : ℕ → String) × (cfg.endnames j ≡ some f)))
    → Started k (registry new)
start_server-Started i name srv k cfg new h st =
    let (net, made, same) = start_server-registry i name srv cfg new h in
    subst (Started k) (sym same) λ j l. elim (ℕ_discrete i j) [
      | yes p ↦ (name, if_pos (ℕ_discrete i j) p (some name) (cfg.endnames j))
      | no p ↦ elim (st j l) [
        | inl q ↦ absurd (p q)
        | inr (f, e) ↦ (f, update_other ℕ_discrete cfg.endnames i (some name) j p ∙ e)
      ]
    ]

pub start_server-n :
    (i : ℕ) (name : ℕ → String) (srv : ℕ) (cfg new : Config)
    → start_server i name srv cfg ≡ some new
    → new.n ≡ cfg.n
start_server-n i name srv cfg new h =
    let (net, made, same) = start_server-registry i name srv cfg new h in
    ap (λ (r : Registry). r.n) same

blank-IsNamed : (n : ℕ) (m : Option ℕ) → IsNamed (registry (blank_config n m))
blank-IsNamed n m = record {
  present = λ o f j h. absurd (nothing o f h);
  apart = λ o q f g j k h. absurd (nothing o f h);
}
  where
    nothing : (o : Owner) (f : ℕ → String) → ¬ (names_of (registry (blank_config n m)) o ≡ some f)
    nothing (server i) f h = cc
    nothing (clerk c) f h = cc

start_each-IsNamed :
    (name : ℕ → ℕ → String) (srv : ℕ → ℕ) (k : ℕ) (cfg new : Config)
    → start_each name srv k cfg ≡ some new
    → IsNamed (registry cfg)
    → IsNamed (registry new) × Started k (registry new) × (new.n ≡ cfg.n)
start_each-IsNamed name srv zero cfg new h w =
    let same = some-injective cfg new h in
    (
      subst (λ c. IsNamed (registry c)) same w,
      λ i l. absurd (omega (arith, l)),
      ap (λ (c : Config). c.n) (sym same),
    )
start_each-IsNamed name srv (suc k) cfg new h w =
    let (mid, first, last) = and_then-some (start_each name srv k cfg) _ h in
    let (v, st, n_same) = start_each-IsNamed name srv k cfg mid first w in
    (
      start_server-IsNamed k (name k) (srv k) mid new last v,
      start_server-Started k (name k) (srv k) (suc k) mid new last (λ j l. elim (ℕ_discrete k j) [
        | yes p ↦ inl p
        | no p ↦ inr (st j (omega (arith, l, p)))
      ]),
      start_server-n k (name k) (srv k) mid new last ∙ n_same,
    )

-- make_config gives every server its names.
pub make_config-IsNamed :
    (n : ℕ) (unreliable : Bool) (m : Option ℕ) (name : ℕ → ℕ → String) (srv : ℕ → ℕ) (cfg : Config)
    → make_config n unreliable m name srv ≡ some cfg
    → IsNamed (registry cfg) × Started n (registry cfg) × (cfg.n ≡ n)
make_config-IsNamed n unreliable m name srv cfg h =
    let (mid, first, rest) = and_then-some (start_each name srv n (blank_config n m)) _ h in
    let (w, st, n_same) =
      start_each-IsNamed name srv n (blank_config n m) mid first (blank-IsNamed n m) in
    let (joined, next, last) = and_then-some (connect_all mid) _ rest in
    let same =
      ap registry (sym (some-injective _ _ last))
      ∙ connect_each-registry (all mid) (all mid) mid joined next in
    (
      subst IsNamed (sym same) w,
      subst (Started n) (sym same) st,
      ap (λ (r : Registry). r.n) same ∙ n_same,
    )
