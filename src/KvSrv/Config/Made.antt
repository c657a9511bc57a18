-- ===== src/KvSrv/Config/Made.antt =====
-- config.go, makeClient: every clerk still reaches the server.
use lab_implementation.Common.{
  ℕ, ◌≡◌, ◌≢◌, ◌⊎◌, ◌+◌, sym, ap, subst, ◌∙◌, true, false, Option, none, some, inl, inr, String,
  update, update_self, update_other, if_pos, string_discrete, ℕ_discrete, some-injective,
}
use lab_implementation.Labrpc.{Network, ClientEnd, new_end, connect, enable}
use lab_implementation.KvSrv.{or_empty}
use lab_implementation.KvSrv.Config.{Config, with_net, made_client}
use lab_implementation.KvSrv.Config.Served.{IsRouted, IsServed}

-- The network and the harness after makeClient.
abbrev pub with_client_end : String → Network → Network
with_client_end e net = enable e true (
    connect e 0 (record net {
      ends = update string_discrete net.ends e (some (record { endname = e }));
      enabled = update string_discrete net.enabled e false;
      connections = update string_discrete net.connections e none;
    }))

abbrev pub client_made : ℕ → String → Config → Config
client_made ck e cfg = with_net (with_client_end e cfg.memory.network) (record cfg {
  clerks = update ℕ_discrete cfg.clerks ck (some e);
  next_client_id = cfg.next_client_id + 1;
})

pub make_client-some :
    (ck : ℕ) (e : String) (cfg new : Config) (o : Option ClientEnd)
    → cfg.memory.network.ends e ≡ o
    → made_client ck e cfg (new_end e cfg.memory.network o) ≡ some new
    → (cfg.memory.network.ends e ≡ none) × (client_made ck e cfg ≡ new)
make_client-some ck e cfg new (some c) absent h = cc
make_client-some ck e cfg new none absent h = (
  absent,
  ap
        (λ n.
          with_net
            (enable (or_empty n) true (
              connect e 0 (record (cfg.memory.network) {
                ends =
                    update string_discrete cfg.memory.network.ends e
                      (some (record { endname = e }));
                enabled = update string_discrete cfg.memory.network.enabled e false;
                connections = update string_discrete cfg.memory.network.connections e none;
              })))
            (record cfg {
              clerks = update ℕ_discrete cfg.clerks ck (some e);
              next_client_id = cfg.next_client_id + 1;
            }))
        (sym (update_self ℕ_discrete cfg.clerks ck (some e)))
      ∙ some-injective _ _ h,
)

module _ (srv ck : ℕ) (e : String) (cfg : Config) (w : IsServed srv cfg)
    (fresh : cfg.memory.network.ends e ≡ none) where
  IsRouted-now : IsRouted e (with_client_end e cfg.memory.network)
  IsRouted-now = record {
    on =
        update_self string_discrete (update string_discrete cfg.memory.network.enabled e false) e
          true;
    target =
        update_self string_discrete (update string_discrete cfg.memory.network.connections e none) e
          (some 0);
    there = λ q.
        let x =
          sym
            (update_self string_discrete cfg.memory.network.ends e (some (record { endname = e })))
          ∙ q in
        cc;
  }

  IsRouted-before :
      (x : String)
      → IsRouted x cfg.memory.network
      → IsRouted x (with_client_end e cfg.memory.network)
  IsRouted-before x r =
      let other : e ≢ x = λ p. r.there (ap cfg.memory.network.ends (sym p) ∙ fresh) in
      record {
        on =
            update_other string_discrete (update string_discrete cfg.memory.network.enabled e false)
              e true x other
            ∙ update_other string_discrete cfg.memory.network.enabled e false x other
            ∙ r.on;
        target =
            update_other string_discrete
              (update string_discrete cfg.memory.network.connections e none) e (some 0) x other
            ∙ update_other string_discrete cfg.memory.network.connections e none x other
            ∙ r.target;
        there = λ q.
            r.there (sym (update_other string_discrete cfg.memory.network.ends e _ x other) ∙ q);
      }

  leads_then :
      (x : String) (name : ℕ)
      → (with_client_end e cfg.memory.network).connections x ≡ some name
      → 0 ≡ name
  leads_then x name h = elim (string_discrete e x) [
    | yes p ↦ some-injective _ _ (sym (if_pos (string_discrete e x) p (some 0) _) ∙ h)
    | no p ↦ w.leads x name (
        sym (
          update_other string_discrete
            (update string_discrete cfg.memory.network.connections e none) e (some 0) x p
          ∙ update_other string_discrete cfg.memory.network.connections e none x p)
        ∙ h)
  ]

  -- A clerk of the new map is the new one with the new end, or an old one.
  of_clerk :
      (c : ℕ) (x : String)
      → update ℕ_discrete cfg.clerks ck (some e) c ≡ some x
      → ((ck ≡ c) × (e ≡ x)) ⊎ ((ck ≢ c) × (cfg.clerks c ≡ some x))
  of_clerk c x h = elim (ℕ_discrete ck c) [
    | yes p ↦
        inl (p, some-injective _ _ (sym (if_pos (ℕ_discrete ck c) p (some e) (cfg.clerks c)) ∙ h))
    | no p ↦ inr (p, sym (update_other ℕ_discrete cfg.clerks ck (some e) c p) ∙ h)
  ]

  new_name : (c : ℕ) (x : String) → cfg.clerks c ≡ some x → e ≢ x
  new_name c x h p = (w.routed c x h).there (ap cfg.memory.network.ends (sym p) ∙ fresh)

  IsRouted-then :
      (c : ℕ) (x : String)
      → update ℕ_discrete cfg.clerks ck (some e) c ≡ some x
      → IsRouted x (with_client_end e cfg.memory.network)
  IsRouted-then c x h = elim (of_clerk c x h) [
    | inl (_, p) ↦ subst (λ y. IsRouted y (with_client_end e cfg.memory.network)) p IsRouted-now
    | inr (_, old) ↦ IsRouted-before x (w.routed c x old)
  ]

  apart_then :
      (c d : ℕ) (x : String)
      → update ℕ_discrete cfg.clerks ck (some e) c ≡ some x
      → update ℕ_discrete cfg.clerks ck (some e) d ≡ some x
      → c ≡ d
  apart_then c d x h k = elim (of_clerk c x h) [
    | inl (p, q) ↦ elim (of_clerk d x k) [
      | inl (r, _) ↦ sym p ∙ r
      | inr (_, old) ↦ absurd (new_name d x old q)
    ]
    | inr (_, old) ↦ elim (of_clerk d x k) [
      | inl (_, q) ↦ absurd (new_name c x old q)
      | inr (_, too) ↦ w.apart c d x old too
    ]
  ]

  pub client_made-IsServed : "" ≢ e → IsServed srv (client_made ck e cfg)
  client_made-IsServed full = record {
    leads = leads_then;
    placed = w.placed;
    service = w.service;
    routed = IsRouted-then;
    apart = apart_then;
    named = λ c x h. elim (of_clerk c x h) [
      | inl (_, q) ↦ λ p. full (p ∙ sym q)
      | inr (_, old) ↦ w.named c x old
    ];
  }
