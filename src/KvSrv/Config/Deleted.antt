-- ===== src/KvSrv/Config/Deleted.antt =====
-- config.go, deleteClient: every clerk that is left still reaches the server.
use lab_implementation.Common.{
  ℕ, ◌≡◌, ◌≢◌, sym, ap, ◌∙◌, false, Option, none, some, Option-cases, inl, inr, String, update,
  update_other, if_pos, string_discrete, ℕ_discrete, some-injective,
}
use lab_implementation.Labrpc.{Network, ClientEnd, drop_end}
use lab_implementation.KvSrv.{or_empty}
use lab_implementation.KvSrv.Config.{Config, with_net, deleted_client}
use lab_implementation.KvSrv.Config.Served.{IsServed}

-- The network after DeleteEnd.
abbrev pub without_end : String → Network → Network
without_end e net = record net {
  ends = update string_discrete net.ends e none;
  enabled = update string_discrete net.enabled e false;
  connections = update string_discrete net.connections e none;
}

abbrev pub client_deleted : ℕ → Config → Config
client_deleted ck cfg =
    with_net (without_end (or_empty (cfg.clerks ck)) cfg.memory.network)
      (record cfg { clerks = update ℕ_discrete cfg.clerks ck none })

pub delete_client-some :
    (ck : ℕ) (cfg new : Config) (o : Option ClientEnd)
    → deleted_client ck cfg (drop_end (or_empty (cfg.clerks ck)) cfg.memory.network o) ≡ some new
    → client_deleted ck cfg ≡ new
delete_client-some ck cfg new none h = cc
delete_client-some ck cfg new (some c) h = some-injective _ _ h

module _ (srv ck : ℕ) (cfg : Config) (w : IsServed srv cfg) where
  -- A clerk that stays, and its end.
  other_clerk :
      (c : ℕ) (x : String)
      → update ℕ_discrete cfg.clerks ck none c ≡ some x
      → (or_empty (cfg.clerks ck) ≢ x) × (cfg.clerks c ≡ some x)
  other_clerk c x h = elim (ℕ_discrete ck c) [
    | yes p ↦ let gone = sym (if_pos (ℕ_discrete ck c) p none (cfg.clerks c)) ∙ h in absurd (cc)
    | no p ↦
        let old = sym (update_other ℕ_discrete cfg.clerks ck none c p) ∙ h in
        (
          elim (Option-cases (cfg.clerks ck)) [
            | inl none_there ↦ λ q. w.named c x old (sym (ap or_empty none_there) ∙ q)
            | inr (y, here) ↦
                λ q. p (w.apart ck c x (here ∙ ap some (sym (ap or_empty here) ∙ q)) old)
          ],
          old,
        )
  ]

  deleted-leads :
      (x : String) (name : ℕ)
      → (without_end (or_empty (cfg.clerks ck)) cfg.memory.network).connections x ≡ some name
      → 0 ≡ name
  deleted-leads x name h = elim (string_discrete (or_empty (cfg.clerks ck)) x) [
    | yes p ↦
        let gone =
          sym (
            if_pos (string_discrete (or_empty (cfg.clerks ck)) x) p none
              (cfg.memory.network.connections x))
          ∙ h in
        absurd (cc)
    | no p ↦ w.leads x name (
        sym (
          update_other string_discrete cfg.memory.network.connections (or_empty (cfg.clerks ck))
            none x p)
        ∙ h)
  ]

  pub client_deleted-IsServed : IsServed srv (client_deleted ck cfg)
  client_deleted-IsServed = record {
    leads = deleted-leads;
    placed = w.placed;
    service = w.service;
    routed = λ c x h.
        let (other, old) = other_clerk c x h in
        let r = w.routed c x old in
        record {
          on = update_other string_discrete cfg.memory.network.enabled _ false x other ∙ r.on;
          target =
              update_other string_discrete cfg.memory.network.connections _ none x other ∙ r.target;
          there = λ q.
              r.there
                (sym (update_other string_discrete cfg.memory.network.ends _ none x other) ∙ q);
        };
    apart = λ c d x h k. w.apart c d x (other_clerk c x h).1 (other_clerk d x k).1;
    named = λ c x h. w.named c x (other_clerk c x h).1;
  }
