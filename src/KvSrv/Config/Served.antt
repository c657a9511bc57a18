-- ===== src/KvSrv/Config/Served.antt =====
-- config.go: every clerk that the tests have made reaches the server.
use lab_implementation.Common.{
  ℕ, ◌≡◌, ◌≢◌, refl, ap, ◌∙◌, Bool, true, none, some, String, update_self, update_other, if_pos,
  string_discrete, ℕ_discrete,
}
use lab_implementation.Labrpc.{Network, enable}
use lab_implementation.Labrpc.Service.{Server, make_server, add_service}
use lab_implementation.KvSrv.{KvServer, or_empty}
use lab_implementation.KvSrv.Calls.{Message, kv_service}
use lab_implementation.KvSrv.Config.{Config, make_config, connect_client}

-- The clerk's end is on, and leads to the name 0.
pub record IsRouted (e : String) (net : Network) : Type 0 where
  pub on : net.enabled e ≡ true
  pub target : net.connections e ≡ some 0
  pub there : net.ends e ≢ none

pub record IsServed (srv : ℕ) (cfg : Config) : Type 0 where
  pub leads : (e : String) (name : ℕ) → cfg.memory.network.connections e ≡ some name → 0 ≡ name
  pub placed : cfg.memory.network.servers 0 ≡ some srv
  pub service : (cfg.memory.heap srv).services "KVServer" ≡ some kv_service
  pub routed : (ck : ℕ) (e : String) → cfg.clerks ck ≡ some e → IsRouted e cfg.memory.network
  pub apart : (c d : ℕ) (e : String) → cfg.clerks c ≡ some e → cfg.clerks d ≡ some e → c ≡ d
  pub named : (ck : ℕ) (e : String) → cfg.clerks ck ≡ some e → "" ≢ e

pub make_config-IsServed : (unreliable : Bool) (srv : ℕ) → IsServed srv (make_config unreliable srv)
unfolding string_discrete ℕ_discrete
make_config-IsServed unreliable srv = record {
  leads = λ e name h. absurd (cc);
  placed = refl;
  service =
      ap (λ (x : Server KvServer Message). x.services "KVServer")
        (update_self ℕ_discrete (λ _. make_server) srv (add_service kv_service make_server))
      ∙ update_self string_discrete (λ _. none) "KVServer" (some kv_service);
  routed = λ ck e h. absurd (cc);
  apart = λ c d e h. absurd (cc);
  named = λ ck e h. absurd (cc);
}

pub connect_client-IsServed :
    (srv ck : ℕ) (cfg : Config) → IsServed srv cfg → IsServed srv (connect_client ck cfg)
connect_client-IsServed srv ck cfg w = record {
  leads = w.leads;
  placed = w.placed;
  service = w.service;
  routed = λ c e h.
      let r = w.routed c e h in
      record {
        on = switched_on (or_empty (cfg.clerks ck)) e cfg.memory.network r.on;
        target = r.target;
        there = r.there;
      };
  apart = w.apart;
  named = w.named;
}
  where
    switched_on :
        (x e : String) (net : Network) → net.enabled e ≡ true → (enable x true net).enabled e ≡ true
    switched_on x e net on = elim (string_discrete x e) [
      | yes p ↦ if_pos (string_discrete x e) p true (net.enabled e)
      | no p ↦ update_other string_discrete net.enabled x true e p ∙ on
    ]
