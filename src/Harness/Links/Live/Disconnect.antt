-- ===== src/Harness/Links/Live/Disconnect.antt =====
-- config.go, disconnect: the invariant of the ends.
use lab_implementation.Common.{
  ℕ, ◌<◌, ◌≡◌, ◌≢◌, sym, ap, ◌∙◌, true, false, Option, String, update, update_other, ℕ_discrete,
  if_pos,
}
use lab_implementation.Labrpc.{Network, ClientEnd}
use lab_implementation.Harness.Links.{Harness, disconnect, enable_all}
use lab_implementation.Harness.Links.Loops.{Hit, on_after_off, on_before_off, enable_all-ends}
use lab_implementation.Harness.Links.Live.Wired.{wiring, names_of, Carries, IsWired}

module _ (i : ℕ) (cfg : Harness) (w : IsWired (wiring cfg)) (l : i < cfg.n) where
  outgoing : Network
  outgoing = enable_all false (λ _. cfg.made i) (cfg.endnames i) cfg.n cfg.net

  pub still_connected :
      (j : ℕ)
      → update ℕ_discrete cfg.connected i false j ≡ true
      → (i ≢ j) × (cfg.connected j ≡ true)
  still_connected j on = elim (ℕ_discrete i j) [
    | yes p ↦ let out = if_pos (ℕ_discrete i j) p false (cfg.connected j) in cc
    | no p ↦ (p, sym (update_other ℕ_discrete cfg.connected i false j p) ∙ on)
  ]

  disconnect-ends : (disconnect i cfg).net.ends ≡ cfg.net.ends
  disconnect-ends =
      enable_all-ends false cfg.made (λ j. cfg.endnames j i) cfg.n
        (enable_all false (λ _. cfg.made i) (cfg.endnames i) cfg.n cfg.net)
      ∙ enable_all-ends false (λ _. cfg.made i) (cfg.endnames i) cfg.n cfg.net

  module _ (a b : ℕ) (la : a < cfg.n) (lb : b < cfg.n) (on_a : cfg.connected a ≡ true) where
    not_outgoing : i ≢ a → ¬ Hit false (λ _. cfg.made i) (cfg.endnames i) cfg.n (cfg.endnames a b)
    not_outgoing p h = p (w.apart i h.at a b l h.known la lb h.flagged (w.joined a on_a) h.named).0

    not_incoming : i ≢ b → ¬ Hit false cfg.made (λ j. cfg.endnames j i) cfg.n (cfg.endnames a b)
    not_incoming p h = p (w.apart h.at i a b h.known l la lb h.flagged (w.joined a on_a) h.named).1

  stays_open :
      (a b : ℕ)
      → a < cfg.n
      → b < cfg.n
      → update ℕ_discrete cfg.connected i false a ≡ true
      → update ℕ_discrete cfg.connected i false b ≡ true
      → (disconnect i cfg).net.enabled (cfg.endnames a b) ≡ true
  stays_open a b la lb ca cb =
      let (pa, on_a) = still_connected a ca in
      let (pb, on_b) = still_connected b cb in
      on_after_off cfg.made (λ j. cfg.endnames j i) cfg.n _ (cfg.endnames a b)
        (not_incoming a b la lb on_a pb)
        (on_after_off (λ _. cfg.made i) (cfg.endnames i) cfg.n cfg.net (cfg.endnames a b)
          (not_outgoing a b la lb on_a pa) (w.open_between a b la lb on_a on_b))

  stays_on :
      (e : String) → (disconnect i cfg).net.enabled e ≡ true → Carries (wiring (disconnect i cfg)) e
  stays_on e on =
      let (no_in, mid) = on_before_off cfg.made (λ j. cfg.endnames j i) cfg.n _ e on in
      let (no_out, old) = on_before_off (λ _. cfg.made i) (cfg.endnames i) cfg.n cfg.net e mid in
      let c = w.only e old in
      record {
        source = c.source;
        target = c.target;
        source_known = c.source_known;
        target_known = c.target_known;
        source_connected =
            update_other ℕ_discrete cfg.connected i false c.source (λ p. no_out (record {
              at = c.target;
              known = c.target_known;
              flagged = ap cfg.made p ∙ w.joined c.source c.source_connected;
              named = ap (λ x. cfg.endnames x c.target) p ∙ c.named;
            }))
            ∙ c.source_connected;
        target_connected =
            update_other ℕ_discrete cfg.connected i false c.target (λ p. no_in (record {
              at = c.source;
              known = c.source_known;
              flagged = w.joined c.source c.source_connected;
              named = ap (cfg.endnames c.source) p ∙ c.named;
            }))
            ∙ c.target_connected;
        named = c.named;
      }

  pub disconnect-IsWired : IsWired (wiring (disconnect i cfg))
  disconnect-IsWired = record {
    joined = λ j c. w.joined j (still_connected j c).1;
    present = λ a b la lb m q.
        w.present a b la lb m
          (sym (ap (λ (f : String → Option ClientEnd). f (cfg.endnames a b)) disconnect-ends) ∙ q);
    apart = w.apart;
    open_between = stays_open;
    only = stays_on;
  }

  pub disconnect-names : names_of (wiring (disconnect i cfg)) ≡ names_of (wiring cfg)
  disconnect-names =
      ap (λ (x : String → Option ClientEnd). record (names_of (wiring cfg)) { ends = x })
        disconnect-ends
