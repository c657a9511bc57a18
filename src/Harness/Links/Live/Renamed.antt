-- ===== src/Harness/Links/Live/Renamed.antt =====
-- config.go, start1: the invariant of the ends when a server gets new names.
use lab_implementation.Common.{
  ℕ, ◌<◌, ◌≡◌, ◌≢◌, sym, ap, ◌∙◌, true, false, none, String, update, update_other, ℕ_discrete,
  if_pos,
}
use lab_implementation.Labrpc.{Network}
use lab_implementation.Harness.Links.{Harness, with_ends}
use lab_implementation.Harness.Links.Ends.{Grown}
use lab_implementation.Harness.Links.Live.Wired.{IsRetired, names_of, wiring, Carries, IsWired}

module _ (i : ℕ) (name : ℕ → String) (cfg : Harness) (net : Network) (w : IsWired (wiring cfg))
    (l : i < cfg.n) (off : cfg.connected i ≡ false) (g : Grown name cfg.n cfg.net net) where
  names : ℕ → ℕ → String
  names = update ℕ_discrete cfg.endnames i name

  own : (a : ℕ) → i ≡ a → names a ≡ name
  unfolding names
  own a p = if_pos (ℕ_discrete i a) p name (cfg.endnames a)

  others : (a : ℕ) → i ≢ a → names a ≡ cfg.endnames a
  unfolding names
  others a p = update_other ℕ_discrete cfg.endnames i name a p

  is_other : (a : ℕ) → cfg.connected a ≡ true → i ≢ a
  is_other a on p = let same = ap cfg.connected p in cc

  others_made : (a : ℕ) → i ≢ a → update ℕ_discrete cfg.made i true a ≡ true → cfg.made a ≡ true
  others_made a p m = sym (update_other ℕ_discrete cfg.made i true a p) ∙ m

  joined_then : (a : ℕ) → cfg.connected a ≡ true → update ℕ_discrete cfg.made i true a ≡ true
  joined_then a on = update_other ℕ_discrete cfg.made i true a (is_other a on) ∙ w.joined a on

  present_then :
      (a b : ℕ)
      → a < cfg.n
      → b < cfg.n
      → update ℕ_discrete cfg.made i true a ≡ true
      → net.ends (names a b) ≢ none
  present_then a b la lb m q = elim (ℕ_discrete i a) [
    | yes p ↦ g.added b lb (ap (λ (f : ℕ → String). net.ends (f b)) (sym (own a p)) ∙ q)
    | no p ↦
        g.kept (cfg.endnames a b) (w.present a b la lb (others_made a p m))
          (ap (λ (f : ℕ → String). net.ends (f b)) (sym (others a p)) ∙ q)
  ]

  -- A new name is no name of another server.
  new_is_new :
      (j c d : ℕ)
      → j < cfg.n
      → c < cfg.n
      → d < cfg.n
      → cfg.made c ≡ true
      → name j ≢ cfg.endnames c d
  new_is_new j c d lj lc ld m p = w.present c d lc ld m (ap cfg.net.ends (sym p) ∙ g.unused j lj)

  apart_then :
      (a b c d : ℕ)
      → a < cfg.n
      → b < cfg.n
      → c < cfg.n
      → d < cfg.n
      → update ℕ_discrete cfg.made i true a ≡ true
      → update ℕ_discrete cfg.made i true c ≡ true
      → names a b ≡ names c d
      → (a ≡ c) × (b ≡ d)
  apart_then a b c d la lb lc ld ma mc q = elim (ℕ_discrete i a) [
    | yes p ↦ elim (ℕ_discrete i c) [
      | yes r ↦ (
        sym p ∙ r,
        g.apart b d lb ld (
            ap (λ (f : ℕ → String). f b) (sym (own a p))
            ∙ q
            ∙ ap (λ (f : ℕ → String). f d) (own c r)),
      )
      | no r ↦ absurd (
          new_is_new b c d lb lc ld (others_made c r mc) (
            ap (λ (f : ℕ → String). f b) (sym (own a p))
            ∙ q
            ∙ ap (λ (f : ℕ → String). f d) (others c r)))
    ]
    | no p ↦ elim (ℕ_discrete i c) [
      | yes r ↦ absurd (
          new_is_new d a b ld la lb (others_made a p ma) (
            ap (λ (f : ℕ → String). f d) (sym (own c r))
            ∙ sym q
            ∙ ap (λ (f : ℕ → String). f b) (others a p)))
      | no r ↦ w.apart a b c d la lb lc ld (others_made a p ma) (others_made c r mc) (
          ap (λ (f : ℕ → String). f b) (sym (others a p))
          ∙ q
          ∙ ap (λ (f : ℕ → String). f d) (others c r))
    ]
  ]

  open_then :
      (a b : ℕ)
      → a < cfg.n
      → b < cfg.n
      → cfg.connected a ≡ true
      → cfg.connected b ≡ true
      → net.enabled (names a b) ≡ true
  open_then a b la lb on_a on_b =
      ap (λ (f : ℕ → String). net.enabled (f b)) (others a (is_other a on_a))
      ∙ g.calm (cfg.endnames a b) (w.present a b la lb (w.joined a on_a))
      ∙ w.open_between a b la lb on_a on_b

  only_then : (e : String) → net.enabled e ≡ true → Carries (wiring (with_ends i name cfg net)) e
  unfolding names
  only_then e on =
      let c = w.only e (g.dark e on) in
      record {
        source = c.source;
        target = c.target;
        source_known = c.source_known;
        target_known = c.target_known;
        source_connected = c.source_connected;
        target_connected = c.target_connected;
        named =
            ap (λ (f : ℕ → String). f c.target)
              (others c.source (is_other c.source c.source_connected))
            ∙ c.named;
      }

  pub with_ends-IsWired : IsWired (wiring (with_ends i name cfg net))
  unfolding names
  with_ends-IsWired = record {
    joined = joined_then;
    present = present_then;
    apart = apart_then;
    open_between = open_then;
    only = only_then;
  }

  pub IsRetired-kept :
      (e : String)
      → IsRetired e (names_of (wiring cfg))
      → IsRetired e (names_of (wiring (with_ends i name cfg net)))
  unfolding names
  IsRetired-kept e r = record {
    present = g.kept e r.present;
    unnamed = λ a b la lb m q. elim (ℕ_discrete i a) [
      | yes p ↦
          r.present (
            ap cfg.net.ends (sym (ap (λ (f : ℕ → String). f b) (sym (own a p)) ∙ q))
            ∙ g.unused b lb)
      | no p ↦
          r.unnamed a b la lb (others_made a p m)
            (ap (λ (f : ℕ → String). f b) (sym (others a p)) ∙ q)
    ];
  }

  pub IsRetired-old :
      (j : ℕ)
      → j < cfg.n
      → cfg.made i ≡ true
      → IsRetired (cfg.endnames i j) (names_of (wiring (with_ends i name cfg net)))
  unfolding names
  IsRetired-old j lj made = record {
    present = g.kept (cfg.endnames i j) (w.present i j l lj made);
    unnamed = λ a b la lb m q. elim (ℕ_discrete i a) [
      | yes p ↦ new_is_new b i j lb l lj made (ap (λ (f : ℕ → String). f b) (sym (own a p)) ∙ q)
      | no p ↦ p (
          sym
            (w.apart a b i j la lb l lj (others_made a p m) made
              (ap (λ (f : ℕ → String). f b) (sym (others a p)) ∙ q)).0)
    ];
  }
