-- ===== src/Harness/Links/Live/Connect.antt =====
-- config.go, connect: the invariant of the ends.
use lab_implementation.Common.{
  ℕ, ◌<◌, ◌≡◌, ◌⊎◌, inl, inr, sym, ap, subst, ◌∙◌, Bool, true, false, Bool-cases, ◌&&◌, ◌||◌, not,
  Option, none, some, String, update, update_self, update_other, ℕ_discrete, arith, suc, zero,
  and-eq-true, if_pos, if_true, if_false, some-injective,
}
use lab_implementation.Labrpc.{ClientEnd}
use lab_implementation.Harness.Links.{Harness, connect, enable_all, slices_made}
use lab_implementation.Harness.Links.Loops.{Hit, on_after_on, on_before_on, enable_all-ends}
use lab_implementation.Harness.Links.Live.Wired.{wiring, names_of, Carries, IsWired}

made_if_connected : (c m n : Bool) → c ≡ true → (not c || (m && n)) ≡ true → (m ≡ true) × (n ≡ true)
made_if_connected true m n c h = and-eq-true m n h
made_if_connected false m n c h = cc

slices_made-made :
    (connected made : ℕ → Bool) (i n j : ℕ)
    → slices_made connected made i n ≡ true
    → j < n
    → connected j ≡ true
    → (made i ≡ true) × (made j ≡ true)
slices_made-made connected made i zero j h l c = absurd (omega arith)
slices_made-made connected made i (suc n) j h l c =
    let (before, last) = and-eq-true (slices_made connected made i n) _ h in
    elim (ℕ_discrete j n) [
      | no q ↦ slices_made-made connected made i n j before (omega (arith, l, q)) c
      | yes q ↦
          rw q (made_if_connected (connected n) (made i) (made n) (ap connected (sym q) ∙ c) last)
    ]

-- The harness after connect.
abbrev attached : ℕ → Harness → Harness
attached i cfg = record cfg {
  connected = update ℕ_discrete cfg.connected i true;
  net =
      enable_all true (update ℕ_discrete cfg.connected i true) (λ j. cfg.endnames j i) cfg.n
        (enable_all true (update ℕ_discrete cfg.connected i true) (cfg.endnames i) cfg.n cfg.net);
}

connect-some :
    (i : ℕ) (cfg new : Harness)
    → connect i cfg ≡ some new
    → (slices_made (update ℕ_discrete cfg.connected i true) cfg.made i cfg.n ≡ true)
      × (attached i cfg ≡ new)
connect-some i cfg new h =
    elim (Bool-cases (slices_made (update ℕ_discrete cfg.connected i true) cfg.made i cfg.n)) [
      | inl ok ↦ (ok, some-injective _ _ (sym (if_true (some (attached i cfg)) none ok) ∙ h))
      | inr bad ↦ let out = if_false (some (attached i cfg)) none bad in cc
    ]

module _ (i : ℕ) (cfg : Harness) (w : IsWired (wiring cfg)) (l : i < cfg.n)
    (ok : slices_made (update ℕ_discrete cfg.connected i true) cfg.made i cfg.n ≡ true) where
  on_now : update ℕ_discrete cfg.connected i true i ≡ true
  on_now = update_self ℕ_discrete cfg.connected i true

  now_or_before :
      (j : ℕ) → update ℕ_discrete cfg.connected i true j ≡ true → (i ≡ j) ⊎ (cfg.connected j ≡ true)
  now_or_before j on = elim (ℕ_discrete i j) [
    | yes p ↦ inl p
    | no p ↦ inr (sym (update_other ℕ_discrete cfg.connected i true j p) ∙ on)
  ]

  before_then_now :
      (j : ℕ) → cfg.connected j ≡ true → update ℕ_discrete cfg.connected i true j ≡ true
  before_then_now j on = elim (ℕ_discrete i j) [
    | yes p ↦ if_pos (ℕ_discrete i j) p true (cfg.connected j)
    | no p ↦ update_other ℕ_discrete cfg.connected i true j p ∙ on
  ]

  made_now : cfg.made i ≡ true
  made_now = (slices_made-made _ cfg.made i cfg.n i ok l on_now).0

  joined_now : (j : ℕ) → update ℕ_discrete cfg.connected i true j ≡ true → cfg.made j ≡ true
  joined_now j on = elim (now_or_before j on) [
    | inl p ↦ ap cfg.made (sym p) ∙ made_now
    | inr old ↦ w.joined j old
  ]

  attached-ends : (attached i cfg).net.ends ≡ cfg.net.ends
  attached-ends =
      enable_all-ends true (update ℕ_discrete cfg.connected i true) (λ j. cfg.endnames j i) cfg.n _
      ∙ enable_all-ends true (update ℕ_discrete cfg.connected i true) (cfg.endnames i) cfg.n cfg.net

  after_incoming :
      (e : String)
      → (Hit true (update ℕ_discrete cfg.connected i true) (λ j. cfg.endnames j i) cfg.n e)
        ⊎ ((Hit true (update ℕ_discrete cfg.connected i true) (cfg.endnames i) cfg.n e)
            ⊎ (cfg.net.enabled e ≡ true))
      → (attached i cfg).net.enabled e ≡ true
  after_incoming e (inl h) = on_after_on _ (λ j. cfg.endnames j i) cfg.n _ e (inl h)
  after_incoming e (inr h) =
      on_after_on _ (λ j. cfg.endnames j i) cfg.n _ e
        (inr (on_after_on _ (cfg.endnames i) cfg.n cfg.net e h))

  opened :
      (a b : ℕ)
      → a < cfg.n
      → b < cfg.n
      → update ℕ_discrete cfg.connected i true a ≡ true
      → update ℕ_discrete cfg.connected i true b ≡ true
      → (attached i cfg).net.enabled (cfg.endnames a b) ≡ true
  opened a b la lb ca cb = after_incoming (cfg.endnames a b) (elim (now_or_before b cb) [
    | inl p ↦ inl (record { at = a; known = la; flagged = ca; named = ap (cfg.endnames a) p })
    | inr old_b ↦ inr (elim (now_or_before a ca) [
      | inl p ↦
          inl (record { at = b; known = lb; flagged = cb; named = ap (λ x. cfg.endnames x b) p })
      | inr old_a ↦ inr (w.open_between a b la lb old_a old_b)
    ])
  ])

  carried_before : (e : String) → Carries (wiring cfg) e → Carries (wiring (attached i cfg)) e
  carried_before e c = record {
    source = c.source;
    target = c.target;
    source_known = c.source_known;
    target_known = c.target_known;
    source_connected = before_then_now c.source c.source_connected;
    target_connected = before_then_now c.target c.target_connected;
    named = c.named;
  }

  turned_on :
      (e : String) → (attached i cfg).net.enabled e ≡ true → Carries (wiring (attached i cfg)) e
  turned_on e on = elim (on_before_on _ (λ j. cfg.endnames j i) cfg.n _ e on) [
    | inl h ↦ record {
      source = h.at;
      target = i;
      source_known = h.known;
      target_known = l;
      source_connected = h.flagged;
      target_connected = on_now;
      named = h.named;
    }
    | inr mid ↦ elim (on_before_on _ (cfg.endnames i) cfg.n cfg.net e mid) [
      | inl h ↦ record {
        source = i;
        target = h.at;
        source_known = l;
        target_known = h.known;
        source_connected = on_now;
        target_connected = h.flagged;
        named = h.named;
      }
      | inr old ↦ carried_before e (w.only e old)
    ]
  ]

  attached-IsWired : IsWired (wiring (attached i cfg))
  attached-IsWired = record {
    joined = joined_now;
    present = λ a b la lb m q.
        w.present a b la lb m
          (sym (ap (λ (f : String → Option ClientEnd). f (cfg.endnames a b)) attached-ends) ∙ q);
    apart = w.apart;
    open_between = opened;
    only = turned_on;
  }

pub connect-IsWired :
    (i : ℕ) (cfg new : Harness)
    → i < cfg.n
    → connect i cfg ≡ some new
    → IsWired (wiring cfg)
    → IsWired (wiring new)
connect-IsWired i cfg new l h w =
    let (ok, same) = connect-some i cfg new h in
    subst (λ x. IsWired (wiring x)) same (attached-IsWired i cfg w l ok)

pub connect-names :
    (i : ℕ) (cfg new : Harness)
    → i < cfg.n
    → connect i cfg ≡ some new
    → IsWired (wiring cfg)
    → names_of (wiring new) ≡ names_of (wiring cfg)
connect-names i cfg new l h w =
    let (ok, same) = connect-some i cfg new h in
    subst (λ x. names_of (wiring x) ≡ names_of (wiring cfg)) same
      (ap (λ (x : String → Option ClientEnd). record (names_of (wiring cfg)) { ends = x })
        (attached-ends i cfg w l ok))

pub connect-n : (i : ℕ) (cfg new : Harness) → connect i cfg ≡ some new → new.n ≡ cfg.n
connect-n i cfg new h = ap (λ (c : Harness). c.n) (sym (connect-some i cfg new h).1)
