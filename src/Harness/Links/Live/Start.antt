-- ===== src/Harness/Links/Live/Start.antt =====
-- config.go, crash1 and start1: the invariant of the ends.
use lab_implementation.Common.{
  List, if◌then◌else◌, ℕ, ◌<◌, ◌≡◌, refl, sym, ap, subst, ◌∙◌, Bool, true, false, Option, none,
  some, String, update, update_self, ℕ_discrete, some-injective,
}
use lab_implementation.Labrpc.{Network, delete_server}
use lab_implementation.Harness.Links.{
  Harness, disconnect, copy_disk, copy_saved, crash1, fresh_disk, launch, with_ends, make_ends,
  start1,
}
use lab_implementation.Harness.Links.Ends.{Grown, make_ends-Grown, and_then-some}
use lab_implementation.Harness.Links.Live.Wired.{
  IsRetired, Names, names_of, Wiring, wiring, IsWired,
}
use lab_implementation.Harness.Links.Live.Disconnect.{disconnect-names, disconnect-IsWired}
use lab_implementation.Harness.Links.Live.Renamed.{with_ends-IsWired, IsRetired-kept, IsRetired-old}

copy_disk-wiring : (i : ℕ) (o : Option ℕ) (cfg : Harness) → wiring (copy_disk i o cfg) ≡ wiring cfg
copy_disk-wiring i none cfg = refl
copy_disk-wiring i (some a) cfg = refl

fresh_disk-wiring :
    (i : ℕ) (o : Option ℕ) (cfg : Harness) → wiring (fresh_disk i o cfg) ≡ wiring cfg
fresh_disk-wiring i none cfg = refl
fresh_disk-wiring i (some a) cfg = refl

-- crash1 changes no end but through disconnect.
crash1-wiring : (i : ℕ) (cfg : Harness) → wiring (crash1 i cfg) ≡ wiring (disconnect i cfg)
crash1-wiring i cfg =
    let off = disconnect i cfg in
    let gone = record off { net = delete_server i off.net } in
    let copied = copy_saved i gone in
    copy_disk-wiring i (copied.saved i)
      (record copied { rafts = update ℕ_discrete copied.rafts i none })
    ∙ copy_disk-wiring i (gone.saved i) gone

launch-wiring : (i srv : ℕ) (cfg : Harness) → wiring (launch i srv cfg) ≡ wiring cfg
launch-wiring i srv cfg = fresh_disk-wiring i (cfg.saved i) cfg

pub crash1-IsWired :
    (i : ℕ) (cfg : Harness) → i < cfg.n → IsWired (wiring cfg) → IsWired (wiring (crash1 i cfg))
crash1-IsWired i cfg l w = subst IsWired (sym (crash1-wiring i cfg)) (disconnect-IsWired i cfg w l)

pub crash1-names :
    (i : ℕ) (cfg : Harness)
    → i < cfg.n
    → IsWired (wiring cfg)
    → names_of (wiring (crash1 i cfg)) ≡ names_of (wiring cfg)
crash1-names i cfg l w = ap names_of (crash1-wiring i cfg) ∙ disconnect-names i cfg w l

pub crash1-n : (i : ℕ) (cfg : Harness) → (crash1 i cfg).n ≡ cfg.n
crash1-n i cfg = ap (λ (w : Wiring). w.n) (crash1-wiring i cfg)

crash1-connected : (i : ℕ) (cfg : Harness) → (crash1 i cfg).connected i ≡ false
crash1-connected i cfg =
    ap (λ (w : Wiring). w.connected i) (crash1-wiring i cfg)
    ∙ update_self ℕ_discrete cfg.connected i false

guard_some {ℓ} : {A : Type ℓ} {a b : A} (c : Bool) → (if c then some a else none) ≡ some b → a ≡ b
guard_some true h = some-injective _ _ h
guard_some false h = cc

pub start1-some :
    (ingested : List ℕ → Bool) (i : ℕ) (name : ℕ → String) (srv : ℕ) (cfg new : Harness)
    → start1 ingested i name srv cfg ≡ some new
    → (net : Network) × (make_ends name (crash1 i cfg).n (crash1 i cfg).net ≡ some net)
      × (launch i srv (with_ends i name (crash1 i cfg) net) ≡ new)
start1-some ingested i name srv cfg new h =
    let (net, made, last) =
      and_then-some (make_ends name (crash1 i cfg).n (crash1 i cfg).net) _ h in
    (net, made, guard_some _ last)

-- The wiring after start1, and what was there before.
module _ (ingested : List ℕ → Bool) (i : ℕ) (name : ℕ → String) (srv : ℕ) (cfg new : Harness)
    (l : i < cfg.n) (h : start1 ingested i name srv cfg ≡ some new) (w : IsWired (wiring cfg)) where
  -- What holds of the wiring that with_ends leaves holds of the new one.
  started :
      (P : Wiring → Type 0)
      → ((net : Network)
          → Grown name (crash1 i cfg).n (crash1 i cfg).net net
          → P (wiring (with_ends i name (crash1 i cfg) net)))
      → P (wiring new)
  started P q =
      let (net, made, same) = start1-some ingested i name srv cfg new h in
      subst (λ x. P (wiring x)) same
        (subst P (sym (launch-wiring i srv (with_ends i name (crash1 i cfg) net)))
          (q net (make_ends-Grown name (crash1 i cfg).n (crash1 i cfg).net net made)))

  crashed-IsWired : IsWired (wiring (crash1 i cfg))
  crashed-IsWired = crash1-IsWired i cfg l w

  crashed_known : i < (crash1 i cfg).n
  crashed_known = subst (λ k. i < k) (sym (crash1-n i cfg)) l

  pub start1-IsWired : IsWired (wiring new)
  start1-IsWired = started IsWired λ net g.
      with_ends-IsWired i name (crash1 i cfg) net crashed-IsWired crashed_known
        (crash1-connected i cfg) g

  pub start1-IsRetired_kept :
      (e : String) → IsRetired e (names_of (wiring cfg)) → IsRetired e (names_of (wiring new))
  start1-IsRetired_kept e r =
      started (λ x. IsRetired e (names_of x))
        λ net g.
          IsRetired-kept i name (crash1 i cfg) net crashed-IsWired crashed_known
            (crash1-connected i cfg) g e (subst (IsRetired e) (sym (crash1-names i cfg l w)) r)

  pub start1-IsRetired_old :
      (j : ℕ) → j < cfg.n → cfg.made i ≡ true → IsRetired (cfg.endnames i j) (names_of (wiring new))
  start1-IsRetired_old j lj made =
      let same = ap (λ (r : Names). r.endnames i j) (crash1-names i cfg l w) in
      started (λ x. IsRetired (cfg.endnames i j) (names_of x))
        λ net g.
          subst (λ e. IsRetired e (names_of (wiring (with_ends i name (crash1 i cfg) net)))) same
            (IsRetired-old i name (crash1 i cfg) net crashed-IsWired crashed_known
              (crash1-connected i cfg) g j (subst (λ k. j < k) (sym (crash1-n i cfg)) lj)
              (ap (λ (r : Names). r.made i) (crash1-names i cfg l w) ∙ made))

pub start1-n :
    (ingested : List ℕ → Bool) (i : ℕ) (name : ℕ → String) (srv : ℕ) (cfg new : Harness)
    → start1 ingested i name srv cfg ≡ some new
    → new.n ≡ cfg.n
start1-n ingested i name srv cfg new h =
    let (net, _, same) = start1-some ingested i name srv cfg new h in
    ap (λ (c : Harness). c.n) (sym same)
    ∙ ap (λ (x : Wiring). x.n) (launch-wiring i srv (with_ends i name (crash1 i cfg) net))
    ∙ crash1-n i cfg
