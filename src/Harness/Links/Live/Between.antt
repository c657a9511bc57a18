-- ===== src/Harness/Links/Live/Between.antt =====
-- config.go: what holds of the ends in every state that the tests reach from make_config.
use lab_implementation.Common.{
  List, ℕ, ◌<◌, ◌≡◌, inl, inr, refl, sym, ap, subst, ◌∙◌, Bool, true, false, Bool-cases, ◌&&◌, some,
  String,
}
use lab_implementation.Harness.Links.{Harness, connect, disconnect, crash1, start1, blank_config}
use lab_implementation.Harness.Links.Live.Wired.{IsRetired, names_of, Wiring, wiring, IsWired}
use lab_implementation.Harness.Links.Live.Connect.{connect-IsWired, connect-names}
use lab_implementation.Harness.Links.Live.Disconnect.{disconnect-IsWired, disconnect-names}
use lab_implementation.Harness.Links.Live.Start.{
  crash1-IsWired, crash1-names, start1-IsWired, start1-IsRetired_kept, start1-IsRetired_old,
}

-- A step of a test. `elsewhere` is whatever leaves the ends alone: requests, the work of the servers
-- and what they save.
pub data Step : Harness → Harness → Type 0 where
  connects : {cfg new : Harness} (i : ℕ) → i < cfg.n → connect i cfg ≡ some new → Step cfg new
  disconnects : {cfg : Harness} (i : ℕ) → i < cfg.n → Step cfg (disconnect i cfg)
  crashes : {cfg : Harness} (i : ℕ) → i < cfg.n → Step cfg (crash1 i cfg)
  starts :
      {cfg new : Harness} (ingested : List ℕ → Bool) (i : ℕ) (name : ℕ → String) (srv : ℕ)
      → i < cfg.n
      → start1 ingested i name srv cfg ≡ some new
      → Step cfg new
  elsewhere : {cfg new : Harness} → wiring new ≡ wiring cfg → Step cfg new

pub data Reach (start : Harness) : Harness → Type 0 where
  here : Reach start start
  next : {cfg new : Harness} → Reach start cfg → Step cfg new → Reach start new

iff_eq :
    (a b c : Bool)
    → (a ≡ true → (b ≡ true) × (c ≡ true))
    → (b ≡ true → c ≡ true → a ≡ true)
    → a ≡ (b && c)
iff_eq a true true to from = from refl refl
iff_eq true true false to from = sym (to refl).1
iff_eq false true false to from = refl
iff_eq true false c to from = sym (to refl).0
iff_eq false false c to from = refl

blank_config-IsWired : (n : ℕ) (unreliable : Bool) → IsWired (wiring (blank_config n unreliable))
blank_config-IsWired n unreliable = record {
  joined = λ i c. cc;
  present = λ i j l m made. absurd (cc);
  apart = λ i j k l li lj lk ll made. cc;
  open_between = λ i j l m c. cc;
  only = λ e on. cc;
}

Step-IsWired : {cfg new : Harness} → Step cfg new → IsWired (wiring cfg) → IsWired (wiring new)
Step-IsWired (connects {cfg = c} {new = d} i l h) w = connect-IsWired i c d l h w
Step-IsWired (disconnects {cfg = c} i l) w = disconnect-IsWired i c w l
Step-IsWired (crashes {cfg = c} i l) w = crash1-IsWired i c l w
Step-IsWired (starts {cfg = c} {new = d} ingested i name srv l h) w =
    start1-IsWired ingested i name srv c d l h w
Step-IsWired (elsewhere same) w = subst IsWired (sym same) w

Reach-IsWired :
    {start cfg : Harness} → IsWired (wiring start) → Reach start cfg → IsWired (wiring cfg)
Reach-IsWired w here = w
Reach-IsWired w (next r s) = Step-IsWired s (Reach-IsWired w r)

module _ (e : String) where
  Step-IsRetired :
      {cfg new : Harness}
      → Step cfg new
      → IsWired (wiring cfg)
      → IsRetired e (names_of (wiring cfg))
      → IsRetired e (names_of (wiring new))
  Step-IsRetired (connects {cfg = c} {new = d} i l h) w r =
      subst (IsRetired e) (sym (connect-names i c d l h w)) r
  Step-IsRetired (disconnects {cfg = c} i l) w r =
      subst (IsRetired e) (sym (disconnect-names i c w l)) r
  Step-IsRetired (crashes {cfg = c} i l) w r = subst (IsRetired e) (sym (crash1-names i c l w)) r
  Step-IsRetired (starts {cfg = c} {new = d} ingested i name srv l h) w r =
      start1-IsRetired_kept ingested i name srv c d l h w e r
  Step-IsRetired (elsewhere same) w r = subst (IsRetired e) (sym (ap names_of same)) r

  Reach-IsRetired :
      {start cfg : Harness}
      → IsWired (wiring start)
      → Reach start cfg
      → IsRetired e (names_of (wiring start))
      → IsRetired e (names_of (wiring cfg))
  Reach-IsRetired w here r = r
  Reach-IsRetired w (next p s) r = Step-IsRetired s (Reach-IsWired w p) (Reach-IsRetired w p r)

IsRetired-off :
    (w : Wiring) (e : String) → IsWired w → IsRetired e (names_of w) → w.enabled e ≡ false
IsRetired-off w e v r = elim (Bool-cases (w.enabled e)) [
  | inr off ↦ off
  | inl on ↦
      let c = v.only e on in
      absurd (
        r.unnamed c.source c.target c.source_known c.target_known
          (v.joined c.source c.source_connected) c.named)
]

enabled_as_connected :
    (cfg : Harness) (w : IsWired (wiring cfg)) (i j : ℕ)
    → i < cfg.n
    → j < cfg.n
    → cfg.made i ≡ true
    → cfg.net.enabled (cfg.endnames i j) ≡ (cfg.connected i && cfg.connected j)
enabled_as_connected cfg w i j li lj made =
    iff_eq (cfg.net.enabled (cfg.endnames i j)) (cfg.connected i) (cfg.connected j)
      (λ on.
        let c = w.only (cfg.endnames i j) on in
        let (s, t) =
          w.apart c.source c.target i j c.source_known c.target_known li lj
            (w.joined c.source c.source_connected) made c.named in
        (
          ap cfg.connected (sym s) ∙ c.source_connected,
          ap cfg.connected (sym t) ∙ c.target_connected,
        ))
      (w.open_between i j li lj)

-- In every state that connect, disconnect, crash1 and start1 reach from the blank harness of make_config,
-- among other steps that leave the ends alone, the current end from i to j of a server i that has been started is
-- enabled exactly if both i and j are connected.
pub ends_follow_connected :
    (n : ℕ) (unreliable : Bool) {cfg : Harness} (i j : ℕ)
    → Reach (blank_config n unreliable) cfg
    → i < cfg.n
    → j < cfg.n
    → cfg.made i ≡ true
    → cfg.net.enabled (cfg.endnames i j) ≡ (cfg.connected i && cfg.connected j)
ends_follow_connected n unreliable {cfg} i j r li lj made =
    let w = Reach-IsWired (blank_config-IsWired n unreliable) r in
    enabled_as_connected cfg w i j li lj made

-- In every state that is reached from the blank harness, once start1 has replaced an instance of
-- server i, the ends of the old instance are off, and they stay off in every state that is reached later.
pub replaced_ends_stay_off :
    (n : ℕ) (unreliable : Bool) {cfg new later : Harness} (ingested : List ℕ → Bool) (i j : ℕ)
    (name : ℕ → String) (srv : ℕ)
    → Reach (blank_config n unreliable) cfg
    → i < cfg.n
    → j < cfg.n
    → cfg.made i ≡ true
    → start1 ingested i name srv cfg ≡ some new
    → Reach new later
    → later.net.enabled (cfg.endnames i j) ≡ false
replaced_ends_stay_off n unreliable {cfg} {new} {later} ingested i j name srv r li lj made h after =
    let w = Reach-IsWired (blank_config-IsWired n unreliable) r in
    let v = start1-IsWired ingested i name srv cfg new li h w in
    IsRetired-off (wiring later) (cfg.endnames i j) (Reach-IsWired v after) (
      Reach-IsRetired (cfg.endnames i j) v after
        (start1-IsRetired_old ingested i name srv cfg new li h w j lj made))
