-- ===== src/KvRaft/Config/Switches.antt =====
-- config.go: what a loop of Enable does to every end.
use lab_implementation.Common.{
  ℕ, suc, ◌≡◌, refl, sym, ap, ◌∙◌, Bool, true, false, ◌||◌, Option, none, some, List, [], ◌∷◌,
  String, string_discrete, if◌then◌else◌, ◌==◌, some-injective, ite,
}
use lab_implementation.Labrpc.{Network, enable}
use lab_implementation.Harness.Links.{and_then}
use lab_implementation.Harness.Links.Ends.{and_then-some}
use lab_implementation.KvRaft.Config.{switch, enable_each}

abbrev pub mem : ℕ → List ℕ → Bool
mem a [] = false
mem a (x ∷ xs) = x == a || mem a xs

abbrev pub str_is : String → String → Bool
str_is s t = elim (string_discrete s t) [ yes _ ↦ true | no _ ↦ false ]

-- One of the names is e.
abbrev pub any_is : (ℕ → String) → List ℕ → String → Bool
any_is nm [] e = false
any_is nm (j ∷ js) e = str_is (nm j) e || any_is nm js e

-- The loop finds the name nm j for every element j, whatever its position.
abbrev pub Finds : (ℕ → ℕ → Option (Option String)) → (ℕ → String) → ℕ → List ℕ → Type 0
Finds name nm k [] = Unit {0}
Finds name nm k (j ∷ js) = (name k j ≡ some (some (nm j))) × Finds name nm (suc k) js

-- `new` is `old` with the ends that `hit` tells switched to b.
pub record Switched (b : Bool) (hit : String → Bool) (old new : Network) : Type 0 where
  pub enabled : (e : String) → new.enabled e ≡ (if hit e then b else old.enabled e)
  pub ends : new.ends ≡ old.ends
  pub connections : new.connections ≡ old.connections
  pub servers : new.servers ≡ old.servers

enable-enabled :
    (b : Bool) (x e : String) (net : Network)
    → (enable x b net).enabled e ≡ (if str_is x e then b else net.enabled e)
enable-enabled b x e net =
    elim (string_discrete x e)
      as (λ d.
        ite d b (net.enabled e)
        ≡ (if elim d [ yes _ ↦ true | no _ ↦ false ] then b else net.enabled e)) [
          | yes p ↦ refl
          | no p ↦ refl
        ]

pub or_switch :
    (b u v w : Bool) → (if u then b else (if v then b else w)) ≡ (if v || u then b else w)
or_switch b true true w = refl
or_switch b true false w = refl
or_switch b false true w = refl
or_switch b false false w = refl

module _ (b : Bool) (name : ℕ → ℕ → Option (Option String)) (nm : ℕ → String) where
  pub enable_each-Switched :
      (k : ℕ) (js : List ℕ) (net : Network)
      → Finds name nm k js
      → (new : Network) × (enable_each b name k js net ≡ some new)
        × Switched b (any_is nm js) net new
  enable_each-Switched k [] net f =
      (net, refl, record { enabled = λ e. refl; ends = refl; connections = refl; servers = refl })
  enable_each-Switched k (j ∷ js) net f =
      let (new, run, s) = enable_each-Switched (suc k) js (enable (nm j) b net) f.1 in
      (
        new,
        ap (λ m. and_then m λ e. enable_each b name (suc k) js (switch b e net)) f.0 ∙ run,
        record {
          enabled = λ e.
              s.enabled e
              ∙ ap (λ v. if any_is nm js e then b else v) (enable-enabled b (nm j) e net)
              ∙ or_switch b (any_is nm js e) (str_is (nm j) e) (net.enabled e);
          ends = s.ends;
          connections = s.connections;
          servers = s.servers;
        },
      )

switch-ends : (b : Bool) (e : Option String) (net : Network) → (switch b e net).ends ≡ net.ends
switch-ends b none net = refl
switch-ends b (some e) net = refl

-- Whatever it finds, the loop touches nothing but `enabled`.
pub enable_each-ends :
    (b : Bool) (name : ℕ → ℕ → Option (Option String)) (k : ℕ) (js : List ℕ) (net new : Network)
    → enable_each b name k js net ≡ some new
    → new.ends ≡ net.ends
enable_each-ends b name k [] net new h = ap (λ (x : Network). x.ends) (sym (some-injective _ _ h))
enable_each-ends b name k (j ∷ js) net new h =
    let (e, found, rest) = and_then-some (name k j) _ h in
    enable_each-ends b name (suc k) js (switch b e net) new rest ∙ switch-ends b e net
