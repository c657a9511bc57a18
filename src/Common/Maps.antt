-- ===== src/Common/Maps.antt =====
-- Go maps as functions from keys to optional values, and the decision on text keys.
use Prim.Native.String.{String}
use mathlib.Core.Path.{◌≡◌, refl, sym, ◌∙◌}
use mathlib.Core.Logic.{◌≢◌, inl, inr, ite, if_pos, if_neg}
use mathlib.Core.Bool.{false≢true}
use text.Mathlib.Text.{◌==◌}
use text.Mathlib.TextEquality.{eq_iff}
use lab_implementation.Common.Tests.{Bool-cases}

-- Equality of texts, decided by the native test.
unfoldable pub string_discrete : Discrete String
unfolding Bool-cases
string_discrete s t = elim (Bool-cases (s == t)) [
  | inl same ↦ yes ((eq_iff s t).0 same)
  | inr other ↦ no λ e. false≢true (sym other ∙ (eq_iff s t).1 e)
]

-- m[k] = v
abbrev pub update {ℓ κ} : {K : Type ℓ} {V : Type κ} → Discrete K → (K → V) → K → V → K → V
update same m k v j = ite (same k j) v (m j)

module _ {ℓ κ} {K : Type ℓ} {V : Type κ} where
  pub update_self : (same : Discrete K) (m : K → V) (k : K) (v : V) → update same m k v k ≡ v
  update_self same m k v = if_pos (same k k) refl v (m k)

  pub update_other :
      (same : Discrete K) (m : K → V) (k : K) (v : V) (j : K) → k ≢ j → update same m k v j ≡ m j
  update_other same m k v j n = if_neg (same k j) n v (m j)
