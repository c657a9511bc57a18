-- ===== src/Labgob.antt =====
-- 6.5840/src/labgob/labgob.go: the checks that run before encoding/gob encodes or decodes. A
-- reflect.Type is an index into a table of descriptions, so that a type may contain itself.
-- `is_upper` is unicode.IsUpper of the first rune of a name.
pub mod Marks
pub mod Visits
pub mod Types
pub mod Defaults
mod Tests
use lab_implementation.Common.{
  ℕ, zero, suc, ◌+◌, Bool, true, false, Option, none, some, List, [], ◌∷◌, ◌++◌, String, update,
  ℕ_discrete, ltb, if◌then◌else◌,
}

pub record Field : Type 0 where
  pub name : String
  pub type : ℕ

-- What checkType looks at: the kind, and the types below it.
pub data Kind : Type 0 where
  struct : List Field → Kind
  slice array ptr : (elem : ℕ) → Kind
  map_of : (key elem : ℕ) → Kind
  other : Kind

pub record Table : Type 0 where
  pub kind : ℕ → Kind
  pub is_upper : String → Bool

-- `errorCount`, `checked`, and what Printf has printed: the lower-case fields with their types.
pub record Checker : Type 0 where
  pub error_count : ℕ
  pub checked : ℕ → Bool
  pub printed : List (String × ℕ)

abbrev pub mark : ℕ → Checker → Checker
mark t s = record s { checked = update ℕ_discrete s.checked t true }

module _ (table : Table) where
  abbrev pub complain : ℕ → Field → Checker → Checker
  complain t f s =
      if table.is_upper f.name
      then s
      else record s { error_count = s.error_count + 1; printed = s.printed ++ (f.name, t) ∷ [] }

  abbrev pub bind {ℓ} : {A : Type ℓ} → Option A → (A → Option A) → Option A
  bind none f = none
  bind (some a) f = f a

  -- The loop over the fields of a struct; `call` is checkType.
  abbrev pub check_fields :
      (ℕ → Checker → Option Checker) → ℕ → List Field → Checker → Option Checker
  check_fields call t [] s = some s
  check_fields call t (f ∷ fs) s = bind (call f.type (complain t f s)) (check_fields call t fs)

  -- The switch.
  abbrev pub check_kind : (ℕ → Checker → Option Checker) → ℕ → Kind → Checker → Option Checker
  check_kind call t (struct fs) s = check_fields call t fs s
  check_kind call t (slice elem) s = call elem s
  check_kind call t (array elem) s = call elem s
  check_kind call t (ptr elem) s = call elem s
  check_kind call t (map_of key elem) s = bind (call elem s) (call key)
  check_kind call t other s = some s

  -- `none` when the fuel, the depth of the calls, runs out.
  abbrev pub check_type : ℕ → ℕ → Checker → Option Checker
  check_type zero t s = none
  check_type (suc fuel) t s = elim (s.checked t) [
    | true ↦ some s
    | false ↦ check_kind (check_type fuel) t (table.kind t) (mark t s)
  ]
