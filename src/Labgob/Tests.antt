-- ===== src/Labgob/Tests.antt =====
-- The checks at a linked list with a lower-case field, and at a reply that is not empty.
use mathlib.Core.List.{Memᴰ}
use lab_implementation.Common.{
  ℕ, zero, suc, ◌<◌, ◌≡◌, refl, none, some, [], ◌∷◌, string_lt, ℕ_discrete, ◌==◌, arith,
}
use lab_implementation.Labgob.{Kind, struct, ptr, other, Table, Checker}
use lab_implementation.Labgob.Marks.{sum_marked, type_lower}
use lab_implementation.Labgob.Types.{
  check_values, fresh_checker, IsClosed, whole, below, errors_counted_once, lower_case_found,
}
use lab_implementation.Labgob.Defaults.{
  Value, struct_value, ptr_to, scalar, field, end_fields, check_default, Warnings,
}

-- type Node struct { Next *Node; value int }
abbrev node_kind : ℕ → Kind
node_kind zero =
    struct (record { name = "Next"; type = 1 } ∷ record { name = "value"; type = 2 } ∷ [])
node_kind (suc zero) = ptr 0
node_kind _ = other

abbrev nodes : Table
nodes = record { kind = node_kind; is_upper = λ s. string_lt s "a" }

nodes-IsClosed : IsClosed nodes 3
nodes-IsClosed zero h = (omega arith, (omega arith, tt))
nodes-IsClosed (suc zero) h = (omega arith, tt)
nodes-IsClosed (suc (suc t)) h = tt

abbrev node_errors : ℕ
node_errors = elim (check_values nodes 3 (1 ∷ 0 ∷ []) fresh_checker) [
  | none ↦ 9
  | some s ↦ s.error_count
]

one_error : node_errors ≡ 1
unfolding ℕ_discrete
one_error = refl

errors_counted_once_example :
    (s : Checker) × (check_values nodes 3 (1 ∷ 0 ∷ []) fresh_checker ≡ some s)
    × (s.error_count ≡ sum_marked (type_lower nodes) s.checked 3)
errors_counted_once_example =
    errors_counted_once nodes 3 (1 ∷ 0 ∷ []) nodes-IsClosed (omega arith, (omega arith, tt))

lower_case_found_example :
    (s : Checker) × (check_values nodes 3 (1 ∷ []) fresh_checker ≡ some s) × (0 < s.error_count)
lower_case_found_example =
    lower_case_found nodes 3 (1 ∷ []) 1 0 nodes-IsClosed (omega arith, tt) (Memᴰ.head refl)
      (below whole (Memᴰ.head refl)) (omega arith)

abbrev reply : Value ℕ
reply = ptr_to (
    struct_value (
      field "Term" (scalar "int" 3)
        (field "Ok" (scalar "bool" 0) (field "Id" (scalar "int" 4) end_fields))))

abbrev no_warnings : Warnings
no_warnings = record { error_count = 0; printed = [] }

first_field_named : (check_default (λ n. n == 0) reply no_warnings).printed ≡ "Term" ∷ []
first_field_named = refl
