-- ===== src/MapReduce/Worker/Tests.antt =====
-- Three pairs of two map tasks, with a sort by insertion for sort.Sort.
use lab_implementation.Common.{
  ℕ, ◌≡◌, refl, true, false, List, [], ◌∷◌, some, String, string_lt, string_discrete, ℕ_discrete,
  arith,
}
use lab_implementation.MapReduce.Worker.Insertion.{insertion_sort, insertion_sort-IsSort}
use lab_implementation.MapReduce.Worker.{KeyValue, Line}
use lab_implementation.MapReduce.Worker.Groups.{lines_of}
use lab_implementation.MapReduce.Worker.Buckets.{bucket_of}
use lab_implementation.MapReduce.Worker.Agreement.{
  sequential, distributed, distributed_is_sequential, no_stray_lines,
}

-- A Reduce that looks at the key only, and a hash with two values.
abbrev tag : String → List String → String
tag key values = key

abbrev parity : String → ℕ
parity key = elim (string_lt key "b") [ true ↦ 0 | false ↦ 1 ]

abbrev pair_a : KeyValue
pair_a = record { key = "a"; value = "1" }

abbrev pair_b : KeyValue
pair_b = record { key = "b"; value = "2" }

abbrev inputs : List (List KeyValue)
inputs = (pair_b ∷ pair_a ∷ []) ∷ (pair_a ∷ []) ∷ []

distributed_run : distributed parity 2 insertion_sort tag inputs 0 ≡ some (("a", "a") ∷ [])
unfolding string_discrete ℕ_discrete
distributed_run = refl

distributed_is_sequential_example :
    (lines : List Line) × (distributed parity 2 insertion_sort tag inputs (bucket_of parity 2 "a")
      ≡ some lines)
    × (lines_of "a" lines ≡ lines_of "a" (sequential insertion_sort tag inputs))
distributed_is_sequential_example =
    distributed_is_sequential parity 2 insertion_sort tag insertion_sort-IsSort
      (λ key vs ws p. refl) inputs "a" (omega arith)

no_stray_lines_example :
    (lines : List Line) × (distributed parity 2 insertion_sort tag inputs 1 ≡ some lines)
    × (lines_of "a" lines ≡ [])
no_stray_lines_example =
    no_stray_lines parity 2 insertion_sort tag insertion_sort-IsSort inputs "a" 1 (omega arith)
      (λ e. cc)
