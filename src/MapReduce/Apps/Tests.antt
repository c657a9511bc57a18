-- ===== src/MapReduce/Apps/Tests.antt =====
-- wc.go and indexer.go on two files, with words between spaces and a sort by insertion.
use Prim.Native.Char.{Char, code}
use lab_implementation.Common.{
  ℕ, zero, suc, ◌≡◌, refl, ap, subst, All, Bool, true, false, not, some, List, [], ◌∷◌, map, String,
  string_lt, if◌then◌else◌, ◌==◌, arith,
}
use mathlib.Core.List.{Perm}
use mathlib.Core.List.Perm
use lab_implementation.MapReduce.Worker.{KeyValue, Line, less}
use lab_implementation.MapReduce.Worker.Insertion.{
  insertion_sort, insertion_sort-IsSort, insertion_sort-Sorted,
}
use lab_implementation.MapReduce.Worker.Groups.{lines_of, expected, Sorted}
use lab_implementation.MapReduce.Worker.Buckets.{bucket_of}
use lab_implementation.MapReduce.Worker.Agreement.{distributed}
use lab_implementation.MapReduce.Apps.{
  File, words_of, wc_map, wc_reduce, indexer_map, indexer_reduce,
}
use lab_implementation.MapReduce.Apps.Sorting.{Ascending, IsStringSort}
use lab_implementation.MapReduce.Apps.Index.{documents, index_lists}
use lab_implementation.MapReduce.Apps.Counts.{total, count_lines, wc_counts}

abbrev close : String → List String → List String
close String.[] words = words
close (String.◌∷◌ c w) words = String.◌∷◌ c w ∷ words

-- The word that begins a text, and the words after it.
abbrev runs : (Char → Bool) → String → String × List String
runs f String.[] = (String.[], [])
runs f (String.◌∷◌ c s) =
    let rest = runs f s in
    if f c then (String.[], close rest.0 rest.1) else (String.◌∷◌ c rest.0, rest.1)

abbrev fields : (Char → Bool) → String → List String
fields f s = close (runs f s).0 (runs f s).1

abbrev is_letter : Char → Bool
is_letter c = not (code c == 32)

abbrev digit : ℕ → String
digit zero = "0"
digit (suc zero) = "1"
digit (suc (suc zero)) = "2"
digit n = "many"

abbrev parity : String → ℕ
parity key = elim (string_lt key "b") [ true ↦ 0 | false ↦ 1 ]

abbrev files : List File
files = ("one", "a b") ∷ ("two", "b c b") ∷ []

words_of-two : words_of fields is_letter "b c b" ≡ "b" ∷ "c" ∷ "b" ∷ []
words_of-two = refl

wc_counts_example :
    (lines : List Line) × (distributed parity 2 insertion_sort
        (wc_reduce digit)
        (map (wc_map fields is_letter) files)
        (bucket_of parity 2 "b")
      ≡ some lines)
    × (lines_of "b" lines ≡ count_lines digit (total (words_of fields is_letter) "b" files))
wc_counts_example =
    wc_counts fields is_letter digit parity 2 insertion_sort insertion_sort-IsSort files "b"
      (omega arith)

abbrev as_pair : String → KeyValue
as_pair w = record { key = w; value = "" }

abbrev key_of : KeyValue → String
key_of kv = kv.key

abbrev sort_strings : List String → List String
sort_strings xs = map key_of (insertion_sort (map as_pair xs))

keys_not_below :
    (kv : KeyValue) (kva : List KeyValue)
    → All (λ other. less other kv ≡ false) kva
    → All (λ y. string_lt y kv.key ≡ false) (map key_of kva)
keys_not_below kv [] a = tt
keys_not_below kv (x ∷ kva) a = (a.0, keys_not_below kv kva a.1)

Sorted-Ascending : (kva : List KeyValue) → Sorted kva → Ascending (map key_of kva)
Sorted-Ascending [] s = tt
Sorted-Ascending (kv ∷ kva) s = (keys_not_below kv kva s.0, Sorted-Ascending kva s.1)

keys_of_pairs : (xs : List String) → map key_of (map as_pair xs) ≡ xs
keys_of_pairs [] = refl
keys_of_pairs (x ∷ xs) = ap (λ l. x ∷ l) (keys_of_pairs xs)

sort_strings-IsStringSort : IsStringSort sort_strings
sort_strings-IsStringSort = record {
  permutes = λ xs.
      subst (Perm (sort_strings xs)) (keys_of_pairs xs)
        (Perm.map key_of (insertion_sort-IsSort.permutes (map as_pair xs)));
  sorts = λ xs.
      Sorted-Ascending (insertion_sort (map as_pair xs)) (insertion_sort-Sorted (map as_pair xs));
}

-- In place of the libraries' functions, the first document alone.
abbrev join : List String → String → String
join [] sep = ""
join (w ∷ ws) sep = w

abbrev sprintf : ℕ → String → String
sprintf n s = s

index_lists_example :
    (lines : List Line) × (distributed parity 2 insertion_sort
        (indexer_reduce sort_strings join sprintf)
        (map (indexer_map fields is_letter (λ keys. keys)) files)
        (bucket_of parity 2 "b")
      ≡ some lines)
    × (lines_of "b" lines
        ≡ expected
            (indexer_reduce sort_strings join sprintf)
            "b"
            (documents (words_of fields is_letter) "b" files))
index_lists_example =
    index_lists fields is_letter (λ keys. keys) (λ keys. Perm.refl keys) sort_strings join sprintf
      parity 2 insertion_sort sort_strings-IsStringSort insertion_sort-IsSort files "b"
      (omega arith)
