-- ===== src/MapReduce/Apps.antt =====
-- 6.5840/src/mrapps/wc.go and indexer.go, the word count and the index. The functions of Go's libraries
-- that they call are parameters.
pub mod Counts
pub mod Sorting
pub mod Index
mod Tests
use Prim.Native.Char.{Char}
use lab_implementation.Common.{
  ℕ, ◌+◌, Bool, not, List, [], ◌∷◌, length, map, String, string_discrete, ite,
}
use lab_implementation.MapReduce.Worker.{KeyValue}

-- A file of the input: its name and its contents.
abbrev pub File : Type 0
File = String × String

-- The loop over the words, which appends a pair for each.
abbrev pub pairs_of : List String → List KeyValue
pairs_of [] = []
pairs_of (w ∷ words) = record { key = w; value = "1" } ∷ pairs_of words

module _ (fields_func : (Char → Bool) → String → List String) (is_letter : Char → Bool) where
  abbrev pub words_of : String → List String
  words_of contents = fields_func (λ r. not (is_letter r)) contents

  -- Map of wc.go
  abbrev pub wc_map : File → List KeyValue
  wc_map (filename, contents) = pairs_of (words_of contents)

-- Reduce of wc.go
abbrev pub wc_reduce : (ℕ → String) → String → List String → String
wc_reduce itoa key values = itoa (length values)

-- m[w] = true for every word: the keys of m, in the order in which they come in.
abbrev pub note_key : String → List String → List String
note_key w [] = w ∷ []
note_key w (k ∷ keys) =
    let rest = note_key w keys in ite (string_discrete k w) (k ∷ keys) (k ∷ rest)

abbrev pub keys_of : List String → List String → List String
keys_of [] keys = keys
keys_of (w ∷ words) keys = keys_of words (note_key w keys)

-- The loop over the keys.
abbrev pub postings : String → List String → List KeyValue
postings document [] = []
postings document (w ∷ keys) = record { key = w; value = document } ∷ postings document keys

module _ (fields_func : (Char → Bool) → String → List String) (is_letter : Char → Bool)
    (range : List String → List String) where
  -- Map of indexer.go; `range` is the order in which a loop takes the keys of a Go map.
  abbrev pub indexer_map : File → List KeyValue
  indexer_map (document, value) =
      postings document (range (keys_of (words_of fields_func is_letter value) []))

-- Reduce of indexer.go; `sprintf` is fmt.Sprintf("%d %s", …).
abbrev pub indexer_reduce :
    (List String → List String)
    → (List String → String → String)
    → (ℕ → String → String)
    → String
    → List String
    → String
indexer_reduce sort_strings join sprintf key values =
    sprintf (length values) (join (sort_strings values) ",")
