-- ===== src/MapReduce/Apps/Index.antt =====
-- indexer.go on the workers of mr/worker.go: every word with the documents that contain it.
use Prim.Native.Char.{Char}
use mathlib.Core.List.{Perm}
use lab_implementation.Common.{
  ℕ, zero, suc, ◌+◌, ◌≤◌, ◌<◌, ◌≡◌, ◌≢◌, refl, sym, ap, ◌∙◌, Bool, some, List, [], ◌∷◌, ◌++◌, map,
  String, string_discrete, ite, if_pos, if_neg, dec_elim, arith,
}
use lab_implementation.MapReduce.Worker.{KeyValue, Line}
use lab_implementation.MapReduce.Worker.Groups.{values_of, lines_of, expected, reduce_lines-groups}
use lab_implementation.MapReduce.Worker.Buckets.{bucket_of}
use lab_implementation.MapReduce.Worker.Agreement.{
  intermediate, IsSort, values_of-Perm, OrderFree, expected-Perm, distributed,
  distributed_is_sequential,
}
use lab_implementation.MapReduce.Apps.{
  File, words_of, note_key, keys_of, postings, indexer_map, indexer_reduce,
}
use lab_implementation.MapReduce.Apps.Counts.{
  occurrences, occurrences-Perm, values_of-append, length-Perm,
}
use lab_implementation.MapReduce.Apps.Sorting.{IsStringSort, sort-Perm, here, elsewhere}

-- At most one.
abbrev cap : ℕ → ℕ
cap zero = 0
cap (suc n) = 1

cap-cap : (a b : ℕ) → cap (cap a + b) ≡ cap (a + b)
cap-cap zero b = refl
cap-cap (suc a) b = ground arith

cap-le : (a : ℕ) → cap a ≤ 1
cap-le zero = omega arith
cap-le (suc a) = omega arith

capped : (a b : ℕ) → a ≤ 1 → a ≤ b → b ≤ a + a → a ≡ cap b
capped zero zero h k l = refl
capped zero (suc b) h k l = absurd (omega (arith, l))
capped (suc a) zero h k l = absurd (omega (arith, k))
capped (suc a) (suc b) h k l = omega (arith, h)

cons_occurrences :
    (w v : String) (words : List String)
    → occurrences w (v ∷ words) ≡ occurrences w (v ∷ []) + occurrences w words
cons_occurrences w v words = elim (string_discrete v w) [
  | yes e ↦ omega (arith, here w v words e, here w v [] e)
  | no n ↦ omega (arith, elsewhere w v words n, elsewhere w v [] n)
]

once : (w v : String) → occurrences w (v ∷ []) ≡ cap (occurrences w (v ∷ []))
once w v = elim (string_discrete v w) [
  | yes e ↦ let h = here w v [] e in h ∙ ap cap (sym h)
  | no n ↦ let h = elsewhere w v [] n in h ∙ ap cap (sym h)
]

seen :
    (w v k : String) (keys : List String)
    → k ≡ v
    → occurrences w (k ∷ keys) + occurrences w (v ∷ [])
      ≤ occurrences w (k ∷ keys) + occurrences w (k ∷ keys)
seen w v k keys e = omega (arith, cons_occurrences w k keys, ap (λ x. occurrences w (x ∷ [])) e)

shorter :
    (w k : String) (keys : List String) → occurrences w (k ∷ keys) ≤ 1 → occurrences w keys ≤ 1
shorter w k keys l = omega (arith, l, cons_occurrences w k keys)

passed :
    (w v k : String) (keys : List String)
    → k ≢ v
    → occurrences w (k ∷ keys) ≤ 1
    → occurrences w (note_key v keys) ≡ cap (occurrences w keys + occurrences w (v ∷ []))
    → occurrences w (k ∷ note_key v keys) ≡ cap (occurrences w (k ∷ keys) + occurrences w (v ∷ []))
passed w v k keys n l i = elim (string_discrete k w) [
  | yes f ↦
      let first = here w k keys f in
      let other = elsewhere w v [] (λ g. n (f ∙ sym g)) in
      let sum : occurrences w keys + occurrences w (v ∷ []) ≡ 0 = omega (arith, first, other, l) in
      let same : occurrences w (note_key v keys) ≡ 0 = i ∙ ap cap sum in
      here w k (note_key v keys) f
      ∙ capped (suc (occurrences w (note_key v keys)))
          (occurrences w (k ∷ keys) + occurrences w (v ∷ [])) (omega (arith, same))
          (omega (arith, same, first)) (omega (arith, same, first, other, l))
  | no g ↦
      elsewhere w k (note_key v keys) g
      ∙ i
      ∙ ap (λ x. cap (x + occurrences w (v ∷ []))) (sym (elsewhere w k keys g))
]

note_key-occurrences :
    (w v : String) (keys : List String)
    → occurrences w keys ≤ 1
    → occurrences w (note_key v keys) ≡ cap (occurrences w keys + occurrences w (v ∷ []))
note_key-occurrences w v [] l = once w v ∙ ap cap (omega arith)
note_key-occurrences w v (k ∷ keys) l = elim (string_discrete k v) [
  | yes e ↦
      ap (occurrences w) (if_pos (string_discrete k v) e _ _)
      ∙ capped (occurrences w (k ∷ keys)) (occurrences w (k ∷ keys) + occurrences w (v ∷ [])) l
          (omega arith) (seen w v k keys e)
  | no n ↦
      ap (occurrences w) (if_neg (string_discrete k v) n _ _)
      ∙ passed w v k keys n l (note_key-occurrences w v keys (shorter w k keys l))
]

keys_of-occurrences :
    (w : String) (words keys : List String)
    → occurrences w keys ≤ 1
    → occurrences w (keys_of words keys) ≡ cap (occurrences w keys + occurrences w words)
keys_of-occurrences w [] keys l =
    capped (occurrences w keys) (occurrences w keys + 0) l (omega arith) (omega arith)
keys_of-occurrences w (v ∷ words) keys l =
    let added = note_key-occurrences w v keys l in
    keys_of-occurrences w words (note_key v keys)
      (omega (arith, added, cap-le (occurrences w keys + occurrences w (v ∷ []))))
    ∙ ap (λ x. cap (x + occurrences w words)) added
    ∙ cap-cap (occurrences w keys + occurrences w (v ∷ [])) (occurrences w words)
    ∙ ap cap (omega (arith, cons_occurrences w v words))

keys_of-all :
    (w : String) (words : List String)
    → occurrences w (keys_of words []) ≡ cap (occurrences w words)
keys_of-all w words =
    let sum : 0 + occurrences w words ≡ occurrences w words = omega arith in
    keys_of-occurrences w words [] (omega arith) ∙ ap cap sum

abbrev copies : ℕ → String → List String
copies zero d = []
copies (suc n) d = d ∷ copies n d

values_of-postings :
    (w d : String) (keys : List String)
    → values_of w (postings d keys) ≡ copies (occurrences w keys) d
values_of-postings w d [] = refl
values_of-postings w d (k ∷ keys) =
    let i = values_of-postings w d keys in
    dec_elim
      (λ e.
        ite e (d ∷ values_of w (postings d keys)) (values_of w (postings d keys))
        ≡ copies (ite e (suc (occurrences w keys)) (occurrences w keys)) d)
      (string_discrete k w) (λ _. ap (λ l. d ∷ l) i) (λ _. i)

-- The documents with a word, in the order of the input.
abbrev pub documents : (String → List String) → String → List File → List String
documents words w [] = []
documents words w ((name, contents) ∷ files) =
    let rest = documents words w files in copies (cap (occurrences w (words contents))) name ++ rest

indexer_reduce-OrderFree :
    (sort_strings : List String → List String) (join : List String → String → String)
    (sprintf : ℕ → String → String)
    → IsStringSort sort_strings
    → OrderFree (indexer_reduce sort_strings join sprintf)
indexer_reduce-OrderFree sort_strings join sprintf s key vs ws p i =
    sprintf (length-Perm vs ws p i) (join (sort-Perm sort_strings vs ws s p i) ",")

module _ (fields_func : (Char → Bool) → String → List String) (is_letter : Char → Bool)
    (range : List String → List String)
    (ranges : (keys : List String) → Perm (range keys) keys) where
  values_of-indexer_map :
      (w d contents : String)
      → values_of w (indexer_map fields_func is_letter range (d, contents))
        ≡ copies (cap (occurrences w (words_of fields_func is_letter contents))) d
  values_of-indexer_map w d contents =
      let words = words_of fields_func is_letter contents in
      let keys = keys_of words [] in
      values_of-postings w d (range keys)
      ∙ ap (λ n. copies n d)
          (occurrences-Perm w (range keys) keys (ranges keys) ∙ keys_of-all w words)

  values_of-documents :
      (w : String) (files : List File)
      → values_of w (intermediate (map (indexer_map fields_func is_letter range) files))
        ≡ documents (words_of fields_func is_letter) w files
  values_of-documents w [] = refl
  values_of-documents w ((d, contents) ∷ files) =
      values_of-append w (indexer_map fields_func is_letter range (d, contents))
        (intermediate (map (indexer_map fields_func is_letter range) files))
      ∙ (λ i. values_of-indexer_map w d contents i ++ values_of-documents w files i)

  -- When sort.Sort and sort.Strings sort, a loop over a Go map takes each key once and there is a reduce
  -- task, the distributed indexer finishes the reduce task of the bucket of any word. If no document
  -- contains the word, its output has no line for it; otherwise it has one line, which Reduce makes of
  -- the documents that contain the word, each once.
  pub index_lists :
      (sort_strings : List String → List String) (join : List String → String → String)
      (sprintf : ℕ → String → String) (fnv32a : String → ℕ) (nreduce : ℕ)
      (sort : List KeyValue → List KeyValue)
      → IsStringSort sort_strings
      → IsSort sort
      → (files : List File) (word : String) → 0 < nreduce
      → (lines : List Line) × (distributed fnv32a nreduce sort
            (indexer_reduce sort_strings join sprintf)
            (map (indexer_map fields_func is_letter range) files)
            (bucket_of fnv32a nreduce word)
          ≡ some lines)
        × (lines_of word lines
            ≡ expected
                (indexer_reduce sort_strings join sprintf)
                word
                (documents (words_of fields_func is_letter) word files))
  index_lists sort_strings join sprintf fnv32a nreduce sort by s files word z =
      let reducef = indexer_reduce sort_strings join sprintf in
      let kvas = map (indexer_map fields_func is_letter range) files in
      let all = intermediate kvas in
      let free = indexer_reduce-OrderFree sort_strings join sprintf by in
      let (lines, run, same) =
        distributed_is_sequential fnv32a nreduce sort reducef s free kvas word z in
      (
        lines,
        run,
        same
            ∙ reduce_lines-groups reducef (sort all) word (s.sorts all)
            ∙ expected-Perm reducef word _ _ free
                (values_of-Perm word (sort all) all (s.permutes all))
            ∙ ap (expected reducef word) (values_of-documents word files),
      )
