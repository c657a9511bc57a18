-- ===== src/MapReduce/Apps/Counts.antt =====
-- wc.go on the workers of mr/worker.go: every word is counted over all files.
use Prim.Native.Char.{Char}
use native.Mathlib.Nat.{ℕ_set}
use mathlib.Core.List.{Perm, foldr}
use mathlib.Core.List.Perm
use lab_implementation.Common.{
  ℕ, zero, suc, ◌+◌, ◌<◌, ◌≡◌, refl, sym, ap, ◌∙◌, Bool, some, List, [], ◌∷◌, ◌++◌, map, length,
  length-append, String, string_discrete, ite, dec_elim,
}
use lab_implementation.MapReduce.Worker.{KeyValue, Line}
use lab_implementation.MapReduce.Worker.Groups.{values_of, lines_of, expected, reduce_lines-groups}
use lab_implementation.MapReduce.Worker.Buckets.{bucket_of}
use lab_implementation.MapReduce.Worker.Agreement.{
  intermediate, IsSort, values_of-Perm, OrderFree, distributed, distributed_is_sequential,
}
use lab_implementation.MapReduce.Apps.{File, pairs_of, words_of, wc_map, wc_reduce}

-- How often a word is in a list of words, and in all files.
abbrev pub occurrences : String → List String → ℕ
occurrences w [] = 0
occurrences w (x ∷ words) =
    let rest = occurrences w words in ite (string_discrete x w) (suc rest) rest

abbrev pub total : (String → List String) → String → List File → ℕ
total words w [] = 0
total words w ((name, contents) ∷ files) = occurrences w (words contents) + total words w files

occurrences-foldr :
    (w : String) (xs : List String)
    → occurrences w xs ≡ foldr (λ x n. ite (string_discrete x w) (suc n) n) 0 xs
occurrences-foldr w [] = refl
occurrences-foldr w (x ∷ xs) =
    let i = occurrences-foldr w xs in λ j. ite (string_discrete x w) (suc (i j)) (i j)

ite-swap :
    {P Q : Type 0} (d : Dec P) (e : Dec Q) (n : ℕ)
    → ite d (suc (ite e (suc n) n)) (ite e (suc n) n)
      ≡ ite e (suc (ite d (suc n) n)) (ite d (suc n) n)
ite-swap (yes p) (yes q) n = refl
ite-swap (yes p) (no q) n = refl
ite-swap (no p) (yes q) n = refl
ite-swap (no p) (no q) n = refl

pub occurrences-Perm :
    (w : String) (xs ys : List String) → Perm xs ys → occurrences w xs ≡ occurrences w ys
occurrences-Perm w xs ys p =
    occurrences-foldr w xs
    ∙ Perm.foldr-eq ℕ_set (λ x n. ite (string_discrete x w) (suc n) n)
        (λ a b n. ite-swap (string_discrete a w) (string_discrete b w) n) p 0
    ∙ sym (occurrences-foldr w ys)

-- The lines for a word with this count.
abbrev pub count_lines : (ℕ → String) → ℕ → List String
count_lines itoa zero = []
count_lines itoa (suc n) = itoa (suc n) ∷ []

length-foldr : {A : Type 0} (xs : List A) → length xs ≡ foldr (λ _ n. suc n) 0 xs
length-foldr [] = refl
length-foldr (x ∷ xs) = ap suc (length-foldr xs)

pub length-Perm : {A : Type 0} (xs ys : List A) → Perm xs ys → length xs ≡ length ys
length-Perm xs ys p =
    length-foldr xs ∙ Perm.foldr-eq ℕ_set (λ _ n. suc n) (λ a b x. refl) p 0 ∙ sym (length-foldr ys)

wc_reduce-OrderFree : (itoa : ℕ → String) → OrderFree (wc_reduce itoa)
wc_reduce-OrderFree itoa key vs ws p = ap itoa (length-Perm vs ws p)

expected-count_lines :
    (itoa : ℕ → String) (key : String) (vs : List String)
    → expected (wc_reduce itoa) key vs ≡ count_lines itoa (length vs)
expected-count_lines itoa key [] = refl
expected-count_lines itoa key (v ∷ vs) = refl

pub values_of-append :
    (key : String) (kva kvb : List KeyValue)
    → values_of key (kva ++ kvb) ≡ values_of key kva ++ values_of key kvb
values_of-append key [] kvb = refl
values_of-append key (kv ∷ kva) kvb =
    let i = values_of-append key kva kvb in
    dec_elim
      (λ d.
        ite d (kv.value ∷ values_of key (kva ++ kvb)) (values_of key (kva ++ kvb))
        ≡ ite d (kv.value ∷ values_of key kva) (values_of key kva) ++ values_of key kvb)
      (string_discrete kv.key key) (λ _. ap (λ l. kv.value ∷ l) i) (λ _. i)

length-pairs_of :
    (key : String) (words : List String)
    → length (values_of key (pairs_of words)) ≡ occurrences key words
length-pairs_of key [] = refl
length-pairs_of key (w ∷ words) =
    let i = length-pairs_of key words in
    dec_elim
      (λ d.
        length (ite d ("1" ∷ values_of key (pairs_of words)) (values_of key (pairs_of words)))
        ≡ ite d (suc (occurrences key words)) (occurrences key words))
      (string_discrete w key) (λ _. ap suc i) (λ _. i)

module _ (fields_func : (Char → Bool) → String → List String) (is_letter : Char → Bool) where
  length-intermediate :
      (key : String) (files : List File)
      → length (values_of key (intermediate (map (wc_map fields_func is_letter) files)))
        ≡ total (words_of fields_func is_letter) key files
  length-intermediate key [] = refl
  length-intermediate key ((name, contents) ∷ files) =
      let first = pairs_of (words_of fields_func is_letter contents) in
      let rest = intermediate (map (wc_map fields_func is_letter) files) in
      ap length (values_of-append key first rest)
      ∙ length-append (values_of key first) (values_of key rest)
      ∙ (λ i.
          length-pairs_of key (words_of fields_func is_letter contents) i
          + length-intermediate key files i)

  -- When sort.Sort sorts and there is a reduce task, the distributed word count finishes the reduce
  -- task of the bucket of any word, and its output has for the word one line, with the number of times
  -- that the word is among the words of all input files, or no line when that number is zero.
  pub wc_counts :
      (itoa : ℕ → String) (fnv32a : String → ℕ) (nreduce : ℕ) (sort : List KeyValue → List KeyValue)
      → IsSort sort
      → (files : List File) (word : String) → 0 < nreduce
      → (lines : List Line) × (distributed fnv32a nreduce sort
            (wc_reduce itoa)
            (map (wc_map fields_func is_letter) files)
            (bucket_of fnv32a nreduce word)
          ≡ some lines)
        × (lines_of word lines
            ≡ count_lines itoa (total (words_of fields_func is_letter) word files))
  wc_counts itoa fnv32a nreduce sort s files word z =
      let kvas = map (wc_map fields_func is_letter) files in
      let all = intermediate kvas in
      let (lines, run, same) =
        distributed_is_sequential fnv32a nreduce sort (wc_reduce itoa) s (wc_reduce-OrderFree itoa)
          kvas word z in
      (
        lines,
        run,
        same
            ∙ reduce_lines-groups (wc_reduce itoa) (sort all) word (s.sorts all)
            ∙ expected-count_lines itoa word (values_of word (sort all))
            ∙ ap (count_lines itoa) (
                length-Perm _ _ (values_of-Perm word (sort all) all (s.permutes all))
                ∙ length-intermediate word files),
      )
