-- ===== src/MapReduce/Worker/Buckets.antt =====
-- worker.go, HandleMap: each pair is written to the file of its key's bucket, and a reduce task reads
-- the pairs of its bucket.
use lab_implementation.Common.{
  ℕ, zero, suc, ◌%◌, ◌<◌, ◌≡◌, refl, sym, ap, ◌∙◌, List, [], ◌∷◌, ◌++◌, length, get_elem?, set,
  length-set, get_elem?-lt, get_elem?-set_self, get_elem?-set_ne, append_assoc, append-nil, none,
  some, String, ite, dec_elim, ℕ_discrete, arith,
}
use lab_implementation.MapReduce.Worker.{
  KeyValue, ihash, temp_files, encode_to, write_pairs, map_files,
}

module _ (fnv32a : String → ℕ) (nreduce : ℕ) where
  abbrev pub bucket_of : String → ℕ
  bucket_of key = ihash fnv32a key % nreduce

  -- The pairs whose key belongs to bucket b, in their order.
  abbrev pub in_bucket : ℕ → List KeyValue → List KeyValue
  in_bucket b [] = []
  in_bucket b (kv ∷ kva) =
      let rest = in_bucket b kva in ite (ℕ_discrete (bucket_of kv.key) b) (kv ∷ rest) rest

  -- What one pair adds to the file of bucket b.
  encoded :
      (b : ℕ) (kv : KeyValue) (files : List (List KeyValue)) (pairs old : List KeyValue)
      → get_elem? files b ≡ some pairs
      → get_elem? files (bucket_of kv.key) ≡ some old
      → get_elem? (set files (bucket_of kv.key) (old ++ (kv ∷ []))) b
        ≡ some (pairs ++ in_bucket b (kv ∷ []))
  encoded b kv files pairs old p o =
      dec_elim
        (λ d.
          get_elem? (set files (bucket_of kv.key) (old ++ (kv ∷ []))) b
          ≡ some (pairs ++ ite d (kv ∷ []) []))
        (ℕ_discrete (bucket_of kv.key) b)
        (λ e.
          let same =
            ap (λ x. elim x [ none ↦ old | some l ↦ l ]) (sym o ∙ (ap (get_elem? files) e ∙ p)) in
          ap (get_elem? (set files (bucket_of kv.key) (old ++ (kv ∷ [])))) (sym e)
          ∙ (get_elem?-set_self files (bucket_of kv.key) old (old ++ (kv ∷ [])) o
              ∙ ap (λ l. some (l ++ (kv ∷ []))) same))
        (λ n.
          get_elem?-set_ne files (bucket_of kv.key) b (old ++ (kv ∷ [])) n
          ∙ (p ∙ ap some (sym (append-nil pairs))))

  in_bucket-cons :
      (b : ℕ) (kv : KeyValue) (kva : List KeyValue)
      → in_bucket b (kv ∷ kva) ≡ in_bucket b (kv ∷ []) ++ in_bucket b kva
  in_bucket-cons b kv kva =
      dec_elim
        (λ d.
          ite d (kv ∷ in_bucket b kva) (in_bucket b kva) ≡ ite d (kv ∷ []) [] ++ in_bucket b kva)
        (ℕ_discrete (bucket_of kv.key) b) (λ _. refl) (λ _. refl)

  pub in_bucket-append :
      (b : ℕ) (kva kvb : List KeyValue)
      → in_bucket b (kva ++ kvb) ≡ in_bucket b kva ++ in_bucket b kvb
  in_bucket-append b [] kvb = refl
  in_bucket-append b (kv ∷ kva) kvb =
      in_bucket-cons b kv (kva ++ kvb)
      ∙ (ap (λ l. in_bucket b (kv ∷ []) ++ l) (in_bucket-append b kva kvb)
          ∙ (sym (append_assoc (in_bucket b (kv ∷ [])) (in_bucket b kva) (in_bucket b kvb))
              ∙ ap (λ l. l ++ in_bucket b kvb) (sym (in_bucket-cons b kv kva))))

  write_pairs-bucket :
      (b : ℕ) (kva : List KeyValue) (files : List (List KeyValue)) (pairs : List KeyValue)
      → 0 < nreduce
      → length files ≡ nreduce
      → get_elem? files b ≡ some pairs
      → (out : List (List KeyValue)) × (write_pairs fnv32a nreduce kva (some files) ≡ some out)
        × (get_elem? out b ≡ some (pairs ++ in_bucket b kva))
  write_pairs-bucket b [] files pairs z l p = (files, refl, p ∙ ap some (sym (append-nil pairs)))
  write_pairs-bucket b (kv ∷ kva) files pairs z l p =
      let c = bucket_of kv.key in
      let (old, o) = get_elem?-lt files c (omega (arith, z, l)) in
      let (out, w, g) =
        write_pairs-bucket b kva (set files c (old ++ (kv ∷ []))) (pairs ++ in_bucket b (kv ∷ [])) z
          (length-set files c (old ++ (kv ∷ [])) ∙ l) (encoded b kv files pairs old p o) in
      (
        out,
        ap (λ x. write_pairs fnv32a nreduce kva (encode_to c kv files x)) o ∙ w,
        g
            ∙ ap some (
                append_assoc pairs (in_bucket b (kv ∷ [])) (in_bucket b kva)
                ∙ ap (λ l. pairs ++ l) (sym (in_bucket-cons b kv kva))),
      )

  length-temp_files : (n : ℕ) → length (temp_files n) ≡ n
  length-temp_files zero = refl
  length-temp_files (suc n) = ap suc (length-temp_files n)

  get_elem?-temp_files : (b n : ℕ) → b < n → get_elem? (temp_files n) b ≡ some []
  get_elem?-temp_files b zero h = absurd (omega (arith, h))
  get_elem?-temp_files zero (suc n) h = refl
  get_elem?-temp_files (suc b) (suc n) h = get_elem?-temp_files b n (omega (arith, h))

  -- A map task writes its files, without an index out of range, and the file of each bucket holds
  -- exactly the pairs whose key belongs to the bucket, in the order in which Map gave them.
  pub map_files-in_bucket :
      (b : ℕ) (kva : List KeyValue)
      → b < nreduce
      → (files : List (List KeyValue)) × (map_files fnv32a nreduce kva ≡ some files)
        × (get_elem? files b ≡ some (in_bucket b kva))
  map_files-in_bucket b kva h =
      write_pairs-bucket b kva (temp_files nreduce) [] (omega (arith, h))
        (length-temp_files nreduce) (get_elem?-temp_files b nreduce h)
