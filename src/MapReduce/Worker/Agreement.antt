-- ===== src/MapReduce/Worker/Agreement.antt =====
-- The distributed run, worker.go, against the sequential one, main/mrsequential.go: for every key the
-- reduce task of its bucket writes the line that mrsequential writes, and no other task writes one.
use mathlib.Core.List.{Perm, filter_map}
use mathlib.Core.List.Perm
use mathlib.Core.Option.{Option-elim}
use lab_implementation.Common.{
  ℕ, ◌<◌, ◌≡◌, ◌≢◌, refl, sym, ap, subst, ◌∙◌, List, [], ◌∷◌, ◌++◌, Option, none, some, String, ite,
  if_neg, ite_elim, dec_elim, ℕ_discrete, string_discrete, arith,
}
use lab_implementation.MapReduce.Worker.{
  KeyValue, Line, reduce_lines, map_files, join_pairs, read_files,
}
use lab_implementation.MapReduce.Worker.Groups.{
  values_of, lines_of, expected, Sorted, reduce_lines-groups,
}
use lab_implementation.MapReduce.Worker.Buckets.{
  bucket_of, in_bucket, in_bucket-append, map_files-in_bucket,
}

-- What Map gave for all the input files, as mrsequential accumulates it.
abbrev pub intermediate : List (List KeyValue) → List KeyValue
intermediate [] = []
intermediate (kva ∷ kvas) = kva ++ intermediate kvas

-- sort.Sort with ByKey: some permutation after which no pair is less than one before it.
pub record IsSort (sort : List KeyValue → List KeyValue) : Type 0 where
  pub permutes : (kva : List KeyValue) → Perm (sort kva) kva
  pub sorts : (kva : List KeyValue) → Sorted (sort kva)

abbrev pick : String → KeyValue → Option String
pick key kv = ite (string_discrete kv.key key) (some kv.value) none

values_of-filter_map :
    (key : String) (kva : List KeyValue) → values_of key kva ≡ filter_map (pick key) kva
unfolding filter_map Option-elim
values_of-filter_map key [] = refl
values_of-filter_map key (kv ∷ kva) =
    dec_elim
      (λ d.
        ite d (kv.value ∷ values_of key kva) (values_of key kva)
        ≡ Option-elim (ite d (some kv.value) none) (filter_map (pick key) kva)
            (λ b. b ∷ filter_map (pick key) kva))
      (string_discrete kv.key key) (λ _. ap (λ l. kv.value ∷ l) (values_of-filter_map key kva))
      (λ _. values_of-filter_map key kva)

pub values_of-Perm :
    (key : String) (kva kvb : List KeyValue)
    → Perm kva kvb
    → Perm (values_of key kva) (values_of key kvb)
values_of-Perm key kva kvb p =
    subst (λ l. Perm l (values_of key kvb)) (sym (values_of-filter_map key kva))
      (subst (λ l. Perm (filter_map (pick key) kva) l) (sym (values_of-filter_map key kvb))
        (Perm.filter_map (pick key) p))

-- Reduce does not depend on the order of the values.
abbrev pub OrderFree : (String → List String → String) → Type 0
OrderFree reducef =
    (key : String) (vs ws : List String) → Perm vs ws → reducef key vs ≡ reducef key ws

pub expected-Perm :
    (reducef : String → List String → String) (key : String) (vs ws : List String)
    → OrderFree reducef
    → Perm vs ws
    → expected reducef key vs ≡ expected reducef key ws
expected-Perm reducef key [] ws f p = ap (expected reducef key) (Perm.nil-eq p)
expected-Perm reducef key (v ∷ vs) [] f p = ap (expected reducef key) (Perm.eq-nil p)
expected-Perm reducef key (v ∷ vs) (w ∷ ws) f p = ap (λ l. l ∷ []) (f key (v ∷ vs) (w ∷ ws) p)

abbrev pub cons_files :
    Option (List (List KeyValue))
    → Option (List (List (List KeyValue)))
    → Option (List (List (List KeyValue)))
cons_files (some files) (some tasks) = some (files ∷ tasks)
cons_files _ _ = none

module _ (fnv32a : String → ℕ) (nreduce : ℕ) where
  -- The files that the map tasks write for what Map gave them.
  abbrev pub run_map : List (List KeyValue) → Option (List (List (List KeyValue)))
  run_map [] = some []
  run_map (kva ∷ kvas) = cons_files (map_files fnv32a nreduce kva) (run_map kvas)

  values_of-in_bucket :
      (key : String) (b : ℕ) (kva : List KeyValue)
      → bucket_of fnv32a nreduce key ≡ b
      → values_of key (in_bucket fnv32a nreduce b kva) ≡ values_of key kva
  values_of-in_bucket key b [] h = refl
  values_of-in_bucket key b (kv ∷ kva) h =
      let i = values_of-in_bucket key b kva h in
      ite_elim (λ l. values_of key l ≡ values_of key (kv ∷ kva))
        (ℕ_discrete (bucket_of fnv32a nreduce kv.key) b)
        (λ _. λ j. ite (string_discrete kv.key key) (kv.value ∷ i j) (i j))
        (λ n.
          i
          ∙ sym (
              if_neg (string_discrete kv.key key) (λ e. n (ap (bucket_of fnv32a nreduce) e ∙ h)) _
                _))

  values_of-other_bucket :
      (key : String) (b : ℕ) (kva : List KeyValue)
      → bucket_of fnv32a nreduce key ≢ b
      → values_of key (in_bucket fnv32a nreduce b kva) ≡ []
  values_of-other_bucket key b [] h = refl
  values_of-other_bucket key b (kv ∷ kva) h =
      let i = values_of-other_bucket key b kva h in
      ite_elim (λ l. values_of key l ≡ []) (ℕ_discrete (bucket_of fnv32a nreduce kv.key) b)
        (λ e.
          if_neg (string_discrete kv.key key) (λ f. h (ap (bucket_of fnv32a nreduce) (sym f) ∙ e)) _
            _
          ∙ i)
        (λ _. i)

  run_map-read_files :
      (b : ℕ) (kvas : List (List KeyValue))
      → b < nreduce
      → (tasks : List (List (List KeyValue))) × (run_map kvas ≡ some tasks)
        × (read_files b tasks ≡ some (in_bucket fnv32a nreduce b (intermediate kvas)))
  run_map-read_files b [] h = ([], refl, refl)
  run_map-read_files b (kva ∷ kvas) h =
      let (files, w, g) = map_files-in_bucket fnv32a nreduce b kva h in
      let (tasks, v, r) = run_map-read_files b kvas h in
      (
        files ∷ tasks,
        (λ i. cons_files (w i) (v i)),
        (λ i. join_pairs (g i) (r i))
            ∙ ap some (sym (in_bucket-append fnv32a nreduce b kva (intermediate kvas))),
      )

module _ (sort : List KeyValue → List KeyValue) (reducef : String → List String → String) where
  -- mr-out-0 of mrsequential, when Map gave `kvas` for the input files.
  abbrev pub sequential : List (List KeyValue) → List Line
  sequential kvas = reduce_lines reducef (sort (intermediate kvas))

  abbrev pub run_reduce : Option (List KeyValue) → Option (List Line)
  run_reduce none = none
  run_reduce (some pairs) = some (reduce_lines reducef (sort pairs))

module _ (fnv32a : String → ℕ) (nreduce : ℕ) (sort : List KeyValue → List KeyValue)
    (reducef : String → List String → String) where
  abbrev pub reduce_task : ℕ → Option (List (List (List KeyValue))) → Option (List Line)
  reduce_task b none = none
  reduce_task b (some tasks) = run_reduce sort reducef (read_files b tasks)

  -- mr-out-b of the distributed run.
  abbrev pub distributed : List (List KeyValue) → ℕ → Option (List Line)
  distributed kvas b = reduce_task b (run_map fnv32a nreduce kvas)

  distributed-in_bucket :
      (kvas : List (List KeyValue)) (b : ℕ)
      → b < nreduce
      → distributed kvas b
        ≡ some (reduce_lines reducef (sort (in_bucket fnv32a nreduce b (intermediate kvas))))
  distributed-in_bucket kvas b h =
      let (tasks, v, r) = run_map-read_files fnv32a nreduce b kvas h in
      ap (reduce_task b) v ∙ ap (run_reduce sort reducef) r

  -- When sort.Sort sorts, Reduce does not depend on the order of the values and there is a reduce
  -- task, the distributed run finishes the reduce task of the bucket of any key, and that task's
  -- output has for the key the same lines as the output of mrsequential.
  pub distributed_is_sequential :
      IsSort sort
      → OrderFree reducef
      → (kvas : List (List KeyValue)) (key : String) → 0 < nreduce
      → (lines : List Line) × (distributed kvas (bucket_of fnv32a nreduce key) ≡ some lines)
        × (lines_of key lines ≡ lines_of key (sequential sort reducef kvas))
  distributed_is_sequential s f kvas key z =
      let b = bucket_of fnv32a nreduce key in
      let all = intermediate kvas in
      let pairs = in_bucket fnv32a nreduce b all in
      let p =
        subst (λ l. Perm (values_of key (sort pairs)) l)
          (values_of-in_bucket fnv32a nreduce key b all refl)
          (values_of-Perm key (sort pairs) pairs (s.permutes pairs)) in
      let q = values_of-Perm key (sort all) all (s.permutes all) in
      (
        reduce_lines reducef (sort pairs),
        distributed-in_bucket kvas b (omega (arith, z)),
        reduce_lines-groups reducef (sort pairs) key (s.sorts pairs)
            ∙ (expected-Perm reducef key _ _ f (Perm.trans p (Perm.symm q))
                ∙ sym (reduce_lines-groups reducef (sort all) key (s.sorts all))),
      )

  -- When sort.Sort sorts, a reduce task finishes and writes no line for a key of another bucket.
  pub no_stray_lines :
      IsSort sort
      → (kvas : List (List KeyValue)) (key : String) (b : ℕ) → b < nreduce
      → bucket_of fnv32a nreduce key ≢ b
      → (lines : List Line) × (distributed kvas b ≡ some lines) × (lines_of key lines ≡ [])
  no_stray_lines s kvas key b h n =
      let all = intermediate kvas in
      let pairs = in_bucket fnv32a nreduce b all in
      let p =
        subst (λ l. Perm (values_of key (sort pairs)) l)
          (values_of-other_bucket fnv32a nreduce key b all n)
          (values_of-Perm key (sort pairs) pairs (s.permutes pairs)) in
      (
        reduce_lines reducef (sort pairs),
        distributed-in_bucket kvas b h,
        reduce_lines-groups reducef (sort pairs) key (s.sorts pairs)
            ∙ ap (expected reducef key) (Perm.eq-nil p),
      )
