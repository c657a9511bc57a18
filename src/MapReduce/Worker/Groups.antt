-- ===== src/MapReduce/Worker/Groups.antt =====
-- worker.go, the loop of HandleReduce over the sorted pairs: one line for each key.
use lab_implementation.Common.{
  ℕ, zero, suc, ◌≤◌, ◌≡◌, ◌≢◌, refl, sym, ap, subst, ◌∙◌, false, List, [], ◌∷◌, length, All, String,
  string_lt, string_lt_antisymm, string_discrete, ite, if_neg, arith, dec_elim, ite_elim,
}
use lab_implementation.MapReduce.Worker.{
  KeyValue, less, cons_value, take_group, Line, reduce_loop, reduce_lines,
}

-- The values of a key, in the order of the pairs.
abbrev pub values_of : String → List KeyValue → List String
values_of key [] = []
values_of key (kv ∷ kva) =
    let rest = values_of key kva in ite (string_discrete kv.key key) (kv.value ∷ rest) rest

abbrev pub lines_of : String → List Line → List String
lines_of key [] = []
lines_of key ((k, output) ∷ lines) =
    let rest = lines_of key lines in ite (string_discrete k key) (output ∷ rest) rest

-- One line with Reduce of all values, or none for a key without values.
abbrev pub expected : (String → List String → String) → String → List String → List String
expected reducef key [] = []
expected reducef key (v ∷ values) = reducef key (v ∷ values) ∷ []

-- No pair is less than one before it, which is what sort.Sort leaves.
abbrev pub Sorted : List KeyValue → Type 0
Sorted [] = Unit
Sorted (kv ∷ kva) = All (λ other. less other kv ≡ false) kva × Sorted kva

abbrev pub NotBelow : String → List KeyValue → Type 0
NotBelow key kva = All (λ kv. string_lt kv.key key ≡ false) kva

values_of-passed :
    (key : String) (kv : KeyValue) (kva : List KeyValue)
    → kv.key ≢ key
    → string_lt kv.key key ≡ false
    → All (λ other. less other kv ≡ false) kva
    → values_of key kva ≡ []
values_of-passed key kv [] n l a = refl
values_of-passed key kv (x ∷ kva) n l a =
    ite_elim (λ l. l ≡ []) (string_discrete x.key key)
      (λ e.
        absurd
          (n (string_lt_antisymm kv.key key l (subst (λ k. string_lt k kv.key ≡ false) e a.0))))
      (λ _. values_of-passed key kv kva n l a.1)

take_group-values :
    (key : String) (kva : List KeyValue)
    → Sorted kva
    → NotBelow key kva
    → ((take_group key kva).0 ≡ values_of key kva) × (values_of key (take_group key kva).1 ≡ [])
take_group-values key [] s b = (refl, refl)
take_group-values key (kv ∷ kva) s b =
    let i = take_group-values key kva s.1 b.1 in
    dec_elim
      (λ d.
        ((ite d (cons_value kv.value (take_group key kva)) ([], kv ∷ kva)).0
          ≡ ite d (kv.value ∷ values_of key kva) (values_of key kva))
        × (values_of key (ite d (cons_value kv.value (take_group key kva)) ([], kv ∷ kva)).1 ≡ []))
      (string_discrete kv.key key) (λ e. (ap (λ l. kv.value ∷ l) i.0, i.1))
      (λ n.
        let none_left = values_of-passed key kv kva n b.0 s.0 in
        (sym none_left, if_neg (string_discrete kv.key key) n _ _ ∙ none_left))

take_group-others :
    (key other : String) (kva : List KeyValue)
    → key ≢ other
    → values_of other (take_group key kva).1 ≡ values_of other kva
take_group-others key o [] n = refl
take_group-others key o (kv ∷ kva) n =
    ite_elim (λ (g : List String × List KeyValue). values_of o g.1 ≡ values_of o (kv ∷ kva))
      (string_discrete kv.key key)
      (λ e.
        take_group-others key o kva n
        ∙ sym (if_neg (string_discrete kv.key o) (λ f. n (sym e ∙ f)) _ _))
      (λ _. refl)

take_group-Sorted :
    (key : String) (kva : List KeyValue) → Sorted kva → Sorted (take_group key kva).1
take_group-Sorted key [] s = tt
take_group-Sorted key (kv ∷ kva) s =
    ite_elim (λ (g : List String × List KeyValue). Sorted g.1) (string_discrete kv.key key)
      (λ _. take_group-Sorted key kva s.1) (λ _. s)

take_group-length :
    (key : String) (kva : List KeyValue) → length (take_group key kva).1 ≤ length kva
take_group-length key [] = omega arith
take_group-length key (kv ∷ kva) =
    ite_elim (λ (g : List String × List KeyValue). length g.1 ≤ suc (length kva))
      (string_discrete kv.key key) (λ _. omega (arith, take_group-length key kva))
      (λ _. omega arith)

module _ (reducef : String → List String → String) where
  reduce_loop-lines :
      (key : String) (n : ℕ) (kva : List KeyValue)
      → Sorted kva
      → length kva ≤ n
      → lines_of key (reduce_loop reducef n kva) ≡ expected reducef key (values_of key kva)
  reduce_loop-lines key zero [] s l = refl
  reduce_loop-lines key zero (kv ∷ kva) s l = absurd (omega (arith, l))
  reduce_loop-lines key (suc n) [] s l = refl
  reduce_loop-lines key (suc n) (kv ∷ kva) s l =
      let group = take_group kv.key kva in
      let i =
        reduce_loop-lines key n group.1 (take_group-Sorted kv.key kva s.1)
          (omega (arith, l, take_group-length kv.key kva)) in
      dec_elim
        (λ d.
          ite d (reducef kv.key (kv.value ∷ group.0) ∷ lines_of key (reduce_loop reducef n group.1))
            (lines_of key (reduce_loop reducef n group.1))
          ≡ expected reducef key (ite d (kv.value ∷ values_of key kva) (values_of key kva)))
        (string_discrete kv.key key)
        (λ e.
          let (taken, left) = take_group-values kv.key kva s.1 s.0 in
          let all = taken ∙ ap (λ k. values_of k kva) e in
          let no_more =
            i ∙ ap (expected reducef key) (subst (λ k. values_of k group.1 ≡ []) e left) in
          λ j. reducef (e j) (kv.value ∷ all j) ∷ no_more j)
        (λ n. i ∙ ap (expected reducef key) (take_group-others kv.key key kva n))

  -- On sorted pairs the loop writes for every key that occurs exactly one line, with Reduce of all
  -- the values of the key in their order, and no line for a key that does not occur.
  pub reduce_lines-groups :
      (kva : List KeyValue) (key : String)
      → Sorted kva
      → lines_of key (reduce_lines reducef kva) ≡ expected reducef key (values_of key kva)
  reduce_lines-groups kva key s = reduce_loop-lines key (length kva) kva s (omega arith)
