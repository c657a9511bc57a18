-- ===== src/MapReduce/Worker/Insertion.antt =====
-- A sort by insertion, which can stand for sort.Sort.
use mathlib.Core.List.{Permᴰ}
use mathlib.Core.List.Permᴰ
use lab_implementation.Common.{
  ◌≡◌, refl, sym, subst, false, Bool-cases, inl, inr, List, [], ◌∷◌, All, if◌then◌else◌, if_elim,
  if_true, if_false, string_lt_asymm, string_lt_trans,
}
use lab_implementation.MapReduce.Worker.{KeyValue, less}
use lab_implementation.MapReduce.Worker.Groups.{Sorted}
use lab_implementation.MapReduce.Worker.Agreement.{IsSort}

abbrev insert : KeyValue → List KeyValue → List KeyValue
insert kv [] = kv ∷ []
insert kv (x ∷ xs) = let rest = insert kv xs in if less kv x then kv ∷ x ∷ xs else x ∷ rest

abbrev pub insertion_sort : List KeyValue → List KeyValue
insertion_sort [] = []
insertion_sort (kv ∷ kva) = insert kv (insertion_sort kva)

insert-Permᴰ : (kv : KeyValue) (xs : List KeyValue) → Permᴰ (insert kv xs) (kv ∷ xs)
insert-Permᴰ kv [] = Permᴰ.refl (kv ∷ [])
insert-Permᴰ kv (x ∷ xs) =
    if_elim (λ l. Permᴰ l (kv ∷ x ∷ xs)) (less kv x) (Permᴰ.refl (kv ∷ x ∷ xs))
      (Permᴰ.trans (Permᴰ.cons refl (insert-Permᴰ kv xs)) (Permᴰ.swap refl refl))

insertion_sort-Permᴰ : (kva : List KeyValue) → Permᴰ (insertion_sort kva) kva
insertion_sort-Permᴰ [] = Permᴰ.nil
insertion_sort-Permᴰ (kv ∷ kva) =
    Permᴰ.trans (insert-Permᴰ kv (insertion_sort kva)) (Permᴰ.cons refl (insertion_sort-Permᴰ kva))

insert-All :
    (P : KeyValue → Type 0) (kv : KeyValue) (xs : List KeyValue)
    → P kv
    → All P xs
    → All P (insert kv xs)
insert-All P kv [] p a = (p, tt)
insert-All P kv (x ∷ xs) p a = if_elim (All P) (less kv x) (p, a) (a.0, insert-All P kv xs p a.1)

above :
    (kv x : KeyValue) (xs : List KeyValue)
    → less x kv ≡ false
    → All (λ y. less y x ≡ false) xs
    → All (λ y. less y kv ≡ false) xs
above kv x [] l a = tt
above kv x (y ∷ xs) l a = (string_lt_trans kv.key x.key y.key l a.0, above kv x xs l a.1)

insert-Sorted : (kv : KeyValue) (xs : List KeyValue) → Sorted xs → Sorted (insert kv xs)
insert-Sorted kv [] s = (tt, tt)
insert-Sorted kv (x ∷ xs) s = elim (Bool-cases (less kv x)) [
  | inl l ↦
      let below = string_lt_asymm kv.key x.key l in
      subst Sorted (sym (if_true _ _ l)) ((below, above kv x xs below s.0), s)
  | inr l ↦
      subst Sorted (sym (if_false _ _ l))
        (insert-All (λ y. less y x ≡ false) kv xs l s.0, insert-Sorted kv xs s.1)
]

pub insertion_sort-Sorted : (kva : List KeyValue) → Sorted (insertion_sort kva)
insertion_sort-Sorted [] = tt
insertion_sort-Sorted (kv ∷ kva) = insert-Sorted kv (insertion_sort kva) (insertion_sort-Sorted kva)

pub insertion_sort-IsSort : IsSort insertion_sort
insertion_sort-IsSort = record {
  permutes = λ kva. ∣ insertion_sort-Permᴰ kva ∣₁;
  sorts = insertion_sort-Sorted;
}
