-- ===== src/Common/Lists.antt =====
-- Lists measured and indexed by native numbers, under the library's names.
use Prim.Native.Nat.{ℕ, zero, suc, ◌+◌, ◌<◌}
use mathlib.Core.Path.{◌≡◌, refl, ap, subst}
use mathlib.Core.Logic.{◌≢◌}
use mathlib.Core.List.{List, [], ◌∷◌, ◌++◌}
use mathlib.Core.Option.{Option, none, some}
use native.Mathlib.Omega.{arith}

module _ {ℓ} {A : Type ℓ} where
  abbrev pub length : List A → ℕ
  length [] = 0
  length (x ∷ xs) = suc (length xs)

  abbrev pub get_elem? : List A → ℕ → Option A
  get_elem? [] i = none
  get_elem? (x ∷ xs) zero = some x
  get_elem? (x ∷ xs) (suc i) = get_elem? xs i

  pub length-append : (xs ys : List A) → length (xs ++ ys) ≡ length xs + length ys
  length-append [] ys = omega arith
  length-append (x ∷ xs) ys = omega (arith, length-append xs ys)

  -- A write out of bounds changes nothing.
  abbrev pub set : List A → ℕ → A → List A
  set [] i v = []
  set (x ∷ xs) zero v = v ∷ xs
  set (x ∷ xs) (suc i) v = x ∷ set xs i v

  abbrev pub All {κ} : (A → Type κ) → List A → Type κ
  All P [] = Unit
  All P (x ∷ xs) = P x × All P xs

module _ {ℓ} {A : Type ℓ} where
  pub get_elem?-set_self :
      (xs : List A) (i : ℕ) (x v : A) → get_elem? xs i ≡ some x → get_elem? (set xs i v) i ≡ some v
  get_elem?-set_self [] i x v h = cc
  get_elem?-set_self (y ∷ ys) zero x v h = refl
  get_elem?-set_self (y ∷ ys) (suc i) x v h = get_elem?-set_self ys i x v h

  pub get_elem?-set_ne :
      (xs : List A) (i k : ℕ) (v : A) → i ≢ k → get_elem? (set xs i v) k ≡ get_elem? xs k
  get_elem?-set_ne [] i k v h = refl
  get_elem?-set_ne (y ∷ ys) zero zero v h = absurd (h refl)
  get_elem?-set_ne (y ∷ ys) zero (suc k) v h = refl
  get_elem?-set_ne (y ∷ ys) (suc i) zero v h = refl
  get_elem?-set_ne (y ∷ ys) (suc i) (suc k) v h = get_elem?-set_ne ys i k v (λ e. h (ap suc e))

  pub All-set {κ} :
      (P : A → Type κ) (xs : List A) (i : ℕ) (v : A) → All P xs → P v → All P (set xs i v)
  All-set P [] i v h p = h
  All-set P (y ∷ ys) zero v h p = (p, h.1)
  All-set P (y ∷ ys) (suc i) v h p = (h.0, All-set P ys i v h.1 p)

  pub All-get_elem? {κ} :
      (P : A → Type κ) (xs : List A) (i : ℕ) (x : A) → All P xs → get_elem? xs i ≡ some x → P x
  All-get_elem? P [] i x h e = absurd (ground (arith, e))
  All-get_elem? P (y ∷ ys) zero x h e = subst P (ground arith) h.0
  All-get_elem? P (y ∷ ys) (suc i) x h e = All-get_elem? P ys i x h.1 e

  pub set-set : (xs : List A) (i : ℕ) (u v : A) → set (set xs i u) i v ≡ set xs i v
  set-set [] i u v = refl
  set-set (y ∷ ys) zero u v = refl
  set-set (y ∷ ys) (suc i) u v = ap (λ l. y ∷ l) (set-set ys i u v)

  pub get_elem?-set-some :
      (xs : List A) (i : ℕ) (u v : A) → get_elem? (set xs i v) i ≡ some u → u ≡ v
  get_elem?-set-some [] i u v h = cc
  get_elem?-set-some (y ∷ ys) zero u v h = cc
  get_elem?-set-some (y ∷ ys) (suc i) u v h = get_elem?-set-some ys i u v h

  pub length-set : (xs : List A) (i : ℕ) (v : A) → length (set xs i v) ≡ length xs
  length-set [] i v = refl
  length-set (y ∷ ys) zero v = refl
  length-set (y ∷ ys) (suc i) v = ap suc (length-set ys i v)

  pub get_elem?-lt : (xs : List A) (i : ℕ) → i < length xs → (x : A) × (get_elem? xs i ≡ some x)
  get_elem?-lt [] i h = absurd (omega (arith, h))
  get_elem?-lt (y ∷ ys) zero h = (y, refl)
  get_elem?-lt (y ∷ ys) (suc i) h = get_elem?-lt ys i (omega (arith, h))

  pub append_assoc : (xs ys zs : List A) → (xs ++ ys) ++ zs ≡ xs ++ (ys ++ zs)
  append_assoc [] ys zs = refl
  append_assoc (x ∷ xs) ys zs = ap (λ l. x ∷ l) (append_assoc xs ys zs)

  pub append-nil : (xs : List A) → xs ++ [] ≡ xs
  append-nil [] = refl
  append-nil (x ∷ xs) = ap (λ l. x ∷ l) (append-nil xs)
