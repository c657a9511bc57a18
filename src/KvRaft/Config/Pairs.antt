-- ===== src/KvRaft/Config/Pairs.antt =====
-- config.go: the ends between servers, and what a loop over the outgoing and one over the incoming ends
-- of a server do to them.
use lab_implementation.Common.{
  ℕ, ◌<◌, ◌≡◌, ◌≢◌, inl, inr, refl, sym, ap, ◌∙◌, Bool, true, false, ◌&&◌, ◌||◌, Option, some, List,
  [], ◌∷◌, String, string_discrete, if◌then◌else◌, if_true, if_false, Bool-cases, ltb, ◌==◌, All,
  arith,
}
use lab_implementation.Labrpc.{Network}
use lab_implementation.Harness.Links.{and_then}
use lab_implementation.KvRaft.Config.{Config, name_in, endname}
use lab_implementation.KvRaft.Config.Switches.{mem, str_is, any_is, Switched, or_switch}
use lab_implementation.KvRaft.Config.Split.{touch}

pub and_then-chain {ℓ κ} :
    {A : Type ℓ} {B : Type κ} (m : Option A) (f : A → Option B) {a : A} {b : B}
    → m ≡ some a
    → f a ≡ some b
    → and_then m f ≡ some b
and_then-chain m f h k = ap (λ x. and_then x f) h ∙ k

str_is_iff : (s t : String) (b : Bool) → (s ≡ t → b ≡ true) → (b ≡ true → s ≡ t) → str_is s t ≡ b
str_is_iff s t b to from =
    elim (string_discrete s t) as (λ d. elim d [ yes _ ↦ true | no _ ↦ false ] ≡ b) [
      | yes p ↦ sym (to p)
      | no p ↦ elim (Bool-cases b) [ inl on ↦ absurd (p (from on)) | inr off ↦ sym off ]
    ]

and-split : (i j a c : ℕ) → (i == a && j == c) ≡ true → (i ≡ a) × (j ≡ c)
and-split i j a c h = ground arith

and-join : (i j a c : ℕ) → i ≡ a → j ≡ c → (i == a && j == c) ≡ true
and-join i j a c h k = ground arith

pub lt→ltb : (i n : ℕ) → i < n → ltb i n ≡ true
lt→ltb i n h = ground arith

and_or : (x y z : Bool) → ((x && y) || (x && z)) ≡ (x && (y || z))
and_or true y z = refl
and_or false y z = refl

module _ (cfg : Config) (name : ℕ → ℕ → String)
    (made : (i : ℕ) → i < cfg.n → cfg.endnames i ≡ some (name i))
    (apart : (i j k l : ℕ)
      → i < cfg.n
      → j < cfg.n
      → k < cfg.n
      → l < cfg.n
      → name i j ≡ name k l
      → (i ≡ k) × (j ≡ l)) where
  -- What an operation does to the end between two servers; no other end is touched.
  pub record Acts (f : ℕ → ℕ → Bool → Bool) (old new : Network) : Type 0 where
    pub links :
        (a c : ℕ) → a < cfg.n → c < cfg.n → new.enabled (name a c) ≡ f a c (old.enabled (name a c))
    pub others :
        (e : String)
        → ((a c : ℕ) → a < cfg.n → c < cfg.n → name a c ≢ e)
        → new.enabled e ≡ old.enabled e

  abbrev pub Below : List ℕ → Type 0
  Below = All (λ j. j < cfg.n)

  pub endname-some :
      (net : Network) (i j : ℕ)
      → i < cfg.n
      → j < cfg.n
      → endname (record cfg { net = net }) i j ≡ some (name i j)
  endname-some net i j li lj =
      if_true _ _ (lt→ltb i cfg.n li)
      ∙ ap (λ o. name_in cfg.n o j) (made i li)
      ∙ if_true _ _ (lt→ltb j cfg.n lj)

  out_is :
      (i a c : ℕ) (l : List ℕ)
      → i < cfg.n
      → a < cfg.n
      → c < cfg.n
      → Below l
      → any_is (name i) l (name a c) ≡ (i == a && mem c l)
  out_is i a c [] li la lc below = ground arith
  out_is i a c (j ∷ js) li la lc below =
      ap (λ b. b || any_is (name i) js (name a c))
        (str_is_iff (name i j) (name a c) (i == a && j == c)
          (λ p. let (x, y) = apart i j a c li below.0 la lc p in and-join i j a c x y)
          (λ h. let (x, y) = and-split i j a c h in ap (λ k. name k j) x ∙ ap (name a) y))
      ∙ ap (λ b. (i == a && j == c) || b) (out_is i a c js li la lc below.1)
      ∙ and_or (i == a) (j == c) (mem c js)

  in_is :
      (i a c : ℕ) (l : List ℕ)
      → i < cfg.n
      → a < cfg.n
      → c < cfg.n
      → Below l
      → any_is (λ j. name j i) l (name a c) ≡ (i == c && mem a l)
  in_is i a c [] li la lc below = ground arith
  in_is i a c (j ∷ js) li la lc below =
      ap (λ b. b || any_is (λ j. name j i) js (name a c))
        (str_is_iff (name j i) (name a c) (i == c && j == a)
          (λ p. let (x, y) = apart j i a c below.0 li la lc p in and-join i j c a y x)
          (λ h. let (x, y) = and-split i j c a h in ap (λ k. name k i) y ∙ ap (name a) x))
      ∙ ap (λ b. (i == c && j == a) || b) (in_is i a c js li la lc below.1)
      ∙ and_or (i == c) (j == a) (mem a js)

  none_is :
      (nm : ℕ → String) (e : String) (l : List ℕ) → All (λ j. nm j ≢ e) l → any_is nm l e ≡ false
  none_is nm e [] ne = refl
  none_is nm e (j ∷ js) ne =
      ap (λ b. b || any_is nm js e) (str_is_iff (nm j) e false (λ p. absurd (ne.0 p)) (λ h. cc))
      ∙ none_is nm e js ne.1

  out_ne :
      (i : ℕ) (e : String) (l : List ℕ)
      → i < cfg.n
      → ((a c : ℕ) → a < cfg.n → c < cfg.n → name a c ≢ e)
      → Below l
      → All (λ j. name i j ≢ e) l
  out_ne i e [] li ne below = tt
  out_ne i e (j ∷ js) li ne below = (ne i j li below.0, out_ne i e js li ne below.1)

  in_ne :
      (i : ℕ) (e : String) (l : List ℕ)
      → i < cfg.n
      → ((a c : ℕ) → a < cfg.n → c < cfg.n → name a c ≢ e)
      → Below l
      → All (λ j. name j i ≢ e) l
  in_ne i e [] li ne below = tt
  in_ne i e (j ∷ js) li ne below = (ne j i below.0 li, in_ne i e js li ne below.1)

  -- Two loops, over the outgoing and over the incoming ends.
  pub two_loops :
      (b : Bool) (i : ℕ) (l : List ℕ) (old mid new : Network)
      → i < cfg.n
      → Below l
      → Switched b (any_is (name i) l) old mid
      → Switched b (any_is (λ j. name j i) l) mid new
      → Acts (λ a c v. if touch i l a c then b else v) old new
  two_loops b i l old mid new li below s t = record {
    links = λ a c la lc.
        t.enabled (name a c)
        ∙ ap (λ v. if any_is (λ j. name j i) l (name a c) then b else v) (s.enabled (name a c))
        ∙ or_switch b (any_is (λ j. name j i) l (name a c)) (any_is (name i) l (name a c))
            (old.enabled (name a c))
        ∙ ap (λ u. if u || any_is (λ j. name j i) l (name a c) then b else old.enabled (name a c))
            (out_is i a c l li la lc below)
        ∙ ap (λ u. if (i == a && mem c l) || u then b else old.enabled (name a c))
            (in_is i a c l li la lc below);
    others = λ e ne.
        t.enabled e
        ∙ if_false b (mid.enabled e) (none_is (λ j. name j i) e l (in_ne i e l li ne below))
        ∙ s.enabled e
        ∙ if_false b (old.enabled e) (none_is (name i) e l (out_ne i e l li ne below));
  }
