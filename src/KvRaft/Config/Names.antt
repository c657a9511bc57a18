-- ===== src/KvRaft/Config/Names.antt =====
-- config.go: the names of the ends of servers and clerks, which are all different.
use lab_implementation.Common.{
  ℕ, ◌<◌, ◌≡◌, ◌≢◌, ◌⊎◌, inl, inr, sym, ap, ◌∙◌, Option, none, some, String, some-injective, arith,
}
use lab_implementation.Labrpc.{Network, ClientEnd}
use lab_implementation.Harness.Links.Ends.{Grown}
use lab_implementation.KvRaft.Config.{Config}

pub data Owner : Type 0 where
  server : ℕ → Owner
  clerk : ℕ → Owner

pub record Registry : Type 0 where
  pub n : ℕ
  pub ends : String → Option ClientEnd
  pub endnames : ℕ → Option (ℕ → String)
  pub clerks : ℕ → Option (ℕ → String)

abbrev pub registry : Config → Registry
registry cfg = record {
  n = cfg.n;
  ends = cfg.net.ends;
  endnames = cfg.endnames;
  clerks = cfg.clerks;
}

abbrev pub names_of : Registry → Owner → Option (ℕ → String)
names_of r (server i) = r.endnames i
names_of r (clerk c) = r.clerks c

pub record IsNamed (r : Registry) : Type 0 where
  pub present :
      (o : Owner) (f : ℕ → String) (j : ℕ) → names_of r o ≡ some f → j < r.n → r.ends (f j) ≢ none
  pub apart :
      (o q : Owner) (f g : ℕ → String) (j k : ℕ)
      → names_of r o ≡ some f
      → names_of r q ≡ some g
      → j < r.n
      → k < r.n
      → f j ≡ g k
      → (o ≡ q) × (j ≡ k)

-- An owner gets new names, and the others keep theirs.
module _ (o : Owner) (name : ℕ → String) (old new : Network) (r s : Registry) (w : IsNamed r)
    (n_same : s.n ≡ r.n) (from : r.ends ≡ old.ends) (to : s.ends ≡ new.ends)
    (g : Grown name r.n old new)
    (spec : (q : Owner)
      → ((o ≡ q) × (names_of s q ≡ some name)) ⊎ ((o ≢ q) × (names_of s q ≡ names_of r q))) where
  unused : (j : ℕ) → j < r.n → r.ends (name j) ≡ none
  unused j l = ap (λ (e : String → Option ClientEnd). e (name j)) from ∙ g.unused j l

  kept : (e : String) → r.ends e ≢ none → s.ends e ≢ none
  kept e m q =
      g.kept e (λ h. m (ap (λ (x : String → Option ClientEnd). x e) from ∙ h))
        (ap (λ (x : String → Option ClientEnd). x e) (sym to) ∙ q)

  present_then :
      (q : Owner) (f : ℕ → String) (j : ℕ) → names_of s q ≡ some f → j < s.n → s.ends (f j) ≢ none
  present_then q f j h l = elim (spec q) [
    | inl (_, e) ↦ λ p. g.added j (omega (arith, l, n_same)) (
        ap (λ (x : ℕ → String). new.ends (x j)) (some-injective _ _ (sym e ∙ h))
        ∙ ap (λ (x : String → Option ClientEnd). x (f j)) (sym to)
        ∙ p)
    | inr (_, e) ↦ kept (f j) (w.present q f j (sym e ∙ h) (omega (arith, l, n_same)))
  ]

  new_ne_old :
      (q : Owner) (f : ℕ → String) (j k : ℕ)
      → names_of r q ≡ some f
      → j < r.n
      → k < r.n
      → name j ≢ f k
  new_ne_old q f j k h lj lk p = w.present q f k h lk (ap r.ends (sym p) ∙ unused j lj)

  apart_then :
      (p q : Owner) (f h : ℕ → String) (j k : ℕ)
      → names_of s p ≡ some f
      → names_of s q ≡ some h
      → j < s.n
      → k < s.n
      → f j ≡ h k
      → (p ≡ q) × (j ≡ k)
  apart_then p q f h j k hp hq lj lk same =
      let mj : j < r.n = omega (arith, lj, n_same) in
      let mk : k < r.n = omega (arith, lk, n_same) in
      elim (spec p) [
        | inl (x, e) ↦
            let ef = ap (λ (z : ℕ → String). z j) (some-injective _ _ (sym e ∙ hp)) in
            elim (spec q) [
              | inl (y, u) ↦
                  let eh = ap (λ (z : ℕ → String). z k) (some-injective _ _ (sym u ∙ hq)) in
                  (sym x ∙ y, g.apart j k mj mk (ef ∙ same ∙ sym eh))
              | inr (_, u) ↦ absurd (new_ne_old q h j k (sym u ∙ hq) mj mk (ef ∙ same))
            ]
        | inr (_, e) ↦ elim (spec q) [
          | inl (y, u) ↦
              let eh = ap (λ (z : ℕ → String). z k) (some-injective _ _ (sym u ∙ hq)) in
              absurd (new_ne_old p f k j (sym e ∙ hp) mk mj (eh ∙ sym same))
          | inr (_, u) ↦ w.apart p q f h j k (sym e ∙ hp) (sym u ∙ hq) mj mk same
        ]
      ]

  pub renamed-IsNamed : IsNamed s
  renamed-IsNamed = record { present = present_then; apart = apart_then }

-- An owner loses its names.
pub forgotten-IsNamed :
    (r s : Registry)
    → IsNamed r
    → s.n ≡ r.n
    → s.ends ≡ r.ends
    → ((q : Owner) (f : ℕ → String) → names_of s q ≡ some f → names_of r q ≡ some f)
    → IsNamed s
forgotten-IsNamed r s w n_same ends_same back = record {
  present = λ o f j h l p.
      w.present o f j (back o f h) (omega (arith, l, n_same))
        (ap (λ (x : String → Option ClientEnd). x (f j)) (sym ends_same) ∙ p);
  apart = λ o q f g j k h i lj lk.
      w.apart o q f g j k (back o f h) (back q g i) (omega (arith, lj, n_same))
        (omega (arith, lk, n_same));
}
