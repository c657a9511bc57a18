-- ===== src/Harness/Links/Ends.antt =====
-- config.go, start1: the loop that makes the ends of a new instance.
use lab_implementation.Common.{
  ℕ, zero, suc, ◌<◌, ◌≡◌, ◌≢◌, refl, sym, ap, ◌∙◌, true, false, Option, none, some, String, update,
  update_other, string_discrete, ℕ_discrete, some-injective, Option-cases, if_pos, subst, inl, inr,
  arith,
}
use lab_implementation.Labrpc.{Network, ClientEnd, new_end, connect as connect_end}
use lab_implementation.Harness.Links.{and_then, make_ends}

-- `new` is `old` with ends for the first k names, none of them in use before.
pub record Grown (name : ℕ → String) (k : ℕ) (old new : Network) : Type 0 where
  pub unused : (j : ℕ) → j < k → old.ends (name j) ≡ none
  pub added : (j : ℕ) → j < k → new.ends (name j) ≢ none
  pub kept : (e : String) → old.ends e ≢ none → new.ends e ≢ none
  pub calm : (e : String) → old.ends e ≢ none → new.enabled e ≡ old.enabled e
  pub dark : (e : String) → new.enabled e ≡ true → old.enabled e ≡ true
  pub apart : (i j : ℕ) → i < k → j < k → name i ≡ name j → i ≡ j

pub and_then-some {ℓ κ} :
    {A : Type ℓ} {B : Type κ} (m : Option A) (f : A → Option B) {b : B}
    → and_then m f ≡ some b
    → (a : A) × (m ≡ some a) × (f a ≡ some b)
and_then-some none f h = cc
and_then-some (some a) f h = (a, refl, h)

-- The network after MakeEnd and Connect.
abbrev with_end : String → ℕ → Network → Network
with_end e k net = connect_end e k (record net {
  ends = update string_discrete net.ends e (some (record { endname = e }));
  enabled = update string_discrete net.enabled e false;
  connections = update string_discrete net.connections e none;
})

new_end-some :
    (e : String) (k : ℕ) (net new : Network) (o : Option ClientEnd)
    → net.ends e ≡ o
    → and_then (new_end e net o) (λ made. some (connect_end e k made.1)) ≡ some new
    → (net.ends e ≡ none) × (with_end e k net ≡ new)
new_end-some e k net new (some c) o h = cc
new_end-some e k net new none o h = (o, some-injective _ _ h)

module _ (name : ℕ → String) (k : ℕ) (old mid : Network) (g : Grown name k old mid) where
  module _ (absent : mid.ends (name k) ≡ none) where
    unused_before : old.ends (name k) ≡ none
    unused_before = elim (Option-cases (old.ends (name k))) [
      | inl e ↦ e
      | inr (c, e) ↦ absurd (g.kept (name k) (λ n. cc) absent)
    ]

    is_other : (e : String) → mid.ends e ≢ none → name k ≢ e
    is_other e m p = m (ap mid.ends (sym p) ∙ absent)

    other_names : (j : ℕ) → j < k → name k ≢ name j
    other_names j l = is_other (name j) (g.added j l)

    kept_by_end : (e : String) → mid.ends e ≢ none → (with_end (name k) k mid).ends e ≢ none
    kept_by_end e m q =
        m (sym (update_other string_discrete mid.ends (name k) _ e (is_other e m)) ∙ q)

    kept_then : (e : String) → old.ends e ≢ none → (with_end (name k) k mid).ends e ≢ none
    kept_then e m = kept_by_end e (g.kept e m)

    unused_then : (j : ℕ) → j < suc k → old.ends (name j) ≡ none
    unused_then j l = elim (ℕ_discrete j k) [
      | yes p ↦ ap (λ x. old.ends (name x)) p ∙ unused_before
      | no p ↦ g.unused j (omega (arith, l, p))
    ]

    added_then : (j : ℕ) → j < suc k → (with_end (name k) k mid).ends (name j) ≢ none
    added_then j l = elim (ℕ_discrete k j) [
      | yes p ↦ λ q.
          let here =
            if_pos (string_discrete (name k) (name j)) (ap name p)
              (some (record { endname = name k })) (mid.ends (name j)) in
          cc
      | no p ↦ kept_by_end (name j) (g.added j (omega (arith, l, p)))
    ]

    calm_then :
        (e : String) → old.ends e ≢ none → (with_end (name k) k mid).enabled e ≡ old.enabled e
    calm_then e m =
        update_other string_discrete mid.enabled (name k) false e (is_other e (g.kept e m))
        ∙ g.calm e m

    dark_then : (e : String) → (with_end (name k) k mid).enabled e ≡ true → old.enabled e ≡ true
    dark_then e on = elim (string_discrete (name k) e) [
      | yes p ↦ let off = if_pos (string_discrete (name k) e) p false (mid.enabled e) in cc
      | no p ↦ g.dark e (sym (update_other string_discrete mid.enabled (name k) false e p) ∙ on)
    ]

    apart_then : (i j : ℕ) → i < suc k → j < suc k → name i ≡ name j → i ≡ j
    apart_then i j l m p = elim (ℕ_discrete i k) [
      | yes a ↦ elim (ℕ_discrete j k) [
        | yes b ↦ a ∙ sym b
        | no b ↦ absurd (other_names j (omega (arith, m, b)) (ap name (sym a) ∙ p))
      ]
      | no a ↦ elim (ℕ_discrete j k) [
        | yes b ↦ absurd (other_names i (omega (arith, l, a)) (ap name (sym b) ∙ sym p))
        | no b ↦ g.apart i j (omega (arith, l, a)) (omega (arith, m, b)) p
      ]
    ]

    Grown-suc : Grown name (suc k) old (with_end (name k) k mid)
    Grown-suc = record {
      unused = unused_then;
      added = added_then;
      kept = kept_then;
      calm = calm_then;
      dark = dark_then;
      apart = apart_then;
    }

pub make_ends-Grown :
    (name : ℕ → String) (k : ℕ) (old new : Network)
    → make_ends name k old ≡ some new
    → Grown name k old new
make_ends-Grown name zero old new h = subst (Grown name zero old) (some-injective _ _ h) (record {
  unused = λ j l. absurd (omega arith);
  added = λ j l. absurd (omega arith);
  kept = λ e m. m;
  calm = λ e m. refl;
  dark = λ e m. m;
  apart = λ i j l m p. absurd (omega arith);
})
make_ends-Grown name (suc k) old new h =
    let (mid, first, rest) = and_then-some (make_ends name k old) _ h in
    let (absent, last) = new_end-some (name k) k mid new (mid.ends (name k)) refl rest in
    subst (Grown name (suc k) old) last
      (Grown-suc name k old mid (make_ends-Grown name k old mid first) absent)
