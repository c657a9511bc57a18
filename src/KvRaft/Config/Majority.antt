-- ===== src/KvRaft/Config/Majority.antt =====
-- config.go, make_partition: the two halves, for an odd number of servers.
use lab_implementation.Common.{
  ℕ, zero, suc, ◌+◌, ◌-◌, ◌*◌, ◌/◌, ◌≤◌, ◌<◌, ◌≡◌, ◌≢◌, inl, inr, refl, sym, ap, subst, ◌∙◌, true,
  false, some, List, length, length-set, set, get_elem?, get_elem?-set_self, get_elem?-set_ne,
  get_elem?-lt, if◌then◌else◌, if_true, if_false, Bool-cases, ltb, ◌==◌, ℕ_discrete, arith,
}
use lab_implementation.Harness.Links.{and_then}
use lab_implementation.KvRaft.Config.{Halves, zeros, place, place_all, put_last, halve}

-- The servers but l, in their order.
abbrev pub other : ℕ → ℕ → ℕ
other l q = if ltb q l then q else suc q

-- How many of the first k servers are not l.
abbrev others_below : ℕ → ℕ → ℕ
others_below l k = if ltb l k then k - 1 else k

length-zeros : (k : ℕ) → length (zeros k) ≡ k
length-zeros zero = refl
length-zeros (suc k) = ap suc (length-zeros k)

set_at :
    {A : Type 0} (xs : List A) (i : ℕ) (v : A) → i < length xs → get_elem? (set xs i v) i ≡ some v
set_at xs i v h = let (x, e) = get_elem?-lt xs i h in get_elem?-set_self xs i x v e

==-true : (a b : ℕ) → a ≡ b → (a == b) ≡ true
==-true a b h = ground arith

==-false : (a b : ℕ) → a ≢ b → (a == b) ≡ false
==-false a b h = ground arith

lt-ltb : (a b : ℕ) → a < b → ltb a b ≡ true
lt-ltb a b h = ground arith

pub ltb-lt : (a b : ℕ) → ltb a b ≡ true → a < b
ltb-lt a b h = ground arith

pub ltb-ge : (a b : ℕ) → ltb a b ≡ false → b ≤ a
ltb-ge a b h = ground arith

-- After k rounds: the other servers are in their places.
record Placed (m l k : ℕ) (s : Halves) : Type 0 where
  count : s.j ≡ others_below l k
  size1 : length s.p1 ≡ m + 1
  size2 : length s.p2 ≡ m
  first : (q : ℕ) → q < s.j → q < m + 1 → get_elem? s.p1 q ≡ some (other l q)
  second : (q : ℕ) → m + 1 + q < s.j → q < m → get_elem? s.p2 q ≡ some (other l (m + 1 + q))

Placed-zero : (m l : ℕ) → Placed m l 0 (record { j = 0; p1 = zeros (m + 1); p2 = zeros m })
Placed-zero m l = record {
  count = ground arith;
  size1 = length-zeros (m + 1);
  size2 = length-zeros m;
  first = λ q h. absurd (omega (arith, h));
  second = λ q h. absurd (omega (arith, h));
}

module _ (m l k : ℕ) (s : Halves) (p : Placed m l k s) (low : k < 2 * m + 1)
    (leads : l < 2 * m + 1) where
  Placed-leader : k ≡ l → Placed m l (suc k) s
  Placed-leader e = record {
    count = ground (arith, p.count);
    size1 = p.size1;
    size2 = p.size2;
    first = p.first;
    second = p.second;
  }

  here : k ≢ l → other l s.j ≡ k
  here ne = ground (arith, p.count)

  next_count : k ≢ l → suc s.j ≡ others_below l (suc k)
  next_count ne = ground (arith, p.count)

  Placed-first :
      k ≢ l → s.j < length s.p1 → Placed m l (suc k) (record s { p1 = set s.p1 s.j k; j = suc s.j })
  Placed-first ne room = record {
    count = next_count ne;
    size1 = length-set s.p1 s.j k ∙ p.size1;
    size2 = p.size2;
    first = λ q h u. elim (ℕ_discrete s.j q) [
      | yes e ↦
          subst (λ x. get_elem? (set s.p1 s.j k) x ≡ some (other l x)) e
            (set_at s.p1 s.j k room ∙ ap some (sym (here ne)))
      | no e ↦ get_elem?-set_ne s.p1 s.j q k e ∙ p.first q (omega (arith, h, e)) u
    ];
    second = λ q h u. p.second q (omega (arith, h, room, p.size1)) u;
  }

  Placed-second :
      k ≢ l
      → length s.p1 ≤ s.j
      → (s.j - length s.p1 < length s.p2)
        × Placed m l (suc k) (record s { p2 = set s.p2 (s.j - length s.p1) k; j = suc s.j })
  Placed-second ne full =
      let size = p.size1 in
      let room : s.j - length s.p1 < length s.p2 = ground (arith, p.count, p.size1, p.size2) in
      (
        room,
        record {
          count = next_count ne;
          size1 = p.size1;
          size2 = length-set s.p2 (s.j - length s.p1) k ∙ p.size2;
          first = λ q h u. p.first q (omega (arith, u, full, p.size1)) u;
          second = λ q h u. elim (ℕ_discrete (s.j - length s.p1) q) [
            | yes e ↦
                subst
                  (λ x. get_elem? (set s.p2 (s.j - length s.p1) k) x ≡ some (other l (m + 1 + q))) e
                  (set_at s.p2 (s.j - length s.p1) k room
                    ∙ ap some (sym (here ne) ∙ ap (other l) (omega (arith, e, full, p.size1))))
            | no e ↦
                get_elem?-set_ne s.p2 (s.j - length s.p1) q k e
                ∙ p.second q (omega (arith, h, e, full, p.size1)) u
          ];
        },
      )

  Placed-place : (t : Halves) × (place l k s ≡ some t) × Placed m l (suc k) t
  Placed-place = elim (ℕ_discrete k l) [
    | yes e ↦ (s, if_true _ _ (==-true k l e), Placed-leader e)
    | no ne ↦ elim (Bool-cases (ltb s.j (length s.p1))) [
      | inl room ↦ (
        record s { p1 = set s.p1 s.j k; j = suc s.j },
        if_false _ _ (==-false k l ne) ∙ if_true _ _ room,
        Placed-first ne (ltb-lt s.j (length s.p1) room),
      )
      | inr full ↦
          let (room, placed) = Placed-second ne (ltb-ge s.j (length s.p1) full) in
          (
            record s { p2 = set s.p2 (s.j - length s.p1) k; j = suc s.j },
            if_false _ _ (==-false k l ne)
                ∙ if_false _ _ full
                ∙ if_true _ _ (lt-ltb (s.j - length s.p1) (length s.p2) room),
            placed,
          )
    ]
  ]

Placed-all :
    (m l k : ℕ)
    → k ≤ 2 * m + 1
    → l < 2 * m + 1
    → (t : Halves) × (place_all l k (record { j = 0; p1 = zeros (m + 1); p2 = zeros m }) ≡ some t)
      × Placed m l k t
Placed-all m l zero h leads = (_, refl, Placed-zero m l)
Placed-all m l (suc k) h leads =
    let (s, run, p) = Placed-all m l k (omega (arith, h)) leads in
    let (t, next, q) = Placed-place m l k s p (omega (arith, h)) leads in
    (t, ap (λ x. and_then x (place l k)) run ∙ next, q)

-- The two slices that make_partition returns.
pub record Halved (m l : ℕ) (p1 p2 : List ℕ) : Type 0 where
  pub size1 : length p1 ≡ m + 1
  pub size2 : length p2 ≡ m
  pub first : (q : ℕ) → q < m + 1 → get_elem? p1 q ≡ some (other l q)
  pub second : (q : ℕ) → suc q < m → get_elem? p2 q ≡ some (other l (m + 1 + q))
  pub last : get_elem? p2 (m - 1) ≡ some l

pub halve-Halved :
    (m l : ℕ)
    → 0 < m
    → l < 2 * m + 1
    → (p1 p2 : List ℕ) × (halve (2 * m + 1) l ≡ some (p1, p2)) × Halved m l p1 p2
halve-Halved m l some_m leads =
    let (t, run, p) = Placed-all m l (2 * m + 1) (omega arith) leads in
    let half : (2 * m + 1) / 2 ≡ m = omega arith in
    let full : t.j ≡ 2 * m = ground (arith, p.count) in
    let room : length t.p2 - 1 < length t.p2 = omega (arith, p.size2, some_m) in
    (
      t.p1,
      set t.p2 (length t.p2 - 1) l,
      ap
            (λ x.
              and_then
                (place_all l (2 * m + 1) (record { j = 0; p1 = zeros (x + 1); p2 = zeros x }))
                (put_last l))
            half
          ∙ ap (λ x. and_then x (put_last l)) run
          ∙ if_true _ _ (lt-ltb 0 (length t.p2) (omega (arith, p.size2, some_m))),
      record {
        size1 = p.size1;
        size2 = length-set t.p2 (length t.p2 - 1) l ∙ p.size2;
        first = λ q h. p.first q (omega (arith, h, full, some_m)) h;
        second = λ q h.
            get_elem?-set_ne t.p2 (length t.p2 - 1) q l (omega (arith, h, p.size2))
            ∙ p.second q (omega (arith, h, full)) (omega (arith, h));
        last =
            ap (get_elem? (set t.p2 (length t.p2 - 1) l)) (omega (arith, p.size2))
            ∙ set_at t.p2 (length t.p2 - 1) l room;
      },
    )
