-- ===== src/Shards/Answers.antt =====
-- The retry loops of the clerks of shardctrler and shardkv: where a result comes from, and when there
-- is one.
use lab_implementation.Common.{
  ℕ, zero, suc, ◌-◌, ◌≤◌, ◌<◌, ◌≡◌, ◌≢◌, ◌⊎◌, inl, inr, refl, sym, ap, ◌∙◌, Option, none, some,
  List, [], ◌∷◌, get_elem?, some-injective, dec_lt, arith,
}
use lab_implementation.Shards.Rounds.{
  Verdict, accept, stop, next, judge, follow, or_else, try_each, retry,
}

pub Verdict-cases :
    {A : Type 0} (v : Verdict A) → ((a : A) × (v ≡ accept a)) ⊎ ((v ≡ stop) ⊎ (v ≡ next))
Verdict-cases (accept a) = inl (a, refl)
Verdict-cases stop = inr (inl refl)
Verdict-cases next = inr (inr refl)

pub round-cases :
    {A : Type 0} (p : Option A × ℕ)
    → ((a : A) × (u : ℕ) × (p ≡ (some a, u))) ⊎ ((u : ℕ) × (p ≡ (none, u)))
round-cases (none, u) = inr (u, refl)
round-cases (some a, u) = inl (a, u, refl)

follow-accepts :
    {A : Type 0} (v : Verdict A) (t u : ℕ) (rest : Option A × ℕ) (a : A)
    → follow v t rest ≡ (some a, u)
    → ((v ≡ accept a) × (t ≡ u)) ⊎ (rest ≡ (some a, u))
follow-accepts (accept b) t u rest a h =
    inl (ap accept (some-injective b a (ap (λ p. p.0) h)), ap (λ p. p.1) h)
follow-accepts stop t u rest a h = absurd (cc)
follow-accepts next t u rest a h = inr h

pub judge-accept :
    {A R : Type 0} (verdict : R → Verdict A) (o : Option R) (a : A)
    → judge verdict o ≡ accept a
    → (r : R) × (o ≡ some r) × (verdict r ≡ accept a)
judge-accept verdict none a h = cc
judge-accept verdict (some r) a h = (r, refl, h)

module _ {A R E : Type 0} (ask : ℕ → E → Option R) (verdict : R → Verdict A) where
  -- Call number s, the last before number u, was accepted with a.
  pub record Accepted (servers : List E) (t u : ℕ) (a : A) : Type 0 where
    pub s : ℕ
    pub late : t ≤ s
    pub last : suc s ≡ u
    pub i : ℕ
    pub e : E
    pub listed : get_elem? servers i ≡ some e
    pub reply : R
    pub answered : ask s e ≡ some reply
    pub accepts : verdict reply ≡ accept a

  -- The same Call, seen from an earlier number and a longer list.
  pub carried :
      (es fs : List E) (place : ℕ → ℕ) (t t' u : ℕ) (a : A)
      → ((i : ℕ) → get_elem? fs (place i) ≡ get_elem? es i)
      → t ≤ t'
      → Accepted es t' u a
      → Accepted fs t u a
  carried es fs place t t' u a same le h = record {
    s = h.s;
    late = omega (arith, le, h.late);
    last = h.last;
    i = place h.i;
    e = h.e;
    listed = same h.i ∙ h.listed;
    reply = h.reply;
    answered = h.answered;
    accepts = h.accepts;
  }

  pub try_each-Accepted :
      (es : List E) (t u : ℕ) (a : A) → try_each ask verdict es t ≡ (some a, u) → Accepted es t u a
  try_each-Accepted [] t u a h = cc
  try_each-Accepted (e ∷ es) t u a h =
      elim (follow-accepts (judge verdict (ask t e)) (suc t) u (try_each ask verdict es (suc t)) a
        h) [
          | inl (q, last) ↦
              let (r, answered, accepts) = judge-accept verdict (ask t e) a q in
              record {
                s = t;
                late = omega arith;
                last = last;
                i = 0;
                e = e;
                listed = refl;
                reply = r;
                answered = answered;
                accepts = accepts;
              }
          | inr later ↦
              carried es (e ∷ es) suc t (suc t) u a (λ i. refl) (omega arith)
                (try_each-Accepted es (suc t) u a later)
        ]

  -- A round does not go back, and a server that is asked takes a number.
  follow-moves :
      (v : Verdict A) (t : ℕ) (rest : Option A × ℕ) → t ≤ rest.1 → t ≤ (follow v t rest).1
  follow-moves (accept a) t rest h = omega arith
  follow-moves stop t rest h = omega arith
  follow-moves next t rest h = h

  pub try_each-moves : (es : List E) (t : ℕ) → t ≤ (try_each ask verdict es t).1
  try_each-moves [] t = omega arith
  try_each-moves (e ∷ es) t =
      let h =
        follow-moves (judge verdict (ask t e)) (suc t) (try_each ask verdict es (suc t))
          (try_each-moves es (suc t)) in
      omega (arith, h)

  pub try_each-asks :
      (es : List E) (i : ℕ) (e : E) (t : ℕ)
      → get_elem? es i ≡ some e
      → t < (try_each ask verdict es t).1
  try_each-asks [] i e t listed = absurd (cc)
  try_each-asks (f ∷ es) i e t listed =
      let h =
        follow-moves (judge verdict (ask t f)) (suc t) (try_each ask verdict es (suc t))
          (try_each-moves es (suc t)) in
      omega (arith, h)

  pub retry-Accepted :
      (es : List E) (fuel t u : ℕ) (a : A)
      → retry ask verdict es fuel t ≡ some (a, u)
      → Accepted es t u a
  retry-Accepted es zero t u a h = absurd (cc)
  retry-Accepted es (suc fuel) t u a h = elim (round-cases (try_each ask verdict es t)) [
    | inl (b, w, q) ↦
        let e =
          some-injective _ _
            (sym (ap (or_else (λ x y. some (x, y)) (retry ask verdict es fuel)) q) ∙ h) in
        try_each-Accepted es t u a (q ∙ ap (λ (p : A × ℕ). (some p.0, p.1)) e)
    | inr (w, q) ↦
        carried es es (λ i. i) t w u a (λ i. refl)
          (omega (arith, try_each-moves es t, ap (λ (p : Option A × ℕ). p.1) q))
          (retry-Accepted es fuel w u a
            (sym (ap (or_else (λ x y. some (x, y)) (retry ask verdict es fuel)) q) ∙ h))
  ]

  -- From Call number `from` on, e gives an answer that is accepted, and no server of the list one that
  -- ends the round.
  pub record Answering (servers : List E) (from : ℕ) : Type 0 where
    pub i : ℕ
    pub e : E
    pub listed : get_elem? servers i ≡ some e
    pub answers : (s : ℕ) → from ≤ s → (a : A) × (judge verdict (ask s e) ≡ accept a)
    pub never_stops :
        (s k : ℕ) (f : E) → from ≤ s → get_elem? servers k ≡ some f → judge verdict (ask s f) ≢ stop

  module _ (from : ℕ) (e : E)
      (answers : (s : ℕ) → from ≤ s → (a : A) × (judge verdict (ask s e) ≡ accept a)) where
    round_answers :
        (es : List E) (i t : ℕ)
        → get_elem? es i ≡ some e
        → ((s k : ℕ) (f : E) → from ≤ s → get_elem? es k ≡ some f → judge verdict (ask s f) ≢ stop)
        → from ≤ t
        → (a : A) × (u : ℕ) × (try_each ask verdict es t ≡ (some a, u))
    round_answers [] i t h n l = absurd (cc)
    round_answers (f ∷ es) zero t h n l =
        let (a, q) = answers t l in
        let here = ap (λ x. judge verdict (ask t x)) (some-injective f e h) ∙ q in
        (a, suc t, ap (λ v. follow v (suc t) (try_each ask verdict es (suc t))) here)
    round_answers (f ∷ es) (suc i) t h n l = elim (Verdict-cases (judge verdict (ask t f))) [
      | inl (a, q) ↦ (a, suc t, ap (λ v. follow v (suc t) (try_each ask verdict es (suc t))) q)
      | inr (inl q) ↦ absurd (n t 0 f l refl q)
      | inr (inr q) ↦
          let (a, u, later) =
            round_answers es i (suc t) h (λ s k. n s (suc k)) (omega (arith, l)) in
          (a, u, ap (λ v. follow v (suc t) (try_each ask verdict es (suc t))) q ∙ later)
    ]

  pub try_each-answers :
      (es : List E) (from t : ℕ)
      → Answering es from
      → from ≤ t
      → (a : A) × (u : ℕ) × (try_each ask verdict es t ≡ (some a, u))
  try_each-answers es from t h l =
      round_answers from h.e h.answers es h.i t h.listed h.never_stops l

  early :
      (es : List E) (from t u : ℕ)
      → Answering es from
      → try_each ask verdict es t ≡ (none, u)
      → t < from
  early es from t u h q = elim (dec_lt t from) [
    | yes l ↦ l
    | no l ↦
        let (a, w, run) = try_each-answers es from t h (omega (arith, l)) in
        let out = ap (λ (p : Option A × ℕ). p.0) (sym q ∙ run) in absurd (cc)
  ]

  -- Calls before `from` take numbers too, so a round for each of them and one more is enough.
  pub retry-answers :
      (es : List E) (from fuel t : ℕ)
      → Answering es from
      → from - t < fuel
      → (a : A) × (u : ℕ) × (retry ask verdict es fuel t ≡ some (a, u))
  retry-answers es from zero t h l = absurd (omega (arith, l))
  retry-answers es from (suc fuel) t h l = elim (round-cases (try_each ask verdict es t)) [
    | inl (a, u, q) ↦ (a, u, ap (or_else (λ x y. some (x, y)) (retry ask verdict es fuel)) q)
    | inr (u, q) ↦
        let moved = try_each-asks es h.i h.e t h.listed in
        let at = ap (λ (p : Option A × ℕ). p.1) q in
        let (a, w, run) =
          retry-answers es from fuel u h (omega (arith, l, moved, at, early es from t u h q)) in
        (a, w, ap (or_else (λ x y. some (x, y)) (retry ask verdict es fuel)) q ∙ run)
  ]
