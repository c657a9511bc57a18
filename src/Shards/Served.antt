-- ===== src/Shards/Served.antt =====
-- shardkv/client.go: where the result of the loop of Get and PutAppend comes from.
use lab_implementation.Common.{
  ℕ, zero, suc, ◌≤◌, ◌≡◌, ◌⊎◌, inl, inr, refl, sym, ap, subst, ◌∙◌, Option, none, some, List,
  String, map, some-injective, Option-cases, arith,
}
use lab_implementation.Labrpc.{ClientEnd}
use lab_implementation.Shards.Rounds.{Verdict, accept, or_else}
use lab_implementation.Shards.Ctrler.{Config, QueryReply, query, query_verdict}
use lab_implementation.Shards.Kv.{Calls, Clerk, owners, attempt, attempt_at, on_config, serve}
use lab_implementation.Shards.Answers.{
  Accepted, carried, round-cases, try_each-Accepted, try_each-moves, retry-Accepted,
}

pub accept-injective : {A : Type 0} (a b : A) → accept a ≡ accept b → a ≡ b
accept-injective a b h = cc

-- Query(-1)
abbrev pub ask_latest : Calls → ℕ → ClientEnd → Option QueryReply
ask_latest calls t e = calls.on_query t e (record { num = none })

-- A configuration that the clerk has before Call number w: the one it began with, before Call number t,
-- or one that a server of the controller has given since as the latest.
abbrev pub Held : Calls → Clerk → ℕ → ℕ → Config → Type 0
Held calls ck t w config =
    (config ≡ ck.config)
    ⊎ ((x : ℕ) × (x ≤ w) × Accepted (ask_latest calls) query_verdict ck.ctrlers t x config)

abbrev pub with_config : Clerk → Config → Clerk
with_config ck c = record ck { config = c }

module _ {A R : Type 0} (calls : Calls) (ask : ℕ → ClientEnd → Option R) (verdict : R → Verdict A)
    (key : String) where
  pub record Served (ck : Clerk) (t u : ℕ) (a : A) : Type 0 where
    pub config : Config
    pub since : ℕ
    pub late : t ≤ since
    pub held : Held calls ck t since config
    pub servers : List String
    pub owned : owners key config ≡ some servers
    pub accepted : Accepted ask verdict (map ck.make_end servers) since u a

  attempt-cases :
      (ck : Clerk) (o : Option (List String)) (t w : ℕ) (b : A)
      → attempt_at ask verdict ck o t ≡ (some b, w)
      → (servers : List String) × (o ≡ some servers)
        × Accepted ask verdict (map ck.make_end servers) t w b
  attempt-cases ck none t w b h = cc
  attempt-cases ck (some servers) t w b h =
      (servers, refl, try_each-Accepted ask verdict (map ck.make_end servers) t w b h)

  pub attempt-moves :
      (ck : Clerk) (o : Option (List String)) (t : ℕ) → t ≤ (attempt_at ask verdict ck o t).1
  attempt-moves ck none t = omega arith
  attempt-moves ck (some servers) t = try_each-moves ask verdict (map ck.make_end servers) t

  -- What a clerk does after a Query is also what it does from before it.
  after_query :
      (ck : Clerk) (t w x u : ℕ) (c : Config) (a : A)
      → t ≤ w
      → Accepted (ask_latest calls) query_verdict ck.ctrlers w x c
      → (h : Served (with_config ck c) x u a) → (k : Served ck t u a) × (k.config ≡ h.config)
  after_query ck t w x u c a le q h = (
    record {
      config = h.config;
      since = h.since;
      late = omega (arith, le, q.late, q.last, h.late);
      held = elim h.held [
        | inl e ↦ inr (
          x,
          h.late,
          subst (λ y. Accepted (ask_latest calls) query_verdict ck.ctrlers t x y) (sym e)
              (carried (ask_latest calls) query_verdict ck.ctrlers ck.ctrlers (λ i. i) t w x c
                (λ i. refl) le q),
        )
        | inr (y, m, p) ↦ inr (
          y,
          m,
          carried (ask_latest calls) query_verdict ck.ctrlers ck.ctrlers (λ i. i) t x y h.config
              (λ i. refl) (omega (arith, le, q.late, q.last)) p,
        )
      ];
      servers = h.servers;
      owned = h.owned;
      accepted = h.accepted;
    },
    refl,
  )

  -- The rest of a round after the servers have been asked.
  abbrev pub after : Clerk → ℕ → Option A × ℕ → Option (A × Clerk × ℕ)
  after ck fuel =
      or_else (λ a u. some (a, ck, u))
        λ u.
          on_config ck (serve calls ask verdict key fuel)
            (query calls.on_query ck.ctrlers none fuel u)

  pub serve-Served :
      (fuel : ℕ) (ck new : Clerk) (t u : ℕ) (a : A)
      → serve calls ask verdict key fuel ck t ≡ some (a, new, u)
      → (h : Served ck t u a) × (new ≡ with_config ck h.config)
  serve-Served zero ck new t u a h = absurd (cc)
  serve-Served (suc fuel) ck new t u a h = elim (round-cases (attempt ask verdict key ck t)) [
    | inl (b, w, q) ↦
        let e = some-injective _ _ (sym (ap (after ck fuel) q) ∙ h) in
        let (servers, owned, accepted) =
          attempt-cases ck (owners key ck.config) t u a
            (q ∙ ap (λ (p : A × Clerk × ℕ). (some p.0, p.2)) e) in
        (
          record {
            config = ck.config;
            since = t;
            late = omega arith;
            held = inl refl;
            servers = servers;
            owned = owned;
            accepted = accepted;
          },
          sym (ap (λ (p : A × Clerk × ℕ). p.1) e),
        )
    | inr (w, q) ↦ elim (Option-cases (query calls.on_query ck.ctrlers none fuel w)) [
      | inl none_yet ↦
          let out =
            sym
              (ap (after ck fuel) q ∙ ap (on_config ck (serve calls ask verdict key fuel)) none_yet)
            ∙ h in
          absurd (cc)
      | inr ((c, x), given) ↦
          let run =
            sym (ap (after ck fuel) q ∙ ap (on_config ck (serve calls ask verdict key fuel)) given)
            ∙ h in
          let (served, same) = serve-Served fuel (with_config ck c) new x u a run in
          let asked = retry-Accepted (ask_latest calls) query_verdict ck.ctrlers fuel w x c given in
          let moved : t ≤ w =
            omega (
              arith,
              attempt-moves ck (owners key ck.config) t,
              ap (λ (p : Option A × ℕ). p.1) q,
            ) in
          let (k, config_same) = after_query ck t w x u c a moved asked served in
          (k, same ∙ ap (with_config ck) (sym config_same))
    ]
  ]
