-- ===== src/Shards/Settled.antt =====
-- shardkv/client.go: Get and PutAppend return once the controller and the group of the key answer.
use lab_implementation.Common.{
  ℕ, zero, suc, ◌+◌, ◌-◌, ◌≤◌, ◌<◌, ◌≡◌, ◌⊎◌, inl, inr, refl, sym, ap, ◌∙◌, Bool, true, false,
  if◌then◌else◌, Option, some, List, String, map, dec_lt, arith,
}
use lab_implementation.Labrpc.{ClientEnd}
use lab_implementation.Shards.Rounds.{Verdict, accept, next}
use lab_implementation.Shards.Ctrler.{Config, QueryReply, query_verdict}
use lab_implementation.Shards.Kv.{Calls, Clerk, owners, attempt, attempt_at, on_config, serve}
use lab_implementation.Shards.Answers.{
  Answering, round-cases, try_each-answers, retry-Accepted, retry-answers,
}
use lab_implementation.Shards.Served.{
  ask_latest, with_config, accept-injective, after, attempt-moves,
}

-- From Call number `from` on, a server of the controller answers the Queries as the leader, and every
-- answer of a leader gives the key to the group with these servers.
pub record Settled (calls : Calls) (ctrlers : List ClientEnd) (key : String) (servers : List String)
    (from : ℕ) : Type 0 where
  pub answering : Answering (ask_latest calls) query_verdict ctrlers from
  pub agree :
      (s : ℕ) (e : ClientEnd) (r : QueryReply)
      → from ≤ s
      → ask_latest calls s e ≡ some r
      → r.wrong_leader ≡ false
      → owners key r.config ≡ some servers

if_next :
    {A : Type 0} (b : Bool) (x a : A)
    → (if b then next else accept x) ≡ accept a
    → (b ≡ false) × (x ≡ a)
if_next true x a h = cc
if_next false x a h = (refl, accept-injective x a h)

pub query_verdict-accept :
    (r : QueryReply) (c : Config)
    → query_verdict r ≡ accept c
    → (r.wrong_leader ≡ false) × (r.config ≡ c)
query_verdict-accept r c h = if_next r.wrong_leader r.config c h

module _ {A R : Type 0} (calls : Calls) (ask : ℕ → ClientEnd → Option R) (verdict : R → Verdict A)
    (key : String) (ck : Clerk) (servers : List String) (from : ℕ)
    (settled : Settled calls ck.ctrlers key servers from)
    (group : Answering ask verdict (map ck.make_end servers) from) where
  -- The loop has returned something.
  abbrev Returns : ℕ → Config → ℕ → Type 0
  Returns fuel c t =
      (a : A) × (new : Clerk) × (u : ℕ) × (serve calls ask verdict key fuel (with_config ck c) t
        ≡ some (a, new, u))

  -- With the configuration of the settled controller the first round is enough.
  fresh :
      (fuel : ℕ) (c : Config) (t : ℕ)
      → 0 < fuel
      → from ≤ t
      → owners key c ≡ some servers
      → Returns fuel c t
  fresh zero c t h l own = absurd (omega (arith, h))
  fresh (suc fuel) c t h l own =
      let (a, u, q) = try_each-answers ask verdict (map ck.make_end servers) from t group l in
      (
        a,
        with_config ck c,
        u,
        ap (after calls ask verdict key (with_config ck c) fuel)
            (ap (λ o. attempt_at ask verdict (with_config ck c) o t) own ∙ q),
      )

  -- A round that does not return, and what the Query after it gives.
  asked :
      (fuel : ℕ) (c : Config) (t : ℕ)
      → from - t < fuel
      → Returns (suc fuel) c t
        ⊎ ((d : Config) × (w : ℕ) × (t < w)
            × (from ≤ t → owners key d ≡ some servers)
            × (Returns fuel d w → Returns (suc fuel) c t))
  asked fuel c t h = elim (round-cases (attempt ask verdict key (with_config ck c) t)) [
    | inl (a, u, q) ↦
        inl (a, with_config ck c, u, ap (after calls ask verdict key (with_config ck c) fuel) q)
    | inr (u, q) ↦
        let moved : t ≤ u = omega (
          arith,
          attempt-moves calls ask verdict key (with_config ck c) (owners key c) t,
          ap (λ (p : Option A × ℕ). p.1) q,
        ) in
        let (d, w, given) =
          retry-answers (ask_latest calls) query_verdict ck.ctrlers from fuel u settled.answering
            (omega (arith, h, moved)) in
        let by = retry-Accepted (ask_latest calls) query_verdict ck.ctrlers fuel u w d given in
        let (right, same) = query_verdict-accept by.reply d by.accepts in
        inr (
          d,
          w,
          omega (arith, moved, by.late, by.last),
          (λ l.
              ap (owners key) (sym same)
              ∙ settled.agree by.s by.e by.reply (omega (arith, l, moved, by.late)) by.answered
                  right),
          (λ (a, new, v, run). (
            a,
            new,
            v,
            ap (after calls ask verdict key (with_config ck c) fuel) q
                ∙ ap (on_config (with_config ck c) (serve calls ask verdict key fuel)) given
                ∙ run,
          )),
        )
  ]

  pub serve-returns : (fuel : ℕ) (c : Config) (t : ℕ) → from - t + 3 ≤ fuel → Returns fuel c t
  serve-returns zero c t h = absurd (omega (arith, h))
  serve-returns (suc fuel) c t h = elim (asked fuel c t (omega (arith, h))) [
    | inl done ↦ done
    | inr (d, w, moved, own, rest) ↦ elim (dec_lt t from) [
      | yes early ↦ rest (serve-returns fuel d w (omega (arith, h, moved, early)))
      | no late ↦ rest (
          fresh fuel d w (omega (arith, h)) (omega (arith, moved, late))
            (own (omega (arith, late))))
    ]
  ]
