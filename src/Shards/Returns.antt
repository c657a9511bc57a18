-- ===== src/Shards/Returns.antt =====
-- shardkv/client.go: when Get and PutAppend return, in the terms of the replies.
use lab_implementation.Common.{
  ℕ, zero, suc, ◌+◌, ◌-◌, ◌≤◌, ◌≡◌, ◌≢◌, ◌⊎◌, inl, inr, refl, ap, ◌∙◌, ite, if_pos, Option, none,
  some, List, [], ◌∷◌, String, string_discrete, get_elem?, map, some-injective,
}
use lab_implementation.Labrpc.{ClientEnd}
use lab_implementation.Shards.Rounds.{Verdict, accept, stop, next, judge}
use lab_implementation.Shards.Kv.{
  Calls, Clerk, GetReply, PutAppendReply, get, get_verdict, put_append, put_append_verdict, ok,
  err_no_key, err_wrong_group,
}
use lab_implementation.Shards.Answers.{Answering}
use lab_implementation.Shards.Owner.{map-get_elem?}
use lab_implementation.Shards.Settled.{Settled, serve-returns}

get_elem?-map :
    {A B : Type 0} (f : A → B) (xs : List A) (i : ℕ) (a : A)
    → get_elem? xs i ≡ some a
    → get_elem? (map f xs) i ≡ some (f a)
get_elem?-map f [] i a h = cc
get_elem?-map f (x ∷ xs) zero a h = ap some (ap f (some-injective x a h))
get_elem?-map f (x ∷ xs) (suc i) a h = get_elem?-map f xs i a h

judge-stop :
    {A R : Type 0} (verdict : R → Verdict A) (o : Option R)
    → judge verdict o ≡ stop
    → (r : R) × (o ≡ some r) × (verdict r ≡ stop)
judge-stop verdict none h = cc
judge-stop verdict (some r) h = (r, refl, h)

ite-stop :
    {A P : Type 0} (d : Dec P) (x : A) (rest : Verdict A)
    → ite d (accept x) rest ≡ stop
    → rest ≡ stop
ite-stop (yes p) x rest h = cc
ite-stop (no p) x rest h = h

ite-stops : {A P : Type 0} (d : Dec P) (last : Verdict A) → last ≡ next → ite d stop last ≡ stop → P
ite-stops (yes p) last e h = p
ite-stops (no p) last e h = absurd (cc)

get_verdict-stop : (r : GetReply) → get_verdict r ≡ stop → r.err ≡ err_wrong_group
get_verdict-stop r h = ite-stops (string_discrete r.err err_wrong_group) next refl (
    ite-stop (string_discrete r.err err_no_key) r.value _
      (ite-stop (string_discrete r.err ok) r.value _ h))

put_append_verdict-stop :
    (r : PutAppendReply) → put_append_verdict r ≡ stop → r.err ≡ err_wrong_group
put_append_verdict-stop r h =
    ite-stops (string_discrete r.err err_wrong_group) next refl
      (ite-stop (string_discrete r.err ok) tt _ h)

accepts_either :
    {A P Q : Type 0} (d : Dec P) (e : Dec Q) (x : A) (rest : Verdict A)
    → P ⊎ Q
    → ite d (accept x) (ite e (accept x) rest) ≡ accept x
accepts_either (yes p) e x rest h = refl
accepts_either (no p) (yes q) x rest h = refl
accepts_either (no p) (no q) x rest (inl a) = absurd (p a)
accepts_either (no p) (no q) x rest (inr a) = absurd (q a)

-- The servers of a group answer the Calls that ask what `good` says: one of them always, from Call
-- number `from` on, with a good error, and none of them with ErrWrongGroup.
module _ {R : Type 0} (ask : ℕ → ClientEnd → Option R) (err : R → String) (good : String → Type 0)
    (make_end : String → ClientEnd) where
  pub record GroupAnswers (servers : List String) (from : ℕ) : Type 0 where
    pub i : ℕ
    pub name : String
    pub listed : get_elem? servers i ≡ some name
    pub answers : (s : ℕ) → from ≤ s → (r : R) × (ask s (make_end name) ≡ some r) × good (err r)
    pub right_group :
        (s k : ℕ) (n : String) (r : R)
        → from ≤ s
        → get_elem? servers k ≡ some n
        → ask s (make_end n) ≡ some r
        → err r ≢ err_wrong_group

  module _ {A : Type 0} (verdict : R → Verdict A)
      (accepts : (r : R) → good (err r) → (a : A) × (verdict r ≡ accept a))
      (stops : (r : R) → verdict r ≡ stop → err r ≡ err_wrong_group) where
    GroupAnswers-Answering :
        (servers : List String) (from : ℕ)
        → GroupAnswers servers from
        → Answering ask verdict (map make_end servers) from
    GroupAnswers-Answering servers from g = record {
      i = g.i;
      e = make_end g.name;
      listed = get_elem?-map make_end servers g.i g.name g.listed;
      answers = λ s l.
          let (r, q, fine) = g.answers s l in
          let (a, v) = accepts r fine in (a, ap (judge verdict) q ∙ v);
      never_stops = λ s k f l h q.
          let (n, at, made) = map-get_elem? make_end servers k f h in
          let (r, given, v) = judge-stop verdict (ask s f) q in
          g.right_group s k n r l at (ap (ask s) made ∙ given) (stops r v);
    }

abbrev pub IsGetAnswer : String → Type 0
IsGetAnswer e = (e ≡ ok) ⊎ (e ≡ err_no_key)

-- Get returns when the controller has settled on a group for the key whose servers answer: if from Call
-- number `from` on one server of the controller answers every Query as the leader, all answers of
-- leaders give the key to the group with these servers, one of the servers replies OK or ErrNoKey
-- whenever it is asked, and none replies ErrWrongGroup, then Get returns within `from - t` and three
-- more rounds, whatever configuration the clerk has when it begins, with Call number t.
pub get_returns :
    (calls : Calls) (key : String) (ck : Clerk) (servers : List String) (from fuel t : ℕ)
    → Settled calls ck.ctrlers key servers from
    → GroupAnswers
        (λ s e. calls.on_get s e (record { key = key }))
        (λ r. r.err)
        IsGetAnswer
        ck.make_end
        servers
        from
    → from - t + 3 ≤ fuel
    → (v : String) × (new : Clerk) × (u : ℕ) × (get calls key fuel ck t ≡ some (v, new, u))
get_returns calls key ck servers from fuel t settled group enough =
    serve-returns calls (λ s e. calls.on_get s e (record { key = key })) get_verdict key ck servers
      from settled
      (GroupAnswers-Answering (λ s e. calls.on_get s e (record { key = key })) (λ r. r.err)
        IsGetAnswer ck.make_end get_verdict
        (λ r h. (
          r.value,
          accepts_either (string_discrete r.err ok) (string_discrete r.err err_no_key) r.value _ h,
        ))
        get_verdict-stop servers from group)
      fuel ck.config t enough

-- The same of PutAppend, for a server of the group that replies OK.
pub put_append_returns :
    (calls : Calls) (key value op : String) (ck : Clerk) (servers : List String) (from fuel t : ℕ)
    → Settled calls ck.ctrlers key servers from
    → GroupAnswers
        (λ s e. calls.on_put_append s e (record { key = key; value = value; op = op }))
        (λ r. r.err)
        (λ e. e ≡ ok)
        ck.make_end
        servers
        from
    → from - t + 3 ≤ fuel
    → (new : Clerk) × (u : ℕ) × (put_append calls key value op fuel ck t ≡ some (tt, new, u))
put_append_returns calls key value op ck servers from fuel t settled group enough =
    let (a, new, u, run) =
      serve-returns calls
        (λ s e. calls.on_put_append s e (record { key = key; value = value; op = op }))
        put_append_verdict key ck servers from settled
        (GroupAnswers-Answering
          (λ s e. calls.on_put_append s e (record { key = key; value = value; op = op }))
          (λ r. r.err) (λ e. e ≡ ok) ck.make_end put_append_verdict
          (λ r h. (tt, if_pos (string_discrete r.err ok) h _ _)) put_append_verdict-stop servers
          from group)
        fuel ck.config t enough in
    (new, u, run)
