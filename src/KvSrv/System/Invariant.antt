-- ===== src/KvSrv/System/Invariant.antt =====
-- The ids in use: no two clerks share one, and the server caches a reply only for an id in use.
use lab_implementation.Common.{
  ℕ, String, ◌≡◌, ◌≢◌, ◌⊎◌, inl, inr, refl, Option, none, some, ℕ_discrete, arith, ◌∙◌,
  Option-cases,
}
use lab_implementation.KvSrv.{KvServer}
use lab_implementation.KvSrv.Clerk.{
  Outcome, request_lost, Op, ClerkPc, idle, getting, got, modifying, acking, returned, clerk_turn,
}
use lab_implementation.KvSrv.Replies.{handler-first, handler-again, handler-ack}
use lab_implementation.KvSrv.System.{
  System, IsFree, id_of, IsUnused, turn, Step, start_get, start_put_append, loop, init, Reach,
  start, later,
}

pub record Inv (s : System) : Type 0 where
  pub unique : (i j x : ℕ) → id_of (s.clerk i) ≡ some x → id_of (s.clerk j) ≡ some x → i ≡ j
  pub clean : (x : ℕ) → IsUnused s x → s.server.id_map x ≡ none

pub Inv-init : Inv init
Inv-init = record { unique = λ i j x p q. cc; clean = λ x h. refl }

-- A clerk's round changes the cached replies at its own id at most; it keeps or drops its id, and
-- where it drops the id, the cached reply is gone.
pub record IsLocal (kv kv' : KvServer) (p p' : ClerkPc) : Type 0 where
  pub same_ids : (x : ℕ) → id_of p ≢ some x → kv'.id_map x ≡ kv.id_map x
  pub keeps : (x : ℕ) → id_of p' ≡ some x → id_of p ≡ some x
  pub drops : (x : ℕ) → id_of p ≡ some x → (id_of p' ≡ some x) ⊎ (kv'.id_map x ≡ none)

module _ (kv : KvServer) (op : Op) (key value : String) (id : ℕ) where
  modifying-IsLocal :
      (o : Outcome)
      → (let (kv', p') = clerk_turn o kv (modifying op key value id) in
          IsLocal kv kv' (modifying op key value id) p')
  unfolding clerk_turn
  modifying-IsLocal request_lost = ground arith
  modifying-IsLocal o = elim (Option-cases (kv.id_map id)) [
    | inl new ↦ ground (arith, handler-first op key value id kv new)
    | inr (w, old) ↦ ground (arith, handler-again op key value id kv old)
  ]

  acking-IsLocal :
      (r : String) (o : Outcome)
      → (let (kv', p') = clerk_turn o kv (acking op key value id r) in
          IsLocal kv kv' (acking op key value id r) p')
  unfolding clerk_turn
  acking-IsLocal r request_lost = ground arith
  acking-IsLocal r o = ground (arith, handler-ack op key value id kv)

clerk_turn-IsLocal :
    (kv : KvServer) (p : ClerkPc) (o : Outcome)
    → (let (kv', p') = clerk_turn o kv p in IsLocal kv kv' p p')
clerk_turn-IsLocal kv (modifying op key value id) o = modifying-IsLocal kv op key value id o
clerk_turn-IsLocal kv (acking op key value id r) o = acking-IsLocal kv op key value id r o
clerk_turn-IsLocal kv (getting key) request_lost = unfold clerk_turn in ground arith
clerk_turn-IsLocal kv (getting key) o = unfold clerk_turn in ground arith
clerk_turn-IsLocal kv p o = unfold clerk_turn in ground arith

id_discrete : Discrete (Option ℕ)
id_discrete = hlevel ℕ_discrete

id_of-free : (p : ClerkPc) → IsFree p → id_of p ≡ none
id_of-free idle h = refl
id_of-free (got v) h = refl
id_of-free (returned op r) h = refl
id_of-free (getting k) h = refl
id_of-free (modifying op k v id) h = elim h [ ]
id_of-free (acking op k v id r) h = elim h [ ]

turn-Inv : (s : System) (i : ℕ) (o : Outcome) → Inv s → Inv (turn s i o)
unfolding turn
turn-Inv s i o inv = record {
  unique = λ a b x p q. ground (arith, local.keeps x, inv.unique a b x);
  clean = λ x h. elim (id_discrete (id_of (s.clerk i)) (some x)) [
    | yes mine ↦ elim (local.drops x mine) [
      | inl kept ↦ absurd (h i (ground arith))
      | inr gone ↦ gone
    ]
    | no other ↦ local.same_ids x other ∙ inv.clean x (λ j e. h j (ground arith))
  ];
}
  where
    local :
        (let (kv', p') = clerk_turn o s.server (s.clerk i) in IsLocal s.server kv' (s.clerk i) p')
    local = clerk_turn-IsLocal s.server (s.clerk i) o

pub Step-Inv : {s t : System} → Step s t → Inv s → Inv t
Step-Inv {s} (start_get i key free) inv = record {
  unique = λ a b x p q. ground (arith, inv.unique a b x);
  clean = λ x h. inv.clean x (λ j e. h j (ground (arith, id_of-free (s.clerk i) free)));
}
Step-Inv {s} (start_put_append i op key value id free unused) inv = record {
  unique = λ a b x p q. ground (arith, inv.unique a b x, unused a, unused b);
  clean = λ x h. inv.clean x (λ j e. h j (ground (arith, id_of-free (s.clerk i) free)));
}
Step-Inv {s} (loop i o) inv = turn-Inv s i o inv

pub Reach-Inv : {s : System} → Reach s → Inv s
Reach-Inv start = Inv-init
Reach-Inv (later r st) = Step-Inv st (Reach-Inv r)
