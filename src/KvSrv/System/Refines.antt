-- ===== src/KvSrv/System/Refines.antt =====
-- The server with its clerks refines the atomic store, by a mapping of states.
use lab_implementation.Common.{
  ℕ, String, ◌≡◌, ◌≢◌, ◌⊎◌, inl, inr, refl, Option, none, some, update, ℕ_discrete, arith,
  Option-cases,
}
use lab_implementation.KvSrv.{KvServer, or_empty, get}
use lab_implementation.KvSrv.Atomic.{
  Progress, Atomic, visible, IsResting, AtomicStep, call_get, call_put_append, read, take_effect,
  respond, pending, pending_get, applied, done,
}
use lab_implementation.KvSrv.Clerk.{
  Outcome, request_lost, reply_lost, delivered, Op, ClerkPc, idle, getting, got, modifying, acking,
  returned, clerk_turn,
}
use lab_implementation.KvSrv.Replies.{changed, handler-first, handler-again, handler-ack}
use lab_implementation.KvSrv.System.{
  System, IsFree, id_of, IsUnused, turn, Step, start_get, start_put_append, loop, Reach,
}
use lab_implementation.KvSrv.System.Invariant.{Inv, Reach-Inv}

-- A change that the server has cached the reply of has taken effect.
abbrev pub progress : (ℕ → Option String) → ClerkPc → Progress
progress ids idle = Progress.idle
progress ids (getting key) = pending_get key
progress ids (got v) = done (some v)
progress ids (modifying op key value id) = elim (ids id) [
  | none ↦ pending op key value
  | some w ↦ applied (visible op w)
]
progress ids (acking op key value id r) = applied (visible op r)
progress ids (returned op r) = done (visible op r)

abbrev pub view : System → Atomic
view s = record {
  store = λ k. or_empty (s.server.store_map k);
  client = λ j. progress s.server.id_map (s.clerk j);
}

Atomic-eq :
    {a b : Atomic}
    → ((k : String) → a.store k ≡ b.store k)
    → ((j : ℕ) → a.client j ≡ b.client j)
    → a ≡ b
Atomic-eq p q = λ i. record { store = λ k. p k i; client = λ j. q j i }

progress_agree :
    (ids ids' : ℕ → Option String) (p : ClerkPc)
    → ((x : ℕ) → id_of p ≡ some x → ids' x ≡ ids x)
    → progress ids' p ≡ progress ids p
progress_agree ids ids' (modifying op key value id) h = ground (arith, h id)
progress_agree ids ids' idle h = refl
progress_agree ids ids' p h = refl

-- A clerk that moves from `modifying` or `acking` at its id, with the server's replies changed at
-- that id only, leaves what the others have reached.
module _ {s : System} (inv : Inv s) (i : ℕ) (kv : KvServer) (p : ClerkPc) where
  abbrev moved : System
  moved = record { server = kv; clerk = update ℕ_discrete s.clerk i p }

  client-moved :
      ((j x : ℕ) → i ≢ j → id_of (s.clerk j) ≡ some x → kv.id_map x ≡ s.server.id_map x)
      → (q : Progress) → progress kv.id_map p ≡ q
      → (j : ℕ) → (view moved).client j ≡ update ℕ_discrete (view s).client i q j
  client-moved h q e j = elim (ℕ_discrete i j) [
    | yes same ↦ ground arith
    | no other ↦
        ground (arith, progress_agree s.server.id_map kv.id_map (s.clerk j) (λ x. h j x other))
  ]

-- A step of the system is none of the atomic store, or one.
abbrev pub Matches : System → System → Type 0
Matches s t = (view s ≡ view t) ⊎ AtomicStep (view s) (view t)

module _ {s : System} (inv : Inv s) (i : ℕ) where
  turn-moved :
      (o : Outcome) (p : ClerkPc) (kv : KvServer) (p' : ClerkPc)
      → s.clerk i ≡ p
      → clerk_turn o s.server p ≡ (kv, p')
      → turn s i o ≡ moved inv i kv p'
  unfolding turn
  turn-moved o p kv p' e h = ground arith

  stutters :
      (kv : KvServer) (p : ClerkPc)
      → ((j x : ℕ) → i ≢ j → id_of (s.clerk j) ≡ some x → kv.id_map x ≡ s.server.id_map x)
      → ((k : String) → kv.store_map k ≡ s.server.store_map k)
      → progress kv.id_map p ≡ progress s.server.id_map (s.clerk i)
      → view s ≡ view (moved inv i kv p)
  stutters kv p h st e =
      Atomic-eq (λ k. ground (arith, st k)) λ j. ground (arith, client-moved inv i kv p h _ e j)

  -- The replies cached for the ids of the other clerks, after a change at this clerk's id.
  others :
      (id : ℕ) (r : Option String)
      → id_of (s.clerk i) ≡ some id
      → (j x : ℕ) → i ≢ j
      → id_of (s.clerk j) ≡ some x
      → update ℕ_discrete s.server.id_map id r x ≡ s.server.id_map x
  others id r mine j x ne e = ground (arith, inv.unique i j x)

  module _ (op : Op) (key value : String) (id : ℕ) where
    -- The handler's first run for this id.
    effect-refines :
        (p : ClerkPc)
        → s.clerk i ≡ modifying op key value id
        → s.server.id_map id ≡ none
        → progress (changed op key value id s.server).id_map p
          ≡ applied (visible op (or_empty (s.server.store_map key)))
        → Matches s (moved inv i (changed op key value id s.server) p)
    effect-refines p e new h = inr (
        take_effect i op key value (ground arith) (
          Atomic-eq (λ k. ground arith)
            (client-moved inv i (changed op key value id s.server) p (others id _ (ground arith)) _
              h)))

    modifying-refines :
        (o : Outcome) → s.clerk i ≡ modifying op key value id → Matches s (turn s i o)
    unfolding clerk_turn
    modifying-refines request_lost e = inl (
        rw (turn-moved request_lost _ s.server (modifying op key value id) e refl)
          (stutters s.server _ (λ j x n h. refl) (λ k. refl) (ground arith)))
    modifying-refines reply_lost e = elim (Option-cases (s.server.id_map id)) [
      | inl new ↦
          rw
            (turn-moved reply_lost _ (changed op key value id s.server) (modifying op key value id)
              e (ground (arith, handler-first op key value id s.server new)))
            (effect-refines _ e new (ground arith))
      | inr (w, old) ↦ inl (
          rw
            (turn-moved reply_lost _ s.server (modifying op key value id) e
              (ground (arith, handler-again op key value id s.server old)))
            (stutters s.server _ (λ j x n h. refl) (λ k. refl) (ground arith)))
    ]
    modifying-refines delivered e = elim (Option-cases (s.server.id_map id)) [
      | inl new ↦
          rw
            (turn-moved delivered _ (changed op key value id s.server)
              (acking op key value id (or_empty (s.server.store_map key))) e
              (ground (arith, handler-first op key value id s.server new)))
            (effect-refines _ e new refl)
      | inr (w, old) ↦ inl (
          rw
            (turn-moved delivered _ s.server (acking op key value id w) e
              (ground (arith, handler-again op key value id s.server old)))
            (stutters s.server _ (λ j x n h. refl) (λ k. refl) (ground arith)))
    ]

    abbrev forgotten : KvServer
    forgotten = record {
      store_map = s.server.store_map;
      id_map = update ℕ_discrete s.server.id_map id none;
    }

    acking-refines :
        (o : Outcome) (r : String) → s.clerk i ≡ acking op key value id r → Matches s (turn s i o)
    unfolding clerk_turn
    acking-refines request_lost r e = inl (
        rw (turn-moved request_lost _ s.server (acking op key value id r) e refl)
          (stutters s.server _ (λ j x n h. refl) (λ k. refl) (ground arith)))
    acking-refines reply_lost r e = inl (
        rw
          (turn-moved reply_lost _ forgotten (acking op key value id r) e
            (ground (arith, handler-ack op key value id s.server)))
          (stutters forgotten _ (others id none (ground arith)) (λ k. refl) (ground arith)))
    acking-refines delivered r e =
        rw
          (turn-moved delivered _ forgotten (returned op r) e
            (ground (arith, handler-ack op key value id s.server)))
          (inr (
            respond i (visible op r) (ground arith) (
              Atomic-eq (λ k. refl)
                (client-moved inv i forgotten _ (others id none (ground arith)) _ refl))))

  getting-refines : (o : Outcome) (key : String) → s.clerk i ≡ getting key → Matches s (turn s i o)
  unfolding clerk_turn get
  getting-refines delivered key e =
      rw
        (turn-moved delivered _ s.server (got (or_empty (s.server.store_map key))) e (ground arith))
        (inr (
          read i key (ground arith)
            (Atomic-eq (λ k. refl) (client-moved inv i s.server _ (λ j x n h. refl) _ refl))))
  getting-refines o key e = inl (
      rw (turn-moved o _ s.server (getting key) e refl)
        (stutters s.server _ (λ j x n h. refl) (λ k. refl) (ground arith)))

  turn-free : (kv : KvServer) (o : Outcome) (p : ClerkPc) → IsFree p → clerk_turn o kv p ≡ (kv, p)
  unfolding clerk_turn
  turn-free kv o idle free = refl
  turn-free kv o (got v) free = refl
  turn-free kv o (returned op r) free = refl
  turn-free kv o (getting key) free = elim free [ ]
  turn-free kv o (modifying op key value id) free = elim free [ ]
  turn-free kv o (acking op key value id r) free = elim free [ ]

  still-refines : (o : Outcome) (p : ClerkPc) → IsFree p → s.clerk i ≡ p → Matches s (turn s i o)
  still-refines o p free e = inl (
      rw (turn-moved o _ s.server p e (turn-free s.server o p free))
        (stutters s.server _ (λ j x n h. refl) (λ k. refl) (ground arith)))

  turn-refines : (o : Outcome) (p : ClerkPc) → s.clerk i ≡ p → Matches s (turn s i o)
  turn-refines o (getting key) e = getting-refines o key e
  turn-refines o (modifying op key value id) e = modifying-refines op key value id o e
  turn-refines o (acking op key value id r) e = acking-refines op key value id o r e
  turn-refines o p e = still-refines o p tt e

resting : (ids : ℕ → Option String) (p : ClerkPc) → IsFree p → IsResting (progress ids p)
resting ids idle h = tt
resting ids (got v) h = tt
resting ids (returned op r) h = tt
resting ids p h = elim h [ ]

Step-refines : {s t : System} → Inv s → Step s t → Matches s t
Step-refines {s} inv (start_get i key free) = inr (
    call_get i key (resting s.server.id_map (s.clerk i) free)
      (Atomic-eq (λ k. refl) (client-moved inv i s.server _ (λ j x n h. refl) _ refl)))
Step-refines {s} inv (start_put_append i op key value id free unused) = inr (
    call_put_append i op key value (resting s.server.id_map (s.clerk i) free) (
      Atomic-eq (λ k. refl)
        (client-moved inv i s.server _ (λ j x n h. refl) _ (ground (arith, inv.clean id unused)))))
Step-refines {s} inv (loop i o) = turn-refines inv i o (s.clerk i) refl

-- In every reachable state, each step of the clerks and the server is, by the state mapping `view`,
-- no step or one step of the atomic store, in which a `Put` or `Append` takes effect once, between
-- its call and its return, and an `Append` or `Get` returns the value that the key has when it does.
pub linearizable : {s t : System} → Reach s → Step s t → Matches s t
linearizable r st = Step-refines (Reach-Inv r) st

-- In every reachable state, the server caches no reply for an id that no clerk is using.
pub cache_is_freed : {s : System} → Reach s → (x : ℕ) → IsUnused s x → s.server.id_map x ≡ none
cache_is_freed r x h = (Reach-Inv r).clean x h
