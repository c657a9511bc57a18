-- ===== src/Labrpc/DeadServers.antt =====
-- labrpc.go, processReq: a request for a dead server is answered by "no reply".
use lab_implementation.Common.{
  ℕ, ◌≡◌, refl, sym, ap, subst, true, Option, none, some, if_elim, if_true,
}
use lab_implementation.Labrpc.{ReqMsg, ReplyMsg, no_reply, is_server_dead}
use lab_implementation.Labrpc.Service.{Codec, Memory, after_dispatch}
use lab_implementation.Labrpc.Process.{
  ReqPc, serving, settling, answered, Route, settle, Request, Step, others, arrival, handling,
  reply_read, timer, settled, late_reply, refusal, Reach, stay, step,
}

after_dispatch-network :
    {O V : Type 0} (p : ℕ) (m : Memory O V) (x : Option (O × ReplyMsg)) (m' : Memory O V)
    (r : ReplyMsg)
    → after_dispatch p m x ≡ some (m', r)
    → m'.network ≡ m.network
after_dispatch-network p m none m' r e = cc
after_dispatch-network p m (some x) m' r e =
    ap (λ o. elim o [ none ↦ m.network | some y ↦ y.0.network ]) (sym e)

-- A request that has been sent to one server and whose reply has not been let through.
abbrev pub Undecided : Route → ReqPc → Type 0
Undecided route (serving r) = r ≡ route
Undecided route (settling r _) = r ≡ route
Undecided route (answered a) = a ≡ no_reply
Undecided route _ = ⊥

module _ {O V : Type 0} (codec : Codec V) (req : ReqMsg) (route : Route) where
  abbrev pub IsDead : Memory O V → Type 0
  IsDead m = is_server_dead req.endname route.servername route.server m.network ≡ true

  settle-Undecided :
      (drop reorder : ℕ) (r : Route) (o : Option ReplyMsg) (m : Memory O V)
      → IsDead m
      → r ≡ route
      → (settle drop reorder req r o m.network ≡ (answered no_reply, m.network))
  settle-Undecided drop reorder r none m d e = refl
  settle-Undecided drop reorder r (some u) m d e =
      if_true _ _
        (subst (λ r. is_server_dead req.endname r.servername r.server m.network ≡ true) (sym e) d)

  Step-Undecided :
      (s t : Request O V)
      → IsDead s.memory
      → Undecided route s.pc
      → Step codec req IsDead s t
      → IsDead t.memory × Undecided route t.pc
  Step-Undecided s _ d u (others m a) = (a, u)
  Step-Undecided s _ d u (arrival draw e) = absurd (subst (Undecided route) e u)
  Step-Undecided s _ d u (handling p m r e h) = (
    subst (λ rn. is_server_dead req.endname route.servername route.server rn ≡ true)
        (sym (after_dispatch-network p s.memory _ m r h)) d,
    u,
  )
  Step-Undecided s _ d u (reply_read r o e h) = (d, subst (Undecided route) e u)
  Step-Undecided s _ d u (timer r e) = (
    d,
    if_elim (Undecided route) (is_server_dead req.endname r.servername r.server s.memory.network)
        (subst (Undecided route) e u) (subst (Undecided route) e u),
  )
  Step-Undecided s _ d u (settled drop reorder r o e) =
      let q = settle-Undecided drop reorder r o s.memory d (subst (Undecided route) e u) in
      (
        subst (λ x. is_server_dead req.endname route.servername route.server x.1 ≡ true) (sym q) d,
        subst (λ x. Undecided route x.0) (sym q) refl,
      )
  Step-Undecided s _ d u (late_reply r e) = absurd (subst (Undecided route) e u)
  Step-Undecided s _ d u (refusal e) = (d, refl)

  Reach-Undecided :
      (s t : Request O V)
      → IsDead s.memory
      → Undecided route s.pc
      → Reach codec req IsDead s t
      → IsDead t.memory × Undecided route t.pc
  Reach-Undecided s _ d u stay = (d, u)
  Reach-Undecided s t d u (step {t = v} r st) =
      let i = Reach-Undecided s v d u r in Step-Undecided v t i.0 i.1 st

  -- From the moment at which the server of a request that waits for its handler is dead, which means
  -- that the end is disabled or that the server has been deleted or replaced, and while that stays
  -- so, a caller that is answered gets "no reply", whatever the handler has done.
  pub no_reply_when_dead :
      (s t : Request O V) (a : ReplyMsg)
      → s.pc ≡ serving route
      → is_server_dead req.endname route.servername route.server s.memory.network ≡ true
      → Reach codec req IsDead s t
      → t.pc ≡ answered a
      → a ≡ no_reply
  no_reply_when_dead s t a e d r h =
      subst (Undecided route) h (Reach-Undecided s t d (subst (Undecided route) (sym e) refl) r).1
