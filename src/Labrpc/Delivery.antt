-- ===== src/Labrpc/Delivery.antt =====
-- labrpc.go, processReq: how often a handler runs, whose reply a caller gets, and when it gets none.
use lab_implementation.Common.{
  ℕ, suc, ◌≤◌, ◌≡◌, ◌⊎◌, inl, inr, refl, ap, subst, ◌&&◌, ltb, ◌%◌, Option, none, some, arith,
  if_elim,
}
use lab_implementation.Labrpc.{ReqMsg, ReplyMsg, no_reply, Network, is_server_dead}
use lab_implementation.Labrpc.Service.{Codec, Memory}
use lab_implementation.Labrpc.Process.{
  ReqPc, arrived, serving, settling, delayed, refusing, answered, HandlerPc, idle, running,
  returned, Route, route_of, arrive_on, dropped, settle, Request, accept, Step, others, arrival,
  handling, reply_read, timer, settled, late_reply, refusal, Reach, stay, step,
}

-- The handler has run as often as its thread says.
abbrev pub Counted : HandlerPc → ℕ → Type 0
Counted idle n = n ≡ 0
Counted (running _) n = n ≡ 0
Counted (returned _) n = n ≡ 1

Counted-bound : (h : HandlerPc) (n : ℕ) → Counted h n → n ≤ 1
Counted-bound idle n e = omega (arith, e)
Counted-bound (running _) n e = omega (arith, e)
Counted-bound (returned _) n e = omega (arith, e)

-- What the request holds is what its handler has returned.
abbrev pub Agrees : ReqPc → HandlerPc → Type 0
Agrees arrived h = h ≡ idle
Agrees (serving _) h = ((p : ℕ) × (h ≡ running p)) ⊎ ((r : ReplyMsg) × (h ≡ returned r))
Agrees (settling _ none) h = Unit
Agrees (settling _ (some r)) h = h ≡ returned r
Agrees (delayed r) h = h ≡ returned r
Agrees refusing h = Unit
Agrees (answered r) h = (r ≡ no_reply) ⊎ (h ≡ returned r)

pub arrive_on-Agrees :
    (draw : ℕ) (o : Option Route) → Agrees (arrive_on draw o).0 (arrive_on draw o).1
arrive_on-Agrees draw none = tt
arrive_on-Agrees draw (some route) =
    if_elim (λ (x : ReqPc × HandlerPc). Agrees x.0 x.1) (dropped route.reliable draw) (inl refl)
      (inl (route.server, refl))

arrive_on-Counted : (draw : ℕ) (o : Option Route) (n : ℕ) → n ≡ 0 → Counted (arrive_on draw o).1 n
arrive_on-Counted draw none n e = e
arrive_on-Counted draw (some route) n e =
    if_elim (λ (x : ReqPc × HandlerPc). Counted x.1 n) (dropped route.reliable draw) e e

settle-Agrees :
    (drop reorder : ℕ) (req : ReqMsg) (route : Route) (o : Option ReplyMsg) (rn : Network)
    (h : HandlerPc)
    → Agrees (settling route o) h
    → Agrees (settle drop reorder req route o rn).0 h
settle-Agrees drop reorder req route none rn h a = inl refl
settle-Agrees drop reorder req route (some r) rn h a =
    if_elim (λ (x : ReqPc × Network). Agrees x.0 h)
      (is_server_dead req.endname route.servername route.server rn) (inl refl)
      (if_elim (λ (x : ReqPc × Network). Agrees x.0 h) (dropped route.reliable drop) (inl refl)
        (if_elim (λ (x : ReqPc × Network). Agrees x.0 h)
          (route.longreordering && ltb (reorder % 900) 600) a (inr a)))

-- The handler's return changes nothing that the request holds.
returned-Agrees :
    (pc : ReqPc) (p : ℕ) (r : ReplyMsg) → Agrees pc (running p) → Agrees pc (returned r)
returned-Agrees arrived p r a = cc
returned-Agrees (serving route) p r a = inr (r, refl)
returned-Agrees (settling route none) p r a = tt
returned-Agrees (settling route (some u)) p r a = cc
returned-Agrees (delayed u) p r a = cc
returned-Agrees refusing p r a = tt
returned-Agrees (answered u) p r (inl e) = inl e
returned-Agrees (answered u) p r (inr e) = cc

module _ {O V : Type 0} where
  pub record Inv (s : Request O V) : Type 0 where
    pub agrees : Agrees s.pc s.handler
    pub counted : Counted s.handler s.runs

  Step-Inv {κ} :
      (codec : Codec V) (req : ReqMsg) (Allowed : Memory O V → Type κ) (s t : Request O V)
      → Inv s
      → Step codec req Allowed s t
      → Inv t
  Step-Inv codec req Allowed s _ i (others m a) = record { agrees = i.agrees; counted = i.counted }
  Step-Inv codec req Allowed s _ i (arrival draw e) = record {
    agrees = arrive_on-Agrees draw (route_of req.endname s.memory.network);
    counted =
        arrive_on-Counted draw (route_of req.endname s.memory.network) s.runs
          (subst (λ h. Counted h s.runs) (subst (λ pc. Agrees pc s.handler) e i.agrees) i.counted);
  }
  Step-Inv codec req Allowed s _ i (handling p m r e d) = record {
    agrees = returned-Agrees s.pc p r (subst (Agrees s.pc) e i.agrees);
    counted = ap suc (subst (λ h. Counted h s.runs) e i.counted);
  }
  Step-Inv codec req Allowed s _ i (reply_read route r e h) = record {
    agrees = h;
    counted = i.counted;
  }
  Step-Inv codec req Allowed s _ i (timer route e) = record {
    agrees =
        if_elim (λ pc. Agrees pc s.handler)
          (is_server_dead req.endname route.servername route.server s.memory.network) tt
          (subst (λ pc. Agrees pc s.handler) e i.agrees);
    counted = i.counted;
  }
  Step-Inv codec req Allowed s _ i (settled drop reorder route o e) = record {
    agrees =
        settle-Agrees drop reorder req route o s.memory.network s.handler
          (subst (λ pc. Agrees pc s.handler) e i.agrees);
    counted = i.counted;
  }
  Step-Inv codec req Allowed s _ i (late_reply r e) = record {
    agrees = inr (subst (λ pc. Agrees pc s.handler) e i.agrees);
    counted = i.counted;
  }
  Step-Inv codec req Allowed s _ i (refusal e) = record { agrees = inl refl; counted = i.counted }

  pub Reach-Inv {κ} :
      (codec : Codec V) (req : ReqMsg) (Allowed : Memory O V → Type κ) (s t : Request O V)
      → Inv s
      → Reach codec req Allowed s t
      → Inv t
  Reach-Inv codec req Allowed s _ i stay = i
  Reach-Inv codec req Allowed s u i (step {t} r st) =
      Step-Inv codec req Allowed t u (Reach-Inv codec req Allowed s t i r) st

  pub accept-Inv : (m : Memory O V) → Inv (accept m)
  accept-Inv m = record { agrees = refl; counted = refl }

  -- Whatever the rest of the program does to the network and to the servers, the handler of a
  -- request runs at most once.
  pub handler_runs_once {κ} :
      (codec : Codec V) (req : ReqMsg) (Allowed : Memory O V → Type κ) (m : Memory O V)
      (s : Request O V)
      → Reach codec req Allowed (accept m) s
      → s.runs ≤ 1
  handler_runs_once codec req Allowed m s r =
      Counted-bound s.handler s.runs
        (Reach-Inv codec req Allowed (accept m) s (accept-Inv m) r).counted

  -- A caller that is answered gets either the answer "no reply" or what the handler of its request
  -- returned, and in the second case the handler ran exactly once.
  pub answer_is_handlers {κ} :
      (codec : Codec V) (req : ReqMsg) (Allowed : Memory O V → Type κ) (m : Memory O V)
      (s : Request O V) (a : ReplyMsg)
      → Reach codec req Allowed (accept m) s
      → s.pc ≡ answered a
      → (a ≡ no_reply) ⊎ ((s.handler ≡ returned a) × (s.runs ≡ 1))
  answer_is_handlers codec req Allowed m s a r e =
      let i = Reach-Inv codec req Allowed (accept m) s (accept-Inv m) r in
      elim (subst (λ pc. Agrees pc s.handler) e (i.agrees)) [
        | inl n ↦ inl n
        | inr h ↦ inr (h, subst (λ h. Counted h s.runs) h (i.counted))
      ]
