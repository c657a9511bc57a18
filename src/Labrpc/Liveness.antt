-- ===== src/Labrpc/Liveness.antt =====
-- labrpc.go, processReq: every request can be answered.
use lab_implementation.Common.{
  ℕ, ◌≡◌, ◌≢◌, ◌⊎◌, inl, inr, refl, sym, ap, subst, Option, none, some, if_elim, ◌&&◌, ltb, ◌%◌,
}
use lab_implementation.Labrpc.{ReqMsg, ReplyMsg, no_reply, Network, is_server_dead}
use lab_implementation.Labrpc.Service.{Codec, Memory, dispatch}
use lab_implementation.Labrpc.Process.{
  ReqPc, arrived, serving, settling, delayed, refusing, answered, HandlerPc, running, returned,
  Route, route_of, arrive_on, dropped, settle, Request, accept, arrival, handling, reply_read,
  settled, late_reply, refusal, Reach, stay, step,
}
use lab_implementation.Labrpc.Delivery.{Agrees, arrive_on-Agrees, accept-Inv, Reach-Inv}

module _ {O V : Type 0} where
  -- A request can be answered by steps of its own.
  abbrev pub CanEnd : Codec V → ReqMsg → Request O V → Type 0
  CanEnd codec req s =
      (t : Request O V) × (a : ReplyMsg) × Reach codec req (λ _. ⊥) s t × (t.pc ≡ answered a)

abbrev Final : ReqPc → Type 0
Final pc = ((a : ReplyMsg) × (pc ≡ answered a)) ⊎ ((a : ReplyMsg) × (pc ≡ delayed a))

settle-Final :
    (req : ReqMsg) (route : Route) (o : Option ReplyMsg) (rn : Network)
    → Final (settle 0 0 req route o rn).0
settle-Final req route none rn = inl (no_reply, refl)
settle-Final req route (some r) rn =
    if_elim (λ (x : ReqPc × Network). Final x.0)
      (is_server_dead req.endname route.servername route.server rn) (inl (no_reply, refl))
      (if_elim (λ (x : ReqPc × Network). Final x.0) (dropped route.reliable 0)
        (inl (no_reply, refl))
        (if_elim (λ (x : ReqPc × Network). Final x.0) (route.longreordering && ltb (0 % 900) 600)
          (inr (r, refl)) (inl (r, refl))))

arrive_on-running :
    (draw : ℕ) (o : Option Route) (p : ℕ)
    → (arrive_on draw o).1 ≡ running p
    → (route : Route) × (o ≡ some route) × (route.server ≡ p)
arrive_on-running draw none p = λ e. absurd cc
arrive_on-running draw (some route) p =
    if_elim
      (λ (x : ReqPc × HandlerPc).
        x.1 ≡ running p → (r : Route) × (some route ≡ some r) × (r.server ≡ p))
      (dropped route.reliable draw) (λ e. absurd cc)
      (λ e. (route, refl, ap (λ h. elim h [ running q ↦ q | _ ↦ p ]) e))

arrive_on-moves : (draw : ℕ) (o : Option Route) → (arrive_on draw o).0 ≢ arrived
arrive_on-moves draw none = λ e. cc
arrive_on-moves draw (some route) =
    if_elim (λ (x : ReqPc × HandlerPc). x.0 ≢ arrived) (dropped route.reliable draw) (λ e. cc)
      λ e. cc

module _ {O V : Type 0} (codec : Codec V) (req : ReqMsg) where
  -- The server at an address serves the request.
  abbrev pub Serves : Memory O V → ℕ → Type 0
  Serves m p = (y : Memory O V × ReplyMsg) × (dispatch codec p req m ≡ some y)

module _ {O V : Type 0} (codec : Codec V) (req : ReqMsg) (s : Request O V) where
  end_settling :
      (t : Request O V) (route : Route) (o : Option ReplyMsg)
      → Reach codec req (λ _. ⊥) s t
      → t.pc ≡ settling route o
      → CanEnd codec req s
  end_settling t route o r e = elim (settle-Final req route o t.memory.network) [
    | inl (a, f) ↦ (_, a, step r (settled 0 0 route o e), f)
    | inr (a, f) ↦ (_, a, step (step r (settled 0 0 route o e)) (late_reply a f), refl)
  ]

  end_serving :
      (t : Request O V) (route : Route)
      → Reach codec req (λ _. ⊥) s t
      → t.pc ≡ serving route
      → ((p : ℕ) → t.handler ≡ running p → Serves codec req t.memory p)
      → ((p : ℕ) × (t.handler ≡ running p)) ⊎ ((a : ReplyMsg) × (t.handler ≡ returned a))
      → CanEnd codec req s
  end_serving t route r e returns (inl (p, h)) =
      let ((m, a), d) = returns p h in
      end_settling _ route (some a) (step (step r (handling p m a h d)) (reply_read route a e refl))
        refl
  end_serving t route r e returns (inr (a, h)) =
      end_settling _ route (some a) (step r (reply_read route a e h)) refl

  end_all :
      (t : Request O V) (pc : ReqPc) (h : HandlerPc)
      → Reach codec req (λ _. ⊥) s t
      → t.pc ≡ pc
      → t.handler ≡ h
      → ((p : ℕ) → t.handler ≡ running p → Serves codec req t.memory p)
      → pc ≢ arrived
      → Agrees pc h
      → CanEnd codec req s
  end_all t arrived h r e f returns n a = absurd (n refl)
  end_all t (serving route) h r e f returns n a =
      end_serving t route r e returns (subst (Agrees (serving route)) (sym f) a)
  end_all t (settling route o) h r e f returns n a = end_settling t route o r e
  end_all t (delayed u) h r e f returns n a = (_, u, step r (late_reply u e), refl)
  end_all t refusing h r e f returns n a = (_, no_reply, step r (refusal e), refl)
  end_all t (answered u) h r e f returns n a = (t, u, r, e)

  end_from :
      (pc : ReqPc)
      → s.pc ≡ pc
      → ((p : ℕ) → s.handler ≡ running p → Serves codec req s.memory p)
      → ((r : Route)
          → route_of req.endname s.memory.network ≡ some r
          → Serves codec req s.memory r.server)
      → Agrees pc s.handler
      → CanEnd codec req s
  end_from arrived e returns routed a =
      let o = route_of req.endname s.memory.network in
      end_all _ (arrive_on 0 o).0 (arrive_on 0 o).1 (step stay (arrival 0 e)) refl refl
        (λ p h.
          let (route, f, g) = arrive_on-running 0 o p h in
          subst (Serves codec req s.memory) g (routed route f))
        (arrive_on-moves 0 o) (arrive_on-Agrees 0 o)
  end_from (serving route) e returns routed a =
      end_all s (serving route) s.handler stay e refl returns (λ x. cc) a
  end_from (settling route o) e returns routed a = end_settling s route o stay e
  end_from (delayed u) e returns routed a = (_, u, step stay (late_reply u e), refl)
  end_from refusing e returns routed a = (_, no_reply, step stay (refusal e), refl)
  end_from (answered u) e returns routed a = (s, u, stay, e)

module _ {O V : Type 0} where
  -- Every request can be answered: when the server that runs the request's handler, or the one to
  -- which the request's end routes it, serves the request, then from whatever state the request has
  -- come to, beside whatever the rest of the program did, the steps of its own threads lead to an
  -- answer.
  pub every_request-CanEnd {κ} :
      (codec : Codec V) (req : ReqMsg) (Allowed : Memory O V → Type κ) (m : Memory O V)
      (s : Request O V)
      → ((p : ℕ) → s.handler ≡ running p → Serves codec req s.memory p)
      → ((r : Route)
          → route_of req.endname s.memory.network ≡ some r
          → Serves codec req s.memory r.server)
      → Reach codec req Allowed (accept m) s
      → CanEnd codec req s
  every_request-CanEnd codec req Allowed m s returns routed r =
      end_from codec req s s.pc refl returns routed
        (Reach-Inv codec req Allowed (accept m) s (accept-Inv m) r).agrees
