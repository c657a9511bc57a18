-- ===== src/Labrpc/Calls/Outcomes.antt =====
-- labrpc.go, processReq: what has become of the server when the caller is answered.
use lab_implementation.Common.{
  suc, ℕ, ◌≡◌, ◌⊎◌, inl, inr, refl, sym, ap, subst, ◌∙◌, Bool, ◌&&◌, Option, none, some, String,
  if_elim, if_false, ltb, ◌%◌,
}
use lab_implementation.Labrpc.{ReqMsg, ReplyMsg, no_reply, Network, is_server_dead, add_bytes}
use lab_implementation.Labrpc.Service.{Codec, Memory, server_dispatch, dispatch}
use lab_implementation.Labrpc.Process.{
  set_network, ReqPc, arrived, serving, settling, delayed, refusing, answered, HandlerPc, idle,
  running, returned, Route, route_of, arrive, arrive_on, dropped, settle, check_alive, Request,
  accept, Step, others, arrival, handling, reply_read, timer, settled, late_reply, refusal,
}
use lab_implementation.Labrpc.Calls.{
  Quiet, Run, stay, step, OnRoute, route_of-OnRoute, alive, dispatch_by_services,
  after_dispatch-some, settle-network, count_request-services, returned-injective,
  running-injective,
}

module _ {O V : Type 0} (codec : Codec V) (req : ReqMsg) (m : Memory O V) (after : O)
    (r1 : ReplyMsg) where
  -- Whatever server the end leads to runs the handler with this result.
  abbrev pub Answers : Type 0
  Answers =
      (route : Route)
      → OnRoute req.endname m.network route
      → server_dispatch codec (m.heap route.server) req m.objects ≡ some (after, r1)

  -- What the program counters tell.
  abbrev Fits : ReqPc → HandlerPc → Type 0
  Fits arrived h = h ≡ idle
  Fits (serving route) h =
      OnRoute req.endname m.network route
      × (server_dispatch codec (m.heap route.server) req m.objects ≡ some (after, r1))
      × ((h ≡ running route.server) ⊎ (h ≡ returned r1))
  Fits (settling route none) h = ⊥
  Fits (settling route (some r)) h = (r ≡ r1) × (h ≡ returned r1)
  Fits (delayed r) h = (r ≡ r1) × (h ≡ returned r1)
  Fits refusing h = h ≡ idle
  Fits (answered a) h =
      ((h ≡ idle) × (a ≡ no_reply)) ⊎ ((h ≡ returned r1) × ((a ≡ no_reply) ⊎ (a ≡ r1)))

  -- The objects by the handler's program counter.
  abbrev Holds : HandlerPc → O → Type 0
  Holds idle o = o ≡ m.objects
  Holds (running p) o = o ≡ m.objects
  Holds (returned r) o = o ≡ after

  record Track (s : Request O V) : Type 0 where
    fits : Fits s.pc s.handler
    holds : Holds s.handler s.memory.objects
    services : (q : ℕ) → (s.memory.heap q).services ≡ (m.heap q).services
    enabled : s.memory.network.enabled ≡ m.network.enabled
    connections : s.memory.network.connections ≡ m.network.connections
    servers : s.memory.network.servers ≡ m.network.servers

  module _ (answers : Answers) where
    OnRoute-before :
        (s : Request O V) (route : Route)
        → Track s
        → OnRoute req.endname s.memory.network route
        → OnRoute req.endname m.network route
    OnRoute-before s route t r = record {
      on = ap (λ (f : String → Bool). f req.endname) (sym t.enabled) ∙ r.on;
      name = ap (λ (f : String → Option ℕ). f req.endname) (sym t.connections) ∙ r.name;
      place = ap (λ (f : ℕ → Option ℕ). f route.servername) (sym t.servers) ∙ r.place;
    }

    OnRoute-now :
        (s : Request O V) (route : Route)
        → Track s
        → OnRoute req.endname m.network route
        → OnRoute req.endname s.memory.network route
    OnRoute-now s route t r = record {
      on = ap (λ (f : String → Bool). f req.endname) t.enabled ∙ r.on;
      name = ap (λ (f : String → Option ℕ). f req.endname) t.connections ∙ r.name;
      place = ap (λ (f : ℕ → Option ℕ). f route.servername) t.servers ∙ r.place;
    }

    arrive_on-Fits :
        (draw : ℕ) (o : Option Route)
        → ((route : Route) → o ≡ some route → OnRoute req.endname m.network route)
        → Fits (arrive_on draw o).0 (arrive_on draw o).1
    arrive_on-Fits draw none known = refl
    arrive_on-Fits draw (some route) known =
        if_elim (λ (x : ReqPc × HandlerPc). Fits x.0 x.1) (dropped route.reliable draw)
          (inl (refl, refl)) (known route refl, answers route (known route refl), inl refl)

    arrival-Fits :
        (draw : ℕ) (s : Request O V)
        → Track s
        → Fits (arrive draw req s.memory.network).0 (arrive draw req s.memory.network).1
    arrival-Fits draw s t =
        arrive_on-Fits draw (route_of req.endname s.memory.network) λ route h.
          OnRoute-before s route t (route_of-OnRoute req.endname s.memory.network route h)

    timer-Fits :
        (route : Route) (s : Request O V)
        → Track s
        → Fits (serving route) s.handler
        → Fits (check_alive req route s.memory.network) s.handler
    timer-Fits route s t f =
        subst (λ pc. Fits pc s.handler)
          (sym (
            if_false (settling route none) (serving route)
              (alive req.endname s.memory.network route (OnRoute-now s route t f.0))))
          f

    settle-Fits :
        (drop reorder : ℕ) (route : Route) (o : Option ReplyMsg) (rn : Network) (h : HandlerPc)
        → Fits (settling route o) h
        → Fits (settle drop reorder req route o rn).0 h
    settle-Fits drop reorder route none rn h f = absurd f
    settle-Fits drop reorder route (some r) rn h f =
        if_elim (λ (x : ReqPc × Network). Fits x.0 h)
          (is_server_dead req.endname route.servername route.server rn) (inr (f.1, inl refl))
          (if_elim (λ (x : ReqPc × Network). Fits x.0 h) (dropped route.reliable drop)
            (inr (f.1, inl refl))
            (if_elim (λ (x : ReqPc × Network). Fits x.0 h)
              (route.longreordering && ltb (reorder % 900) 600) f (inr (f.1, inr f.0))))

    -- Where a handler's thread runs, the request waits for it.
    running-Fits :
        (pc : ReqPc) (p : ℕ)
        → Fits pc (running p)
        → (server_dispatch codec (m.heap p) req m.objects ≡ some (after, r1))
          × ((h : HandlerPc) → h ≡ returned r1 → Fits pc h)
    running-Fits arrived p f = absurd (cc)
    running-Fits (serving route) p (on, found, inl f) = (
      subst (λ q. server_dispatch codec (m.heap q) req m.objects ≡ some (after, r1))
          (sym (running-injective p route.server f)) found,
      λ h e. (on, found, inr e),
    )
    running-Fits (serving route) p (on, found, inr f) = absurd (cc)
    running-Fits (settling route none) p f = absurd f
    running-Fits (settling route (some r)) p f = let e = f.1 in absurd (cc)
    running-Fits (delayed r) p f = let e = f.1 in absurd (cc)
    running-Fits refusing p f = absurd (cc)
    running-Fits (answered a) p (inl f) = let e = f.0 in absurd (cc)
    running-Fits (answered a) p (inr f) = let e = f.0 in absurd (cc)

    arrive_on-Holds :
        (draw : ℕ) (o : Option Route) (x : O) → x ≡ m.objects → Holds (arrive_on draw o).1 x
    arrive_on-Holds draw none x e = e
    arrive_on-Holds draw (some route) x e =
        if_elim (λ (y : ReqPc × HandlerPc). Holds y.1 x) (dropped route.reliable draw) e e

    with_network :
        (s : Request O V) (pc : ReqPc) (rn : Network)
        → Track s
        → Fits pc s.handler
        → rn.enabled ≡ s.memory.network.enabled
        → rn.connections ≡ s.memory.network.connections
        → rn.servers ≡ s.memory.network.servers
        → Track (set_network (record s { pc = pc }) rn)
    with_network s pc rn t f e c v = record {
      fits = f;
      holds = t.holds;
      services = t.services;
      enabled = e ∙ t.enabled;
      connections = c ∙ t.connections;
      servers = v ∙ t.servers;
    }

    handled :
        (s : Request O V) (p : ℕ) (n : Memory O V) (r : ReplyMsg)
        → Track s
        → s.handler ≡ running p
        → dispatch codec p req s.memory ≡ some (n, r)
        → Track (record s { memory = n; handler = returned r; runs = suc s.runs })
    handled s p n r t e h =
        let (found, fits_then) = running-Fits s.pc p (subst (Fits s.pc) e t.fits) in
        let here =
          dispatch_by_services codec (s.memory.heap p) (m.heap p) req s.memory.objects
            (t.services p)
          ∙ ap (server_dispatch codec (m.heap p) req)
              (subst (λ x. Holds x s.memory.objects) e t.holds)
          ∙ found in
        let (same, reply) = after_dispatch-some p s.memory n _ after r1 r here h in
        subst (λ x. Track (record s { memory = x; handler = returned r; runs = suc s.runs })) same
          (record {
            fits = fits_then (returned r) (ap returned (sym reply));
            holds = refl;
            services = λ q. count_request-services p q s.memory ∙ t.services q;
            enabled = t.enabled;
            connections = t.connections;
            servers = t.servers;
          })

    read_after :
        (route : Route) (r : ReplyMsg) (h : HandlerPc)
        → (h ≡ running route.server) ⊎ (h ≡ returned r1)
        → h ≡ returned r
        → (r ≡ r1) × (h ≡ returned r1)
    read_after route r h (inl f) e = absurd (cc)
    read_after route r h (inr f) e = (returned-injective r r1 (sym e ∙ f), f)

    Step-Track : (s u : Request O V) → Track s → Step codec req (Quiet s.memory) s u → Track u
    Step-Track s _ t (others n q) = record {
      fits = t.fits;
      holds = subst (Holds s.handler) (sym q.objects) t.holds;
      services = λ x. q.services x ∙ t.services x;
      enabled = q.enabled ∙ t.enabled;
      connections = q.connections ∙ t.connections;
      servers = q.servers ∙ t.servers;
    }
    Step-Track s _ t (arrival draw e) =
        let still =
          subst (λ h. Holds h s.memory.objects) (subst (λ pc. Fits pc s.handler) e t.fits)
            t.holds in
        record {
          fits = arrival-Fits draw s t;
          holds =
              arrive_on-Holds draw (route_of req.endname s.memory.network) s.memory.objects still;
          services = t.services;
          enabled = t.enabled;
          connections = t.connections;
          servers = t.servers;
        }
    Step-Track s _ t (handling p n r e d) = handled s p n r t e d
    Step-Track s _ t (reply_read route r e h) =
        let (on, found, f) = subst (λ pc. Fits pc s.handler) e t.fits in
        record {
          fits = read_after route r s.handler f h;
          holds = t.holds;
          services = t.services;
          enabled = t.enabled;
          connections = t.connections;
          servers = t.servers;
        }
    Step-Track s _ t (timer route e) =
        with_network s (check_alive req route s.memory.network) s.memory.network t
          (timer-Fits route s t (subst (λ pc. Fits pc s.handler) e t.fits)) refl refl refl
    Step-Track s _ t (settled drop reorder route o e) =
        with_network s _ _ t
          (settle-Fits drop reorder route o s.memory.network s.handler
            (subst (λ pc. Fits pc s.handler) e t.fits))
          (settle-network (λ rn. rn.enabled ≡ s.memory.network.enabled) drop reorder req route o
            s.memory.network refl (λ b. refl))
          (settle-network (λ rn. rn.connections ≡ s.memory.network.connections) drop reorder req
            route o s.memory.network refl (λ b. refl))
          (settle-network (λ rn. rn.servers ≡ s.memory.network.servers) drop reorder req route o
            s.memory.network refl (λ b. refl))
    Step-Track s _ t (late_reply r e) =
        let f = subst (λ pc. Fits pc s.handler) e t.fits in
        with_network s (answered r) (add_bytes r.reply s.memory.network) t (inr (f.1, inr f.0)) refl
          refl refl
    Step-Track s _ t (refusal e) =
        with_network s (answered no_reply) s.memory.network t
          (inl (subst (λ pc. Fits pc s.handler) e t.fits, refl)) refl refl refl

    Run-Track : (s u : Request O V) → Track s → Run codec req s u → Track u
    Run-Track s _ t stay = t
    Run-Track s u t (step {t = v} r st) = Step-Track v u (Run-Track s v t r) st

    accept-Track : Track (accept m)
    accept-Track = record {
      fits = refl;
      holds = refl;
      services = λ q. refl;
      enabled = refl;
      connections = refl;
      servers = refl;
    }

    -- The handler has not run and will not, or it has run once and its reply may be lost.
    pub call_outcomes :
        (s : Request O V) (a : ReplyMsg)
        → Run codec req (accept m) s
        → s.pc ≡ answered a
        → ((s.handler ≡ idle) × (s.memory.objects ≡ m.objects) × (a ≡ no_reply))
          ⊎ ((s.handler ≡ returned r1) × (s.memory.objects ≡ after) × ((a ≡ no_reply) ⊎ (a ≡ r1)))
    call_outcomes s a r e =
        let t = Run-Track (accept m) s accept-Track r in
        elim (subst (λ pc. Fits pc s.handler) e t.fits) [
          | inl (h, n) ↦ inl (h, subst (λ x. Holds x s.memory.objects) h t.holds, n)
          | inr (h, n) ↦ inr (h, subst (λ x. Holds x s.memory.objects) h t.holds, n)
        ]
