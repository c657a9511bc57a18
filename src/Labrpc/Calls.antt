-- ===== src/Labrpc/Calls.antt =====
-- labrpc.go, processReq: a request while the rest of the program leaves alone what it meets.
pub mod Outcomes
use lab_implementation.Common.{
  ◌^◌, suc, ℕ, ◌<◌, ◌≡◌, ◌≢◌, ◌⊎◌, inl, inr, refl, sym, ap, subst, ◌∙◌, Bool, true, false, not,
  ◌&&◌, ◌||◌, Option, none, some, Option-cases, String, update, update_self, update_other,
  ℕ_discrete, if_elim, if_true, if_false, Bool-cases, if◌then◌else◌, ◌==◌, ltb, ◌%◌, some-injective,
  if_pos, List, ◌+◌, arith,
}
use lab_implementation.Labrpc.{
  ReqMsg, ReplyMsg, no_reply, Network, is_server_dead, lookup_server, same_server, add_bytes,
}
use lab_implementation.Labrpc.Service.{
  Codec, Memory, Server, Service, after_dispatch, server_dispatch, on_cut, on_service, split_method,
  count_request, dispatch,
}
use lab_implementation.Labrpc.Process.{
  set_network, ReqPc, arrived, serving, settling, delayed, refusing, answered, HandlerPc, idle,
  running, returned, Route, route_to, route_of, arrive, arrive_on, dropped, settle, check_alive,
  Request, accept, Step, others, arrival, handling, reply_read, timer, settled, late_reply, refusal,
}

module _ {O V : Type 0} where
  -- The rest of the program has left alone what this request meets.
  pub record Quiet (m n : Memory O V) : Type 0 where
    pub objects : n.objects ≡ m.objects
    pub services : (q : ℕ) → (n.heap q).services ≡ (m.heap q).services
    pub enabled : n.network.enabled ≡ m.network.enabled
    pub connections : n.network.connections ≡ m.network.connections
    pub servers : n.network.servers ≡ m.network.servers

  pub data Run (codec : Codec V) (req : ReqMsg) (s : Request O V) : Request O V → Type 0 where
    stay : Run codec req s s
    step :
        {t u : Request O V}
        → Run codec req s t
        → Step codec req (Quiet t.memory) t u
        → Run codec req s u

-- The end leads to this server, which is in place.
pub record OnRoute (e : String) (rn : Network) (route : Route) : Type 0 where
  pub on : rn.enabled e ≡ true
  pub name : rn.connections e ≡ some route.servername
  pub place : rn.servers route.servername ≡ some route.server

route_to-known :
    (reliable reorder : Bool) (c : Option ℕ) (servers : ℕ → Option ℕ) (route : Route)
    → route_to reliable reorder c (lookup_server servers c) ≡ some route
    → (c ≡ some route.servername) × (servers route.servername ≡ some route.server)
route_to-known reliable reorder none servers route h = cc
route_to-known reliable reorder (some n) servers route h = elim (Option-cases (servers n)) [
  | inl absent ↦ absurd (lost absent)
  | inr (p, there) ↦
      let made = some-injective _ _ (sym (ap (route_to reliable reorder (some n)) there) ∙ h) in
      (
        ap (λ (r : Route). some (r.servername)) made,
        ap servers (sym (ap (λ (r : Route). r.servername) made))
            ∙ there
            ∙ ap (λ (r : Route). some (r.server)) made,
      )
]
  where
    lost : ¬ (servers n ≡ none)
    lost absent = let gone = sym (ap (route_to reliable reorder (some n)) absent) ∙ h in cc

pub route_of-OnRoute :
    (e : String) (rn : Network) (route : Route) → route_of e rn ≡ some route → OnRoute e rn route
route_of-OnRoute e rn route h = elim (Bool-cases (rn.enabled e)) [
  | inl on ↦
      let (name, place) =
        route_to-known rn.reliable rn.long_reordering (rn.connections e) rn.servers route
          (sym (if_true _ _ on) ∙ h) in
      record { on = on; name = name; place = place }
  | inr off ↦ let out = sym (if_false _ _ off) ∙ h in absurd (cc)
]

==-self : (n : ℕ) → (n == n) ≡ true
==-self n = ground arith

pub alive :
    (e : String) (rn : Network) (route : Route)
    → OnRoute e rn route
    → is_server_dead e route.servername route.server rn ≡ false
alive e rn route r =
    ap (λ b. not b || not (same_server (rn.servers route.servername) route.server)) r.on
    ∙ ap (λ o. not (same_server o route.server)) r.place
    ∙ ap not (==-self route.server)

-- The method that is found depends on the services only.
pub dispatch_by_services :
    {O V : Type 0} (codec : Codec V) (a b : Server O V) (req : ReqMsg) (objects : O)
    → a.services ≡ b.services
    → server_dispatch codec a req objects ≡ server_dispatch codec b req objects
dispatch_by_services {O} {V} codec a b req objects same = by_cut (split_method req.svc_meth)
  where
    by_cut :
        (c : Option (String × String)) → on_cut codec req objects a c ≡ on_cut codec req objects b c
    by_cut none = refl
    by_cut (some cut) =
        ap (λ (f : String → Option (Service O V)). on_service codec req objects cut.1 (f cut.0))
          same

pub after_dispatch-some :
    {O V : Type 0} (p : ℕ) (m n : Memory O V) (x : Option (O × ReplyMsg)) (o : O) (r u : ReplyMsg)
    → x ≡ some (o, r)
    → after_dispatch p m x ≡ some (n, u)
    → (record (count_request p m) { objects = o } ≡ n) × (r ≡ u)
after_dispatch-some p m n x o r u found h =
    let both = some-injective _ _ (sym (ap (after_dispatch p m) found) ∙ h) in
    (ap (λ t. t.0) both, ap (λ t. t.1) both)

pub settle-network :
    (P : Network → Type 0) (drop reorder : ℕ) (req : ReqMsg) (route : Route) (o : Option ReplyMsg)
    (rn : Network)
    → P rn
    → ((b : List ℕ) → P (add_bytes b rn))
    → P (settle drop reorder req route o rn).1
settle-network P drop reorder req route none rn same more = same
settle-network P drop reorder req route (some r) rn same more =
    if_elim (λ (x : ReqPc × Network). P x.1)
      (is_server_dead req.endname route.servername route.server rn) same
      (if_elim (λ (x : ReqPc × Network). P x.1) (dropped route.reliable drop) same
        (if_elim (λ (x : ReqPc × Network). P x.1) (route.longreordering && ltb (reorder % 900) 600)
          same (more r.reply)))

pub count_request-services :
    {O V : Type 0} (p q : ℕ) (m : Memory O V)
    → ((count_request p m).heap q).services ≡ (m.heap q).services
count_request-services {O} {V} p q m = elim (ℕ_discrete p q) [
  | yes e ↦
      ap (λ (x : Server O V). x.services)
        (if_pos (ℕ_discrete p q) e (record (m.heap p) { count = ((m.heap p).count + 1) % 2 ^ 64 })
          (m.heap q))
      ∙ ap (λ x. (m.heap x).services) e
  | no n ↦ ap (λ (x : Server O V). x.services) (update_other ℕ_discrete m.heap p _ q n)
]

pub returned-injective : (r u : ReplyMsg) → returned r ≡ returned u → r ≡ u
returned-injective r u e = cc

pub running-injective : (p q : ℕ) → running p ≡ running q → p ≡ q
running-injective p q e = cc
