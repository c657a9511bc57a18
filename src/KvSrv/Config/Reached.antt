-- ===== src/KvSrv/Config/Reached.antt =====
-- config.go: the states that the tests reach, and the calls of their clerks.
use lab_implementation.Common.{
  ℕ, ◌≡◌, ◌≢◌, refl, sym, ap, subst, ◌∙◌, Bool, Option, none, some, some-injective, String, if_true,
}
use lab_implementation.Labrpc.{ReqMsg, ReplyMsg, lookup_server}
use lab_implementation.Labrpc.Service.{Codec}
use lab_implementation.Labrpc.Process.{Request, accept, answered, route_of, route_to}
use lab_implementation.Labrpc.Calls.{Run}
use lab_implementation.KvSrv.{KvServer}
use lab_implementation.KvSrv.Clerk.{ClerkPc, Outcome, clerk_turn}
use lab_implementation.KvSrv.Calls.{Message, kv_service, request_of, read_reply, on_reply}
use lab_implementation.KvSrv.Calls.Turns.{
  Decodes, args_message, reply_of, run_of, LeadsToKv, call-clerk_turn,
}
use lab_implementation.KvSrv.Config.{
  Config, make_config, connect_client, make_client, delete_client,
}
use lab_implementation.KvSrv.Config.Served.{IsServed, make_config-IsServed, connect_client-IsServed}
use lab_implementation.KvSrv.Config.Made.{client_made-IsServed, make_client-some}
use lab_implementation.KvSrv.Config.Deleted.{client_deleted-IsServed, delete_client-some}

-- `new` differs from `cfg` in no end, in no service and in no clerk: a request has been served.
pub record SamePlaces (cfg new : Config) : Type 0 where
  pub ends : new.memory.network.ends ≡ cfg.memory.network.ends
  pub enabled : new.memory.network.enabled ≡ cfg.memory.network.enabled
  pub connections : new.memory.network.connections ≡ cfg.memory.network.connections
  pub servers : new.memory.network.servers ≡ cfg.memory.network.servers
  pub services : (q : ℕ) → (new.memory.heap q).services ≡ (cfg.memory.heap q).services
  pub clerks : new.clerks ≡ cfg.clerks

pub data Step : Config → Config → Type 0 where
  makes :
      {cfg new : Config} (ck : ℕ) (e : String)
      → "" ≢ e
      → make_client ck e cfg ≡ some new
      → Step cfg new
  deletes : {cfg new : Config} (ck : ℕ) → delete_client ck cfg ≡ some new → Step cfg new
  connects : {cfg : Config} (ck : ℕ) → Step cfg (connect_client ck cfg)
  serves : {cfg new : Config} → SamePlaces cfg new → Step cfg new

pub data Reach (start : Config) : Config → Type 0 where
  here : Reach start start
  next : {cfg new : Config} → Reach start cfg → Step cfg new → Reach start new

SamePlaces-IsServed :
    (srv : ℕ) (cfg new : Config) → SamePlaces cfg new → IsServed srv cfg → IsServed srv new
SamePlaces-IsServed srv cfg new p w = record {
  leads = λ e name h. w.leads e name (ap (λ (f : String → Option ℕ). f e) (sym p.connections) ∙ h);
  placed = ap (λ (f : ℕ → Option ℕ). f 0) p.servers ∙ w.placed;
  service = ap (λ f. f "KVServer") (p.services srv) ∙ w.service;
  routed = λ ck e h.
      let r = w.routed ck e (ap (λ (f : ℕ → Option String). f ck) (sym p.clerks) ∙ h) in
      record {
        on = ap (λ (f : String → Bool). f e) p.enabled ∙ r.on;
        target = ap (λ (f : String → Option ℕ). f e) p.connections ∙ r.target;
        there = λ q. r.there (ap (λ f. f e) (sym p.ends) ∙ q);
      };
  apart = λ c d e h k.
      w.apart c d e (ap (λ (f : ℕ → Option String). f c) (sym p.clerks) ∙ h)
        (ap (λ (f : ℕ → Option String). f d) (sym p.clerks) ∙ k);
  named = λ ck e h. w.named ck e (ap (λ (f : ℕ → Option String). f ck) (sym p.clerks) ∙ h);
}

Step-IsServed : (srv : ℕ) (cfg new : Config) → Step cfg new → IsServed srv cfg → IsServed srv new
Step-IsServed srv cfg new (makes ck e full h) w =
    let (fresh, same) = make_client-some ck e cfg new (cfg.memory.network.ends e) refl h in
    subst (IsServed srv) same (client_made-IsServed srv ck e cfg w fresh full)
Step-IsServed srv cfg new (deletes ck h) w =
    subst (IsServed srv) (delete_client-some ck cfg new _ h) (client_deleted-IsServed srv ck cfg w)
Step-IsServed srv cfg _ (connects ck) w = connect_client-IsServed srv ck cfg w
Step-IsServed srv cfg new (serves p) w = SamePlaces-IsServed srv cfg new p w

Reach-IsServed :
    (srv : ℕ) (start cfg : Config) → IsServed srv start → Reach start cfg → IsServed srv cfg
Reach-IsServed srv start _ w here = w
Reach-IsServed srv start new w (next {cfg = cfg} r s) =
    Step-IsServed srv cfg new s (Reach-IsServed srv start cfg w r)

IsServed-LeadsToKv :
    (srv : ℕ) (cfg : Config) (e : String) → IsServed srv cfg → LeadsToKv e cfg.memory
IsServed-LeadsToKv srv cfg e w route on =
    let zeroth = w.leads e route.servername on.name in
    let same =
      some-injective _ _ (sym w.placed ∙ ap cfg.memory.network.servers zeroth ∙ on.place) in
    subst (λ q. (cfg.memory.heap q).services "KVServer" ≡ some kv_service) same w.service

-- In every state that makeClient, deleteClient and ConnectClient reach from make_config, where the
-- names that randstring gives are not empty and serving a request changes no end, no service and no
-- clerk, the end of each clerk is enabled and leads to the Server of StartServer, and that Server has
-- the key/value service: clerks whose ends are deleted take nothing from the others.
pub clerks_reach_server :
    (unreliable : Bool) (srv : ℕ) (cfg : Config) (ck : ℕ) (e : String)
    → Reach (make_config unreliable srv) cfg
    → cfg.clerks ck ≡ some e
    → (route_of e cfg.memory.network
        ≡ some (record {
          servername = 0;
          server = srv;
          reliable = cfg.memory.network.reliable;
          longreordering = cfg.memory.network.long_reordering;
        }))
      × ((cfg.memory.heap srv).services "KVServer" ≡ some kv_service)
clerks_reach_server unreliable srv cfg ck e r h =
    let w =
      Reach-IsServed srv (make_config unreliable srv) cfg (make_config-IsServed unreliable srv) r in
    let at = w.routed ck e h in
    let net = cfg.memory.network in
    (
      if_true _ none at.on
          ∙ ap (λ c. route_to net.reliable net.long_reordering c (lookup_server net.servers c))
              at.target
          ∙ ap (route_to net.reliable net.long_reordering (some 0)) w.placed,
      w.service,
    )

-- In every state that makeClient, deleteClient and ConnectClient reach from make_config, where the
-- names that randstring gives are not empty and serving a request changes no end, no service and no
-- clerk: the Call of a clerk's loop over any end takes the server object and the clerk, if it is
-- answered and nobody else calls or moves the server meanwhile, to where one turn of the clerk takes
-- them for some outcome of the call: lost, run with the reply lost, or delivered. labgob is to decode
-- the arguments of the call and the reply of the handler as they were encoded.
pub clerk_call-clerk_turn :
    (unreliable : Bool) (srv : ℕ) (cfg : Config) (e : String) (codec : Codec Message) (p : ClerkPc)
    (req : ReqMsg) (s : Request KvServer Message) (a : ReplyMsg)
    → Reach (make_config unreliable srv) cfg
    → Decodes codec (args_message p)
    → Decodes codec (reply_of p (run_of p cfg.memory.objects).1)
    → request_of codec e p ≡ some req
    → Run codec req (accept cfg.memory) s
    → s.pc ≡ answered a
    → (o : Outcome) × ((s.memory.objects, on_reply p (read_reply codec p a))
        ≡ clerk_turn o cfg.memory.objects p)
clerk_call-clerk_turn unreliable srv cfg e codec p req s a r sent heard h run done =
    call-clerk_turn codec e p req cfg.memory s a sent heard
      (IsServed-LeadsToKv srv cfg e (
        Reach-IsServed srv (make_config unreliable srv) cfg (make_config-IsServed unreliable srv)
          r))
      h run done
