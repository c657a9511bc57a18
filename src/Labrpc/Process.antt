-- ===== src/Labrpc/Process.antt =====
-- labrpc.go, Network.processReq: one request from its arrival to its reply, while the rest of the
-- program goes on. The thread that runs the handler is a second program counter. Random numbers are
-- arguments; how long a sleep takes is left to the order of the steps.
use lab_implementation.Common.{
  ℕ, suc, ◌+◌, ◌%◌, ◌≡◌, Bool, not, ◌&&◌, Option, none, some, String, ltb, if◌then◌else◌,
}
use lab_implementation.Labrpc.{
  ReqMsg, ReplyMsg, no_reply, Network, read_endname_info, is_server_dead, add_bytes,
}
use lab_implementation.Labrpc.Service.{Codec, Memory, dispatch}

-- What readEndnameInfo found: the locals of processReq.
pub record Route : Type 0 where
  pub servername : ℕ
  pub server : ℕ
  pub reliable : Bool
  pub longreordering : Bool

pub data ReqPc : Type 0 where
  arrived : ReqPc
  serving : Route → ReqPc  -- the loop over `ech` and the 100 ms timer
  settling : Route → Option ReplyMsg → ReqPc  -- after the loop; `none` when the server was dead
  delayed : ReplyMsg → ReqPc  -- the AfterFunc of a reordered reply
  refusing : ReqPc  -- the AfterFunc of a request that reaches no server
  answered : ReplyMsg → ReqPc  -- what replyCh has got

pub data HandlerPc : Type 0 where
  idle : HandlerPc
  running : ℕ → HandlerPc
  returned : ReplyMsg → HandlerPc

abbrev pub dropped : Bool → ℕ → Bool
dropped reliable draw = not reliable && ltb (draw % 1000) 100

abbrev pub route_to : Bool → Bool → Option ℕ → Option ℕ → Option Route
route_to reliable longreordering (some servername) (some server) = some record {
  servername = servername;
  server = server;
  reliable = reliable;
  longreordering = longreordering;
}
route_to reliable longreordering _ _ = none

abbrev pub route_of : String → Network → Option Route
route_of endname rn =
    let info = read_endname_info endname rn in
    if info.enabled
    then route_to info.reliable info.longreordering info.servername info.server
    else none

-- Up to the start of the handler's thread.
abbrev pub arrive_on : ℕ → Option Route → ReqPc × HandlerPc
arrive_on draw none = (refusing, idle)
arrive_on draw (some route) =
    if dropped route.reliable draw
    then (answered no_reply, idle)
    else (serving route, running route.server)

abbrev pub arrive : ℕ → ReqMsg → Network → ReqPc × HandlerPc
arrive draw req rn = arrive_on draw (route_of req.endname rn)

-- case <-time.After(100 * time.Millisecond)
abbrev pub check_alive : ReqMsg → Route → Network → ReqPc
check_alive req route rn =
    if is_server_dead req.endname route.servername route.server rn
    then settling route none
    else serving route

-- What follows the loop; `drop` and `reorder` are the draws.
abbrev pub settle : ℕ → ℕ → ReqMsg → Route → Option ReplyMsg → Network → ReqPc × Network
settle drop reorder req route none rn = (answered no_reply, rn)
settle drop reorder req route (some r) rn =
    if is_server_dead req.endname route.servername route.server rn
    then (answered no_reply, rn)
    else if dropped route.reliable drop
    then (answered no_reply, rn)
    else if route.longreordering && ltb (reorder % 900) 600
    then (delayed r, rn)
    else (answered r, add_bytes r.reply rn)

-- The milliseconds before a request that reaches no server is answered.
abbrev pub refusal_ms : ℕ → Network → ℕ
refusal_ms draw rn = if rn.long_delays then draw % 7000 else draw % 100

-- The milliseconds of the AfterFunc of a reordered reply: r1 is rand.Int(), r2 the number that
-- rand.Intn takes modulo its bound.
abbrev pub reorder_ms : ℕ → ℕ → ℕ
reorder_ms r1 r2 = 200 + r2 % (1 + r1 % 2000)

-- `runs` counts how often the handler has been called for this request.
pub record Request (O V : Type 0) : Type 0 where
  pub memory : Memory O V
  pub pc : ReqPc
  pub handler : HandlerPc
  pub runs : ℕ

module _ {O V : Type 0} where
  abbrev pub set_network : Request O V → Network → Request O V
  set_network s rn = record s { memory = record (s.memory) { network = rn } }

  abbrev pub accept : Memory O V → Request O V
  accept m = record { memory = m; pc = arrived; handler = idle; runs = 0 }

  -- `Allowed` says which memories the rest of the program may leave behind.
  pub data Step {κ} (codec : Codec V) (req : ReqMsg) (Allowed : Memory O V → Type κ)
      (s : Request O V) : Request O V → Type κ where
    others : (m : Memory O V) → Allowed m → Step codec req Allowed s (record s { memory = m })
    arrival :
        (draw : ℕ)
        → s.pc ≡ arrived
        → Step codec req Allowed s (record s {
          pc = (arrive draw req s.memory.network).0;
          handler = (arrive draw req s.memory.network).1;
        })
    handling :
        (p : ℕ) (m : Memory O V) (r : ReplyMsg)
        → s.handler ≡ running p
        → dispatch codec p req s.memory ≡ some (m, r)
        → Step codec req Allowed s
            (record s { memory = m; handler = returned r; runs = suc s.runs })
    reply_read :
        (route : Route) (r : ReplyMsg)
        → s.pc ≡ serving route
        → s.handler ≡ returned r
        → Step codec req Allowed s (record s { pc = settling route (some r) })
    timer :
        (route : Route)
        → s.pc ≡ serving route
        → Step codec req Allowed s (record s { pc = check_alive req route s.memory.network })
    settled :
        (drop reorder : ℕ) (route : Route) (o : Option ReplyMsg)
        → s.pc ≡ settling route o
        → Step codec req Allowed s (
            set_network
              (record s { pc = (settle drop reorder req route o s.memory.network).0 })
              (settle drop reorder req route o s.memory.network).1)
    late_reply :
        (r : ReplyMsg)
        → s.pc ≡ delayed r
        → Step codec req Allowed s
            (set_network (record s { pc = answered r }) (add_bytes r.reply s.memory.network))
    refusal : s.pc ≡ refusing → Step codec req Allowed s (record s { pc = answered no_reply })

  pub data Reach {κ} (codec : Codec V) (req : ReqMsg) (Allowed : Memory O V → Type κ)
      (s : Request O V) : Request O V → Type κ where
    stay : Reach codec req Allowed s s
    step :
        {t u : Request O V}
        → Reach codec req Allowed s t
        → Step codec req Allowed t u
        → Reach codec req Allowed s u
