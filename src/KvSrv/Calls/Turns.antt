-- ===== src/KvSrv/Calls/Turns.antt =====
-- One Call of a clerk over the network is one turn of the clerk of Clerk.antt.
use lab_implementation.Common.{
  ◌≡◌, inl, inr, refl, sym, ap, subst, ◌∙◌, true, none, some, String, string_discrete,
  some-injective,
}
use lab_implementation.Labrpc.{ReqMsg, ReplyMsg, no_reply}
use lab_implementation.Labrpc.Service.{
  Method, Server, Codec, Memory, split_method, on_cut, on_service, call_method, server_dispatch,
}
use lab_implementation.Labrpc.Process.{Route, Request, accept, answered}
use lab_implementation.Labrpc.Calls.{OnRoute, Run}
use lab_implementation.Labrpc.Calls.Outcomes.{Answers, call_outcomes}
use lab_implementation.KvSrv.{AppendState, PutAppendArgs, KvServer, get, put, append}
use lab_implementation.KvSrv.Clerk.{
  args_of, Op, put_op, append_op, ClerkPc, idle, getting, got, modifying, acking, returned, Outcome,
  request_lost, reply_lost, delivered, handler, clerk_turn,
}
use lab_implementation.KvSrv.Calls.{
  Message, type_of, get_args, put_append_args, get_reply, put_append_reply, get_func,
  put_append_func, rpc_method, kv_service, call_request, method_of, request_of, read_reply,
  on_reply, value_of,
}

-- What labgob promises: this value is decoded as it was encoded.
abbrev pub Decodes : Codec Message → Message → Type 0
Decodes codec v = codec.decode (type_of v) (codec.encode v) ≡ v

-- The end leads to nothing, or to a server with the service of the key/value server.
abbrev pub LeadsToKv : String → Memory KvServer Message → Type 0
LeadsToKv e m =
    (route : Route)
    → OnRoute e m.network route
    → (m.heap route.server).services "KVServer" ≡ some kv_service

-- The handler that the Call of the loop runs, and what it encodes.
abbrev pub run_of : ClerkPc → KvServer → KvServer × String
run_of (getting key) kv = (kv, get key kv)
run_of (modifying op key value id) kv = handler op (args_of AppendState.modify key value id) kv
run_of (acking op key value id reslt) kv = handler op (args_of AppendState.ack key value id) kv
run_of other kv = (kv, "")

abbrev pub reply_of : ClerkPc → String → Message
reply_of (getting key) value = get_reply value
reply_of other value = put_append_reply value

abbrev pub args_message : ClerkPc → Message
args_message (getting key) = get_args key
args_message (modifying op key value id) = put_append_args (args_of AppendState.modify key value id)
args_message (acking op key value id reslt) = put_append_args (args_of AppendState.ack key value id)
args_message other = get_args ""

abbrev answer_of : Codec Message → ClerkPc → KvServer → ReplyMsg
answer_of codec p kv = record { ok = true; reply = codec.encode (reply_of p (run_of p kv).1) }

module _ (codec : Codec Message) (e : String) where
  dispatch-kv :
      (rs : Server KvServer Message) (svc_meth mn : String) (method : Method KvServer Message)
      (v : Message) (kv : KvServer)
      → rs.services "KVServer" ≡ some kv_service
      → split_method svc_meth ≡ some ("KVServer", mn)
      → kv_service.methods mn ≡ some method
      → Decodes codec v
      → server_dispatch codec rs (call_request codec e svc_meth v) kv
        ≡ some
            ((method.func kv v).0, record { ok = true; reply = codec.encode (method.func kv v).1 })
  dispatch-kv rs svc_meth mn method v kv svc cut found decoded =
      let req = call_request codec e svc_meth v in
      ap (on_cut codec req kv rs) cut
      ∙ ap (on_service codec req kv mn) svc
      ∙ ap (call_method codec req kv) found
      ∙ ap
          (λ x.
            some (
              (method.func kv x).0,
              record { ok = true; reply = codec.encode (method.func kv x).1 },
            ))
          decoded

  dispatch-op :
      (rs : Server KvServer Message) (op : Op) (args : PutAppendArgs) (kv : KvServer)
      → rs.services "KVServer" ≡ some kv_service
      → Decodes codec (put_append_args args)
      → server_dispatch codec rs (call_request codec e (method_of op) (put_append_args args)) kv
        ≡ some (
          (handler op args kv).0,
          record { ok = true; reply = codec.encode (put_append_reply (handler op args kv).1) },
        )
  unfolding string_discrete handler
  dispatch-op rs put_op args kv svc d =
      dispatch-kv rs "KVServer.Put" "Put" (rpc_method "Put" (put_append_func put))
        (put_append_args args) kv svc refl refl d
  dispatch-op rs append_op args kv svc d =
      dispatch-kv rs "KVServer.Append" "Append" (rpc_method "Append" (put_append_func append))
        (put_append_args args) kv svc refl refl d

  dispatch-request :
      (p : ClerkPc) (req : ReqMsg) (rs : Server KvServer Message) (kv : KvServer)
      → request_of codec e p ≡ some req
      → rs.services "KVServer" ≡ some kv_service
      → Decodes codec (args_message p)
      → server_dispatch codec rs req kv ≡ some ((run_of p kv).0, answer_of codec p kv)
  unfolding string_discrete
  dispatch-request idle req rs kv h svc d = cc
  dispatch-request (got v) req rs kv h svc d = cc
  dispatch-request (returned op v) req rs kv h svc d = cc
  dispatch-request (getting key) req rs kv h svc d =
      ap (λ x. server_dispatch codec rs x kv) (sym (some-injective _ _ h))
      ∙ dispatch-kv rs "KVServer.Get" "Get" (rpc_method "Get" get_func) (get_args key) kv svc refl
          refl d
  dispatch-request (modifying op key value id) req rs kv h svc d =
      ap (λ x. server_dispatch codec rs x kv) (sym (some-injective _ _ h))
      ∙ dispatch-op rs op (args_of AppendState.modify key value id) kv svc d
  dispatch-request (acking op key value id reslt) req rs kv h svc d =
      ap (λ x. server_dispatch codec rs x kv) (sym (some-injective _ _ h))
      ∙ dispatch-op rs op (args_of AppendState.ack key value id) kv svc d

  read_reply-answer :
      (p : ClerkPc) (kv : KvServer)
      → Decodes codec (reply_of p (run_of p kv).1)
      → read_reply codec p (answer_of codec p kv) ≡ some (run_of p kv).1
  read_reply-answer idle kv d = ap (λ x. some (value_of x)) d
  read_reply-answer (got v) kv d = ap (λ x. some (value_of x)) d
  read_reply-answer (returned op v) kv d = ap (λ x. some (value_of x)) d
  read_reply-answer (getting key) kv d = ap (λ x. some (value_of x)) d
  read_reply-answer (modifying op key value id) kv d = ap (λ x. some (value_of x)) d
  read_reply-answer (acking op key value id reslt) kv d = ap (λ x. some (value_of x)) d

-- What a turn does for each outcome of its call.
turn_request_lost : (p : ClerkPc) (kv : KvServer) → clerk_turn request_lost kv p ≡ (kv, p)
unfolding clerk_turn
turn_request_lost idle kv = refl
turn_request_lost (got v) kv = refl
turn_request_lost (returned op v) kv = refl
turn_request_lost (getting key) kv = refl
turn_request_lost (modifying op key value id) kv = refl
turn_request_lost (acking op key value id reslt) kv = refl

turn_reply_lost : (p : ClerkPc) (kv : KvServer) → clerk_turn reply_lost kv p ≡ ((run_of p kv).0, p)
unfolding clerk_turn
turn_reply_lost idle kv = refl
turn_reply_lost (got v) kv = refl
turn_reply_lost (returned op v) kv = refl
turn_reply_lost (getting key) kv = refl
turn_reply_lost (modifying op key value id) kv = refl
turn_reply_lost (acking op key value id reslt) kv = refl

turn_delivered :
    (p : ClerkPc) (kv : KvServer)
    → clerk_turn delivered kv p ≡ ((run_of p kv).0, on_reply p (some (run_of p kv).1))
unfolding clerk_turn
turn_delivered idle kv = refl
turn_delivered (got v) kv = refl
turn_delivered (returned op v) kv = refl
turn_delivered (getting key) kv = refl
turn_delivered (modifying op key value id) kv = refl
turn_delivered (acking op key value id reslt) kv = refl

on_reply-none : (p : ClerkPc) → on_reply p none ≡ p
on_reply-none idle = refl
on_reply-none (got v) = refl
on_reply-none (returned op v) = refl
on_reply-none (getting key) = refl
on_reply-none (modifying op key value id) = refl
on_reply-none (acking op key value id reslt) = refl

both : {x y : KvServer} {c d : ClerkPc} → x ≡ y → c ≡ d → ◌≡◌ {A = KvServer × ClerkPc} (x, c) (y, d)
both e f = λ i. (e i, f i)

silent :
    (codec : Codec Message) (p : ClerkPc) (a : ReplyMsg)
    → a ≡ no_reply
    → on_reply p (read_reply codec p a) ≡ p
silent codec p a lost = ap (λ x. on_reply p (read_reply codec p x)) lost ∙ on_reply-none p

request_of-endname :
    (codec : Codec Message) (e : String) (p : ClerkPc) (req : ReqMsg)
    → request_of codec e p ≡ some req
    → req.endname ≡ e
request_of-endname codec e idle req h = cc
request_of-endname codec e (got v) req h = cc
request_of-endname codec e (returned op v) req h = cc
request_of-endname codec e (getting key) req h =
    ap (λ (x : ReqMsg). x.endname) (sym (some-injective _ _ h))
request_of-endname codec e (modifying op key value id) req h =
    ap (λ (x : ReqMsg). x.endname) (sym (some-injective _ _ h))
request_of-endname codec e (acking op key value id reslt) req h =
    ap (λ (x : ReqMsg). x.endname) (sym (some-injective _ _ h))

answers_at :
    (codec : Codec Message) (p : ClerkPc) (req : ReqMsg) (m : Memory KvServer Message) (e : String)
    → Decodes codec (args_message p)
    → LeadsToKv e m
    → request_of codec e p ≡ some req
    → Answers codec req m (run_of p m.objects).0 (answer_of codec p m.objects)
answers_at codec p req m e d leads h route on =
    dispatch-request codec e p req (m.heap route.server) m.objects h
      (leads route (subst (λ x. OnRoute x m.network route) (request_of-endname codec e p req h) on))
      d

-- One Call over the network, from the arrival of the request at the network to the answer, while the
-- rest of the program leaves the server object, the services and the routing alone: the server and
-- the clerk are afterwards where one turn of the clerk takes them, for some outcome of the call. This
-- holds if the end leads to no server or to one with the key/value service, and if labgob decodes
-- the arguments of the call and the reply of the handler as they were encoded.
pub call-clerk_turn :
    (codec : Codec Message) (e : String) (p : ClerkPc) (req : ReqMsg) (m : Memory KvServer Message)
    (s : Request KvServer Message) (a : ReplyMsg)
    → Decodes codec (args_message p)
    → Decodes codec (reply_of p (run_of p m.objects).1)
    → LeadsToKv e m
    → request_of codec e p ≡ some req
    → Run codec req (accept m) s
    → s.pc ≡ answered a
    → (o : Outcome) × ((s.memory.objects, on_reply p (read_reply codec p a))
        ≡ clerk_turn o m.objects p)
call-clerk_turn codec e p req m s a sent heard_as leads h r done =
    elim (call_outcomes codec req m (run_of p m.objects).0 (answer_of codec p m.objects)
      (answers_at codec p req m e sent leads h) s a r done) [
        | inl (_, kept, lost) ↦
            (request_lost, both kept (silent codec p a lost) ∙ sym (turn_request_lost p m.objects))
        | inr (_, changed, inl lost) ↦
            (reply_lost, both changed (silent codec p a lost) ∙ sym (turn_reply_lost p m.objects))
        | inr (_, changed, inr heard) ↦ (
          delivered,
          both changed (
                ap (λ x. on_reply p (read_reply codec p x)) heard
                ∙ ap (on_reply p) (read_reply-answer codec e p m.objects heard_as))
              ∙ sym (turn_delivered p m.objects),
        )
      ]
