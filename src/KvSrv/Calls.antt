-- ===== src/KvSrv/Calls.antt =====
-- 6.5840/src/kvsrv: the clerk's calls and the server's service on the network of labrpc: the requests
-- of client.go, ClientEnd.Call of labrpc.go around them, and StartServer of config.go.
pub mod Turns
use Prim.Native.String.{◌++◌}
use lab_implementation.Common.{
  ℕ, Bool, true, false, Option, none, some, List, [], ◌∷◌, String, update, ℕ_discrete,
  if◌then◌else◌,
}
use lab_implementation.Labrpc.{ReqMsg, ReplyMsg, add_server}
use lab_implementation.Labrpc.Service.{
  Method, Service, Codec, Memory, make_service, make_server, add_service,
}
use lab_implementation.KvSrv.{
  AppendState, PutAppendArgs, KvServer, get, put, append, check_if_need_change, start_kv_server,
}
use lab_implementation.KvSrv.Clerk.{
  Op, put_op, append_op, args_of, ClerkPc, idle, getting, got, modifying, acking, returned,
}

-- What labgob encodes here: GetArgs, PutAppendArgs, GetReply and PutAppendReply.
pub data Message : Type 0 where
  get_args : (key : String) → Message
  put_append_args : PutAppendArgs → Message
  get_reply : (value : String) → Message
  put_append_reply : (value : String) → Message

-- The name of the type that the bytes are decoded to.
abbrev pub type_of : Message → String
type_of (get_args key) = "*kvsrv.GetArgs"
type_of (put_append_args args) = "*kvsrv.PutAppendArgs"
type_of (get_reply value) = "*kvsrv.GetReply"
type_of (put_append_reply value) = "*kvsrv.PutAppendReply"

-- Arguments of another type make reflect panic; no clerk sends them, and they change nothing here.
abbrev pub get_func : KvServer → Message → KvServer × Message
get_func kv (get_args key) = (kv, get_reply (get key kv))
get_func kv other = (kv, get_reply "")

abbrev pub put_append_func :
    (PutAppendArgs → KvServer → KvServer × String) → KvServer → Message → KvServer × Message
put_append_func f kv (put_append_args args) =
    let result = f args kv in (result.0, put_append_reply result.1)
put_append_func f kv other = (kv, put_append_reply "")

abbrev pub rpc_method : String → (KvServer → Message → KvServer × Message) → Method KvServer Message
rpc_method name func = record {
  name = name;
  exported = true;
  num_in = 3;
  in2_is_ptr = true;
  num_out = 0;
  func = func;
}

-- The exported methods of *KVServer in the order of reflect. CheckIfNeedChange has one argument and
-- a result, so it is no handler and is never called here.
abbrev pub kv_methods : List (Method KvServer Message)
kv_methods =
    rpc_method "Append" (put_append_func append)
    ∷ record (rpc_method "CheckIfNeedChange" (λ kv v. (kv, v))) {
      num_in = 2;
      in2_is_ptr = false;
      num_out = 1;
    }
    ∷ rpc_method "Get" get_func
    ∷ rpc_method "Put" (put_append_func put)
    ∷ []

abbrev pub kv_service : Service KvServer Message
kv_service = make_service "KVServer" kv_methods

-- cfg.StartServer; `srv` is the address of the new Server.
abbrev pub start_server : ℕ → Memory KvServer Message → Memory KvServer Message
start_server srv m = record {
  network = add_server 0 srv m.network;
  heap = update ℕ_discrete m.heap srv (add_service kv_service make_server);
  objects = start_kv_server;
}

-- The request that ClientEnd.Call makes.
abbrev pub call_request : Codec Message → String → String → Message → ReqMsg
call_request codec endname svc_meth args = record {
  endname = endname;
  svc_meth = svc_meth;
  args_type = type_of args;
  args = codec.encode args;
}

abbrev pub method_of : Op → String
method_of put_op = "KVServer.Put"
method_of append_op = "KVServer.Append"

-- The Call of the loop in which the clerk is.
abbrev pub request_of : Codec Message → String → ClerkPc → Option ReqMsg
request_of codec e (getting key) = some (call_request codec e "KVServer.Get" (get_args key))
request_of codec e (modifying op key value id) = some (
    call_request codec e (method_of op) (put_append_args (args_of AppendState.modify key value id)))
request_of codec e (acking op key value id reslt) =
    some
      (call_request codec e (method_of op) (put_append_args (args_of AppendState.ack key value id)))
request_of codec e other = none

abbrev pub value_of : Message → String
value_of (get_reply value) = value
value_of (put_append_reply value) = value
value_of (get_args key) = ""
value_of (put_append_args args) = ""

abbrev pub reply_type : ClerkPc → String
reply_type (getting key) = "*kvsrv.GetReply"
reply_type other = "*kvsrv.PutAppendReply"

-- What Call leaves in the reply when it returns true.
abbrev pub read_reply : Codec Message → ClerkPc → ReplyMsg → Option String
read_reply codec p a = if a.ok then some (value_of (codec.decode (reply_type p) a.reply)) else none

-- What the loop does with what Call returns.
abbrev pub on_reply : ClerkPc → Option String → ClerkPc
on_reply (getting key) (some v) = got v
on_reply (modifying op key value id) (some v) = acking op key value id v
on_reply (acking op key value id reslt) (some v) = returned op reslt
on_reply p reply = p
