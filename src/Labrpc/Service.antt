-- ===== src/Labrpc/Service.antt =====
-- labrpc.go, Service and Server: which methods a service offers, and how a request finds its method.
-- The receivers of the services are one state `O`, decoded arguments and replies are values `V`; what
-- labgob makes of bytes is a parameter.
use Prim.Native.Char.{Char, code}
use Prim.Native.String.{[], ◌∷◌}
use lab_implementation.Common.{
  ◌%◌, ◌^◌, ℕ, ◌+◌, Bool, true, ◌&&◌, Option, none, some, List, String, update, string_discrete,
  ℕ_discrete, ◌==◌, if◌then◌else◌,
}
use lab_implementation.Labrpc.{ReqMsg, ReplyMsg, Network}

-- A reflect.Method: `exported` is PkgPath == "".
pub record Method (O V : Type 0) : Type 0 where
  pub name : String
  pub exported : Bool
  pub num_in : ℕ
  pub in2_is_ptr : Bool
  pub num_out : ℕ
  pub func : O → V → O × V

pub record Service (O V : Type 0) : Type 0 where
  pub name : String
  pub methods : String → Option (Method O V)

pub record Server (O V : Type 0) : Type 0 where
  pub services : String → Option (Service O V)
  pub count : ℕ

pub record Codec (V : Type 0) : Type 0 where
  pub decode : String → List ℕ → V
  pub encode : V → List ℕ

-- The memory that the network's code reaches.
pub record Memory (O V : Type 0) : Type 0 where
  pub network : Network
  pub heap : ℕ → Server O V
  pub objects : O

abbrev pub is_dot : Char → Bool
is_dot c = code c == 46

abbrev pub split_after : Char → String → Option (String × String) → Option (String × String)
split_after c s (some (service_name, method_name)) = some (c ∷ service_name, method_name)
split_after c s none = if is_dot c then some ([], s) else none

-- The cut at strings.LastIndex(s, "."). Without a dot the slice s[:-1] panics.
abbrev pub split_method : String → Option (String × String)
split_method [] = none
split_method (c ∷ s) = split_after c s (split_method s)

module _ {O V : Type 0} where
  abbrev pub is_handler : Method O V → Bool
  is_handler m = m.exported && (m.num_in == 3 && (m.in2_is_ptr && m.num_out == 0))

  abbrev pub add_methods :
      List (Method O V) → (String → Option (Method O V)) → String → Option (Method O V)
  add_methods List.[] methods = methods
  add_methods (List.◌∷◌ m ms) methods =
      add_methods ms
        (if is_handler m then update string_discrete methods m.name (some m) else methods)

  abbrev pub make_service : String → List (Method O V) → Service O V
  make_service name ms = record { name = name; methods = add_methods ms λ _. none }

  abbrev pub make_server : Server O V
  make_server = record { services = λ _. none; count = 0 }

  abbrev pub add_service : Service O V → Server O V → Server O V
  add_service svc rs = record rs {
    services = update string_discrete rs.services svc.name (some svc);
  }

  abbrev pub call_method : Codec V → ReqMsg → O → Option (Method O V) → Option (O × ReplyMsg)
  call_method codec req objects none = none
  call_method codec req objects (some method) =
      let result = method.func objects (codec.decode req.args_type req.args) in
      some (result.0, record { ok = true; reply = codec.encode result.1 })

  -- svc.dispatch(methodName, req). A method that the service does not have ends the program.
  abbrev pub service_dispatch : Codec V → ReqMsg → O → String → Service O V → Option (O × ReplyMsg)
  service_dispatch codec req objects method_name svc =
      call_method codec req objects (svc.methods method_name)

  abbrev pub on_service :
      Codec V → ReqMsg → O → String → Option (Service O V) → Option (O × ReplyMsg)
  on_service codec req objects method_name none = none
  on_service codec req objects method_name (some svc) =
      service_dispatch codec req objects method_name svc

  abbrev pub on_cut :
      Codec V → ReqMsg → O → Server O V → Option (String × String) → Option (O × ReplyMsg)
  on_cut codec req objects rs none = none
  on_cut codec req objects rs (some cut) = on_service codec req objects cut.1 (rs.services cut.0)

  -- What rs.dispatch(req) runs and replies: a name without a dot and a service that the server does
  -- not have end the program.
  abbrev pub server_dispatch : Codec V → Server O V → ReqMsg → O → Option (O × ReplyMsg)
  server_dispatch codec rs req objects = on_cut codec req objects rs (split_method req.svc_meth)

  -- rs.count += 1, on the 64 bits of an int
  abbrev pub count_request : ℕ → Memory O V → Memory O V
  count_request p m = record m {
    heap =
        update ℕ_discrete m.heap p (record (m.heap p) { count = ((m.heap p).count + 1) % 2 ^ 64 });
  }

  abbrev pub after_dispatch :
      ℕ → Memory O V → Option (O × ReplyMsg) → Option (Memory O V × ReplyMsg)
  after_dispatch p m none = none
  after_dispatch p m (some x) = some (record (count_request p m) { objects = x.0 }, x.1)

  -- server.dispatch(req) on the server at an address
  abbrev pub dispatch : Codec V → ℕ → ReqMsg → Memory O V → Option (Memory O V × ReplyMsg)
  dispatch codec p req m = after_dispatch p m (server_dispatch codec (m.heap p) req m.objects)

  -- rn.GetCount: a name without a server is a nil dereference.
  abbrev pub get_count : ℕ → Memory O V → Option ℕ
  get_count servername m = elim (m.network.servers servername) [
    | none ↦ none
    | some p ↦ some ((m.heap p).count)
  ]
