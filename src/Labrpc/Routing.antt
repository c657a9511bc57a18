-- ===== src/Labrpc/Routing.antt =====
-- labrpc.go: a request named "Service.Method" reaches that method, and only handlers are offered.
use Prim.Native.Char.{Char}
use Prim.Native.String.append
use Prim.Native.String.{[], ◌∷◌, ◌++◌, char_at}
use lab_implementation.Common.{
  ℕ, ◌≡◌, refl, ap, ◌∙◌, true, false, none, some, String, update_self, string_discrete, List,
  if_false,
}
use lab_implementation.Labrpc.{ReqMsg}
use lab_implementation.Labrpc.Service.{
  Method, Service, Server, Codec, is_dot, split_after, split_method, add_service, on_cut,
  on_service, call_method, server_dispatch,
}

abbrev dot : Char
dot = char_at "." 0

abbrev pub NoDot : String → Type 0
NoDot [] = Unit
NoDot (c ∷ s) = (is_dot c ≡ false) × NoDot s

split_method-none : (s : String) → NoDot s → split_method s ≡ none
split_method-none [] n = refl
split_method-none (c ∷ s) n = ap (split_after c s) (split_method-none s n.1) ∙ if_false _ _ n.0

-- A method name without a dot is cut off at the dot in front of it, whatever dots are in the name
-- of the service.
pub split_method-join :
    (service_name method_name : String)
    → NoDot method_name
    → split_method (service_name ++ ("." ++ method_name)) ≡ some (service_name, method_name)
split_method-join [] m n =
    ap split_method (
      (λ i. append.nil ("." ++ m) i)
      ∙ ((λ i. append.cons dot "" m i) ∙ ap (λ t. dot ∷ t) (λ i. append.nil m i)))
    ∙ ap (split_after dot m) (split_method-none m n)
split_method-join (c ∷ s) m n =
    ap split_method (λ i. append.cons c s ("." ++ m) i)
    ∙ ap (split_after c (s ++ ("." ++ m))) (split_method-join s m n)

module _ {O V : Type 0} where
  -- A server to which a service has been added runs, for a request "Service.Method" whose method is
  -- one that the service offers and whose method name has no dot, that method on the decoded
  -- arguments, and replies with the encoding of what the method has left in the reply.
  pub dispatch-add_service :
      (codec : Codec V) (rs : Server O V) (svc : Service O V) (method : Method O V)
      (method_name args_type : String) (args : List ℕ) (endname : String) (objects : O)
      → NoDot method_name
      → svc.methods method_name ≡ some method
      → server_dispatch codec
          (add_service svc rs)
          (record {
            endname = endname;
            svc_meth = svc.name ++ ("." ++ method_name);
            args_type = args_type;
            args = args;
          })
          objects
        ≡ some (
          (method.func objects (codec.decode args_type args)).0,
          record {
            ok = true;
            reply = codec.encode (method.func objects (codec.decode args_type args)).1;
          },
        )
  dispatch-add_service codec rs svc method mn at args en objects n e =
      let req : ReqMsg = record {
        endname = en;
        svc_meth = svc.name ++ ("." ++ mn);
        args_type = at;
        args = args;
      } in
      ap (on_cut codec req objects (add_service svc rs)) (split_method-join svc.name mn n)
      ∙ ap (on_service codec req objects mn)
          (update_self string_discrete rs.services svc.name (some svc))
      ∙ ap (call_method codec req objects) e
