-- ===== src/KvSrv/Config/Tests.antt =====
-- The tests with one clerk, which appends, and the reply comes back.
use lab_implementation.Common.{
  ℕ, ◌≡◌, refl, true, false, some, none, Option, List, [], ◌∷◌, String, string_discrete, ℕ_discrete,
}
use lab_implementation.Labrpc.{ReqMsg, ReplyMsg}
use lab_implementation.Labrpc.Service.{Codec}
use lab_implementation.Labrpc.Process.{Route, arrival, handling, reply_read, settled, route_of}
use lab_implementation.Labrpc.Calls.{stay, step}
use lab_implementation.KvSrv.{AppendState, start_kv_server, append}
use lab_implementation.KvSrv.Clerk.{
  ClerkPc, modifying, append_op, args_of, handler, Outcome, clerk_turn,
}
use lab_implementation.KvSrv.Calls.{
  Message, put_append_args, put_append_reply, kv_service, call_request, read_reply, on_reply,
}
use lab_implementation.KvSrv.Config.{Config, make_config, make_client}
use lab_implementation.KvSrv.Config.Reached.{
  Step, Reach, clerks_reach_server, clerk_call-clerk_turn,
}

-- A codec for one key and one value, and for the empty reply.
abbrev encode_one : Message → List ℕ
encode_one (put_append_args args) = args.id ∷ []
encode_one other = []

abbrev decode_one : String → List ℕ → Message
decode_one t [] = put_append_reply ""
decode_one t (id ∷ b) = put_append_args (args_of AppendState.modify "k" "v" id)

abbrev codec : Codec Message
codec = record { decode = decode_one; encode = encode_one }

abbrev got : Option Config → Config
got none = make_config false 3
got (some cfg) = cfg

abbrev one_clerk : Config
one_clerk = got (make_client 0 "e" (make_config false 3))

one_clerk_reached : Reach (make_config false 3) one_clerk
unfolding string_discrete ℕ_discrete
one_clerk_reached =
    Reach.next {cfg = make_config false 3} {new = one_clerk} Reach.here
      (Step.makes {cfg = make_config false 3} {new = one_clerk} 0 "e" (λ e. cc) refl)

abbrev appending : ClerkPc
appending = modifying append_op "k" "v" 7

abbrev req : ReqMsg
req =
    call_request codec "e" "KVServer.Append"
      (put_append_args (args_of AppendState.modify "k" "v" 7))

abbrev to_server : Route
to_server = record { servername = 0; server = 3; reliable = true; longreordering = false }

abbrev echo : ReplyMsg
echo = record { ok = true; reply = [] }

clerks_reach_server_example :
    (route_of "e" one_clerk.memory.network ≡ some to_server)
    × ((one_clerk.memory.heap 3).services "KVServer" ≡ some kv_service)
unfolding string_discrete ℕ_discrete
clerks_reach_server_example = clerks_reach_server false 3 one_clerk 0 "e" one_clerk_reached refl

clerk_call-clerk_turn_example :
    (o : Outcome) × ((
      (append (args_of AppendState.modify "k" "v" 7) start_kv_server).0,
      on_reply appending (read_reply codec appending echo),
    )
      ≡ clerk_turn o start_kv_server appending)
unfolding string_discrete ℕ_discrete append handler
clerk_call-clerk_turn_example =
    clerk_call-clerk_turn false 3 one_clerk "e" codec appending req _ echo one_clerk_reached refl
      refl refl
      (step
        (step (step (step stay (arrival 0 refl)) (handling 3 _ _ refl refl))
          (reply_read to_server echo refl refl))
        (settled 0 0 to_server (some echo) refl))
      refl
