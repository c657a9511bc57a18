-- ===== src/Labrpc/Tests.antt =====
-- A network with one server, whose one service has the handler "Adder.Add".
use lab_implementation.Common.{
  ℕ, ◌+◌, ◌≤◌, ◌≡◌, ◌⊎◌, refl, true, false, none, some, List, [], ◌∷◌, length, string_discrete,
  ℕ_discrete,
}
use lab_implementation.Labrpc.{
  ReqMsg, ReplyMsg, no_reply, Network, make_network, make_end, add_server, delete_server, connect,
  enable,
}
use lab_implementation.Labrpc.Service.{
  Method, Service, Codec, Memory, make_service, make_server, add_service, server_dispatch,
  split_method,
}
use lab_implementation.Labrpc.Registry.{deleted_server_is_dead}
use lab_implementation.Labrpc.Routing.{dispatch-add_service}
use lab_implementation.Labrpc.Process.{
  Route, serving, running, returned, Request, accept, stay, step, arrival, handling, reply_read,
  settled,
}
use lab_implementation.Labrpc.Delivery.{handler_runs_once, answer_is_handlers}
use lab_implementation.Labrpc.DeadServers.{no_reply_when_dead}
use lab_implementation.Labrpc.Liveness.{CanEnd, every_request-CanEnd}

abbrev codec : Codec (List ℕ)
codec = record { decode = λ _ b. b; encode = λ v. v }

-- It notes how many bytes it was sent and echoes them.
abbrev add : Method ℕ (List ℕ)
add = record {
  name = "Add";
  exported = true;
  num_in = 3;
  in2_is_ptr = true;
  num_out = 0;
  func = λ o v. (o + length v, v);
}

abbrev hidden : Method ℕ (List ℕ)
hidden = record add { name = "hidden"; exported = false }

abbrev adder : Service ℕ (List ℕ)
adder = make_service "Adder" (hidden ∷ add ∷ [])

adder_offers : (adder.methods "Add" ≡ some add) × (adder.methods "hidden" ≡ none)
unfolding string_discrete
adder_offers = (refl, refl)

cut_at_last_dot : split_method "a.b.c" ≡ some ("a.b", "c")
cut_at_last_dot = refl

abbrev add_request : ReqMsg
add_request = record {
  endname = "e";
  svc_meth = "Adder.Add";
  args_type = "bytes";
  args = 5 ∷ 6 ∷ [];
}

abbrev net : Network
net = enable "e" true (connect "e" 1 (add_server 1 7 make_network))

abbrev mem : Memory ℕ (List ℕ)
mem = record { network = net; heap = λ _. add_service adder make_server; objects = 10 }

abbrev to_adder : Route
to_adder = record { servername = 1; server = 7; reliable = true; longreordering = false }

abbrev echo : ReplyMsg
echo = record { ok = true; reply = 5 ∷ 6 ∷ [] }

abbrev Anything : Memory ℕ (List ℕ) → Type 0
Anything _ = Unit

abbrev waiting : Request ℕ (List ℕ)
waiting = record { memory = mem; pc = serving to_adder; handler = running 7; runs = 0 }

dispatch-add_service_example :
    server_dispatch codec (add_service adder make_server) add_request 10 ≡ some (12, echo)
unfolding string_discrete
dispatch-add_service_example =
    dispatch-add_service codec make_server adder add "Add" "bytes" (5 ∷ 6 ∷ []) "e" 10
      (refl, (refl, (refl, tt))) refl

abbrev with_f : Network
with_f = elim (make_end "f" net) [ none ↦ net | some x ↦ x.1 ]

handler_runs_once_example : 1 ≤ 1
unfolding string_discrete ℕ_discrete
handler_runs_once_example =
    handler_runs_once codec add_request Anything mem _
      (step (step stay (arrival 0 refl)) (handling 7 _ _ refl refl))

answer_is_handlers_example : (echo ≡ no_reply) ⊎ ((returned echo ≡ returned echo) × ◌≡◌ {A = ℕ} 1 1)
unfolding string_discrete ℕ_discrete
answer_is_handlers_example =
    answer_is_handlers codec add_request Anything mem _ echo
      (step
        (step (step (step stay (arrival 0 refl)) (handling 7 _ _ refl refl))
          (reply_read to_adder echo refl refl))
        (settled 0 0 to_adder (some echo) refl))
      refl

abbrev orphan : Request ℕ (List ℕ)
orphan = record waiting { memory = record mem { network = delete_server 1 net } }

-- The handler has run, and its reply is thrown away.
no_reply_when_dead_example : no_reply ≡ no_reply
unfolding string_discrete ℕ_discrete
no_reply_when_dead_example =
    no_reply_when_dead codec add_request to_adder orphan _ no_reply refl
      (deleted_server_is_dead "e" 1 7 net)
      (step (step (step stay (handling 7 _ _ refl refl)) (reply_read to_adder echo refl refl))
        (settled 0 0 to_adder (some echo) refl))
      refl

every_request-CanEnd_example : CanEnd codec add_request (accept mem)
unfolding string_discrete ℕ_discrete
every_request-CanEnd_example =
    every_request-CanEnd codec add_request Anything mem (accept mem) (λ p e. absurd cc)
      (λ r e. (_, refl)) stay
