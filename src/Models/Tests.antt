-- ===== src/Models/Tests.antt =====
-- A put and two appends on two keys, and a get.
use lab_implementation.Common.{◌≡◌, refl, true, List, [], ◌∷◌, string_discrete, ℕ_discrete}
use lab_implementation.KvSrv.{start_kv_server, put, append}
use lab_implementation.KvSrv.Clerk.{put_op, append_op, handler}
use lab_implementation.Models.{init, partition_of, accepts}
use lab_implementation.Models.Histories.{
  Request, get_request, change_request, history_of, server_histories_accepted,
}

abbrev requests : List Request
requests =
    change_request put_op "x" "a" 1
    ∷ change_request append_op "y" "b" 2
    ∷ change_request append_op "x" "c" 3
    ∷ get_request "x"
    ∷ []

server_histories_accepted_example :
    accepts init (partition_of "x" (history_of requests start_kv_server)) ≡ true
unfolding put append handler string_discrete ℕ_discrete
server_histories_accepted_example =
    server_histories_accepted requests "x" (refl, (refl, (refl, (tt, tt))))
