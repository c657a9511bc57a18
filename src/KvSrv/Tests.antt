-- ===== src/KvSrv/Tests.antt =====
-- The server and its clerks at concrete requests.
use lab_implementation.Common.{
  String, ◌≡◌, refl, Option, none, some, [], ◌∷◌, update, ℕ_discrete, string_discrete, arith,
}
use lab_implementation.KvSrv.{modify, ack, get, append, start_kv_server}
use lab_implementation.KvSrv.Atomic.{visible}
use lab_implementation.KvSrv.Clerk.{
  request_lost, reply_lost, delivered, put_op, append_op, handler, args_of, modifying, returned,
  clerk_run,
}
use lab_implementation.KvSrv.Retries.{Request, serve, retry_is_no_op, late_copy_repeats}
use lab_implementation.KvSrv.Runs.{put_append_completes}
use lab_implementation.KvSrv.System.{
  System, Reach, start, later, start_put_append, loop, turn, init,
}
use lab_implementation.KvSrv.System.Refines.{Matches, linearizable, cache_is_freed}

append_twice :
    get "k"
      (append (args_of modify "k" "b" 2) (append (args_of modify "k" "a" 1) start_kv_server).0).0
    ≡ "ab"
unfolding get append string_discrete ℕ_discrete
append_twice = refl

-- A clerk that has called `Append` and has not been heard yet.
abbrev asked : System
asked = record init { clerk = update ℕ_discrete init.clerk 0 (modifying append_op "k" "v" 7) }

asked_reach : Reach asked
asked_reach = later start (start_put_append 0 append_op "k" "v" 7 tt (λ j e. cc))

linearizable_example : Matches asked (turn asked 0 reply_lost)
linearizable_example = linearizable asked_reach (loop 0 reply_lost)

cache_is_freed_example : ◌≡◌ {A = Option String} (asked.server.id_map 9) none
cache_is_freed_example = cache_is_freed asked_reach 9 (λ j e. ground arith)

abbrev other_put : Request
other_put = record { op = put_op; args = args_of modify "k" "w" 8 }

retry_is_no_op_example :
    (let args = args_of modify "k" "v" 7 in
      let kv' = serve (other_put ∷ []) (handler append_op args start_kv_server).0 in
      ((handler append_op args kv').0 ≡ kv')
      × (visible append_op (handler append_op args kv').1
          ≡ visible append_op (handler append_op args start_kv_server).1))
retry_is_no_op_example =
    retry_is_no_op append_op "k" "v" 7 start_kv_server (other_put ∷ []) (omega arith, tt)

late_copy_repeats_example :
    (let args = args_of modify "k" "v" 7 in
      let kv' =
        (handler append_op (args_of ack "k" "v" 7) (handler append_op args start_kv_server).0).0 in
      (handler append_op args kv').0.store_map "k" ≡ some "vv")
late_copy_repeats_example = late_copy_repeats append_op "k" "v" 7 start_kv_server refl

put_append_completes_example :
    (r : String) × (clerk_run
        (reply_lost ∷ delivered ∷ request_lost ∷ delivered ∷ [])
        start_kv_server
        (modifying append_op "k" "v" 7)
      ≡ (
        record start_kv_server {
          store_map = update string_discrete start_kv_server.store_map "k" (some "v");
        },
        returned append_op r,
      ))
    × (visible append_op r ≡ some "")
put_append_completes_example =
    put_append_completes append_op "k" "v" 7
      (reply_lost ∷ delivered ∷ request_lost ∷ delivered ∷ []) start_kv_server refl (omega arith)
