-- ===== src/KvSrv/Replies.antt =====
-- What a handler does on each branch, by the cached reply of the request's id.
use lab_implementation.Common.{
  ℕ, String, ◌≡◌, none, some, update, string_discrete, ℕ_discrete, arith,
}
use lab_implementation.KvSrv.{modify, ack, KvServer, or_empty, put, append}
use lab_implementation.KvSrv.Atomic.{effect}
use lab_implementation.KvSrv.Clerk.{Op, put_op, append_op, handler, args_of}
use text.Mathlib.TextLemmas.{nil-append}

-- What the server remembers of a change that it has made.
abbrev pub cached : Op → (old value : String) → String
cached put_op old value = value
cached append_op old value = old

abbrev pub changed : Op → (key value : String) → ℕ → KvServer → KvServer
changed op key value id kv =
    let old = or_empty (kv.store_map key) in
    record {
      store_map = update string_discrete kv.store_map key (some (effect op old value));
      id_map = update ℕ_discrete kv.id_map id (some (cached op old value));
    }

module _ (op : Op) (key value : String) (id : ℕ) (kv : KvServer) where
  pub handler-first :
      kv.id_map id ≡ none
      → handler op (args_of modify key value id) kv
        ≡ (changed op key value id kv, or_empty (kv.store_map key))
  unfolding handler put append
  handler-first h = ground (arith, nil-append value)

  pub handler-again :
      {w : String} → kv.id_map id ≡ some w → handler op (args_of modify key value id) kv ≡ (kv, w)
  unfolding handler put append
  handler-again h = ground arith

  pub handler-ack :
      handler op (args_of ack key value id) kv
      ≡ (record kv { id_map = update ℕ_discrete kv.id_map id none }, "")
  unfolding handler put append
  handler-ack = ground arith
