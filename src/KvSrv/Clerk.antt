-- ===== src/KvSrv/Clerk.antt =====
-- 6.5840/src/kvsrv/client.go: a clerk's retry loops, one `Call` at a time. The network, labrpc,
-- decides the outcome of each call; a clerk is where its program counter and its locals say.
use lab_implementation.Common.{ℕ, String, Option, none, some, List, [], ◌∷◌}
use lab_implementation.KvSrv.{AppendState, PutAppendArgs, KvServer, get, put, append}

-- What may come of one `Call`: the handler did not run, it ran and the reply was lost, or the
-- reply came back. `Call` returns `true` only in the last case.
pub data Outcome : Type 0 where
  request_lost reply_lost delivered : Outcome

unfoldable pub call {ℓ} :
    {A : Type ℓ} → Outcome → (KvServer → KvServer × A) → KvServer → KvServer × Option A
call request_lost handler kv = (kv, none)
call reply_lost handler kv = let (kv', reply) = handler kv in (kv', none)
call delivered handler kv = let (kv', reply) = handler kv in (kv', some reply)

-- The `op` of `PutAppend`: "Put", or anything else.
pub data Op : Type 0 where
  put_op append_op : Op

unfoldable pub handler : Op → PutAppendArgs → KvServer → KvServer × String
handler put_op = put
handler append_op = append

abbrev pub args_of : AppendState → String → String → ℕ → PutAppendArgs
args_of state key value id = record { key = key; value = value; id = id; state = state }

-- Where a clerk stands: the loop of `Get`, the first and the second loop of `PutAppend` with its
-- locals, and what the last call of `Get` or `PutAppend` has returned.
pub data ClerkPc : Type 0 where
  idle : ClerkPc
  getting : (key : String) → ClerkPc
  got : (value : String) → ClerkPc
  modifying : Op → (key value : String) → (id : ℕ) → ClerkPc
  acking : Op → (key value : String) → (id : ℕ) → (reslt : String) → ClerkPc
  returned : Op → (reslt : String) → ClerkPc

-- One round of the loop that the clerk is in.
unfoldable pub clerk_turn : Outcome → KvServer → ClerkPc → KvServer × ClerkPc
unfolding call handler
clerk_turn o kv (getting key) =
    let (kv', reply) = call o (λ s. (s, get key s)) kv in
    (kv', elim reply [ none ↦ getting key | some v ↦ got v ])
clerk_turn o kv (modifying op key value id) =
    let (kv', reply) = call o (handler op (args_of AppendState.modify key value id)) kv in
    (kv', elim reply [ none ↦ modifying op key value id | some v ↦ acking op key value id v ])
clerk_turn o kv (acking op key value id reslt) =
    let (kv', reply) = call o (handler op (args_of AppendState.ack key value id)) kv in
    (kv', elim reply [ none ↦ acking op key value id reslt | some _ ↦ returned op reslt ])
clerk_turn o kv p = (kv, p)

-- The clerk alone with the server, for the outcomes that the network gives in turn.
unfoldable pub clerk_run : List Outcome → KvServer → ClerkPc → KvServer × ClerkPc
unfolding clerk_turn
clerk_run [] kv p = (kv, p)
clerk_run (o ∷ os) kv p = let (kv', p') = clerk_turn o kv p in clerk_run os kv' p'
