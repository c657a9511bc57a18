-- ===== src/KvSrv.antt =====
-- 6.5840/src/kvsrv: the key/value server (server.go), its clerk (client.go) and their messages
-- (common.go). A handler takes the server and returns it with the reply's `Value`.
pub mod Clerk
pub mod Replies
pub mod Retries
pub mod Runs
pub mod Atomic
pub mod System
pub mod Calls
pub mod Config
mod Tests
use text.Mathlib.Text.{◌==◌}
use Prim.Native.String.{◌++◌}
use lab_implementation.Common.{
  ℕ, String, Bool, true, false, Option, none, some, update, string_discrete, ℕ_discrete,
  if◌then◌else◌,
}

-- `Modify` asks for the change, `Ack` for the removal of the cached reply.
pub data AppendState : Type 0 where
  modify ack : AppendState

pub record PutAppendArgs : Type 0 where
  pub key : String
  pub value : String
  pub id : ℕ  -- int64, drawn by `nrand` below 2 ^ 62
  pub state : AppendState

pub record KvServer : Type 0 where
  pub store_map : String → Option String
  pub id_map : ℕ → Option String

-- What reading a missing key of a `map[K]string` gives.
abbrev pub or_empty : Option String → String
or_empty none = ""
or_empty (some v) = v

unfoldable pub get : String → KvServer → String
get key kv = elim (kv.store_map key) [ some value ↦ value | none ↦ "" ]

unfoldable pub check_if_need_change : PutAppendArgs → KvServer → KvServer × Bool
check_if_need_change args kv = elim args.state [
  | ack ↦ (record kv { id_map = update ℕ_discrete kv.id_map args.id none }, false)
  | modify ↦ (kv, elim (kv.id_map args.id) [ none ↦ true | some _ ↦ false ])
]

unfoldable pub put : PutAppendArgs → KvServer → KvServer × String
unfolding check_if_need_change
put args kv =
    let (kv', ok) = check_if_need_change args kv in
    if ok
    then (
      record kv' {
        store_map = update string_discrete kv'.store_map args.key (some args.value);
        id_map = update ℕ_discrete kv'.id_map args.id (some args.value);
      },
      or_empty (kv'.store_map args.key),
    )
    else (kv', or_empty (kv'.id_map args.id))

-- `Append` keeps the earlier value of the key as the cached reply, `Put` its argument.
unfoldable pub append : PutAppendArgs → KvServer → KvServer × String
unfolding check_if_need_change
append args kv =
    let (kv', ok) = check_if_need_change args kv in
    if ok
    then (let old = or_empty (kv'.store_map args.key) in
        let new : String = elim (kv'.store_map args.key) [
          | none ↦ args.value
          | some _ ↦ old ++ args.value
        ] in
        (
          record kv' {
            store_map = update string_discrete kv'.store_map args.key (some new);
            id_map = update ℕ_discrete kv'.id_map args.id (some old);
          },
          old,
        ))
    else (kv', or_empty (kv'.id_map args.id))

abbrev pub start_kv_server : KvServer
start_kv_server = record { store_map = λ _. none; id_map = λ _. none }
