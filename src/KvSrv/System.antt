-- ===== src/KvSrv/System.antt =====
-- Any number of clerks over one server, their calls interleaved in any order. The lock `mu` makes
-- each handler one step. A request whose `Call` has returned is not run afterwards.
pub mod Invariant
pub mod Refines
use lab_implementation.Common.{ℕ, String, ◌≡◌, ◌≢◌, Option, none, some, update, ℕ_discrete}
use lab_implementation.KvSrv.{KvServer, start_kv_server}
use lab_implementation.KvSrv.Clerk.{
  Outcome, Op, ClerkPc, idle, getting, got, modifying, acking, returned, clerk_turn,
}

pub record System : Type 0 where
  pub server : KvServer
  pub clerk : ℕ → ClerkPc

abbrev pub IsFree : ClerkPc → Type 0
IsFree idle = Unit
IsFree (got _) = Unit
IsFree (returned _ _) = Unit
IsFree _ = ⊥

-- The id of the `PutAppend` that a clerk is in.
abbrev pub id_of : ClerkPc → Option ℕ
id_of (modifying op key value id) = some id
id_of (acking op key value id reslt) = some id
id_of _ = none

-- `nrand` gives an id that no clerk is using; an id may come again later.
abbrev pub IsUnused : System → ℕ → Type 0
IsUnused s id = (j : ℕ) → id_of (s.clerk j) ≢ some id

unfoldable pub turn : System → ℕ → Outcome → System
unfolding clerk_turn
turn s i o =
    let (server', p) = clerk_turn o s.server (s.clerk i) in
    record { server = server'; clerk = update ℕ_discrete s.clerk i p }

pub data Step (s : System) : System → Type 0 where
  start_get :
      (i : ℕ) (key : String)
      → IsFree (s.clerk i)
      → Step s (record s { clerk = update ℕ_discrete s.clerk i (getting key) })
  start_put_append :
      (i : ℕ) (op : Op) (key value : String) (id : ℕ)
      → IsFree (s.clerk i)
      → IsUnused s id
      → Step s (record s { clerk = update ℕ_discrete s.clerk i (modifying op key value id) })
  loop : (i : ℕ) (o : Outcome) → Step s (turn s i o)

abbrev pub init : System
init = record { server = start_kv_server; clerk = λ _. idle }

pub data Reach : System → Type 0 where
  start : Reach init
  later : {s t : System} → Reach s → Step s t → Reach t
