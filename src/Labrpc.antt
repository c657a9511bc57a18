-- ===== src/Labrpc.antt =====
-- 6.5840/src/labrpc/labrpc.go: the simulated network of the tests. Each function is what the Go code
-- does under `rn.mu` or `rs.mu`. The names of ends are the strings of `randstring`, those of servers
-- the numbers that the config.go files use. A `*Server` is an address in the heap, so that two servers
-- that were made in the same way are still different. `none` stands for `log.Fatalf` and for a panic.
pub mod Service
pub mod Routing
pub mod Registry
pub mod Process
pub mod Delivery
pub mod DeadServers
pub mod Liveness
pub mod Calls
mod Tests
use lab_implementation.Common.{
  ℕ, suc, ◌+◌, ◌%◌, ◌^◌, ◌-◌, Bool, true, false, not, ◌||◌, Option, none, some, List, [], length,
  String, update, string_discrete, ℕ_discrete, ltb, ◌==◌, if◌then◌else◌,
}

pub record ReqMsg : Type 0 where
  pub endname : String
  pub svc_meth : String
  pub args_type : String  -- the name of the reflect.Type
  pub args : List ℕ

pub record ReplyMsg : Type 0 where
  pub ok : Bool
  pub reply : List ℕ

-- replyMsg{false, nil}
abbrev pub no_reply : ReplyMsg
no_reply = record { ok = false; reply = [] }

-- The channels of an end are those of its network.
pub record ClientEnd : Type 0 where
  pub endname : String

-- `servers` and `connections` are `none` for a missing key and for a nil value. `done` tells whether
-- the channel is closed. `count` and `bytes` are the bits of an int32 and of an int64.
pub record Network : Type 0 where
  pub reliable : Bool
  pub long_delays : Bool
  pub long_reordering : Bool
  pub ends : String → Option ClientEnd
  pub enabled : String → Bool
  pub servers : ℕ → Option ℕ
  pub connections : String → Option ℕ
  pub done : Bool
  pub count : ℕ
  pub bytes : ℕ

abbrev pub make_network : Network
make_network = record {
  reliable = true;
  long_delays = false;
  long_reordering = false;
  ends = λ _. none;
  enabled = λ _. false;
  servers = λ _. none;
  connections = λ _. none;
  done = false;
  count = 0;
  bytes = 0;
}

-- atomic.AddInt64(&rn.bytes, int64(len(b)))
abbrev pub add_bytes : List ℕ → Network → Network
add_bytes b rn = record rn { bytes = (rn.bytes + length b) % 2 ^ 64 }

-- What the goroutine of MakeNetwork does with a request before it hands it to processReq.
abbrev pub take_request : ReqMsg → Network → Network
take_request req rn = add_bytes req.args (record rn { count = (rn.count + 1) % 2 ^ 32 })

-- A second close panics.
abbrev pub cleanup : Network → Option Network
cleanup rn = if rn.done then none else some (record rn { done = true })

abbrev pub set_reliable : Bool → Network → Network
set_reliable on rn = record rn { reliable = on }

abbrev pub set_long_reordering : Bool → Network → Network
set_long_reordering on rn = record rn { long_reordering = on }

abbrev pub set_long_delays : Bool → Network → Network
set_long_delays on rn = record rn { long_delays = on }

pub record EndnameInfo : Type 0 where
  pub enabled : Bool
  pub servername : Option ℕ
  pub server : Option ℕ
  pub reliable : Bool
  pub longreordering : Bool

abbrev pub lookup_server : (ℕ → Option ℕ) → Option ℕ → Option ℕ
lookup_server servers none = none
lookup_server servers (some servername) = servers servername

abbrev pub read_endname_info : String → Network → EndnameInfo
read_endname_info endname rn = record {
  enabled = rn.enabled endname;
  servername = rn.connections endname;
  server = lookup_server rn.servers (rn.connections endname);
  reliable = rn.reliable;
  longreordering = rn.long_reordering;
}

abbrev pub same_server : Option ℕ → ℕ → Bool
same_server none server = false
same_server (some p) server = p == server

abbrev pub is_server_dead : String → ℕ → ℕ → Network → Bool
is_server_dead endname servername server rn =
    not (rn.enabled endname) || not (same_server (rn.servers servername) server)

abbrev pub new_end : String → Network → Option ClientEnd → Option (ClientEnd × Network)
new_end endname rn (some _) = none
new_end endname rn none = some (
  record { endname = endname },
  record rn {
    ends = update string_discrete rn.ends endname (some (record { endname = endname }));
    enabled = update string_discrete rn.enabled endname false;
    connections = update string_discrete rn.connections endname none;
  },
)

-- An end that exists already ends the program.
abbrev pub make_end : String → Network → Option (ClientEnd × Network)
make_end endname rn = new_end endname rn (rn.ends endname)

abbrev pub drop_end : String → Network → Option ClientEnd → Option Network
drop_end endname rn none = none
drop_end endname rn (some _) = some (record rn {
  ends = update string_discrete rn.ends endname none;
  enabled = update string_discrete rn.enabled endname false;
  connections = update string_discrete rn.connections endname none;
})

-- An end that does not exist ends the program.
abbrev pub delete_end : String → Network → Option Network
delete_end endname rn = drop_end endname rn (rn.ends endname)

abbrev pub add_server : ℕ → ℕ → Network → Network
add_server servername rs rn = record rn {
  servers = update ℕ_discrete rn.servers servername (some rs);
}

abbrev pub delete_server : ℕ → Network → Network
delete_server servername rn = record rn { servers = update ℕ_discrete rn.servers servername none }

abbrev pub connect : String → ℕ → Network → Network
connect endname servername rn = record rn {
  connections = update string_discrete rn.connections endname (some servername);
}

abbrev pub enable : String → Bool → Network → Network
enable endname enabled rn = record rn {
  enabled = update string_discrete rn.enabled endname enabled;
}

abbrev pub get_total_bytes : Network → ℕ
get_total_bytes rn = rn.bytes
