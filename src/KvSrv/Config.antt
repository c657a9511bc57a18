-- ===== src/KvSrv/Config.antt =====
-- 6.5840/src/kvsrv/config.go: the server of the tests and its clerks on the network. A *Clerk is a
-- number; the names of ends are the strings of randstring. A Fatalf is `none`.
pub mod Served
pub mod Made
pub mod Deleted
pub mod Reached
mod Tests
use lab_implementation.Common.{
  ℕ, suc, ◌+◌, Bool, true, not, Option, none, some, String, update, string_discrete, ℕ_discrete,
}
use lab_implementation.Labrpc.{
  Network, ClientEnd, make_network, set_reliable, make_end, delete_end, connect, enable,
}
use lab_implementation.Labrpc.Service.{Memory, make_server}
use lab_implementation.KvSrv.{KvServer, start_kv_server, or_empty}
use lab_implementation.KvSrv.Calls.{Message, start_server}

-- The memory holds the network, the server object and the Servers of labrpc.
pub record Config : Type 0 where
  pub memory : Memory KvServer Message
  pub clerks : ℕ → Option String
  pub next_client_id : ℕ

abbrev pub with_net : Network → Config → Config
with_net net cfg = record cfg { memory = record (cfg.memory) { network = net } }

-- make_config; `srv` is the address of the new Server.
abbrev pub make_config : Bool → ℕ → Config
make_config unreliable srv =
    let started =
      start_server srv
        (record { network = make_network; heap = λ _. make_server; objects = start_kv_server }) in
    record {
      memory = record started { network = set_reliable (not unreliable) (started.network) };
      clerks = λ _. none;
      next_client_id = 1;
    }

-- ConnectClientUnlocked; a clerk that is not in the map has the name "".
abbrev pub connect_client : ℕ → Config → Config
connect_client ck cfg = with_net (enable (or_empty (cfg.clerks ck)) true cfg.memory.network) cfg

abbrev pub made_client : ℕ → String → Config → Option (ClientEnd × Network) → Option Config
made_client ck endname cfg none = none
made_client ck endname cfg (some x) =
    let wired = with_net (connect endname 0 x.1) cfg in
    some (
      connect_client ck (record wired {
        clerks = update ℕ_discrete wired.clerks ck (some endname);
        next_client_id = wired.next_client_id + 1;
      }))

-- makeClient; `ck` is the new clerk.
abbrev pub make_client : ℕ → String → Config → Option Config
make_client ck endname cfg = made_client ck endname cfg (make_end endname cfg.memory.network)

abbrev pub deleted_client : ℕ → Config → Option Network → Option Config
deleted_client ck cfg none = none
deleted_client ck cfg (some net) =
    let gone = with_net net cfg in
    some (record gone { clerks = update ℕ_discrete gone.clerks ck none })

-- deleteClient
abbrev pub delete_client : ℕ → Config → Option Config
delete_client ck cfg =
    deleted_client ck cfg (delete_end (or_empty (cfg.clerks ck)) cfg.memory.network)
