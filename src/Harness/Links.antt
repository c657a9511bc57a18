-- ===== src/Harness/Links.antt =====
-- config.go, connect, disconnect, crash1 and start1: the harness beside the network of labrpc and
-- the persisters. A persister is an address among `disks`, so that two of them are different; what a
-- snapshot puts into cfg.logs is left out, and so are cfg.lastApplied and the appliers.
pub mod Loops
pub mod Ends
pub mod Live
pub mod Disks
mod Tests
use lab_implementation.Common.{
  ℕ, zero, suc, Bool, true, false, not, ◌&&◌, ◌||◌, Option, none, some, List, [], String, update,
  ℕ_discrete, if◌then◌else◌, leb, length,
}
use lab_implementation.Raft.{Raft, make, kill}
use lab_implementation.Labrpc.{
  Network, make_network, set_reliable, set_long_delays, make_end, connect as connect_end, enable,
  add_server, delete_server,
}

-- The two slices of a Persister.
pub record Disk : Type 0 where
  pub raftstate : List ℕ
  pub snapshot : List ℕ

abbrev pub blank_disk : Disk
blank_disk = record { raftstate = []; snapshot = [] }

-- A Raft and the persister that Make has given it.
pub record Instance : Type 0 where
  pub raft : Raft
  pub disk : ℕ

-- `made` tells whether `endnames[i]` is not nil; `disks` has an object below `next_disk`.
pub record Harness : Type 0 where
  pub n : ℕ
  pub net : Network
  pub rafts : ℕ → Option Instance
  pub connected : ℕ → Bool
  pub saved : ℕ → Option ℕ
  pub made : ℕ → Bool
  pub endnames : ℕ → ℕ → String
  pub disks : ℕ → Disk
  pub next_disk : ℕ

-- The loops of connect and disconnect: Enable for the names of the first k servers with a flag.
abbrev pub enable_all : Bool → (ℕ → Bool) → (ℕ → String) → ℕ → Network → Network
enable_all b flag name zero net = net
enable_all b flag name (suc k) net =
    let rest = enable_all b flag name k net in if flag k then enable (name k) b rest else rest

-- Whether no slice that connect reads is nil: there the index would panic.
abbrev pub slices_made : (ℕ → Bool) → (ℕ → Bool) → ℕ → ℕ → Bool
slices_made connected made i zero = true
slices_made connected made i (suc k) =
    slices_made connected made i k && (not (connected k) || (made i && made k))

abbrev pub connect : ℕ → Harness → Option Harness
connect i cfg =
    let connected = update ℕ_discrete cfg.connected i true in
    if slices_made connected cfg.made i cfg.n
    then some (record cfg {
      connected = connected;
      net =
          enable_all true connected (λ j. cfg.endnames j i) cfg.n
            (enable_all true connected (cfg.endnames i) cfg.n cfg.net);
    })
    else none

abbrev pub disconnect : ℕ → Harness → Harness
disconnect i cfg = record cfg {
  connected = update ℕ_discrete cfg.connected i false;
  net =
      enable_all false cfg.made (λ j. cfg.endnames j i) cfg.n
        (enable_all false (λ _. cfg.made i) (cfg.endnames i) cfg.n cfg.net);
}

-- cfg.saved[i] = a new Persister with this content
abbrev pub new_disk : ℕ → Disk → Harness → Harness
new_disk i d cfg = record cfg {
  saved = update ℕ_discrete cfg.saved i (some cfg.next_disk);
  disks = update ℕ_discrete cfg.disks cfg.next_disk d;
  next_disk = suc cfg.next_disk;
}

-- cfg.saved[i] = cfg.saved[i].Copy(), where there is one; also the Save of what was read into a
-- fresh Persister.
abbrev pub copy_disk : ℕ → Option ℕ → Harness → Harness
copy_disk i none cfg = cfg
copy_disk i (some a) cfg = new_disk i (cfg.disks a) cfg

abbrev pub copy_saved : ℕ → Harness → Harness
copy_saved i cfg = copy_disk i (cfg.saved i) cfg

abbrev pub crash1 : ℕ → Harness → Harness
crash1 i cfg =
    let off = disconnect i cfg in
    let gone = record off { net = delete_server i (off.net) } in
    let copied = copy_saved i gone in
    copy_saved i (record copied { rafts = update ℕ_discrete copied.rafts i none })

abbrev pub and_then {ℓ κ} : {A : Type ℓ} {B : Type κ} → Option A → (A → Option B) → Option B
and_then none f = none
and_then (some a) f = f a

-- MakeEnd and Connect for the first k names.
abbrev pub make_ends : (ℕ → String) → ℕ → Network → Option Network
make_ends name zero net = some net
make_ends name (suc k) net =
    and_then (make_ends name k net)
      λ net1. and_then (make_end (name k) net1) λ made. some (connect_end (name k) k made.1)

-- The persister for Make: a copy of the saved one, or a new one.
abbrev pub fresh_disk : ℕ → Option ℕ → Harness → Harness
fresh_disk i none cfg = new_disk i blank_disk cfg
fresh_disk i (some a) cfg = new_disk i (cfg.disks a) cfg

-- Make, AddService and AddServer; `srv` is the address of the new Server.
abbrev pub launch : ℕ → ℕ → Harness → Harness
launch i srv cfg =
    let ready = fresh_disk i (cfg.saved i) cfg in
    record ready {
      rafts =
          update ℕ_discrete ready.rafts i
            (some record { raft = make ready.n i; disk = cfg.next_disk });
      net = add_server i srv (ready.net);
    }

abbrev pub with_ends : ℕ → (ℕ → String) → Harness → Network → Harness
with_ends i name cfg net = record cfg {
  made = update ℕ_discrete cfg.made i true;
  endnames = update ℕ_discrete cfg.endnames i name;
  net = net;
}

-- Whether the test goes on after ingestSnap, which sees a snapshot that is not empty.
abbrev pub ingested_saved : (List ℕ → Bool) → Option ℕ → Harness → Bool
ingested_saved ingested none cfg = true
ingested_saved ingested (some a) cfg =
    leb (length (cfg.disks a).snapshot) 0 || ingested (cfg.disks a).snapshot

-- `ingested` tells for which snapshots ingestSnap gives no error, and `name` are the strings of
-- randstring; MakeEnd ends the test when one of them is in use.
abbrev pub start1 : (List ℕ → Bool) → ℕ → (ℕ → String) → ℕ → Harness → Option Harness
start1 ingested i name srv cfg =
    let down = crash1 i cfg in
    and_then (make_ends name down.n down.net) λ net.
      if ingested_saved ingested (down.saved i) down
      then some (launch i srv (with_ends i name down net))
      else none

-- make_config before the loop that starts the servers.
abbrev pub blank_config : ℕ → Bool → Harness
blank_config n unreliable = record {
  n = n;
  net = set_long_delays true (set_reliable (not unreliable) make_network);
  rafts = λ _. none;
  connected = λ _. false;
  saved = λ _. none;
  made = λ _. false;
  endnames = λ _ _. "";
  disks = λ _. blank_disk;
  next_disk = 0;
}

-- The loops of make_config; server i gets the names and the Server that the functions give for i.
abbrev pub start_all : (List ℕ → Bool) → (ℕ → ℕ → String) → (ℕ → ℕ) → ℕ → Harness → Option Harness
start_all ingested name srv zero cfg = some cfg
start_all ingested name srv (suc k) cfg =
    and_then (start_all ingested name srv k cfg)
      λ started. start1 ingested k (name k) (srv k) started

abbrev pub connect_all : ℕ → Harness → Option Harness
connect_all zero cfg = some cfg
connect_all (suc k) cfg = and_then (connect_all k cfg) λ joined. connect k joined

abbrev pub make_config : (List ℕ → Bool) → ℕ → Bool → (ℕ → ℕ → String) → (ℕ → ℕ) → Option Harness
make_config ingested n unreliable name srv =
    and_then (start_all ingested name srv n (blank_config n unreliable))
      λ started. connect_all n started
