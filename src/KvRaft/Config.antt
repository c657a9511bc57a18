-- ===== src/KvRaft/Config.antt =====
-- 6.5840/src/kvraft/config.go: replicas and clerks on the network of labrpc, and its partitions. An
-- index out of range, a nil slice that is indexed, a nil server that is asked and a Fatalf are `none`.
-- A *Clerk is a number, a persister an address.
pub mod Switches
pub mod Split
pub mod Pairs
pub mod Cuts
pub mod Partition
pub mod Names
pub mod Keeps
pub mod Started
pub mod Reached
pub mod Majority
pub mod Members
pub mod Leaders
mod Tests
use lab_implementation.Common.{
  ℕ, zero, suc, ◌+◌, ◌-◌, ◌/◌, Bool, true, false, not, ◌&&◌, ◌||◌, Option, none, some, List, [],
  ◌∷◌, String, update, string_discrete, ℕ_discrete, if◌then◌else◌, ltb, ◌==◌, length, set,
}
use lab_implementation.Raft.{make, get_state}
use lab_implementation.Labrpc.{
  Network, make_network, set_reliable, enable, add_server, delete_server,
}
use lab_implementation.Harness.Links.{Disk, Instance, blank_disk, and_then, make_ends}

-- `endnames` is `none` where the slice is nil, `clerks` where the key is missing; a slice of names has
-- `n` elements. `disks` has an object below `next_disk`.
pub record Config : Type 0 where
  pub n : ℕ
  pub net : Network
  pub kvservers : ℕ → Option Instance
  pub saved : ℕ → Option ℕ
  pub endnames : ℕ → Option (ℕ → String)
  pub clerks : ℕ → Option (ℕ → String)
  pub next_client_id : ℕ
  pub max_raft_state : Option ℕ  -- `none` for a negative number
  pub disks : ℕ → Disk
  pub next_disk : ℕ

-- names[j] for a slice of n names, which may be nil
abbrev pub name_in : ℕ → Option (ℕ → String) → ℕ → Option String
name_in n none j = none
name_in n (some names) j = if ltb j n then some (names j) else none

-- cfg.endnames[i][j]
abbrev pub endname : Config → ℕ → ℕ → Option String
endname cfg i j = if ltb i cfg.n then name_in cfg.n (cfg.endnames i) j else none

-- Enable for the names of a list of servers, which a loop takes with their positions; a name may be
-- `some none`, to be passed over.
abbrev pub switch : Bool → Option String → Network → Network
switch b none net = net
switch b (some e) net = enable e b net

abbrev pub enable_each :
    Bool → (ℕ → ℕ → Option (Option String)) → ℕ → List ℕ → Network → Option Network
enable_each b name k [] net = some net
enable_each b name k (j ∷ js) net =
    and_then (name k j) λ e. enable_each b name (suc k) js (switch b e net)

abbrev pub always : Option String → Option (Option String)
always none = none
always (some e) = some (some e)

abbrev pub connect_unlocked : ℕ → List ℕ → Config → Option Config
connect_unlocked i to cfg =
    and_then (enable_each true (λ _ j. always (endname cfg i j)) 0 to cfg.net) λ outgoing.
      and_then (enable_each true (λ _ j. always (endname cfg j i)) 0 to outgoing)
        λ net. some (record cfg { net = net })

-- if cfg.endnames[k] != nil { cfg.endnames[a][b] }
abbrev pub if_made : Config → ℕ → ℕ → ℕ → Option (Option String)
if_made cfg k a b =
    if ltb k cfg.n
    then elim (cfg.endnames k) [ none ↦ some none | some _ ↦ always (endname cfg a b) ]
    else none

-- The second loop looks at endnames[j] for the position j, and names endnames[from[j]].
abbrev pub disconnect_unlocked : ℕ → List ℕ → Config → Option Config
disconnect_unlocked i from cfg =
    and_then (enable_each false (λ _ f. if_made cfg i i f) 0 from cfg.net) λ outgoing.
      and_then (enable_each false (λ j f. if_made cfg j f i) 0 from outgoing)
        λ net. some (record cfg { net = net })

-- The servers from i on, k of them: All is upto n 0.
abbrev pub upto : ℕ → ℕ → List ℕ
upto zero i = []
upto (suc k) i = i ∷ upto k (suc i)

abbrev pub all : Config → List ℕ
all cfg = upto cfg.n 0

abbrev pub connect_each : List ℕ → List ℕ → Config → Option Config
connect_each [] to cfg = some cfg
connect_each (i ∷ is) to cfg = and_then (connect_unlocked i to cfg) λ next. connect_each is to next

abbrev pub connect_all : Config → Option Config
connect_all cfg = connect_each (all cfg) (all cfg) cfg

-- One loop of partition: the servers `is` are cut off from `others` and connected to `own`.
abbrev pub split_off : List ℕ → List ℕ → List ℕ → Config → Option Config
split_off own others [] cfg = some cfg
split_off own others (i ∷ is) cfg =
    and_then (disconnect_unlocked i others cfg)
      λ cut. and_then (connect_unlocked i own cut) λ joined. split_off own others is joined

abbrev pub partition : List ℕ → List ℕ → Config → Option Config
partition p1 p2 cfg = and_then (split_off p1 p2 p1 cfg) λ half. split_off p2 p1 p2 half

abbrev pub clerk_endname : Config → ℕ → ℕ → Option (Option String)
clerk_endname cfg ck j = always (name_in cfg.n (cfg.clerks ck) j)

-- ConnectClientUnlocked and DisconnectClientUnlocked
abbrev pub connect_client : ℕ → List ℕ → Config → Option Config
connect_client ck to cfg =
    and_then (enable_each true (λ _ j. clerk_endname cfg ck j) 0 to cfg.net)
      λ net. some (record cfg { net = net })

abbrev pub disconnect_client : ℕ → List ℕ → Config → Option Config
disconnect_client ck from cfg =
    and_then (enable_each false (λ _ j. clerk_endname cfg ck j) 0 from cfg.net)
      λ net. some (record cfg { net = net })

-- `ck` is the new clerk, `name` gives the strings of randstring.
abbrev pub make_client : ℕ → (ℕ → String) → List ℕ → Config → Option Config
make_client ck name to cfg = and_then (make_ends name cfg.n cfg.net) λ net.
    connect_client ck to (record cfg {
      net = net;
      clerks = update ℕ_discrete cfg.clerks ck (some name);
      next_client_id = suc cfg.next_client_id;
    })

-- The names of the ends stay in the network.
abbrev pub delete_client : ℕ → Config → Config
delete_client ck cfg = record cfg { clerks = update ℕ_discrete cfg.clerks ck none }

-- cfg.saved[i] = a new Persister with this content
abbrev pub new_disk : ℕ → Disk → Config → Config
new_disk i d cfg = record cfg {
  saved = update ℕ_discrete cfg.saved i (some cfg.next_disk);
  disks = update ℕ_discrete cfg.disks cfg.next_disk d;
  next_disk = suc cfg.next_disk;
}

abbrev pub copy_saved : ℕ → Option ℕ → Config → Config
copy_saved i none cfg = cfg
copy_saved i (some a) cfg = new_disk i (cfg.disks a) cfg

abbrev pub isolated : ℕ → Config → Option Config
isolated i cfg = and_then (disconnect_unlocked i (all cfg) cfg) λ off.
    let copied = copy_saved i (off.saved i) (record off { net = delete_server i (off.net) }) in
    some (record copied { kvservers = update ℕ_discrete copied.kvservers i none })

-- cfg.saved[i] panics for an index out of range.
abbrev pub shutdown_server : ℕ → Config → Option Config
shutdown_server i cfg = if ltb i cfg.n then isolated i cfg else none

abbrev pub fresh_disk : ℕ → Option ℕ → Config → Config
fresh_disk i none cfg = new_disk i blank_disk cfg
fresh_disk i (some a) cfg = new_disk i (cfg.disks a) cfg

-- StartKVServer, AddService and AddServer after the names; `srv` is the address of the new Server.
abbrev pub launch : ℕ → ℕ → Config → Config
launch i srv cfg =
    let ready = fresh_disk i (cfg.saved i) cfg in
    record ready {
      kvservers =
          update ℕ_discrete ready.kvservers i
            (some record { raft = make ready.n i; disk = cfg.next_disk });
      net = add_server i srv (ready.net);
    }

abbrev pub renewed : ℕ → (ℕ → String) → ℕ → Config → Option Config
renewed i name srv cfg = and_then (make_ends name cfg.n cfg.net) λ net. some (
    launch i srv
      (record cfg { endnames = update ℕ_discrete cfg.endnames i (some name); net = net }))

-- cfg.endnames[i] panics for an index out of range.
abbrev pub start_server : ℕ → (ℕ → String) → ℕ → Config → Option Config
start_server i name srv cfg = if ltb i cfg.n then renewed i name srv cfg else none

abbrev pub start_each : (ℕ → ℕ → String) → (ℕ → ℕ) → ℕ → Config → Option Config
start_each name srv zero cfg = some cfg
start_each name srv (suc k) cfg =
    and_then (start_each name srv k cfg) λ started. start_server k (name k) (srv k) started

abbrev pub blank_config : ℕ → Option ℕ → Config
blank_config n max_raft_state = record {
  n = n;
  net = make_network;
  kvservers = λ _. none;
  saved = λ _. none;
  endnames = λ _. none;
  clerks = λ _. none;
  next_client_id = n + 1000;
  max_raft_state = max_raft_state;
  disks = λ _. blank_disk;
  next_disk = 0;
}

abbrev pub make_config : ℕ → Bool → Option ℕ → (ℕ → ℕ → String) → (ℕ → ℕ) → Option Config
make_config n unreliable max_raft_state name srv =
    and_then (start_each name srv n (blank_config n max_raft_state)) λ started.
      and_then (connect_all started)
        λ joined. some (record joined { net = set_reliable (not unreliable) (joined.net) })

-- Leader asks the servers from i on, k of them; (false, 0) where none leads.
abbrev pub leader_among : (ℕ → Option Instance) → ℕ → ℕ → Option (Bool × ℕ)
leader_among kvservers zero i = some (false, 0)
leader_among kvservers (suc k) i =
    and_then (kvservers i)
      λ kv. if (get_state kv.raft).1 then some (true, i) else leader_among kvservers k (suc i)

abbrev pub leader : Config → Option (Bool × ℕ)
leader cfg = leader_among cfg.kvservers cfg.n 0

-- The locals of make_partition, its slices first full of zeros.
pub record Halves : Type 0 where
  pub j : ℕ
  pub p1 : List ℕ
  pub p2 : List ℕ

abbrev pub zeros : ℕ → List ℕ
zeros zero = []
zeros (suc k) = 0 ∷ zeros k

-- p2[j-len(p1)] = i panics out of range.
abbrev pub place_second : ℕ → Halves → Option Halves
place_second i s =
    if ltb (s.j - length s.p1) (length s.p2)
    then some (record s { p2 = set s.p2 (s.j - length s.p1) i; j = suc s.j })
    else none

abbrev pub place : ℕ → ℕ → Halves → Option Halves
place l i s =
    if i == l
    then some s
    else (if ltb s.j (length s.p1)
        then some (record s { p1 = set s.p1 s.j i; j = suc s.j })
        else place_second i s)

-- The first k rounds.
abbrev pub place_all : ℕ → ℕ → Halves → Option Halves
place_all l zero s = some s
place_all l (suc k) s = and_then (place_all l k s) λ t. place l k t

-- p2[len(p2)-1] = l panics when p2 is empty.
abbrev pub put_last : ℕ → Halves → Option (List ℕ × List ℕ)
put_last l s = if ltb 0 (length s.p2) then some (s.p1, set s.p2 (length s.p2 - 1) l) else none

-- make_partition for the leader l that Leader has found, or for 0
abbrev pub halve : ℕ → ℕ → Option (List ℕ × List ℕ)
halve n l =
    and_then (place_all l n (record { j = 0; p1 = zeros (n / 2 + 1); p2 = zeros (n / 2) }))
      (put_last l)

abbrev pub make_partition : Config → Option (List ℕ × List ℕ)
make_partition cfg = and_then (leader cfg) λ found. halve cfg.n found.1
