-- ===== src/KvRaft/Config/Reached.antt =====
-- config.go: the states that the tests reach from make_config, and a partition in any of them.
use lab_implementation.Common.{ℕ, ◌<◌, ◌≡◌, Option, none, some, List, String}
use lab_implementation.Labrpc.{Network}
use lab_implementation.KvRaft.Config.{
  Config, connect_unlocked, disconnect_unlocked, partition, connect_client, disconnect_client,
  make_client, delete_client, shutdown_server, start_server,
}
use lab_implementation.KvRaft.Config.Split.{divided}
use lab_implementation.KvRaft.Config.Names.{Registry, registry, IsNamed}
use lab_implementation.KvRaft.Config.Started.{Started}

-- A step of a test. `elsewhere` is whatever leaves the names and the ends in place: requests, and the
-- work of servers and clerks.
pub data Step : Config → Config → Type 0 where
  connects :
      {cfg new : Config} (i : ℕ) (to : List ℕ) → connect_unlocked i to cfg ≡ some new → Step cfg new
  disconnects :
      {cfg new : Config} (i : ℕ) (from : List ℕ)
      → disconnect_unlocked i from cfg ≡ some new
      → Step cfg new
  partitions : {cfg new : Config} (p1 p2 : List ℕ) → partition p1 p2 cfg ≡ some new → Step cfg new
  makes_client :
      {cfg new : Config} (ck : ℕ) (name : ℕ → String) (to : List ℕ)
      → make_client ck name to cfg ≡ some new
      → Step cfg new
  deletes_client : {cfg : Config} (ck : ℕ) → Step cfg (delete_client ck cfg)
  connects_client :
      {cfg new : Config} (ck : ℕ) (to : List ℕ) → connect_client ck to cfg ≡ some new → Step cfg new
  disconnects_client :
      {cfg new : Config} (ck : ℕ) (from : List ℕ)
      → disconnect_client ck from cfg ≡ some new
      → Step cfg new
  shuts_down : {cfg new : Config} (i : ℕ) → shutdown_server i cfg ≡ some new → Step cfg new
  starts :
      {cfg new : Config} (i : ℕ) (name : ℕ → String) (srv : ℕ)
      → start_server i name srv cfg ≡ some new
      → Step cfg new
  elsewhere : {cfg new : Config} → registry new ≡ registry cfg → Step cfg new

pub data Reach (start : Config) : Config → Type 0 where
  here : Reach start start
  next : {cfg new : Config} → Reach start cfg → Step cfg new → Reach start new

abbrev IsReady : Registry → Type 0
IsReady r = IsNamed r × Started r.n r

abbrev names_or_empty : Option (ℕ → String) → ℕ → String
names_or_empty none j = ""
names_or_empty (some f) j = f j

-- What partition has made of the ends: those between two servers are divided, and those of the clerks
-- are as they were.
pub record Divides (p1 p2 : List ℕ) (cfg : Config) (new : Network) : Type 0 where
  pub between :
      (a c : ℕ) (f : ℕ → String)
      → a < cfg.n
      → c < cfg.n
      → cfg.endnames a ≡ some f
      → new.enabled (f c) ≡ divided p1 p2 a c (cfg.net.enabled (f c))
  pub clerks_kept :
      (ck c : ℕ) (f : ℕ → String)
      → c < cfg.n
      → cfg.clerks ck ≡ some f
      → new.enabled (f c) ≡ cfg.net.enabled (f c)

module _ (cfg : Config) (w : IsReady (registry cfg)) where
  name : ℕ → ℕ → String
  name i = names_or_empty (cfg.endnames i)
