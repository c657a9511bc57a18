-- ===== src/KvRaft/Config/Leaders.antt =====
-- config.go, make_partition and partition: the leader in the minority.
use lab_implementation.Common.{ℕ, ◌+◌, ◌<◌, ◌≡◌, ◌⊎◌, true, false, some, List, All, length, String}
use lab_implementation.Labrpc.{Network}
use lab_implementation.KvRaft.Config.{Config}
use lab_implementation.KvRaft.Config.Switches.{mem}
use lab_implementation.KvRaft.Config.Split.{Disjoint}

-- How the two lists of make_partition stand to the n servers and the leader l.
pub record Splits (n l : ℕ) (p1 p2 : List ℕ) : Type 0 where
  pub below1 : All (λ a. a < n) p1
  pub below2 : All (λ a. a < n) p2
  pub sizes : length p1 + length p2 ≡ n
  pub majority : length p2 < length p1
  pub disjoint : Disjoint p1 p2
  pub covers : (a : ℕ) → a < n → (mem a p1 ≡ true) ⊎ (mem a p2 ≡ true)
  pub leads : mem l p2 ≡ true

-- The ends between the leader l and the servers of p1 are off.
pub record IsCutOff (l : ℕ) (p1 : List ℕ) (cfg : Config) (net : Network) : Type 0 where
  pub outgoing :
      (c : ℕ) (f : ℕ → String)
      → mem c p1 ≡ true
      → c < cfg.n
      → cfg.endnames l ≡ some f
      → net.enabled (f c) ≡ false
  pub incoming :
      (c : ℕ) (f : ℕ → String)
      → mem c p1 ≡ true
      → c < cfg.n
      → cfg.endnames c ≡ some f
      → net.enabled (f l) ≡ false
