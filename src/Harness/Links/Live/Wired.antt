-- ===== src/Harness/Links/Live/Wired.antt =====
-- config.go: the state of the ends, and how its invariant.
use lab_implementation.Common.{ℕ, ◌<◌, ◌≡◌, ◌≢◌, Bool, true, Option, none, String}
use lab_implementation.Labrpc.{ClientEnd}
use lab_implementation.Harness.Links.{Harness}

-- The part of the harness that decides which ends are on.
pub record Wiring : Type 0 where
  pub n : ℕ
  pub ends : String → Option ClientEnd
  pub enabled : String → Bool
  pub connected : ℕ → Bool
  pub made : ℕ → Bool
  pub endnames : ℕ → ℕ → String

abbrev pub wiring : Harness → Wiring
wiring cfg = record {
  n = cfg.n;
  ends = cfg.net.ends;
  enabled = cfg.net.enabled;
  connected = cfg.connected;
  made = cfg.made;
  endnames = cfg.endnames;
}

-- e is the name of the end by which a connected server sends to a connected server.
pub record Carries (w : Wiring) (e : String) : Type 0 where
  pub source : ℕ
  pub target : ℕ
  pub source_known : source < w.n
  pub target_known : target < w.n
  pub source_connected : w.connected source ≡ true
  pub target_connected : w.connected target ≡ true
  pub named : w.endnames source target ≡ e

pub record IsWired (w : Wiring) : Type 0 where
  pub joined : (i : ℕ) → w.connected i ≡ true → w.made i ≡ true
  pub present : (i j : ℕ) → i < w.n → j < w.n → w.made i ≡ true → w.ends (w.endnames i j) ≢ none
  pub apart :
      (i j k l : ℕ)
      → i < w.n
      → j < w.n
      → k < w.n
      → l < w.n
      → w.made i ≡ true
      → w.made k ≡ true
      → w.endnames i j ≡ w.endnames k l
      → (i ≡ k) × (j ≡ l)
  pub open_between :
      (i j : ℕ)
      → i < w.n
      → j < w.n
      → w.connected i ≡ true
      → w.connected j ≡ true
      → w.enabled (w.endnames i j) ≡ true
  pub only : (e : String) → w.enabled e ≡ true → Carries w e

-- The part of it that only start1 changes.
pub record Names : Type 0 where
  pub n : ℕ
  pub ends : String → Option ClientEnd
  pub made : ℕ → Bool
  pub endnames : ℕ → ℕ → String

abbrev pub names_of : Wiring → Names
names_of w = record { n = w.n; ends = w.ends; made = w.made; endnames = w.endnames }

-- The network has an end of this name, and no server sends by it.
pub record IsRetired (e : String) (r : Names) : Type 0 where
  pub present : r.ends e ≢ none
  pub unnamed : (i j : ℕ) → i < r.n → j < r.n → r.made i ≡ true → r.endnames i j ≢ e
