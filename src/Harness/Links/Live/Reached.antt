-- ===== src/Harness/Links/Live/Reached.antt =====
-- config.go, make_config: it comes about by steps of the tests.
use lab_implementation.Common.{
  List, ℕ, zero, suc, ◌≤◌, ◌≡◌, sym, ap, subst, ◌∙◌, Bool, some, String, some-injective, arith,
}
use lab_implementation.Harness.Links.{Harness, blank_config, start_all, connect_all, make_config}
use lab_implementation.Harness.Links.Ends.{and_then-some}
use lab_implementation.Harness.Links.Live.Connect.{connect-n}
use lab_implementation.Harness.Links.Live.Start.{start1-n}
use lab_implementation.Harness.Links.Live.Between.{Step, Reach}

start_all-Reach :
    (ingested : List ℕ → Bool) (name : ℕ → ℕ → String) (srv : ℕ → ℕ) (k : ℕ) (start cfg : Harness)
    → k ≤ start.n
    → start_all ingested name srv k start ≡ some cfg
    → Reach start cfg × (cfg.n ≡ start.n)
start_all-Reach ingested name srv zero start cfg l h =
    let same = some-injective start cfg h in
    (subst (Reach start) same Reach.here, ap (λ (c : Harness). c.n) (sym same))
start_all-Reach ingested name srv (suc k) start cfg l h =
    let (mid, first, last) = and_then-some (start_all ingested name srv k start) _ h in
    let (r, n_same) = start_all-Reach ingested name srv k start mid (omega (arith, l)) first in
    (
      Reach.next r (Step.starts ingested k (name k) (srv k) (omega (arith, l, n_same)) last),
      start1-n ingested k (name k) (srv k) mid cfg last ∙ n_same,
    )

connect_all-Reach :
    (k : ℕ) (base start cfg : Harness)
    → Reach base start
    → k ≤ start.n
    → connect_all k start ≡ some cfg
    → Reach base cfg × (cfg.n ≡ start.n)
connect_all-Reach zero base start cfg r l h =
    let same = some-injective start cfg h in
    (subst (Reach base) same r, ap (λ (c : Harness). c.n) (sym same))
connect_all-Reach (suc k) base start cfg r l h =
    let (mid, first, last) = and_then-some (connect_all k start) _ h in
    let (p, n_same) = connect_all-Reach k base start mid r (omega (arith, l)) first in
    (
      Reach.next p (Step.connects k (omega (arith, l, n_same)) last),
      connect-n k mid cfg last ∙ n_same,
    )

-- What make_config returns is reached from the blank harness.
pub make_config-Reach :
    (ingested : List ℕ → Bool) (n : ℕ) (unreliable : Bool) (name : ℕ → ℕ → String) (srv : ℕ → ℕ)
    (cfg : Harness)
    → make_config ingested n unreliable name srv ≡ some cfg
    → Reach (blank_config n unreliable) cfg
make_config-Reach ingested n unreliable name srv cfg h =
    let (mid, first, last) =
      and_then-some (start_all ingested name srv n (blank_config n unreliable)) _ h in
    let (r, n_same) =
      start_all-Reach ingested name srv n (blank_config n unreliable) mid (omega arith) first in
    (connect_all-Reach n (blank_config n unreliable) mid cfg r (omega (arith, n_same)) last).0
