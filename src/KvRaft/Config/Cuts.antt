-- ===== src/KvRaft/Config/Cuts.antt =====
-- config.go, connectUnlocked and disconnectUnlocked, when every server has its names.
use lab_implementation.Common.{
  ℕ, suc, ◌+◌, ◌≤◌, ◌<◌, ◌≡◌, refl, ap, ◌∙◌, true, false, none, some, List, [], ◌∷◌, String,
  if◌then◌else◌, if_true, length, arith,
}
use lab_implementation.Labrpc.{Network}
use lab_implementation.KvRaft.Config.{
  Config, endname, always, if_made, connect_unlocked, disconnect_unlocked,
}
use lab_implementation.KvRaft.Config.Switches.{Finds, enable_each-Switched}
use lab_implementation.KvRaft.Config.Split.{touch}
use lab_implementation.KvRaft.Config.Pairs.{
  Acts, and_then-chain, lt→ltb, Below, endname-some, two_loops,
}

module _ (cfg : Config) (name : ℕ → ℕ → String)
    (made : (i : ℕ) → i < cfg.n → cfg.endnames i ≡ some (name i))
    (apart : (i j k l : ℕ)
      → i < cfg.n
      → j < cfg.n
      → k < cfg.n
      → l < cfg.n
      → name i j ≡ name k l
      → (i ≡ k) × (j ≡ l)) where
  Finds-out :
      (net : Network) (i k : ℕ) (l : List ℕ)
      → i < cfg.n
      → Below cfg name made apart l
      → Finds (λ _ j. always (endname (record cfg { net = net }) i j)) (name i) k l
  Finds-out net i k [] li below = tt
  Finds-out net i k (j ∷ js) li below = (
    ap always (endname-some cfg name made apart net i j li below.0),
    Finds-out net i (suc k) js li below.1,
  )

  Finds-in :
      (net : Network) (i k : ℕ) (l : List ℕ)
      → i < cfg.n
      → Below cfg name made apart l
      → Finds (λ _ j. always (endname (record cfg { net = net }) j i)) (λ j. name j i) k l
  Finds-in net i k [] li below = tt
  Finds-in net i k (j ∷ js) li below = (
    ap always (endname-some cfg name made apart net j i below.0 li),
    Finds-in net i (suc k) js li below.1,
  )

  if_made-some :
      (net : Network) (k a b : ℕ)
      → k < cfg.n
      → a < cfg.n
      → b < cfg.n
      → if_made (record cfg { net = net }) k a b ≡ some (some (name a b))
  if_made-some net k a b lk la lb =
      if_true _ _ (lt→ltb k cfg.n lk)
      ∙ ap
          (λ o. elim o [
            | none ↦ some none
            | some _ ↦ always (endname (record cfg { net = net }) a b)
          ])
          (made k lk)
      ∙ ap always (endname-some cfg name made apart net a b la lb)

  cuts_out :
      (net : Network) (i k : ℕ) (l : List ℕ)
      → i < cfg.n
      → Below cfg name made apart l
      → Finds (λ _ f. if_made (record cfg { net = net }) i i f) (name i) k l
  cuts_out net i k [] li below = tt
  cuts_out net i k (j ∷ js) li below =
      (if_made-some net i i j li li below.0, cuts_out net i (suc k) js li below.1)

  -- The position stays below n, since the list is not longer.
  cuts_in :
      (net : Network) (i k : ℕ) (l : List ℕ)
      → i < cfg.n
      → Below cfg name made apart l
      → k + length l ≤ cfg.n
      → Finds (λ j f. if_made (record cfg { net = net }) j f i) (λ j. name j i) k l
  cuts_in net i k [] li below short = tt
  cuts_in net i k (j ∷ js) li below short = (
    if_made-some net k j i (omega (arith, short)) below.0 li,
    cuts_in net i (suc k) js li below.1 (omega (arith, short)),
  )

  pub connect-Acts :
      (i : ℕ) (l : List ℕ) (net : Network)
      → i < cfg.n
      → Below cfg name made apart l
      → (new : Network) × (connect_unlocked i l (record cfg { net = net })
          ≡ some (record cfg { net = new }))
        × Acts cfg name made apart (λ a c v. if touch i l a c then true else v) net new
  connect-Acts i l net li below =
      let (mid, run, s) =
        enable_each-Switched true _ (name i) 0 l net (Finds-out net i 0 l li below) in
      let (new, next, t) =
        enable_each-Switched true _ (λ j. name j i) 0 l mid (Finds-in net i 0 l li below) in
      (
        new,
        and_then-chain _ _ run (and_then-chain _ (λ x. some (record cfg { net = x })) next refl),
        two_loops cfg name made apart true i l net mid new li below s t,
      )

  pub disconnect-Acts :
      (i : ℕ) (l : List ℕ) (net : Network)
      → i < cfg.n
      → Below cfg name made apart l
      → length l ≤ cfg.n
      → (new : Network) × (disconnect_unlocked i l (record cfg { net = net })
          ≡ some (record cfg { net = new }))
        × Acts cfg name made apart (λ a c v. if touch i l a c then false else v) net new
  disconnect-Acts i l net li below short =
      let (mid, run, s) =
        enable_each-Switched false _ (name i) 0 l net (cuts_out net i 0 l li below) in
      let (new, next, t) =
        enable_each-Switched false _ (λ j. name j i) 0 l mid
          (cuts_in net i 0 l li below (omega (arith, short))) in
      (
        new,
        and_then-chain _ _ run (and_then-chain _ (λ x. some (record cfg { net = x })) next refl),
        two_loops cfg name made apart false i l net mid new li below s t,
      )
