-- ===== src/KvRaft/Config/Partition.antt =====
-- config.go, partition, when every server has its names.
use lab_implementation.Common.{
  ℕ, ◌≤◌, ◌<◌, ◌≡◌, refl, ap, ◌∙◌, Bool, true, false, some, List, [], ◌∷◌, String, if◌then◌else◌,
  length,
}
use lab_implementation.Labrpc.{Network}
use lab_implementation.KvRaft.Config.{Config, split_off, partition}
use lab_implementation.KvRaft.Config.Split.{touch, split_val, divided, Disjoint, split_val-divided}
use lab_implementation.KvRaft.Config.Pairs.{Acts, and_then-chain, Below}
use lab_implementation.KvRaft.Config.Cuts.{connect-Acts, disconnect-Acts}

module _ (cfg : Config) (name : ℕ → ℕ → String)
    (made : (i : ℕ) → i < cfg.n → cfg.endnames i ≡ some (name i))
    (apart : (i j k l : ℕ)
      → i < cfg.n
      → j < cfg.n
      → k < cfg.n
      → l < cfg.n
      → name i j ≡ name k l
      → (i ≡ k) × (j ≡ l)) where
  Acts-then :
      (f g : ℕ → ℕ → Bool → Bool) (old mid new : Network)
      → Acts cfg name made apart f old mid
      → Acts cfg name made apart g mid new
      → Acts cfg name made apart (λ a c v. g a c (f a c v)) old new
  Acts-then f g old mid new s t = record {
    links = λ a c la lc. t.links a c la lc ∙ ap (g a c) (s.links a c la lc);
    others = λ e ne. t.others e ne ∙ s.others e ne;
  }

  split_off-Acts :
      (own others is : List ℕ) (net : Network)
      → Below cfg name made apart own
      → Below cfg name made apart others
      → Below cfg name made apart is
      → length others ≤ cfg.n
      → (new : Network) × (split_off own others is (record cfg { net = net })
          ≡ some (record cfg { net = new }))
        × Acts cfg name made apart (split_val own others is) net new
  split_off-Acts own others [] net bo bt below short =
      (net, refl, record { links = λ a c la lc. refl; others = λ e ne. refl })
  split_off-Acts own others (i ∷ is) net bo bt below short =
      let (cut, off, s) = disconnect-Acts cfg name made apart i others net below.0 bt short in
      let (joined, on, t) = connect-Acts cfg name made apart i own cut below.0 bo in
      let (new, rest, u) = split_off-Acts own others is joined bo bt below.1 short in
      (
        new,
        and_then-chain _ _ off (and_then-chain _ (split_off own others is) on rest),
        Acts-then
            (λ a c v. if touch i own a c then true else (if touch i others a c then false else v))
            (split_val own others is) net joined new
            (Acts-then (λ a c v. if touch i others a c then false else v)
              (λ a c v. if touch i own a c then true else v) net cut joined s t)
            u,
      )

  pub partition-Acts :
      (p1 p2 : List ℕ)
      → Below cfg name made apart p1
      → Below cfg name made apart p2
      → length p1 ≤ cfg.n
      → length p2 ≤ cfg.n
      → Disjoint p1 p2
      → (new : Network) × (partition p1 p2 cfg ≡ some (record cfg { net = new }))
        × Acts cfg name made apart (divided p1 p2) cfg.net new
  partition-Acts p1 p2 b1 b2 s1 s2 d =
      let (half, first, s) = split_off-Acts p1 p2 p1 cfg.net b1 b2 b1 s2 in
      let (new, last, t) = split_off-Acts p2 p1 p2 half b2 b1 b2 s1 in
      let u = Acts-then (split_val p1 p2 p1) (split_val p2 p1 p2) cfg.net half new s t in
      (
        new,
        and_then-chain _ (split_off p2 p1 p2) first last,
        record {
          links = λ a c la lc.
              u.links a c la lc ∙ split_val-divided p1 p2 a c (cfg.net.enabled (name a c)) d;
          others = u.others;
        },
      )
