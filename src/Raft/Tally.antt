-- ===== src/Raft/Tally.antt =====
-- The number of counted votes in one election, over the first `n` peers.
use lab_implementation.Common.{
  ℕ, zero, suc, ◌+◌, ◌≤◌, ◌<◌, ◌≡◌, refl, update, ℕ_discrete, dec_lt, ite, arith,
}
use lab_implementation.Raft.System.{VotePc, counted, set_vote, ask_all}

abbrev pub weight : VotePc → ℕ
weight counted = 1
weight _ = 0

pub tally : ℕ → (ℕ → VotePc) → ℕ
tally zero f = 0
tally (suc n) f = tally n f + weight (f n)

tally-update_beyond :
    (n : ℕ) (f : ℕ → VotePc) (j : ℕ) (pc : VotePc)
    → n ≤ j
    → tally n (update ℕ_discrete f j pc) ≡ tally n f
unfolding tally
tally-update_beyond zero f j pc h = refl
tally-update_beyond (suc n) f j pc h = ground (arith, tally-update_beyond n f j pc)

tally-update :
    (n : ℕ) (f : ℕ → VotePc) (j : ℕ) (pc : VotePc)
    → j < n
    → tally n (update ℕ_discrete f j pc) + weight (f j) ≡ tally n f + weight pc
unfolding tally
tally-update zero f j pc h = absurd (omega arith)
tally-update (suc n) f j pc h = elim (dec_lt j n) [
  | yes below ↦ ground (arith, tally-update n f j pc below)
  | no last ↦ ground (arith, tally-update_beyond n f j pc)
]

-- A change of one goroutine that counts no vote and drops none.
pub tally-update_same :
    (n : ℕ) (f : ℕ → VotePc) (j : ℕ) (pc : VotePc)
    → weight (f j) ≡ weight pc
    → tally n (update ℕ_discrete f j pc) ≡ tally n f
tally-update_same n f j pc h = elim (dec_lt j n) [
  | yes below ↦ omega (arith, tally-update n f j pc below)
  | no beyond ↦ tally-update_beyond n f j pc (omega arith)
]

pub tally-count :
    (n : ℕ) (f : ℕ → VotePc) (j : ℕ)
    → j < n
    → weight (f j) ≡ 0
    → tally n (update ℕ_discrete f j counted) ≡ tally n f + 1
tally-count n f j h e = omega (arith, tally-update n f j counted h)

-- What the candidate starts with: its own vote.
pub tally-ask_all : (n i : ℕ) → tally n (ask_all i) ≡ ite (dec_lt i n) 1 0
unfolding tally
tally-ask_all zero i = ground arith
tally-ask_all (suc n) i = ground (arith, tally-ask_all n i)

-- No peer counts for both of two disjoint elections.
pub tally-disjoint :
    (n : ℕ) (f g : ℕ → VotePc)
    → ((j : ℕ) → f j ≡ counted → g j ≡ counted → ⊥)
    → tally n f + tally n g ≤ n
unfolding tally
tally-disjoint zero f g h = omega arith
tally-disjoint (suc n) f g h = ground (arith, tally-disjoint n f g h, h n)

module _ (n : ℕ) (votes : ℕ → ℕ → ℕ → VotePc) (i t j : ℕ) where
  -- A change of one goroutine is seen by the election that it belongs to only.
  pub tally-set_vote :
      (pc : VotePc) (k u : ℕ)
      → tally n (set_vote votes i t j pc k u)
        ≡ ite
            (ℕ_discrete i k)
            (ite
              (ℕ_discrete t u)
              (tally n (update ℕ_discrete (votes i t) j pc))
              (tally n (votes k u)))
            (tally n (votes k u))
  tally-set_vote pc k u = ground arith

  pub tally-set_same :
      (pc : VotePc)
      → weight (votes i t j) ≡ weight pc
      → (k u : ℕ) → tally n (set_vote votes i t j pc k u) ≡ tally n (votes k u)
  tally-set_same pc h k u =
      ground (arith, tally-set_vote pc k u, tally-update_same n (votes i t) j pc h)

  pub tally-set_counted :
      j < n
      → weight (votes i t j) ≡ 0
      → tally n (set_vote votes i t j counted i t) ≡ tally n (votes i t) + 1
  tally-set_counted lt h =
      ground (arith, tally-set_vote counted i t, tally-count n (votes i t) j lt h)
