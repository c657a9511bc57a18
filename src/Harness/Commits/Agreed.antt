-- ===== src/Harness/Commits/Agreed.antt =====
-- config.go, one: what its return says of the servers.
use mathlib.Core.List.{Memᴰ}
use lab_implementation.Common.{
  ℕ, zero, suc, ◌+◌, ◌%◌, ◌≤◌, ◌<◌, ◌≡◌, ◌≢◌, ◌⊎◌, inl, inr, refl, sym, ap, ◌∙◌, Bool, true, false,
  Option, none, some, List, [], ◌∷◌, arith,
}
use lab_implementation.Raft.{start}
use lab_implementation.Harness.Commits.{
  Look, read_logs, Poll, agreed, poll_failed, no_agreement, poll_all, Attempt, find_server,
  on_start, on_attempt, OneEnd, one_returns, one_stops, one_fails, one,
}
use lab_implementation.Harness.Commits.Agreement.{none-not_some}
use lab_implementation.Harness.Commits.Counting.{holders, poll_all-holders}

-- The index that the loop over the servers finds is one that Start has given on some server.
by_start :
    (k n next : ℕ) (started : ℕ → Option (Option ℕ)) (index : ℕ) (o : Option (Option ℕ))
    → next < n
    → started next ≡ o
    → ((find_server k n next started).0 ≡ some index
        → (j : ℕ) × (j < n) × (started j ≡ some (some index)))
    → (elim o as (λ _. Option ℕ × ℕ) [
      | some index ↦ (index, next)
      | none ↦ find_server k n next started
    ]).0
      ≡ some index
    → (j : ℕ) × (j < n) × (started j ≡ some (some index))
by_start k n next started index none h f ih g = ih g
by_start k n next started index (some x) h f ih g = (next, h, f ∙ ap some g)

find_server-started :
    (k n starts : ℕ) (started : ℕ → Option (Option ℕ)) (index : ℕ)
    → 0 < n
    → (find_server k n starts started).0 ≡ some index
    → (j : ℕ) × (j < n) × (started j ≡ some (some index))
find_server-started zero n starts started index h e = absurd (none-not_some index e)
find_server-started (suc k) n starts started index h e =
    let next = (starts + 1) % n in
    by_start k n next started index (started next) (grind arith) refl
      (find_server-started k n next started index h) e

module _ {C : Type 0} (same : Discrete C) where
  -- What an agreement on a command at an index rests on.
  pub record Agreement (n expected : ℕ) (cmd : C) (index : ℕ) (attempts : List (Attempt C))
      : Type 0 where
    pub attempt : Attempt C
    pub made : Memᴰ attempt attempts
    pub server : ℕ
    pub known : server < n
    pub accepted : attempt.started server ≡ some (some index)
    pub look : Look C
    pub polled : Memᴰ look attempt.polls
    pub held : expected ≤ holders same n (read_logs look) index cmd

module _ {C : Type 0} (same : Discrete C) (n expected : ℕ) (cmd : C) (index : ℕ) where
  later_attempt :
      (a : Attempt C) (attempts : List (Attempt C))
      → Agreement same n expected cmd index attempts
      → Agreement same n expected cmd index (a ∷ attempts)
  later_attempt a attempts g = record {
    attempt = g.attempt;
    made = Memᴰ.tail g.made;
    server = g.server;
    known = g.known;
    accepted = g.accepted;
    look = g.look;
    polled = g.polled;
    held = g.held;
  }

  by_poll :
      (retry : Bool) (i : ℕ) (a : Attempt C) (attempts : List (Attempt C)) (rest : OneEnd)
      (p : Poll)
      → (j : ℕ) × (j < n) × (a.started j ≡ some (some i))
      → poll_all same n i expected cmd a.polls ≡ p
      → (rest ≡ one_returns index → Agreement same n expected cmd index attempts)
      → on_attempt retry i p rest ≡ one_returns index
      → Agreement same n expected cmd index (a ∷ attempts)
  by_poll retry i a attempts rest poll_failed f g ih e = cc
  by_poll true i a attempts rest no_agreement f g ih e = later_attempt a attempts (ih e)
  by_poll false i a attempts rest no_agreement f g ih e = cc
  by_poll retry i a attempts rest agreed (j, l, f) g ih e =
      let at = ap (λ r. elim r [ one_returns k ↦ k | one_stops ↦ i | one_fails ↦ i ]) e in
      let (s, m, h) =
        poll_all-holders same n index expected cmd a.polls
          (ap (λ i. poll_all same n i expected cmd a.polls) (sym at) ∙ g) in
      record {
        attempt = a;
        made = Memᴰ.head refl;
        server = j;
        known = l;
        accepted = f ∙ ap (λ i. some (some i)) at;
        look = s;
        polled = m;
        held = h;
      }

  by_found :
      (retry : Bool) (a : Attempt C) (attempts : List (Attempt C)) (rest : OneEnd) (o : Option ℕ)
      → ((i : ℕ) → o ≡ some i → (j : ℕ) × (j < n) × (a.started j ≡ some (some i)))
      → (rest ≡ one_returns index → Agreement same n expected cmd index attempts)
      → elim o [
        | none ↦ rest
        | some i ↦ on_attempt retry i (poll_all same n i expected cmd a.polls) rest
      ]
        ≡ one_returns index
      → Agreement same n expected cmd index (a ∷ attempts)
  by_found retry a attempts rest none f ih e = later_attempt a attempts (ih e)
  by_found retry a attempts rest (some i) f ih e =
      by_poll retry i a attempts rest (poll_all same n i expected cmd a.polls) (f i refl) refl ih e

  -- What each read of the last poll saw.
  one_read :
      (finished retry : Bool) (starts : ℕ) (attempts : List (Attempt C))
      → 0 < n
      → one same finished n cmd expected retry starts attempts ≡ one_returns index
      → Agreement same n expected cmd index attempts
  one_read true retry starts [] h e = cc
  one_read false retry starts [] h e = cc
  one_read finished retry starts (a ∷ attempts) h e =
      let (o, next) = find_server n n starts a.started in
      by_found retry a attempts (one same finished n cmd expected retry next attempts) o
        (λ i f. find_server-started n n starts a.started i h f)
        (one_read finished retry next attempts h) e

  -- With Start as it is in raft.go, one returns no index.
  one-start :
      (finished retry : Bool) (starts : ℕ) (attempts : List (Attempt C))
      → 0 < n
      → ((a : Attempt C) (j : ℕ)
          → Memᴰ a attempts
          → (a.started j ≡ none) ⊎ (a.started j ≡ on_start (start cmd)))
      → one same finished n cmd expected retry starts attempts ≢ one_returns index
  one-start finished retry starts attempts h by e =
      let g = one_read finished retry starts attempts h e in
      elim (by g.attempt g.server g.made) [
        | inl refused ↦ let out = sym g.accepted ∙ refused in absurd (cc)
        | inr started ↦ let out = sym g.accepted ∙ started in absurd (cc)
      ]
