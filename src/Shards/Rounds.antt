-- ===== src/Shards/Rounds.antt =====
-- The loops that the clerks of shardctrler/client.go and shardkv/client.go share: a Call to one server
-- after another, again and again. The Calls of a clerk are numbered: `ask t e` is what comes of number t,
-- made on the end e, and is `none` where Call returns false.
use lab_implementation.Common.{ℕ, zero, suc, Option, none, some, List, [], ◌∷◌}

-- What the body of the loop over the servers does with a reply: return, break or go on.
pub data Verdict (A : Type 0) : Type 0 where
  accept : A → Verdict A
  stop : Verdict A
  next : Verdict A

abbrev pub judge : {A R : Type 0} → (R → Verdict A) → Option R → Verdict A
judge verdict none = next
judge verdict (some r) = verdict r

-- After Call number t - 1: `rest` is what comes of the servers that are left.
abbrev pub follow : {A : Type 0} → Verdict A → ℕ → Option A × ℕ → Option A × ℕ
follow (accept a) t rest = (some a, t)
follow stop t rest = (none, t)
follow next t rest = rest

-- What follows a round: the return, or the rest of the program.
abbrev pub or_else : {A B : Type 0} → (A → ℕ → B) → (ℕ → B) → Option A × ℕ → B
or_else found rest (none, t) = rest t
or_else found rest (some a, t) = found a t

module _ {A R E : Type 0} where
  -- Once through the servers, from Call number t on; with the number of the Call after the last.
  abbrev pub try_each : (ℕ → E → Option R) → (R → Verdict A) → List E → ℕ → Option A × ℕ
  try_each ask verdict [] t = (none, t)
  try_each ask verdict (e ∷ es) t =
      follow (judge verdict (ask t e)) (suc t) (try_each ask verdict es (suc t))

  -- Round after round; `none` after `fuel` of them.
  abbrev pub retry : (ℕ → E → Option R) → (R → Verdict A) → List E → ℕ → ℕ → Option (A × ℕ)
  retry ask verdict servers zero t = none
  retry ask verdict servers (suc fuel) t =
      or_else (λ a u. some (a, u)) (λ u. retry ask verdict servers fuel u)
        (try_each ask verdict servers t)
