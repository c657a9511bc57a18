-- ===== src/Harness/Leaders.antt =====
-- config.go, checkOneLeader, checkTerms and checkNoLeader. `none` is cfg.t.Fatalf.
pub mod Collect
pub mod Sound
pub mod Terms
mod Tests
use lab_implementation.Common.{
  ℕ, zero, suc, ◌+◌, Bool, true, false, ◌&&◌, Option, none, some, List, [], ◌∷◌, ◌++◌, length,
  update, ℕ_discrete, ltb, ◌==◌, if◌then◌else◌,
}
use lab_implementation.Raft.{Raft, get_state}

-- What the harness sees of the servers at one time. crash1 disconnects a server before its Raft
-- becomes nil, so a connected server has one.
pub record Look : Type 0 where
  pub connected : ℕ → Bool
  pub rafts : ℕ → Raft

-- The map `leaders`, and the keys that it has; a key that it has not reads as the empty list.
pub record LeaderMap : Type 0 where
  pub of : ℕ → List ℕ
  pub terms : List ℕ

abbrev pub no_leaders : LeaderMap
no_leaders = record { of = λ _. []; terms = [] }

abbrev pub add_key : ℕ → List ℕ → List ℕ → List ℕ
add_key term [] terms = terms ++ term ∷ []
add_key term (_ ∷ _) terms = terms

-- leaders[term] = append(leaders[term], i)
abbrev pub add_leader : ℕ → ℕ → LeaderMap → LeaderMap
add_leader term i m = record {
  of = update ℕ_discrete m.of term (m.of term ++ i ∷ []);
  terms = add_key term (m.of term) m.terms;
}

abbrev pub note_server : Look → ℕ → LeaderMap → LeaderMap
unfolding get_state
note_server look i m =
    let (term, leader) = get_state (look.rafts i) in
    if look.connected i && leader then add_leader term i m else m

-- The loop over the servers, `i` being the first of the k that are left.
abbrev pub collect : Look → ℕ → ℕ → LeaderMap → LeaderMap
collect look zero i m = m
collect look (suc k) i m = collect look k (i + 1) (note_server look i m)

-- lastTermWithLeader, `none` for the -1 that it begins with.
abbrev pub later : ℕ → Option ℕ → Option ℕ
later term none = some term
later term (some last) = if ltb last term then some term else some last

-- The loop over the map, in any order of its keys.
abbrev pub last_term : (ℕ → List ℕ) → List ℕ → Option ℕ → Option (Option ℕ)
last_term of [] last = some last
last_term of (term ∷ terms) last =
    let rest = last_term of terms (later term last) in
    if ltb 1 (length (of term)) then none else rest

-- One iteration: it fails, returns a server, or finds no leader.
pub data Round : Type 0 where
  failed again : Round
  found : ℕ → Round

abbrev pub first_of : List ℕ → Round
first_of [] = failed
first_of (i ∷ _) = found i

abbrev pub decide : LeaderMap → Option (Option ℕ) → Round
decide m none = failed
decide m (some none) = again
decide m (some (some last)) = first_of (m.of last)

abbrev pub look_for_leader : ℕ → Look → Round
look_for_leader n look =
    let m = collect look n 0 no_leaders in decide m (last_term m.of m.terms none)

abbrev pub try_again : Round → Option ℕ → Option ℕ
try_again failed rest = none
try_again again rest = rest
try_again (found i) rest = some i

-- The ten iterations, with what each of them sees.
abbrev pub check_one_leader : ℕ → List Look → Option ℕ
check_one_leader n [] = none
check_one_leader n (look ∷ looks) = try_again (look_for_leader n look) (check_one_leader n looks)

-- checkTerms: `term` is `none` for -1.
abbrev pub same_term : Option ℕ → ℕ → Option (Option ℕ)
same_term none xterm = some (some xterm)
same_term (some term) xterm = if term == xterm then some (some term) else none

abbrev pub check_term : Look → ℕ → Option ℕ → Option (Option ℕ)
unfolding get_state
check_term look i term =
    if look.connected i then same_term term (get_state (look.rafts i)).0 else some term

abbrev pub check_terms_from : Look → ℕ → ℕ → Option (Option ℕ) → Option (Option ℕ)
check_terms_from look zero i r = r
check_terms_from look (suc k) i none = none
check_terms_from look (suc k) i (some term) =
    check_terms_from look k (i + 1) (check_term look i term)

abbrev pub check_terms : ℕ → Look → Option (Option ℕ)
check_terms n look = check_terms_from look n 0 (some none)

-- checkNoLeader: whether it returns.
abbrev pub check_no_leader_from : Look → ℕ → ℕ → Bool
unfolding get_state
check_no_leader_from look zero i = true
check_no_leader_from look (suc k) i =
    let rest = check_no_leader_from look k (i + 1) in
    if look.connected i && (get_state (look.rafts i)).1 then false else rest

abbrev pub check_no_leader : ℕ → Look → Bool
check_no_leader n look = check_no_leader_from look n 0
