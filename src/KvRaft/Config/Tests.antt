-- ===== src/KvRaft/Config/Tests.antt =====
-- config.go, make_config, Leader, make_partition and partition: three servers and a clerk.
use lab_implementation.Common.{
  ℕ, zero, suc, ◌≡◌, refl, Bool, true, false, Option, none, some, List, [], ◌∷◌, String,
  string_discrete, ℕ_discrete,
}
use lab_implementation.Raft.{ServerState, make, get_state}
use lab_implementation.Harness.Links.{Instance}
use lab_implementation.KvRaft.Config.{
  Config, blank_config, make_config, make_client, leader, make_partition,
}

abbrev three : String → String → String → ℕ → String
three a b c zero = a
three a b c (suc zero) = b
three a b c (suc (suc k)) = c

abbrev ends_of : ℕ → ℕ → String
ends_of zero = three "aa" "ab" "ac"
ends_of (suc zero) = three "ba" "bb" "bc"
ends_of (suc (suc k)) = three "ca" "cb" "cc"

abbrev every : List ℕ
every = 0 ∷ 1 ∷ 2 ∷ []

abbrev addresses : ℕ → ℕ
addresses i = i

abbrev got : Option Config → Config
got none = blank_config 0 none
got (some cfg) = cfg

abbrev is_some : Option Config → Bool
is_some none = false
is_some (some cfg) = true

abbrev started : Config
started = got (make_config 3 false none ends_of addresses)

abbrev with_clerk : Config
with_clerk = got (make_client 7 (three "ka" "kb" "kc") every started)

-- Server 1 has won an election.
abbrev elected : ℕ → Option Instance
elected zero = started.kvservers 0
elected (suc zero) =
    some record { raft = record (make 3 1) { state = ServerState.leader }; disk = 1 }
elected (suc (suc k)) = started.kvservers (suc (suc k))

abbrev led : Config
led = record with_clerk { kvservers = elected }

make_partition-led : make_partition led ≡ some (0 ∷ 2 ∷ [], 1 ∷ [])
unfolding get_state make ℕ_discrete string_discrete
make_partition-led = refl
