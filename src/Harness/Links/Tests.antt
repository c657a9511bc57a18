-- ===== src/Harness/Links/Tests.antt =====
-- config.go, crash1, start1, connect and disconnect: two servers, and the second started again.
use lab_implementation.Common.{
  ℕ, zero, suc, ◌≡◌, refl, Bool, true, false, ◌&&◌, Option, none, some, List, [], ◌∷◌, String,
  string_discrete, ℕ_discrete, arith,
}
use lab_implementation.Harness.Links.{
  Disk, Harness, connect, disconnect, crash1, start1, blank_config,
}
use lab_implementation.Harness.Links.Live.Between.{
  Step, Reach, ends_follow_connected, replaced_ends_stay_off,
}
use lab_implementation.Harness.Links.Disks.{save_all, Restored, start1_restores}

abbrev all_ingested : List ℕ → Bool
all_ingested s = true

abbrev pair_of : String → String → ℕ → String
pair_of s t zero = s
pair_of s t (suc k) = t

abbrev got : Option Harness → Harness
got none = blank_config 0 false
got (some cfg) = cfg

abbrev is_some : Option Harness → Bool
is_some none = false
is_some (some cfg) = true

some-got : (m : Option Harness) → is_some m ≡ true → m ≡ some (got m)
some-got none e = cc
some-got (some cfg) e = refl

abbrev first_up : Harness
first_up = got (start1 all_ingested 0 (pair_of "a0" "a1") 10 (blank_config 2 false))

abbrev both_up : Harness
both_up = got (start1 all_ingested 1 (pair_of "b0" "b1") 11 first_up)

abbrev first_on : Harness
first_on = got (connect 0 both_up)

abbrev both_on : Harness
both_on = got (connect 1 first_on)

start_first : start1 all_ingested 0 (pair_of "a0" "a1") 10 (blank_config 2 false) ≡ some first_up
unfolding string_discrete ℕ_discrete
start_first = some-got (start1 all_ingested 0 (pair_of "a0" "a1") 10 (blank_config 2 false)) refl

start_second : start1 all_ingested 1 (pair_of "b0" "b1") 11 first_up ≡ some both_up
unfolding string_discrete ℕ_discrete
start_second = some-got (start1 all_ingested 1 (pair_of "b0" "b1") 11 first_up) refl

connect-first : connect 0 both_up ≡ some first_on
unfolding string_discrete ℕ_discrete
connect-first = some-got (connect 0 both_up) refl

connect-second : connect 1 first_on ≡ some both_on
unfolding string_discrete ℕ_discrete
connect-second = some-got (connect 1 first_on) refl

both_up_reached : Reach (blank_config 2 false) both_up
unfolding string_discrete ℕ_discrete
both_up_reached =
    Reach.next {cfg = first_up} {new = both_up}
      (Reach.next {cfg = blank_config 2 false} {new = first_up} Reach.here (
        Step.starts {cfg = blank_config 2 false} {new = first_up} all_ingested 0 (pair_of "a0" "a1")
          10 (omega arith) start_first))
      (Step.starts {cfg = first_up} {new = both_up} all_ingested 1 (pair_of "b0" "b1") 11
        (omega arith) start_second)

both_on_reached : Reach (blank_config 2 false) both_on
unfolding string_discrete ℕ_discrete
both_on_reached =
    Reach.next {cfg = first_on} {new = both_on}
      (Reach.next {cfg = both_up} {new = first_on} both_up_reached
        (Step.connects {cfg = both_up} {new = first_on} 0 (omega arith) connect-first))
      (Step.connects {cfg = first_on} {new = both_on} 1 (omega arith) connect-second)

off_reached : Reach (blank_config 2 false) (disconnect 1 both_on)
unfolding string_discrete ℕ_discrete
off_reached =
    Reach.next {cfg = both_on} {new = disconnect 1 both_on} both_on_reached
      (Step.disconnects {cfg = both_on} 1 (omega arith))

abbrev again : Harness
again = got (start1 all_ingested 1 (pair_of "c0" "c1") 12 both_on)

start_again : start1 all_ingested 1 (pair_of "c0" "c1") 12 both_on ≡ some again
unfolding string_discrete ℕ_discrete
start_again = some-got (start1 all_ingested 1 (pair_of "c0" "c1") 12 both_on) refl

abbrev again_on : Harness
again_on = got (connect 1 again)

connect-again : connect 1 again ≡ some again_on
unfolding string_discrete ℕ_discrete
connect-again = some-got (connect 1 again) refl

again_reached : Reach again again_on
unfolding string_discrete ℕ_discrete
again_reached =
    Reach.next {cfg = again} {new = again_on} Reach.here
      (Step.connects {cfg = again} {new = again_on} 1 (omega arith) connect-again)

ends_follow_connected_example :
    (disconnect 1 both_on).net.enabled "a1"
    ≡ ((disconnect 1 both_on).connected 0 && (disconnect 1 both_on).connected 1)
unfolding string_discrete ℕ_discrete
ends_follow_connected_example =
    ends_follow_connected 2 false {cfg = disconnect 1 both_on} 0 1 off_reached (omega arith)
      (omega arith) refl

replaced_ends_stay_off_example : again_on.net.enabled "b0" ≡ false
unfolding string_discrete ℕ_discrete
replaced_ends_stay_off_example =
    replaced_ends_stay_off 2 false {cfg = both_on} {new = again} {later = again_on} all_ingested 1 0
      (pair_of "c0" "c1") 12 both_on_reached (omega arith) (omega arith) refl start_again
      again_reached

-- Server 1 has saved some state; the old instance saves again after the crash.
abbrev written : Disk
written = record { raftstate = 5 ∷ []; snapshot = 6 ∷ [] }

abbrev stale : Disk
stale = record { raftstate = 1 ∷ []; snapshot = [] }

abbrev saved_state : Harness
saved_state = save_all ((1, written) ∷ []) both_on

abbrev late : List (ℕ × Disk)
late = (1, stale) ∷ []

abbrev restored : Harness
restored = got (start1 all_ingested 1 (pair_of "c0" "c1") 12 (save_all late (crash1 1 saved_state)))

start1_restores_example : Restored 2 1 written 2 restored
unfolding string_discrete ℕ_discrete
start1_restores_example =
    start1_restores all_ingested 1 1 (pair_of "c0" "c1") 12 late saved_state restored refl
      (omega arith) (omega arith, tt)
      (some-got
        (start1 all_ingested 1 (pair_of "c0" "c1") 12 (save_all late (crash1 1 saved_state))) refl)
