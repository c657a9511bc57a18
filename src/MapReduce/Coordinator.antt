-- ===== src/MapReduce/Coordinator.antt =====
-- 6.5840/src/mr/coordinator.go. Each handler runs under `mut`; `time.Now()` is an argument.
pub mod Scans
pub mod Phases
pub mod Handover
pub mod Rounds
pub mod Progress
pub mod Recovery
mod Tests
use lab_implementation.Common.{
  ℕ, zero, suc, ◌+◌, ◌-◌, ◌*◌, ◌^◌, String, Bool, true, false, not, ◌&&◌, ◌||◌, Option, none, some,
  List, [], ◌∷◌, ◌++◌, get_elem?, set, ltb, ◌==◌, if◌then◌else◌,
}
use lab_implementation.MapReduce.{
  MissionState, ready, running, done, WorkType, map, reduce, waiting, Task, empty_task, CallArgs,
  TaskReply, is_ready, is_running,
}

pub record Coordinator : Type 0 where
  pub filename : List String
  pub nreduce : ℕ
  pub maptask : List Task
  pub reducetask : List Task
  pub maptaskfinish : Bool
  pub reducetaskfinish : Bool

-- 40 seconds: the limit of `AssignMission`.
abbrev pub time_limit : ℕ
time_limit = 40 * 10 ^ 9

-- `currenttime.Sub(t.Timestamp).Seconds() > 40`; a clock that has gone back gives no overtime.
abbrev pub overtime : ℕ → Task → Bool
overtime now t = ltb time_limit (now - t.timestamp)

abbrev pub assignable : ℕ → Task → Bool
assignable now t = is_ready t.missionstate || (is_running t.missionstate && overtime now t)

-- What the loop over a task list comes to: a task handed out, with the list that has it marked, or
-- the end of the list with `tmpCheckAllFinish`.
pub data Scan : Type 0 where
  assigned : List Task → Task → Scan
  passed : Bool → Scan

abbrev pub keep : Task → Scan → Scan
keep t (assigned ts x) = assigned (t ∷ ts) x
keep t (passed all_finish) = passed all_finish

unfoldable pub scan : ℕ → (Task → Task) → Bool → List Task → Scan
scan now assign all_finish [] = passed all_finish
scan now assign all_finish (t ∷ ts) =
    let rest = scan now assign (if is_running t.missionstate then false else all_finish) ts in
    if assignable now t then assigned (assign t ∷ ts) (assign t) else keep t rest

abbrev pub assign_map : ℕ → Task → Task
assign_map now t = record t { timestamp = now; missionstate = running }

abbrev pub assign_reduce : ℕ → Task → Task
assign_reduce now t = record t { timestamp = now; missionstate = running; worktype = reduce }

abbrev pub wait_reply : ℕ → TaskReply
wait_reply n = record { task = record empty_task { worktype = waiting }; nreduce = n }

-- `AssignMission`. The reduce branch reads the clock again for the timestamp, as `later`.
unfoldable pub assign_mission : ℕ → ℕ → Coordinator → Coordinator × TaskReply
assign_mission now later c =
    if not c.maptaskfinish
    then elim (scan now (assign_map now) true c.maptask) [
      | assigned ts t ↦ (
        record c { maptask = ts; maptaskfinish = false },
        record { task = t; nreduce = c.nreduce },
      )
      | passed all_finish ↦ (record c { maptaskfinish = all_finish }, wait_reply c.nreduce)
    ]
    else elim (scan now (assign_reduce later) true c.reducetask) [
      | assigned ts t ↦ (
        record c { reducetask = ts; reducetaskfinish = false },
        record { task = t; nreduce = c.nreduce },
      )
      | passed all_finish ↦ (record c { reducetaskfinish = all_finish }, wait_reply c.nreduce)
    ]

-- The list after a finish message for one of its tasks; `none` is the panic on an index out of range.
unfoldable pub finish : Task → List Task → Option (List Task)
finish m ts = elim (get_elem? ts m.index) [
  | none ↦ none
  | some t ↦
      some (
        if m.timestamp == t.timestamp
        then set ts m.index (record t { missionstate = done })
        else ts)
]

unfoldable pub handle_map_finish : CallArgs → Coordinator → Option Coordinator
handle_map_finish args c = elim (finish args.task c.maptask) [
  | none ↦ none
  | some ts ↦ some (record c { maptask = ts })
]

unfoldable pub handle_reduce_finish : CallArgs → Coordinator → Option Coordinator
handle_reduce_finish args c = elim (finish args.task c.reducetask) [
  | none ↦ none
  | some ts ↦ some (record c { reducetask = ts })
]

-- `Done`
unfoldable pub is_done : Coordinator → Bool
is_done c = c.maptaskfinish && c.reducetaskfinish

-- The loop that makes the map tasks, from index `i`.
unfoldable pub map_tasks : ℕ → List String → List Task
map_tasks i [] = []
map_tasks i (name ∷ names) =
    record empty_task { missionstate = ready; index = i; mapfile = name } ∷ map_tasks (i + 1) names

-- `fmt.Sprintf("mr-%v-%v", index, i)` is not in the repository.
module _ (sprintf : ℕ → ℕ → String) where
  unfoldable pub reduce_files : ℕ → ℕ → List String → List String
  reduce_files index i [] = []
  reduce_files index i (name ∷ names) = sprintf index i ∷ reduce_files (index + 1) i names

  -- The rounds of the loop over `i < nreduce` that are left, from `i`.
  unfoldable pub reduce_tasks : ℕ → ℕ → List String → List Task
  unfolding reduce_files
  reduce_tasks i zero names = []
  reduce_tasks i (suc rounds) names =
      record empty_task {
        worktype = reduce;
        index = i;
        missionstate = ready;
        reducefiles = reduce_files 0 i names;
      }
      ∷ reduce_tasks (i + 1) rounds names

-- The files that the patterns name, or `none` where `filepath.Glob`, which is not in the
-- repository, finds a pattern malformed.
unfoldable pub glob_all : (String → Option (List String)) → List String → Option (List String)
glob_all glob [] = some []
glob_all glob (possiblefile ∷ rest) = elim (glob possiblefile) [
  | none ↦ none
  | some files ↦ elim (glob_all glob rest) [ none ↦ none | some more ↦ some (files ++ more) ]
]

-- `MakeCoordinator` without the start of its server; `none` is the `nil` that an error gives.
unfoldable pub make_coordinator :
    (String → Option (List String)) → (ℕ → ℕ → String) → List String → ℕ → Option Coordinator
unfolding glob_all map_tasks reduce_tasks
make_coordinator glob sprintf files nreduce = elim (glob_all glob files) [
  | none ↦ none
  | some names ↦ some (record {
    filename = names;
    nreduce = nreduce;
    maptask = map_tasks 0 names;
    reducetask = reduce_tasks sprintf 0 nreduce names;
    maptaskfinish = false;
    reducetaskfinish = false;
  })
]
