-- ===== src/MapReduce/Coordinator/Handover.antt =====
-- Which tasks `AssignMission` may take from a worker, and what becomes of that worker's message.
use lab_implementation.Common.{
  ℕ, ◌+◌, ◌≤◌, ◌≡◌, ◌≢◌, ◌⊎◌, inl, inr, refl, true, false, some, List, [], get_elem?,
  get_elem?-set_self, get_elem?-set_ne, ℕ_discrete, arith, Bool-cases,
}
use lab_implementation.MapReduce.{running, WorkType, map, reduce, waiting, Task, CallArgs}
use lab_implementation.MapReduce.Coordinator.{
  Coordinator, time_limit, Scan, assigned, passed, assignable, assign_map, assign_reduce,
  assign_mission, finish, handle_map_finish, handle_reduce_finish,
}
use lab_implementation.MapReduce.Coordinator.Scans.{
  IsDone, Assigns, Outcome, scan-Outcome, finish-keeps_done, Assigns-keeps,
}
use lab_implementation.MapReduce.Coordinator.Phases.{
  Step, assign, map_finish, reduce_finish, map_phase, reduce_phase, assign-map_phase,
  assign-reduce_phase, map_finish-finish, reduce_finish-finish,
}

abbrev pub tasks : WorkType → Coordinator → List Task
tasks map c = c.maptask
tasks reduce c = c.reducetask
tasks waiting c = []

-- A worker has the task, and its time is not over.
abbrev pub IsHeld : ℕ → Task → Type 0
IsHeld now t = (t.missionstate ≡ running) × (now ≤ t.timestamp + time_limit)

module _ (now late : ℕ) (c : Coordinator) (k : ℕ) (t : Task) where
  map_phase-keeps :
      get_elem? c.maptask k ≡ some t
      → assignable now t ≡ false
      → (r : Scan) → Outcome now (assign_map now) true c.maptask r
      → get_elem? (map_phase now late c r).0.maptask k ≡ some t
  map_phase-keeps e busy (assigned ts x) o = Assigns-keeps o k t e busy
  map_phase-keeps e busy (passed f) o = e

  reduce_phase-keeps :
      get_elem? c.reducetask k ≡ some t
      → assignable now t ≡ false
      → (r : Scan) → Outcome now (assign_reduce late) true c.reducetask r
      → get_elem? (reduce_phase now late c r).0.reducetask k ≡ some t
  reduce_phase-keeps e busy (assigned ts x) o = Assigns-keeps o k t e busy
  reduce_phase-keeps e busy (passed f) o = e

  map_phase-reducetask : (r : Scan) → (map_phase now late c r).0.reducetask ≡ c.reducetask
  map_phase-reducetask (assigned ts x) = refl
  map_phase-reducetask (passed f) = refl

  reduce_phase-maptask : (r : Scan) → (reduce_phase now late c r).0.maptask ≡ c.maptask
  reduce_phase-maptask (assigned ts x) = refl
  reduce_phase-maptask (passed f) = refl

  assign-keeps :
      (w : WorkType)
      → get_elem? (tasks w c) k ≡ some t
      → assignable now t ≡ false
      → get_elem? (tasks w (assign_mission now late c).0) k ≡ some t
  assign-keeps map e busy = elim (Bool-cases c.maptaskfinish) [
    | inl h ↦ rw (assign-reduce_phase now late c h, reduce_phase-maptask) e
    | inr h ↦
        rw (assign-map_phase now late c h)
          (map_phase-keeps e busy _ (scan-Outcome now (assign_map now) true c.maptask))
  ]
  assign-keeps reduce e busy = elim (Bool-cases c.maptaskfinish) [
    | inl h ↦
        rw (assign-reduce_phase now late c h)
          (reduce_phase-keeps e busy _ (scan-Outcome now (assign_reduce late) true c.reducetask))
    | inr h ↦ rw (assign-map_phase now late c h, map_phase-reducetask) e
  ]
  assign-keeps waiting e busy = e

  -- `AssignMission` changes no task that is done, and none that a worker was given at most 40
  -- seconds ago and has not finished.
  pub no_early_handover :
      (w : WorkType)
      → get_elem? (tasks w c) k ≡ some t
      → IsDone t ⊎ IsHeld now t
      → get_elem? (tasks w (assign_mission now late c).0) k ≡ some t
  no_early_handover w e h = assign-keeps w e (ground arith)

-- Whatever message the coordinator handles, a map task or reduce task that is done stays as it is.
pub done_is_final :
    {c d : Coordinator}
    → Step c d
    → (w : WorkType) (k : ℕ) (t : Task) → get_elem? (tasks w c) k ≡ some t
    → IsDone t
    → get_elem? (tasks w d) k ≡ some t
done_is_final {c} (assign now late) w k t e h = no_early_handover now late c k t w e (inl h)
done_is_final {c} (map_finish args ran) map k t e h =
    let (ts, f, same) = map_finish-finish args c ran in
    rw same (finish-keeps_done args.task c.maptask f k t e h)
done_is_final {c} (map_finish args ran) reduce k t e h =
    let (ts, f, same) = map_finish-finish args c ran in rw same e
done_is_final {c} (reduce_finish args ran) map k t e h =
    let (ts, f, same) = reduce_finish-finish args c ran in rw same e
done_is_final {c} (reduce_finish args ran) reduce k t e h =
    let (ts, f, same) = reduce_finish-finish args c ran in
    rw same (finish-keeps_done args.task c.reducetask f k t e h)
done_is_final st waiting k t e h = absurd (ground (arith, e))

-- A message with the timestamp of an assignment that has been replaced since.
finish-late :
    {now : ℕ} {mark : Task → Task} {ts ts' : List Task} {x : Task} (a : Assigns now mark ts ts' x)
    (stamp : ℕ)
    → (mark a.task).timestamp ≡ stamp
    → now ≤ stamp
    → (m t : Task) → get_elem? ts m.index ≡ some t
    → t.missionstate ≡ running
    → m.timestamp ≡ t.timestamp
    → get_elem? ts' m.index ≢ some t
    → finish m ts' ≡ some ts'
unfolding finish
finish-late {ts} {ts'} {x} a stamp stamped le m t e busy same moved =
    elim (ℕ_discrete a.at m.index) [
      | yes here ↦
          let new : get_elem? ts' m.index ≡ some x =
            rw a.marked (ground (arith, get_elem?-set_self ts a.at a.task x a.found)) in
          ground (arith, new, a.given, a.found, a.free)
      | no there ↦
          absurd (moved (rw a.marked (ground (arith, get_elem?-set_ne ts a.at m.index x there))))
    ]

module _ (now late : ℕ) (c : Coordinator) (args : CallArgs) (t : Task) where
  map_phase-late :
      get_elem? c.maptask args.task.index ≡ some t
      → t.missionstate ≡ running
      → args.task.timestamp ≡ t.timestamp
      → (r : Scan) → Outcome now (assign_map now) true c.maptask r
      → get_elem? (map_phase now late c r).0.maptask args.task.index ≢ some t
      → handle_map_finish args (map_phase now late c r).0 ≡ some (map_phase now late c r).0
  unfolding handle_map_finish
  map_phase-late e busy same (assigned ts x) o moved =
      ground (arith, finish-late o now refl (omega arith) args.task t e busy same moved)
  map_phase-late e busy same (passed f) o moved = absurd (moved e)

  reduce_phase-late :
      now ≤ late
      → get_elem? c.reducetask args.task.index ≡ some t
      → t.missionstate ≡ running
      → args.task.timestamp ≡ t.timestamp
      → (r : Scan) → Outcome now (assign_reduce late) true c.reducetask r
      → get_elem? (reduce_phase now late c r).0.reducetask args.task.index ≢ some t
      → handle_reduce_finish args (reduce_phase now late c r).0 ≡ some (reduce_phase now late c r).0
  unfolding handle_reduce_finish
  reduce_phase-late le e busy same (assigned ts x) o moved =
      ground (arith, finish-late o late refl le args.task t e busy same moved)
  reduce_phase-late le e busy same (passed f) o moved = absurd (moved e)

  -- If `AssignMission` takes a running map task from its worker, the finish message of that worker,
  -- which carries the earlier timestamp, changes nothing when it comes afterwards.
  pub late_map_finish_ignored :
      get_elem? c.maptask args.task.index ≡ some t
      → t.missionstate ≡ running
      → args.task.timestamp ≡ t.timestamp
      → get_elem? (assign_mission now late c).0.maptask args.task.index ≢ some t
      → handle_map_finish args (assign_mission now late c).0 ≡ some (assign_mission now late c).0
  late_map_finish_ignored e busy same moved = elim (Bool-cases c.maptaskfinish) [
    | inl h ↦ absurd (
        moved (
          rw (assign-reduce_phase now late c h, reduce_phase-maptask now late c args.task.index t)
            e))
    | inr h ↦ rw (assign-map_phase now late c h) (
        map_phase-late e busy same _ (scan-Outcome now (assign_map now) true c.maptask)
          (rw (assign-map_phase now late c h) at moved))
  ]

  -- If `AssignMission` takes a running reduce task from its worker, and its second reading of the
  -- clock is not before the first, the finish message of that worker, which carries the earlier
  -- timestamp, changes nothing when it comes afterwards.
  pub late_reduce_finish_ignored :
      now ≤ late
      → get_elem? c.reducetask args.task.index ≡ some t
      → t.missionstate ≡ running
      → args.task.timestamp ≡ t.timestamp
      → get_elem? (assign_mission now late c).0.reducetask args.task.index ≢ some t
      → handle_reduce_finish args (assign_mission now late c).0 ≡ some (assign_mission now late c).0
  late_reduce_finish_ignored le e busy same moved = elim (Bool-cases c.maptaskfinish) [
    | inl h ↦ rw (assign-reduce_phase now late c h) (
        reduce_phase-late le e busy same _ (scan-Outcome now (assign_reduce late) true c.reducetask)
          (rw (assign-reduce_phase now late c h) at moved))
    | inr h ↦ absurd (
        moved
          (rw (assign-map_phase now late c h, map_phase-reducetask now late c args.task.index t) e))
  ]
