-- ===== src/MapReduce/Coordinator/Phases.antt =====
-- The coordinator under any messages of any workers: the reduce phase follows the map phase, the
-- job is done when every task is, and a finished task stays so.
use lab_implementation.Common.{
  ℕ, ◌+◌, ◌≡◌, ◌≢◌, inl, inr, refl, String, true, false, Option, some, List, [], ◌∷◌, All, All-set,
  All-get_elem?, arith, Bool-cases, Option-cases,
}
use lab_implementation.MapReduce.{map, reduce, Task, CallArgs, TaskReply}
use lab_implementation.MapReduce.Coordinator.{
  Coordinator, Scan, assigned, passed, scan, assign_map, assign_reduce, assign_mission, finish,
  handle_map_finish, handle_reduce_finish, is_done, make_coordinator, glob_all, map_tasks,
  reduce_tasks, wait_reply,
}
use lab_implementation.MapReduce.Coordinator.Scans.{
  IsDone, Outcome, scan-Outcome, finish-cases, finish-AllDone,
}

-- A message that the coordinator handles; the arguments are whatever a worker sends.
pub data Step (c : Coordinator) : Coordinator → Type 0 where
  assign : (now later : ℕ) → Step c (assign_mission now later c).0
  map_finish : (args : CallArgs) {d : Coordinator} → handle_map_finish args c ≡ some d → Step c d
  reduce_finish :
      (args : CallArgs) {d : Coordinator} → handle_reduce_finish args c ≡ some d → Step c d

pub data Reach (c : Coordinator) : Coordinator → Type 0 where
  start : Reach c c
  later : {d e : Coordinator} → Reach c d → Step d e → Reach c e

abbrev pub IsMap : Task → Type 0
IsMap t = t.worktype ≡ map

pub record Inv (c : Coordinator) : Type 0 where
  pub kinds : All IsMap c.maptask
  pub maps : c.maptaskfinish ≡ true → All IsDone c.maptask
  pub reduces : c.reducetaskfinish ≡ true → All IsDone c.reducetask
  pub order : c.reducetaskfinish ≡ true → c.maptaskfinish ≡ true

-- `AssignMission` in its two phases, by what the scan comes to.
module _ (now late : ℕ) (c : Coordinator) where
  abbrev pub map_phase : Scan → Coordinator × TaskReply
  map_phase (assigned ts t) =
      (record c { maptask = ts; maptaskfinish = false }, record { task = t; nreduce = c.nreduce })
  map_phase (passed f) = (record c { maptaskfinish = f }, wait_reply c.nreduce)

  abbrev pub reduce_phase : Scan → Coordinator × TaskReply
  reduce_phase (assigned ts t) = (
    record c { reducetask = ts; reducetaskfinish = false },
    record { task = t; nreduce = c.nreduce },
  )
  reduce_phase (passed f) = (record c { reducetaskfinish = f }, wait_reply c.nreduce)

  pub assign-map_phase :
      c.maptaskfinish ≡ false
      → assign_mission now late c ≡ map_phase (scan now (assign_map now) true c.maptask)
  unfolding assign_mission
  assign-map_phase h = ground arith

  pub assign-reduce_phase :
      c.maptaskfinish ≡ true
      → assign_mission now late c ≡ reduce_phase (scan now (assign_reduce late) true c.reducetask)
  unfolding assign_mission
  assign-reduce_phase h = ground arith

module _ {c : Coordinator} (inv : Inv c) (now late : ℕ) where
  map_phase-Inv :
      c.maptaskfinish ≡ false
      → (r : Scan) → Outcome now (assign_map now) true c.maptask r
      → Inv (map_phase now late c r).0
  map_phase-Inv h (assigned ts x) o = record {
    kinds = rw o.marked (
        All-set IsMap c.maptask o.at x inv.kinds
          (ground (arith, o.given, All-get_elem? IsMap c.maptask o.at o.task inv.kinds o.found)));
    maps = λ e. cc;
    reduces = inv.reduces;
    order = λ e. ground (arith, inv.order e);
  }
  map_phase-Inv h (passed f) o = record {
    kinds = inv.kinds;
    maps = λ e. (o.1 e).1;
    reduces = inv.reduces;
    order = λ e. ground (arith, inv.order e);
  }

  reduce_phase-Inv :
      c.maptaskfinish ≡ true
      → (r : Scan) → Outcome now (assign_reduce late) true c.reducetask r
      → Inv (reduce_phase now late c r).0
  reduce_phase-Inv h (assigned ts x) o = record {
    kinds = inv.kinds;
    maps = inv.maps;
    reduces = λ e. cc;
    order = λ e. cc;
  }
  reduce_phase-Inv h (passed f) o = record {
    kinds = inv.kinds;
    maps = inv.maps;
    reduces = λ e. (o.1 e).1;
    order = λ e. h;
  }

  assign-Inv : Inv (assign_mission now late c).0
  assign-Inv = elim (Bool-cases c.maptaskfinish) [
    | inl h ↦
        rw (assign-reduce_phase now late c h)
          (reduce_phase-Inv h _ (scan-Outcome now (assign_reduce late) true c.reducetask))
    | inr h ↦
        rw (assign-map_phase now late c h)
          (map_phase-Inv h _ (scan-Outcome now (assign_map now) true c.maptask))
  ]

module _ (args : CallArgs) (c : Coordinator) {d : Coordinator} where
  pub map_finish-finish :
      handle_map_finish args c ≡ some d
      → (ts : List Task) × (finish args.task c.maptask ≡ some ts) × (d ≡ record c { maptask = ts })
  unfolding handle_map_finish
  map_finish-finish h = elim (Option-cases (finish args.task c.maptask)) [
    | inl out ↦ absurd (ground arith)
    | inr (ts, e) ↦ (ts, e, ground arith)
  ]

  pub reduce_finish-finish :
      handle_reduce_finish args c ≡ some d
      → (ts : List Task) × (finish args.task c.reducetask ≡ some ts)
        × (d ≡ record c { reducetask = ts })
  unfolding handle_reduce_finish
  reduce_finish-finish h = elim (Option-cases (finish args.task c.reducetask)) [
    | inl out ↦ absurd (ground arith)
    | inr (ts, e) ↦ (ts, e, ground arith)
  ]

finish-kinds :
    (m : Task) (ts : List Task) {ts' : List Task}
    → finish m ts ≡ some ts'
    → All IsMap ts
    → All IsMap ts'
finish-kinds m ts ran h = elim (finish-cases m ts ran) [
  | inl same ↦ rw same h
  | inr (t, found, stamp, e) ↦
      rw e (All-set IsMap ts m.index _ h (All-get_elem? IsMap ts m.index t h found))
]

pub Step-Inv : {c d : Coordinator} → Step c d → Inv c → Inv d
Step-Inv (assign now late) inv = assign-Inv inv now late
Step-Inv {c} (map_finish args ran) inv =
    let (ts, e, same) = map_finish-finish args c ran in
    rw same (record {
      kinds = finish-kinds args.task c.maptask e inv.kinds;
      maps = λ h. finish-AllDone args.task c.maptask e (inv.maps h);
      reduces = inv.reduces;
      order = inv.order;
    })
Step-Inv {c} (reduce_finish args ran) inv =
    let (ts, e, same) = reduce_finish-finish args c ran in
    rw same (record {
      kinds = inv.kinds;
      maps = inv.maps;
      reduces = λ h. finish-AllDone args.task c.reducetask e (inv.reduces h);
      order = inv.order;
    })

pub Reach-Inv : {c d : Coordinator} → Inv c → Reach c d → Inv d
Reach-Inv inv start = inv
Reach-Inv inv (later r st) = Step-Inv st (Reach-Inv inv r)

map_tasks-IsMap : (i : ℕ) (names : List String) → All IsMap (map_tasks i names)
unfolding map_tasks
map_tasks-IsMap i [] = tt
map_tasks-IsMap i (name ∷ names) = (refl, map_tasks-IsMap (i + 1) names)

map_phase-reply :
    (now late : ℕ) (c : Coordinator)
    → All IsMap c.maptask
    → (r : Scan) → Outcome now (assign_map now) true c.maptask r
    → (map_phase now late c r).1.task.worktype ≢ reduce
map_phase-reply now late c kinds (assigned ts x) o h =
    ground (arith, o.given, All-get_elem? IsMap c.maptask o.at o.task kinds o.found)
map_phase-reply now late c kinds (passed f) o h = cc

module _ (glob : String → Option (List String)) (sprintf : ℕ → ℕ → String) (files : List String)
    (nreduce : ℕ) {c : Coordinator}
    (made : make_coordinator glob sprintf files nreduce ≡ some c) where
  pub make_lem :
      (names : List String) × (glob_all glob files ≡ some names)
      × (c ≡ record {
        filename = names;
        nreduce = nreduce;
        maptask = map_tasks 0 names;
        reducetask = reduce_tasks sprintf 0 nreduce names;
        maptaskfinish = false;
        reducetaskfinish = false;
      })
  unfolding make_coordinator
  make_lem = elim (Option-cases (glob_all glob files)) [
    | inl bad ↦ absurd (ground arith)
    | inr (names, e) ↦ (names, e, ground arith)
  ]

  pub make-Inv : Inv c
  make-Inv =
      let (names, e, same) = make_lem in
      rw same (record {
        kinds = map_tasks-IsMap 0 names;
        maps = λ h. cc;
        reduces = λ h. cc;
        order = λ h. cc;
      })

  -- Whatever messages the coordinator has handled since `MakeCoordinator`, if `Done` returns true
  -- then every map task and every reduce task is done.
  pub is_done-All-IsDone :
      {d : Coordinator}
      → Reach c d
      → is_done d ≡ true
      → All IsDone d.maptask × All IsDone d.reducetask
  unfolding is_done
  is_done-All-IsDone r h =
      let inv = Reach-Inv make-Inv r in (inv.maps (ground arith), inv.reduces (ground arith))

  -- Whatever messages the coordinator has handled since `MakeCoordinator`, it hands out a reduce
  -- task only when every map task is done.
  pub reduce_after_map :
      {d : Coordinator}
      → Reach c d
      → (now late : ℕ) → (assign_mission now late d).1.task.worktype ≡ reduce
      → All IsDone d.maptask
  reduce_after_map {d} r now late h = elim (Bool-cases d.maptaskfinish) [
    | inl finished ↦ (Reach-Inv make-Inv r).maps finished
    | inr unfinished ↦ absurd (
        map_phase-reply now late d (Reach-Inv make-Inv r).kinds _
          (scan-Outcome now (assign_map now) true d.maptask)
          (rw (assign-map_phase now late d unfinished) at h))
  ]
