-- ===== src/MapReduce/Coordinator/Recovery.antt =====
-- From every state that the coordinator can reach, one live worker brings the job to its end.
use Prim.Native.Nat.{max}
use native.Mathlib.Numerals.{add-one}
use lab_implementation.Common.{
  ℕ, zero, suc, ◌+◌, ◌≤◌, ◌<◌, ◌≡◌, inl, inr, refl, String, true, Option, some, List, [], ◌∷◌,
  length, get_elem?, set, arith, Bool-cases,
}
use lab_implementation.MapReduce.{done, Task}
use lab_implementation.MapReduce.Coordinator.{
  Coordinator, time_limit, Scan, assigned, passed, assign_map, assign_reduce, finish, map_tasks,
  reduce_tasks, make_coordinator, is_done,
}
use lab_implementation.MapReduce.Coordinator.Scans.{Outcome, scan-Outcome, finish-cases}
use lab_implementation.MapReduce.Coordinator.Phases.{
  Step, assign, map_finish, reduce_finish, Reach, start, later, map_phase, reduce_phase,
  assign-map_phase, assign-reduce_phase, map_finish-finish, reduce_finish-finish, make_lem,
  make-Inv, Reach-Inv,
}
use lab_implementation.MapReduce.Coordinator.Progress.{Serviceable, rounds-finish}
use lab_implementation.MapReduce.Coordinator.Rounds.{worker_rounds, work_left, AllAfter}

-- Each task stands where its index says.
abbrev pub Placed : ℕ → List Task → Type 0
Placed i [] = Unit
Placed i (t ∷ ts) = (t.index ≡ i) × Placed (suc i) ts

Placed-set :
    (i : ℕ) (ts : List Task) (k : ℕ) (t v : Task)
    → get_elem? ts k ≡ some t
    → v.index ≡ t.index
    → Placed i ts
    → Placed i (set ts k v)
Placed-set i [] k t v e same h = tt
Placed-set i (u ∷ us) zero t v e same h = (ground arith, h.1)
Placed-set i (u ∷ us) (suc k) t v e same h = (h.0, Placed-set (suc i) us k t v e same h.1)

Placed-at :
    (i : ℕ) (ts : List Task) (k : ℕ) (t : Task)
    → Placed i ts
    → get_elem? ts k ≡ some t
    → t.index ≡ i + k
Placed-at i [] k t h e = absurd (ground (arith, e))
Placed-at i (u ∷ us) zero t h e = ground arith
Placed-at i (u ∷ us) (suc k) t h e = omega (arith, Placed-at (suc i) us k t h.1 e)

Placed-finish :
    (m : Task) (ts : List Task) {ts' : List Task}
    → finish m ts ≡ some ts'
    → Placed 0 ts
    → Placed 0 ts'
Placed-finish m ts ran h = elim (finish-cases m ts ran) [
  | inl same ↦ rw same h
  | inr (t, found, stamp, e) ↦
      rw e (Placed-set 0 ts m.index t (record t { missionstate = done }) found refl h)
]

record Places (c : Coordinator) : Type 0 where
  maps : Placed 0 c.maptask
  reduces : Placed 0 c.reducetask

module _ (now late : ℕ) {c : Coordinator} (h : Places c) where
  map_phase-Places :
      (r : Scan) → Outcome now (assign_map now) true c.maptask r → Places (map_phase now late c r).0
  map_phase-Places (assigned ts x) o = record {
    maps =
        rw o.marked (Placed-set 0 c.maptask o.at o.task x o.found (ground (arith, o.given)) h.maps);
    reduces = h.reduces;
  }
  map_phase-Places (passed f) o = record { maps = h.maps; reduces = h.reduces }

  reduce_phase-Places :
      (r : Scan)
      → Outcome now (assign_reduce late) true c.reducetask r
      → Places (reduce_phase now late c r).0
  reduce_phase-Places (assigned ts x) o = record {
    maps = h.maps;
    reduces =
        rw o.marked
          (Placed-set 0 c.reducetask o.at o.task x o.found (ground (arith, o.given)) h.reduces);
  }
  reduce_phase-Places (passed f) o = record { maps = h.maps; reduces = h.reduces }

Step-Places : {c d : Coordinator} → Step c d → Places c → Places d
Step-Places {c} (assign now late) h = elim (Bool-cases c.maptaskfinish) [
  | inl e ↦
      rw (assign-reduce_phase now late c e)
        (reduce_phase-Places now late h _ (scan-Outcome now (assign_reduce late) true c.reducetask))
  | inr e ↦
      rw (assign-map_phase now late c e)
        (map_phase-Places now late h _ (scan-Outcome now (assign_map now) true c.maptask))
]
Step-Places {c} (map_finish args ran) h =
    let (ts, e, same) = map_finish-finish args c ran in
    rw same (record { maps = Placed-finish args.task c.maptask e h.maps; reduces = h.reduces })
Step-Places {c} (reduce_finish args ran) h =
    let (ts, e, same) = reduce_finish-finish args c ran in
    rw same (record { maps = h.maps; reduces = Placed-finish args.task c.reducetask e h.reduces })

map_tasks-Placed : (i : ℕ) (names : List String) → Placed i (map_tasks i names)
unfolding map_tasks
map_tasks-Placed i [] = tt
map_tasks-Placed i (n ∷ names) = (refl, rw add-one (map_tasks-Placed (suc i) names))

reduce_tasks-Placed :
    (sprintf : ℕ → ℕ → String) (i r : ℕ) (names : List String)
    → Placed i (reduce_tasks sprintf i r names)
unfolding reduce_tasks
reduce_tasks-Placed sprintf i zero names = tt
reduce_tasks-Placed sprintf i (suc r) names =
    (refl, rw add-one (reduce_tasks-Placed sprintf (suc i) r names))

-- The latest time at which a task was handed out.
abbrev pub latest : List Task → ℕ
latest [] = 0
latest (t ∷ ts) = max t.timestamp (latest ts)

latest-le : (ts : List Task) (k : ℕ) (t : Task) → get_elem? ts k ≡ some t → t.timestamp ≤ latest ts
latest-le [] k t e = absurd (ground (arith, e))
latest-le (u ∷ us) zero t e = ground arith
latest-le (u ∷ us) (suc k) t e = omega (arith, latest-le us k t e)

-- From this time on no worker holds a task that it got before.
abbrev pub quiet_after : Coordinator → ℕ
quiet_after c = max (latest c.maptask) (latest c.reducetask) + time_limit + 1

Reach-Places : {c d : Coordinator} → Places c → Reach c d → Places d
Reach-Places h start = h
Reach-Places h (later r st) = Step-Places st (Reach-Places h r)

Serviceable-of_Placed :
    (limit : ℕ) (ts : List Task)
    → Placed 0 ts
    → latest ts + time_limit < limit
    → Serviceable limit ts
Serviceable-of_Placed limit ts h lt k t e = record {
  place = omega (arith, Placed-at 0 ts k t h e);
  overdue = λ _. omega (arith, latest-le ts k t e);
}

module _ (glob : String → Option (List String)) (sprintf : ℕ → ℕ → String) (files : List String)
    (nreduce : ℕ) {c : Coordinator}
    (made : make_coordinator glob sprintf files nreduce ≡ some c) where
  make-Places : Places c
  make-Places =
      let (names, e, same) = make_lem glob sprintf files nreduce made in
      rw same (record {
        maps = map_tasks-Placed 0 names;
        reduces = reduce_tasks-Placed sprintf 0 nreduce names;
      })

  -- Whatever messages the coordinator has handled since `MakeCoordinator`, and whatever workers have
  -- stopped with tasks in hand: once the time of the tasks handed out so far is over, one worker
  -- that goes on asking and reporting brings the job to its end with no panic of the coordinator,
  -- in as many rounds as there are tasks not done and phases whose end is not noticed, or more.
  pub live_worker_finishes :
      {d : Coordinator}
      → Reach c d
      → (times : List (ℕ × ℕ)) → AllAfter (quiet_after d) times
      → work_left d ≤ length times
      → (e : Coordinator) × (worker_rounds times d ≡ some e) × (is_done e ≡ true)
  live_worker_finishes {d} r times after enough =
      let places = Reach-Places make-Places r in
      rounds-finish times
        (record {
          inv = Reach-Inv (make-Inv glob sprintf files nreduce made) r;
          maps = Serviceable-of_Placed (quiet_after d) d.maptask places.maps (omega arith);
          reduces = Serviceable-of_Placed (quiet_after d) d.reducetask places.reduces (omega arith);
        })
        after enough
