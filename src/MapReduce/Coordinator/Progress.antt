-- ===== src/MapReduce/Coordinator/Progress.antt =====
-- From a coordinator whose tasks are in place and out of time, the rounds of one worker end the job.
use lab_implementation.Common.{
  ℕ, zero, suc, ◌+◌, ◌≤◌, ◌<◌, ◌≡◌, ◌⊎◌, inl, inr, refl, true, false, Option, none, some, List, [],
  ◌∷◌, length, get_elem?, set, All, get_elem?-set_self, get_elem?-set_ne, get_elem?-set-some,
  set-set, ℕ_discrete, arith, Bool-cases, subst, ◌∙◌, ap, All-get_elem?,
}
use lab_implementation.MapReduce.{running, done, WorkType, map, reduce, waiting, Task, TaskReply}
use lab_implementation.MapReduce.Coordinator.{
  Coordinator, time_limit, Scan, assigned, passed, assignable, scan, assign_map, assign_reduce,
  assign_mission, finish, handle_map_finish, handle_reduce_finish, is_done,
}
use lab_implementation.MapReduce.Coordinator.Scans.{IsDone, Assigns, Outcome, scan-Outcome}
use lab_implementation.MapReduce.Coordinator.Phases.{
  IsMap, Inv, assign, map_finish, reduce_finish, Step-Inv, map_phase, reduce_phase,
  assign-map_phase, assign-reduce_phase,
}
use lab_implementation.MapReduce.Coordinator.Rounds.{
  finish_args, report, worker_round, worker_rounds, cost, undone, work_left, AllAfter,
}

-- The task is where its index says, and if a worker had it at all, its time is over at `limit`.
pub record IsServiceable (limit k : ℕ) (t : Task) : Type 0 where
  pub place : t.index ≡ k
  pub overdue : t.missionstate ≡ running → t.timestamp + time_limit < limit

abbrev pub Serviceable : ℕ → List Task → Type 0
Serviceable limit ts = (k : ℕ) (t : Task) → get_elem? ts k ≡ some t → IsServiceable limit k t

undone-set :
    (ts : List Task) (i : ℕ) (t v : Task)
    → get_elem? ts i ≡ some t
    → undone (set ts i v) + cost t ≡ undone ts + cost v
undone-set [] i t v h = cc
undone-set (u ∷ us) zero t v h = ground (arith)
undone-set (u ∷ us) (suc i) t v h = omega (arith, undone-set us i t v h)

-- Where no task can be handed out, each is done.
All-IsDone :
    (limit now : ℕ)
    → limit ≤ now
    → (ts : List Task)
    → ((k : ℕ) (t : Task)
        → get_elem? ts k ≡ some t
        → t.missionstate ≡ running
        → t.timestamp + time_limit < limit)
    → All (λ t. assignable now t ≡ false) ts
    → All IsDone ts
All-IsDone limit now le [] h busy = tt
All-IsDone limit now le (t ∷ ts) h busy =
    (ground (arith, h 0 t), All-IsDone limit now le ts (λ k. h (suc k)) busy.1)

module _ {now : ℕ} {mark : Task → Task} {ts ts' : List Task} {x : Task}
    (a : Assigns now mark ts ts' x) (place : x.index ≡ a.at) where
  finish-own :
      finish (finish_args x).task ts' ≡ some (set ts a.at (record x { missionstate = done }))
  unfolding finish
  finish-own =
      let new : get_elem? ts' a.at ≡ some x =
        rw a.marked (get_elem?-set_self ts a.at a.task x a.found) in
      ground (arith, new, a.marked, set-set ts a.at x (record x { missionstate = done }))

  undone-own : undone (set ts a.at (record x { missionstate = done })) + 1 ≡ undone ts
  undone-own =
      ground (arith, undone-set ts a.at a.task (record x { missionstate = done }) a.found, a.free)

Serviceable-done :
    (limit : ℕ) (ts : List Task) (i : ℕ) (x : Task)
    → x.index ≡ i
    → Serviceable limit ts
    → Serviceable limit (set ts i (record x { missionstate = done }))
Serviceable-done limit ts i x place h k t e = elim (ℕ_discrete i k) [
  | yes here ↦
      let same = get_elem?-set-some ts i t (record x { missionstate = done }) (ground arith) in
      record { place = ground arith; overdue = λ r. ground arith }
  | no there ↦
      h k t (ground (arith, get_elem?-set_ne ts i k (record x { missionstate = done }) there))
]

pub record IsGood (limit : ℕ) (c : Coordinator) : Type 0 where
  pub inv : Inv c
  pub maps : Serviceable limit c.maptask
  pub reduces : Serviceable limit c.reducetask

report-Inv :
    (w : WorkType) (c : Coordinator) (reply : TaskReply) {d : Coordinator}
    → reply.task.worktype ≡ w
    → report (c, reply) ≡ some d
    → Inv c
    → Inv d
unfolding report
report-Inv map c reply e h inv = Step-Inv (map_finish (finish_args reply.task) (ground arith)) inv
report-Inv reduce c reply e h inv =
    Step-Inv (reduce_finish (finish_args reply.task) (ground arith)) inv
report-Inv waiting c reply e h inv = subst Inv (ground arith) inv

worker_round-Inv :
    (now late : ℕ) (c : Coordinator) {d : Coordinator}
    → worker_round now late c ≡ some d
    → Inv c
    → Inv d
unfolding worker_round
worker_round-Inv now late c h inv =
    let (c', reply) = assign_mission now late c in
    report-Inv reply.task.worktype c' reply refl h (Step-Inv (assign now late) inv)

-- A round ends the job or takes one from the work that is left.
abbrev Advances : ℕ → Coordinator → Coordinator → Type 0
Advances limit c d =
    Serviceable limit d.maptask
    × Serviceable limit d.reducetask
    × ((is_done d ≡ true) ⊎ (work_left d + 1 ≡ work_left c))

module _ {limit : ℕ} {c : Coordinator} (good : IsGood limit c) (now late : ℕ)
    (le : limit ≤ now) where
  abbrev Result : Type 0
  Result = (d : Coordinator) × (worker_round now late c ≡ some d) × Advances limit c d

  map_round :
      c.maptaskfinish ≡ false
      → (r : Scan) → scan now (assign_map now) true c.maptask ≡ r
      → Outcome now (assign_map now) true c.maptask r
      → Result
  unfolding worker_round handle_map_finish
  map_round h (assigned ts x) e o =
      let place : x.index ≡ o.at = ground (arith, o.given, (good.maps o.at o.task o.found).place) in
      let kind : x.worktype ≡ map =
        ground (arith, o.given, All-get_elem? IsMap c.maptask o.at o.task good.inv.kinds o.found) in
      (
        record c {
          maptask = set c.maptask o.at (record x { missionstate = done });
          maptaskfinish = false;
        },
        ap report (assign-map_phase now late c h ∙ ap (map_phase now late c) e)
            ∙ ground (arith, kind, finish-own o place),
        (
          Serviceable-done limit c.maptask o.at x place good.maps,
          good.reduces,
          inr (ground (arith, h, undone-own o place)),
        ),
      )
  map_round h (passed f) e o =
      let ended : f ≡ true =
        o.2 (All-IsDone limit now le c.maptask (λ k t p. (good.maps k t p).overdue) o.0) in
      (
        record c { maptaskfinish = f },
        ap report (assign-map_phase now late c h ∙ ap (map_phase now late c) e),
        (good.maps, good.reduces, inr (ground (arith, h, ended))),
      )

  reduce_round :
      c.maptaskfinish ≡ true
      → (r : Scan) → scan now (assign_reduce late) true c.reducetask ≡ r
      → Outcome now (assign_reduce late) true c.reducetask r
      → Result
  unfolding worker_round handle_reduce_finish is_done
  reduce_round h (assigned ts x) e o =
      let place : x.index ≡ o.at =
        ground (arith, o.given, (good.reduces o.at o.task o.found).place) in
      let unfinished : c.reducetaskfinish ≡ false = elim (Bool-cases c.reducetaskfinish) [
        | inl all ↦ absurd (
            ground (
              arith,
              o.free,
              All-get_elem? IsDone c.reducetask o.at o.task (good.inv.reduces all) o.found,
            ))
        | inr more ↦ more
      ] in
      (
        record c {
          reducetask = set c.reducetask o.at (record x { missionstate = done });
          reducetaskfinish = false;
        },
        ap report (assign-reduce_phase now late c h ∙ ap (reduce_phase now late c) e)
            ∙ ground (arith, o.given, finish-own o place),
        (
          good.maps,
          Serviceable-done limit c.reducetask o.at x place good.reduces,
          inr (ground (arith, unfinished, undone-own o place)),
        ),
      )
  reduce_round h (passed f) e o =
      let ended : f ≡ true =
        o.2 (All-IsDone limit now le c.reducetask (λ k t p. (good.reduces k t p).overdue) o.0) in
      (
        record c { reducetaskfinish = f },
        ap report (assign-reduce_phase now late c h ∙ ap (reduce_phase now late c) e),
        (good.maps, good.reduces, inl (ground (arith, h, ended))),
      )

  worker_round_lem : Result
  worker_round_lem = elim (Bool-cases c.maptaskfinish) [
    | inl h ↦ reduce_round h _ refl (scan-Outcome now (assign_reduce late) true c.reducetask)
    | inr h ↦ map_round h _ refl (scan-Outcome now (assign_map now) true c.maptask)
  ]

undone-zero : (ts : List Task) → All IsDone ts → undone ts ≡ 0
undone-zero [] h = refl
undone-zero (t ∷ ts) h = ground (arith, undone-zero ts h.1, h.0)

work_left-done : {c : Coordinator} → Inv c → is_done c ≡ true → work_left c ≡ 0
unfolding is_done
work_left-done {c} inv h = ground (
  arith,
  undone-zero c.maptask (inv.maps (ground arith)),
  undone-zero c.reducetask (inv.reduces (ground arith)),
)

worker_rounds-step :
    (now late : ℕ) (times : List (ℕ × ℕ)) (c : Coordinator) {d : Coordinator}
    → worker_round now late c ≡ some d
    → worker_rounds ((now, late) ∷ times) c ≡ worker_rounds times d
unfolding worker_rounds
worker_rounds-step now late times c {d} ran =
    ap
      (λ (o : Option Coordinator). elim o as (λ _. Option Coordinator) [
        | none ↦ none
        | some x ↦ worker_rounds times x
      ])
      ran

-- In as many rounds as there is work left, and in any larger number, the job is done.
pub rounds-finish :
    {limit : ℕ} (times : List (ℕ × ℕ)) {c : Coordinator}
    → IsGood limit c
    → AllAfter limit times
    → work_left c ≤ length times
    → (d : Coordinator) × (worker_rounds times c ≡ some d) × (is_done d ≡ true)
unfolding worker_rounds is_done
rounds-finish [] {c} good after enough = (c, refl, ground arith)
rounds-finish {limit} ((now, late) ∷ times) {c} good after enough =
    let (d, ran, advance) = worker_round_lem good now late after.0 in
    let inv = worker_round-Inv now late c ran good.inv in
    let left : work_left d ≤ length times = elim advance.2 [
      | inl ended ↦ omega (arith, work_left-done inv ended)
      | inr one ↦ omega arith
    ] in
    let (e, rest, ended) =
      rounds-finish times (record { inv = inv; maps = advance.0; reduces = advance.1 }) after.1
        left in
    (e, worker_rounds-step now late times c ran ∙ rest, ended)
