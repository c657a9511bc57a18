-- ===== src/MapReduce/Coordinator/Rounds.antt =====
-- The loop of `Worker` in 6.5840/src/mr/worker.go, as the coordinator sees it.
use lab_implementation.Common.{ℕ, ◌+◌, ◌≤◌, Bool, true, false, Option, none, some, List, [], ◌∷◌}
use lab_implementation.MapReduce.{
  done, map, reduce, waiting, Task, empty_task, return_task, CallArgs, TaskReply,
}
use lab_implementation.MapReduce.Coordinator.{
  Coordinator, assign_mission, handle_map_finish, handle_reduce_finish,
}

-- `FinishArgs`, as `HandleMap` and `HandleReduce` fill it in.
abbrev pub finish_args : Task → CallArgs
finish_args t = record {
  call_type = return_task;
  task = record empty_task { index = t.index; timestamp = t.timestamp };
}

-- What the worker reports after it has worked on what it got; a waiting worker reports nothing.
unfoldable pub report : Coordinator × TaskReply → Option Coordinator
report (c, reply) = elim reply.task.worktype [
  | map ↦ handle_map_finish (finish_args reply.task) c
  | reduce ↦ handle_reduce_finish (finish_args reply.task) c
  | waiting ↦ some c
]

-- One round of the loop of `Worker`: ask for a task, work on it, report it. `none` is a panic of the
-- coordinator.
unfoldable pub worker_round : ℕ → ℕ → Coordinator → Option Coordinator
unfolding report
worker_round now late c = report (assign_mission now late c)

-- Rounds at the given readings of the clock.
unfoldable pub worker_rounds : List (ℕ × ℕ) → Coordinator → Option Coordinator
unfolding worker_round
worker_rounds [] c = some c
worker_rounds ((now, late) ∷ times) c = elim (worker_round now late c) [
  | none ↦ none
  | some d ↦ worker_rounds times d
]

abbrev pub cost : Task → ℕ
cost t = elim t.missionstate [ done ↦ 0 | _ ↦ 1 ]

abbrev pub undone : List Task → ℕ
undone [] = 0
undone (t ∷ ts) = cost t + undone ts

abbrev pub missing : Bool → ℕ
missing true = 0
missing false = 1

-- The tasks that are not done, and one more for each phase whose end is not yet noticed.
abbrev pub work_left : Coordinator → ℕ
work_left c =
    undone c.maptask + undone c.reducetask + missing c.maptaskfinish + missing c.reducetaskfinish

-- The clock of each round has passed the limit.
abbrev pub AllAfter : ℕ → List (ℕ × ℕ) → Type 0
AllAfter limit [] = Unit
AllAfter limit ((now, late) ∷ times) = (limit ≤ now) × AllAfter limit times
