-- ===== src/MapReduce/Coordinator/Tests.antt =====
-- The coordinator of a small job.
use mathlib.Core.Option
use lab_implementation.Common.{
  ℕ, ◌*◌, ◌^◌, ◌≡◌, refl, String, true, false, Option, some, List, [], ◌∷◌, get_elem?, All, arith,
  inr,
}
use lab_implementation.MapReduce.{running, done, map, reduce, Task, empty_task}
use lab_implementation.MapReduce.Coordinator.{
  Coordinator, scan, assign_mission, finish, handle_map_finish, handle_reduce_finish, is_done,
  make_coordinator,
}
use lab_implementation.MapReduce.Coordinator.Scans.{IsDone}
use lab_implementation.MapReduce.Coordinator.Phases.{
  Reach, start, later, assign, map_finish, reduce_finish, is_done-All-IsDone, reduce_after_map,
}
use lab_implementation.MapReduce.Coordinator.Handover.{tasks, no_early_handover, done_is_final}
use lab_implementation.MapReduce.Coordinator.Rounds.{finish_args, worker_rounds}
use lab_implementation.MapReduce.Coordinator.Recovery.{live_worker_finishes}

-- One file, one reduce task; each pattern names one file.
abbrev one_file : String → Option (List String)
one_file f = some (f ∷ [])

abbrev a_name : ℕ → ℕ → String
a_name index i = "mr-x-y"

abbrev job : Coordinator
job = record {
  filename = "pg" ∷ [];
  nreduce = 1;
  maptask = record empty_task { mapfile = "pg" } ∷ [];
  reducetask = record empty_task { worktype = reduce; reducefiles = "mr-x-y" ∷ [] } ∷ [];
  maptaskfinish = false;
  reducetaskfinish = false;
}

job_made : make_coordinator one_file a_name ("pg" ∷ []) 1 ≡ some job
unfolding make_coordinator
job_made = refl

abbrev seconds : ℕ → ℕ
seconds n = n * 10 ^ 9

-- The job after the given rounds of a lone worker, with the way there.
abbrev after_map : Coordinator
after_map = record job {
  maptask = record empty_task { mapfile = "pg"; timestamp = seconds 1; missionstate = done } ∷ [];
}

handed_out : Coordinator
handed_out = (assign_mission (seconds 1) (seconds 1) job).0

reach_map : Reach job after_map
unfolding assign_mission scan handle_map_finish finish
reach_map =
    later (later start (assign (seconds 1) (seconds 1)))
      (map_finish (finish_args (assign_mission (seconds 1) (seconds 1) job).1.task) refl)

abbrev noticed : Coordinator
noticed = record after_map { maptaskfinish = true }

reach_noticed : Reach job noticed
unfolding assign_mission scan
reach_noticed = later reach_map (assign (seconds 2) (seconds 2))

abbrev finished : Coordinator
finished = record noticed {
  reducetask =
      record empty_task {
        worktype = reduce;
        reducefiles = "mr-x-y" ∷ [];
        timestamp = seconds 3;
        missionstate = done;
      }
      ∷ [];
  reducetaskfinish = true;
}

reach_finished : Reach job finished
unfolding assign_mission scan handle_reduce_finish finish
reach_finished =
    later
      (later (later reach_noticed (assign (seconds 3) (seconds 3)))
        (reduce_finish (finish_args (assign_mission (seconds 3) (seconds 3) noticed).1.task) refl))
      (assign (seconds 4) (seconds 4))

is_done-All-IsDone_example : All IsDone finished.maptask × All IsDone finished.reducetask
unfolding is_done
is_done-All-IsDone_example =
    is_done-All-IsDone one_file a_name ("pg" ∷ []) 1 job_made reach_finished refl

reduce_after_map_example : All IsDone noticed.maptask
unfolding assign_mission scan
reduce_after_map_example =
    reduce_after_map one_file a_name ("pg" ∷ []) 1 job_made reach_noticed (seconds 3) (seconds 3)
      refl

abbrev held : Task
held = record empty_task { mapfile = "pg"; timestamp = seconds 1; missionstate = running }

abbrev holding : Coordinator
holding = record job { maptask = held ∷ [] }

no_early_handover_example :
    get_elem? (tasks map (assign_mission (seconds 41) (seconds 41) holding).0) 0 ≡ some held
no_early_handover_example =
    no_early_handover (seconds 41) (seconds 41) holding 0 held map refl (inr (refl, omega arith))

done_is_final_example :
    get_elem? (tasks map (assign_mission (seconds 90) (seconds 90) after_map).0) 0
    ≡ some (record held { missionstate = done })
done_is_final_example =
    done_is_final (assign (seconds 90) (seconds 90)) map 0 (record held { missionstate = done })
      refl refl

-- The first worker's time is over, a second one has the task.

abbrev four_rounds : List (ℕ × ℕ)
four_rounds =
    (seconds 50, seconds 50)
    ∷ (seconds 51, seconds 51)
    ∷ (seconds 52, seconds 52)
    ∷ (seconds 53, seconds 53)
    ∷ []

live_worker_finishes_example :
    (e : Coordinator) × (worker_rounds four_rounds job ≡ some e) × (is_done e ≡ true)
live_worker_finishes_example =
    live_worker_finishes one_file a_name ("pg" ∷ []) 1 job_made start four_rounds (omega arith)
      (omega arith)

lone_worker_result : Option.map is_done (worker_rounds four_rounds job) ≡ some true
unfolding worker_rounds assign_mission scan handle_map_finish handle_reduce_finish finish is_done
lone_worker_result = refl
