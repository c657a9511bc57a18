-- ===== src/MapReduce.antt =====
-- 6.5840/src/mr: the messages and tasks of MapReduce (rpc.go). A `time.Time` is its nanoseconds
-- since the zero time.
pub mod Coordinator
pub mod Worker
pub mod Apps
use lab_implementation.Common.{ℕ, String, Bool, true, false, List, []}

pub data MissionState : Type 0 where
  ready running done : MissionState

pub data WorkType : Type 0 where
  map reduce waiting : WorkType

pub record Task : Type 0 where
  pub worktype : WorkType
  pub missionstate : MissionState
  pub index : ℕ
  pub timestamp : ℕ
  pub mapfile : String
  pub reducefiles : List String

-- `Task{}`
abbrev pub empty_task : Task
empty_task = record {
  worktype = map;
  missionstate = ready;
  index = 0;
  timestamp = 0;
  mapfile = "";
  reducefiles = [];
}

pub data WorkerMessageType : Type 0 where
  request_task return_task : WorkerMessageType

pub record CallArgs : Type 0 where
  pub call_type : WorkerMessageType
  pub task : Task

pub record TaskReply : Type 0 where
  pub task : Task
  pub nreduce : ℕ

abbrev pub is_ready : MissionState → Bool
is_ready ready = true
is_ready _ = false

abbrev pub is_running : MissionState → Bool
is_running running = true
is_running _ = false
