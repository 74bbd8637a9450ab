-- ===== src/Tasks/State.antt =====
-- packages/agent-core/src/agents/background: tasks, their events and the state of the registry.
use ephemeral_agent.Common.{ℕ, String, Bool, Option, List}
use ephemeral_agent.Waiters.{Waiters}

pub data Status : Type 0 where
  success failed cancelled : Status

pub record BackgroundTaskOutcome : Type 0 where
  pub status : Status
  pub outcome : String

pub record Tag : Type 0 where
  pub type : String
  pub id : String

-- What a spawn site hands over; its `cancel`, `done` and `onCompletion` are the host's.
pub record BackgroundTask : Type 0 where
  pub tag : Tag
  pub title : String
  pub silent : Bool

pub record BackgroundTaskRow : Type 0 where
  pub task_id : String
  pub tag : Tag
  pub title : String
  pub started_at : ℕ

pub data LifecycleEvent : Type 0 where
  task_registered : BackgroundTaskRow → LifecycleEvent
  task_settled : String → Tag → String → BackgroundTaskOutcome → Option String → LifecycleEvent

pub record TaskEntry : Type 0 where
  pub task : BackgroundTask
  pub row : BackgroundTaskRow
  pub settling : Bool

-- A suspended `#teardown` or `#complete`, with the entry that its closure holds.
pub data Phase : Type 0 where
  tearing_down handling : Phase

pub record Continuation : Type 0 where
  pub entry : TaskEntry
  pub phase : Phase
  pub outcome : BackgroundTaskOutcome

-- `emitted` is what went to the run's emitter; `cancels` and `handled` are the calls of the hosts'
-- `cancel` and `onCompletion`.
pub record Supervisor : Type 0 where
  pub entries : List TaskEntry
  pub wakers : Waiters
  pub changes : ℕ
  pub disposed_reason : Option String
  pub emitted : List LifecycleEvent
  pub suspended : List Continuation
  pub cancels : List (String × Option String)
  pub handled : List (String × BackgroundTaskOutcome)
