-- ===== src/Workflow/State.antt =====
-- workflow-runtime.ts: what one run keeps, its snapshots, and how it emits, records and finishes.
use ephemeral_agent.Nodes.Stream
use ephemeral_agent.Common.{
  ℕ, String, Bool, true, false, not, Option, none, some, List, [], ◌∷◌, ◌++◌, map, if◌then◌else◌,
  length, set, select,
}
use ephemeral_agent.Contracts.{JsonObject}
use ephemeral_agent.Nodes.{
  NodeStartSpec, NodeOutcome, NodeRunStatus, NodeRunSnapshot, WorkflowNodeDispatch,
}
use ephemeral_agent.Nodes.Stream.{RunEventStream, close}
use ephemeral_agent.Workflow.{
  WorkflowDefinition, WorkflowStatus, WorkflowState, RuntimeSnapshot, StateTransitionResult,
  WorkflowOutcome, WorkflowRunEventBody, workflow_snapshot_recorded, workflow_transition_applied,
  workflow_finished, type_of,
}

-- `has_handle` tells that the launch has returned and `entry.handle` is set.
pub record WorkflowNodeRunEntry : Type 0 where
  pub start : NodeStartSpec
  pub metadata : Option JsonObject
  pub status : NodeRunStatus
  pub accepted : Option NodeOutcome
  pub has_handle : Bool

-- The state is kept as it is where the source copies it through JSON.
pub record StateSnapshot (D : Type 0) : Type 0 where
  pub version : ℕ
  pub state : WorkflowState D

-- An operation that awaits the launch of the node run at `entry`; `rest` are the dispatches that its
-- loops, the inner one first, have still to launch.
pub record Launching : Type 0 where
  pub entry : ℕ
  pub rest : List WorkflowNodeDispatch

-- A run exists from `start()` on, so its state is always there. `resolved` is the outcome promise.
-- `start()` runs beside the promise queue: each of the two awaits at most one launch.
pub record RunInstance (D : Type 0) : Type 0 where
  pub definition : WorkflowDefinition
  pub stream : RunEventStream WorkflowRunEventBody
  pub aborted : Bool
  pub nodes : List WorkflowNodeRunEntry
  pub snapshots : List (StateSnapshot D)
  pub timeline : List String
  pub resolved : Option WorkflowOutcome
  pub state : WorkflowState D
  pub finished : Bool
  pub last_dispatches : List WorkflowNodeDispatch
  pub starting : Option Launching
  pub queued : Option Launching

abbrev pub is_running : NodeRunStatus → Bool
is_running NodeRunStatus.running = true
is_running _ = false

abbrev pub is_deadlocked : WorkflowStatus → Bool
is_deadlocked WorkflowStatus.deadlocked = true
is_deadlocked _ = false

abbrev pub status_text : WorkflowStatus → String
status_text WorkflowStatus.running = "running"
status_text WorkflowStatus.success = "success"
status_text WorkflowStatus.failure = "failure"
status_text WorkflowStatus.deadlocked = "deadlocked"

unfoldable pub node_snapshot : WorkflowNodeRunEntry → NodeRunSnapshot
node_snapshot e = record { node_name = e.start.node.name; metadata = e.metadata; status = e.status }

unfoldable pub running_entries : List WorkflowNodeRunEntry → List WorkflowNodeRunEntry
running_entries = select (λ e. is_running e.status)

unfoldable pub finished_entries : List WorkflowNodeRunEntry → List WorkflowNodeRunEntry
finished_entries = select (λ e. not (is_running e.status))

module _ {D : Type 0} where
  unfoldable pub runtime_snapshot : RunInstance D → RuntimeSnapshot
  unfolding running_entries finished_entries node_snapshot
  runtime_snapshot s = record {
    running_nodes = map node_snapshot (running_entries s.nodes);
    finished_nodes = map node_snapshot (finished_entries s.nodes);
    timeline = s.timeline;
  }

  unfoldable pub emit : WorkflowRunEventBody → RunInstance D → RunInstance D
  emit body s = record s {
    stream = Stream.emit body s.stream;
    timeline = s.timeline ++ type_of body ∷ [];
  }

  unfoldable pub record_snapshot : RunInstance D → RunInstance D
  unfolding emit
  record_snapshot s =
      let snapshot : StateSnapshot D = record { version = s.state.version; state = s.state } in
      emit (workflow_snapshot_recorded s.state.version)
        (record s { snapshots = s.snapshots ++ snapshot ∷ [] })

  unfoldable pub finish : WorkflowOutcome → RunInstance D → RunInstance D
  unfolding emit
  finish o s =
      if s.finished
      then s
      else let emitted = emit (workflow_finished o) (record s { finished = true }) in
        record emitted { stream = close emitted.stream; resolved = some o }

  unfoldable pub apply_transition : StateTransitionResult D → RunInstance D → RunInstance D
  unfolding emit
  apply_transition result s =
      let applied = record s { state = result.state } in
      elim result.transition [
        | none ↦ applied
        | some t ↦ emit (workflow_transition_applied t result.state.version) applied
      ]

  -- `#claimDispatch`: the new entry is the last one.
  unfoldable pub claim_dispatch : WorkflowNodeDispatch → RunInstance D → RunInstance D
  claim_dispatch d s =
      let entry : WorkflowNodeRunEntry = record {
        start = d.start;
        metadata = d.metadata;
        status = NodeRunStatus.running;
        accepted = none;
        has_handle = false;
      } in
      record s { nodes = s.nodes ++ entry ∷ [] }

  -- `entry.status = ...`, and the other fields that are set with it.
  unfoldable pub put_entry : ℕ → WorkflowNodeRunEntry → RunInstance D → RunInstance D
  put_entry i e s = record s { nodes = set s.nodes i e }

  -- The loop of `#dispatch` up to its next await.
  unfoldable pub launch_next :
      List WorkflowNodeDispatch → RunInstance D → RunInstance D × Option Launching
  unfolding claim_dispatch
  launch_next [] s = (s, none)
  launch_next (d ∷ rest) s =
      (claim_dispatch d s, some (record { entry = length s.nodes; rest = rest }))

  abbrev pub launch_all :
      RunInstance D × List WorkflowNodeDispatch → RunInstance D × Option Launching
  unfolding launch_next
  launch_all r = launch_next r.1 r.0
