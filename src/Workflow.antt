-- ===== src/Workflow.antt =====
-- packages/agent-core/src/agentic-workflows: the states of a workflow, the implementation that a
-- workflow script supplies, and the events of a run.
pub mod State
pub mod Run
pub mod Actions
pub mod Cases
pub mod Streams
pub mod Events
pub mod Runs
pub mod Progress
pub mod Advance
pub mod Fields
use ephemeral_agent.Common.{ℕ, String, Bool, Option, none, List}
use ephemeral_agent.Contracts.{JsonValue, JsonObject}
use ephemeral_agent.Nodes.{
  NodeDefinition, NodeRunSnapshot, WorkflowNodeDispatch, WorkflowNodeSettlement,
}

pub record WorkflowDefinition : Type 0 where
  pub description : Option String
  pub nodes : Option (List NodeDefinition)
  pub args : Option JsonObject
  pub metadata : Option JsonObject

pub record StateTransitionRecord : Type 0 where
  pub type : String
  pub fields : JsonObject

pub data WorkflowStatus : Type 0 where
  running success failure deadlocked : WorkflowStatus

-- The base of a state, and in `own` the fields that a workflow adds to it.
pub record WorkflowState (D : Type 0) : Type 0 where
  pub version : ℕ
  pub is_workflow_done : Bool
  pub workflow_status : WorkflowStatus
  pub last_transition : Option StateTransitionRecord
  pub own : D

-- An entry of the timeline is the type of an event; its time is left out.
pub record RuntimeSnapshot : Type 0 where
  pub running_nodes : List NodeRunSnapshot
  pub finished_nodes : List NodeRunSnapshot
  pub timeline : List String

pub data ValidationResult : Type 0 where
  ok : ValidationResult
  invalid : (reason : String) → ValidationResult

pub record StateTransitionResult (D : Type 0) : Type 0 where
  pub state : WorkflowState D
  pub transition : Option StateTransitionRecord

pub record DeadlockReport : Type 0 where
  pub reason : String
  pub details : Option JsonObject

pub data WorkflowOutcome : Type 0 where
  success : (output : Option JsonValue) → WorkflowOutcome
  failure : (reason : Option String) (output : Option JsonValue) → WorkflowOutcome
  deadlocked : (reason : String) (report : Option JsonObject) → WorkflowOutcome
  cancelled : (reason : String) → WorkflowOutcome

-- The methods of a workflow script. They are functions: one that throws is not covered.
pub record WorkflowImplementation (D : Type 0) : Type 0 where
  pub create_initial_state : WorkflowDefinition → JsonObject → WorkflowState D
  pub dispatch : WorkflowDefinition → WorkflowState D → RuntimeSnapshot → List WorkflowNodeDispatch
  pub validate_node_settlement :
      WorkflowState D → WorkflowNodeSettlement → RuntimeSnapshot → ValidationResult
  pub apply_node_settlement :
      WorkflowState D → WorkflowNodeSettlement → RuntimeSnapshot → StateTransitionResult D
  pub evaluate_workflow_progress : WorkflowState D → RuntimeSnapshot → StateTransitionResult D
  pub deadlock :
      WorkflowState D → RuntimeSnapshot → List WorkflowNodeDispatch → Option DeadlockReport
  pub get_workflow_outcome : WorkflowState D → Option WorkflowOutcome

-- One entry of `nodeRuns` in `workflow_dispatched`.
pub record DispatchedNode : Type 0 where
  pub node : NodeDefinition
  pub metadata : Option JsonObject

pub data WorkflowRunEventBody : Type 0 where
  workflow_started : (metadata : Option JsonObject) → WorkflowRunEventBody
  workflow_snapshot_recorded : (state_version : ℕ) → WorkflowRunEventBody
  workflow_dispatched : (node_runs : List DispatchedNode) → WorkflowRunEventBody
  workflow_node_outcome_received : (node_name : String) → WorkflowRunEventBody
  workflow_transition_applied :
      (transition : StateTransitionRecord) (state_version : ℕ) → WorkflowRunEventBody
  workflow_deadlocked : (report : DeadlockReport) → WorkflowRunEventBody
  workflow_finished : (outcome : WorkflowOutcome) → WorkflowRunEventBody

abbrev pub type_of : WorkflowRunEventBody → String
type_of (workflow_started m) = "workflow_started"
type_of (workflow_snapshot_recorded v) = "workflow_snapshot_recorded"
type_of (workflow_dispatched runs) = "workflow_dispatched"
type_of (workflow_node_outcome_received n) = "workflow_node_outcome_received"
type_of (workflow_transition_applied t v) = "workflow_transition_applied"
type_of (workflow_deadlocked r) = "workflow_deadlocked"
type_of (workflow_finished o) = "workflow_finished"
