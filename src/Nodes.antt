-- ===== src/Nodes.antt =====
-- packages/agent-core/src/nodes: what a workflow starts, how a started node settles, and the port
-- that launches it. The event stream of a run is in the child.
pub mod Stream
pub mod Laws
use ephemeral_agent.Common.{ℕ, String, Bool, Option, none, some, List}
use ephemeral_agent.Contracts.{JsonValue, JsonObject, Message}

pub data NodeKind : Type 0 where
  agent workflow : NodeKind

pub record NodeDefinition : Type 0 where
  pub kind : NodeKind
  pub name : String
  pub description : Option String

-- `schema.safeParse` is the schema library's: the parsed payload, or the summary of its issues.
pub data Parsed : Type 0 where
  success : JsonValue → Parsed
  issues : String → Parsed

pub record NodeOutcomeContract : Type 0 where
  pub name : String
  pub description : String
  pub safe_parse : JsonValue → Parsed

pub data NodeInput : Type 0 where
  agent_input : (messages : List Message) (metadata : Option JsonObject) → NodeInput
  workflow_input : (args : JsonObject) (metadata : Option JsonObject) → NodeInput

pub record NodeStartSpec : Type 0 where
  pub node : NodeDefinition
  pub input : NodeInput
  pub outcome : NodeOutcomeContract

pub record NodeOutcome : Type 0 where
  pub outcome_name : String
  pub outcome : JsonValue

pub data NodeOutcomeSubmissionResult : Type 0 where
  accept : NodeOutcome → NodeOutcomeSubmissionResult
  reject : String → NodeOutcomeSubmissionResult

pub record WorkflowNodeOutcome : Type 0 where
  pub node : NodeDefinition
  pub metadata : Option JsonObject
  pub outcome_name : String
  pub outcome : JsonValue

pub data NodeSettlement : Type 0 where
  completed : NodeOutcome → NodeSettlement
  rejected failed : (reason : String) → NodeSettlement
  cancelled : (reason : Option String) → NodeSettlement

pub data WorkflowNodeSettlement : Type 0 where
  completed : WorkflowNodeOutcome → WorkflowNodeSettlement
  rejected failed :
      (node : NodeDefinition) (metadata : Option JsonObject) (reason : String)
      → WorkflowNodeSettlement
  cancelled :
      (node : NodeDefinition) (metadata : Option JsonObject) (reason : Option String)
      → WorkflowNodeSettlement

pub data NodeRunStatus : Type 0 where
  running completed rejected cancelled failed : NodeRunStatus

-- The times of a node run are left out.
pub record NodeRunSnapshot : Type 0 where
  pub node_name : String
  pub metadata : Option JsonObject
  pub status : NodeRunStatus

pub record WorkflowNodeDispatch : Type 0 where
  pub start : NodeStartSpec
  pub metadata : Option JsonObject
