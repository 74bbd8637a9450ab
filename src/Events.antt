-- ===== src/Events.antt =====
-- packages/agent-core/src/agents/llm-client/events.ts and the event union of engine/run-handle.ts.
use ephemeral_agent.Common.{ℕ, String, Bool, Option}
use ephemeral_agent.Contracts.{JsonObject, ToolUseBlock, Message}
use ephemeral_agent.Usage.{UsageSnapshot}
use ephemeral_agent.Tasks.State.{LifecycleEvent}

-- The stop reason is the provider's string.
pub data LlmStreamEvent : Type 0 where
  assistant_text_delta : String → LlmStreamEvent
  reasoning_delta : String → LlmStreamEvent
  tool_use_delta : ToolUseBlock → LlmStreamEvent
  assistant_message_complete : Message → UsageSnapshot → Option String → LlmStreamEvent

pub data ErrorKind : Type 0 where
  max_turns provider_error internal : ErrorKind

pub record AgentRunError : Type 0 where
  pub kind : ErrorKind
  pub message : String

pub data RunStatus (T : Type 0) : Type 0 where
  completed : T → RunStatus T
  failed : AgentRunError → RunStatus T
  cancelled : RunStatus T

pub record AgentOutcome (T : Type 0) : Type 0 where
  pub usage : UsageSnapshot
  pub turns : ℕ
  pub status : RunStatus T

pub record ToolCompletion : Type 0 where
  pub tool_use_id : String
  pub name : String
  pub output : String
  pub is_error : Bool
  pub is_terminal : Bool
  pub tool_start_time : ℕ
  pub tool_end_time : ℕ
  pub metadata : Option JsonObject

pub data AgentEventBody (T : Type 0) : Type 0 where
  run_started : String → AgentEventBody T
  turn_started : ℕ → AgentEventBody T
  llm_event : LlmStreamEvent → AgentEventBody T
  tool_execution_started : ToolUseBlock → AgentEventBody T
  tool_execution_completed : ToolCompletion → AgentEventBody T
  task_event : LifecycleEvent → AgentEventBody T
  run_finished : AgentOutcome T → AgentEventBody T

pub record AgentEvent (T : Type 0) : Type 0 where
  pub body : AgentEventBody T
  pub seq : ℕ
