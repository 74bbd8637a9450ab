-- ===== src/Loop/State.antt =====
-- packages/agent-core/src/agents/engine/agent-loop.ts: what the loop is given, what it keeps, and
-- what its environment does in one pass.
use ephemeral_agent.Common.{ℕ, String, ◌≡◌, Bool, false, Option, List}
use ephemeral_agent.Contracts.{JsonValue, ToolUseBlock, Message, ToolCallResult}
use ephemeral_agent.Usage.{UsageSnapshot}
use ephemeral_agent.Events.{AgentEventBody}
use ephemeral_agent.Handle.Lifecycle.{is_final}
use ephemeral_agent.Run.{Run, Activity}
use ephemeral_agent.Turn.{Failure, ProviderStream}

-- How the run completes; in text mode the outcome is read from the final text.
pub data TerminationMode (T : Type 0) : Type 0 where
  text_mode : (String → T) → TerminationMode T
  terminal_mode : TerminationMode T

pub record TurnFacts : Type 0 where
  pub turn : ℕ
  pub max_turns : ℕ
  pub terminal_tool_name : Option String
  pub tool_calls : ℕ
  pub background_task_count : ℕ
  pub has_pending_steers : Bool

-- The fixed part of `AgentLoopContext`, with the platform's `JSON.stringify` and number printing.
pub record LoopContext (T : Type 0) : Type 0 where
  pub max_turns : ℕ
  pub terminal_tool_name : Option String
  pub mode : TerminationMode T
  pub stringify : JsonValue → String
  pub show : ℕ → String

-- What a batch does to the run before it settles: the port emits and the terminal binding opens,
-- reopens or accepts, while the host acts.
pub data BatchStep (T : Type 0) : Type 0 where
  acting : Activity → BatchStep T
  emitting : (body : AgentEventBody T) → is_final body ≡ false → BatchStep T
  opening : BatchStep T
  reopening : BatchStep T
  accepting : T → BatchStep T

pub data BatchResult : Type 0 where
  returned : List ToolCallResult → BatchResult
  batch_threw : Failure → BatchResult

pub record Round (T : Type 0) : Type 0 where
  pub stream : ProviderStream
  pub boundary : TurnFacts → List Activity
  pub batch : List ToolUseBlock → List Message → List (BatchStep T) × BatchResult
  pub clock : ℕ
  pub wake : List Activity

pub record LoopState (T : Type 0) : Type 0 where
  pub run : Run T
  pub turns : ℕ
  pub usage : UsageSnapshot
  pub pending_text : Option Message
  pub at_rest : Bool
