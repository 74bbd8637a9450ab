-- ===== src/Executor.antt =====
-- packages/agent-core/src/agents/tool/executor.ts: one batch of tool calls. The lanes run at once, and
-- each of them is suspended while its call executes, so a batch is a state that the answers of the
-- calls and the abort signal move.
pub mod Calls
pub mod Lanes
pub mod Keeping
pub mod Tally
pub mod Balance
pub mod Runs
mod Examples
use ephemeral_agent.Common.{
  ℕ, zero, suc, ◌+◌, ◌-◌, min, String, Bool, true, false, not, ◌&&◌, Option, none, some, List, [],
  ◌∷◌, ◌++◌, ◌==◌, if◌then◌else◌, opt_eq, length, get_elem?, set, replicate, is_empty,
}
use ephemeral_agent.Contracts.{JsonValue, str, end, ToolUseBlock, ToolCallResult}
use ephemeral_agent.Events.{
  completed, AgentEventBody, tool_execution_started, tool_execution_completed, AgentEvent,
}
use ephemeral_agent.Tool.Pipeline.{settled}
use ephemeral_agent.Executor.Calls.{Reply, indices, holds, remove, execute_call, completion_of}

abbrev pub max_tool_concurrency : ℕ
max_tool_concurrency = 8

-- The lanes await calls, the loop over the terminal calls awaits one, or the batch has returned.
pub data Stage : Type 0 where
  in_lanes : Stage
  in_terminal : (index : ℕ) → Stage
  returned : Stage

-- `pending` are the ordinary calls that no lane has taken, `flying` those that lanes await,
-- `terminal` the terminal calls not yet dispatched.
pub record ToolBatch (T : Type 0) : Type 0 where
  pub settled : List (Option ToolCallResult)
  pub pending : List ℕ
  pub flying : List ℕ
  pub terminal : List ℕ
  pub stage : Stage
  pub aborted : Bool
  pub events : List (AgentEventBody T)

abbrev pub is_in_lanes : Stage → Bool
is_in_lanes in_lanes = true
is_in_lanes _ = false

pub data BatchAction : Type 0 where
  answers : (index at : ℕ) (reply : Reply) → BatchAction
  aborts : BatchAction

module _ {T : Type 0} (stringify : JsonValue → String) (calls : List ToolUseBlock) where
  -- `dispatch` up to its await.
  start_call : ℕ → ToolBatch T → ToolBatch T
  start_call i b = elim (get_elem? calls i) [
    | none ↦ b
    | some call ↦ record b { events = b.events ++ tool_execution_started call ∷ [] }
  ]

  -- `dispatch` after its await, where the signal has not aborted.
  complete_call : ℕ → ToolUseBlock → ToolCallResult → ToolBatch T → ToolBatch T
  unfolding completion_of
  complete_call i call r b = record b {
    settled = set b.settled i (some r);
    events = b.events ++ tool_execution_completed (completion_of stringify call r) ∷ [];
  }

  -- The loop of a lane up to its next await, or to its end.
  pub lane_next : List ℕ → ToolBatch T → ToolBatch T
  unfolding start_call
  lane_next [] b = b
  lane_next (i ∷ rest) b =
      if b.aborted
      then b
      else start_call i (record b { pending = rest; flying = b.flying ++ i ∷ [] })

  start_lanes : ℕ → ToolBatch T → ToolBatch T
  unfolding lane_next
  start_lanes zero b = b
  start_lanes (suc n) b = start_lanes n (lane_next b.pending b)

  -- The loop over the terminal calls up to its next await, or the return.
  pub next_terminal : List ℕ → ToolBatch T → ToolBatch T
  unfolding start_call
  next_terminal [] b = record b { stage = returned }
  next_terminal (i ∷ rest) b =
      if b.aborted
      then record b { stage = returned }
      else start_call i (record b { terminal = rest; stage = in_terminal i })

  -- `settledOrAborted` resolves once no lane is left.
  pub after_lanes : ToolBatch T → ToolBatch T
  unfolding next_terminal
  after_lanes b = if is_empty b.flying then next_terminal b.terminal b else b

  -- A batch before its lanes start.
  unfoldable pub open_batch : Option String → Bool → ToolBatch T
  unfolding indices
  open_batch terminal_name aborted =
      let is_terminal : String → Bool = λ n. opt_eq (some n) terminal_name in
      record {
        settled = replicate (length calls) none;
        pending = indices (λ n. not (is_terminal n)) 0 calls;
        flying = [];
        terminal = indices is_terminal 0 calls;
        stage = in_lanes;
        aborted = aborted;
        events = [];
      }

  unfoldable pub execute_batch : Option String → Bool → ToolBatch T
  unfolding open_batch start_lanes after_lanes
  execute_batch terminal_name aborted =
      let opened = open_batch terminal_name aborted in
      after_lanes (start_lanes (min max_tool_concurrency (length opened.pending)) opened)

  -- A call's answer reaches its lane, or the loop over the terminal calls. After an abort the lanes
  -- drop it, and the loop ends.
  settle_lane : ℕ → ToolUseBlock → ToolCallResult → ToolBatch T → ToolBatch T
  unfolding complete_call lane_next after_lanes holds remove
  settle_lane i call r b =
      let freed : ToolBatch T = complete_call i call r (record b { flying = remove i b.flying }) in
      if holds i b.flying && not b.aborted then after_lanes (lane_next freed.pending freed) else b

  settle_terminal : ℕ → ToolUseBlock → ToolCallResult → ToolBatch T → ToolBatch T
  unfolding complete_call next_terminal
  settle_terminal i call r b =
      let answered = complete_call i call r b in
      if b.aborted then record b { stage = returned } else next_terminal answered.terminal answered

  answer_at : Stage → ℕ → ToolUseBlock → ToolCallResult → ToolBatch T → ToolBatch T
  unfolding settle_lane settle_terminal
  answer_at in_lanes i call r b = settle_lane i call r b
  answer_at (in_terminal j) i call r b = if i == j then settle_terminal i call r b else b
  answer_at returned i call r b = b

  unfoldable pub answer_call : ℕ → ToolUseBlock → ToolCallResult → ToolBatch T → ToolBatch T
  unfolding answer_at
  answer_call i call r b = answer_at b.stage i call r b

  -- The signal ends the wait for the lanes; a terminal call is waited for.
  unfoldable pub abort_batch : ToolBatch T → ToolBatch T
  abort_batch b = record b {
    aborted = true;
    stage = if is_in_lanes b.stage then returned else b.stage;
  }

  -- What moves a batch: the reply of a call's tool, at a time, and the abort of the signal.
  unfoldable pub act : List String → ToolBatch T → BatchAction → ToolBatch T
  unfolding answer_call abort_batch execute_call
  act tools b (answers i at reply) = elim (get_elem? calls i) [
    | none ↦ b
    | some call ↦ answer_call i call (execute_call tools at call reply) b
  ]
  act tools b aborts = abort_batch b

  unfoldable pub run_batch : List String → ToolBatch T → List BatchAction → ToolBatch T
  unfolding act
  run_batch tools b [] = b
  run_batch tools b (a ∷ rest) = run_batch tools (act tools b a) rest
