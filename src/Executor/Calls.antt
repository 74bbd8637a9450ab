-- ===== src/Executor/Calls.antt =====
-- packages/agent-core/src/agents/tool/executor.ts: what a call comes to, and the results of a batch.
use Prim.Native.String
use ephemeral_agent.Common.{
  ℕ, suc, String, Bool, true, false, not, ◌||◌, Option, none, List, [], ◌∷◌, str_eq, ◌==◌,
  if◌then◌else◌, or_else,
}
use ephemeral_agent.Contracts.{JsonValue, str, project_content, ToolUseBlock, ToolCallResult}
use ephemeral_agent.Events.{ToolCompletion}
use ephemeral_agent.Tool.Pipeline.{PipelineResult}

-- What `tool.run` comes to.
pub data Reply : Type 0 where
  returns : PipelineResult → Reply
  throws : String → Reply

unfoldable pub error_result : ℕ → String → String → ToolCallResult
error_result at tool_use_id content = record {
  tool_use_id = tool_use_id;
  content = str content;
  is_error = true;
  is_terminal = false;
  tool_start_time = at;
  tool_end_time = at;
  metadata = none;
}

-- `{ tool_use_id, ...result }`.
unfoldable pub with_id : String → PipelineResult → ToolCallResult
with_id tool_use_id r = record {
  tool_use_id = tool_use_id;
  content = r.content;
  is_error = r.is_error;
  is_terminal = r.is_terminal;
  tool_start_time = r.tool_start_time;
  tool_end_time = r.tool_end_time;
  metadata = r.metadata;
}

unfoldable pub has_tool : String → List String → Bool
has_tool n [] = false
has_tool n (t ∷ ts) = str_eq t n || has_tool n ts

-- The indices of the calls whose name passes the test.
unfoldable pub indices : (String → Bool) → ℕ → List ToolUseBlock → List ℕ
indices p n [] = []
indices p n (c ∷ cs) = let rest = indices p (suc n) cs in if p c.name then n ∷ rest else rest

unfoldable pub holds : ℕ → List ℕ → Bool
holds i [] = false
holds i (j ∷ js) = (j == i) || holds i js

unfoldable pub remove : ℕ → List ℕ → List ℕ
remove i [] = []
remove i (j ∷ js) = let rest = remove i js in if j == i then js else j ∷ rest

unfoldable pub execute_call : List String → ℕ → ToolUseBlock → Reply → ToolCallResult
unfolding has_tool error_result with_id
execute_call tools at call reply =
    if not (has_tool call.name tools)
    then error_result at call.tool_use_id (String.◌++◌ "tool not found: " call.name)
    else elim reply [
      | returns r ↦ with_id call.tool_use_id r
      | throws m ↦ error_result at call.tool_use_id m
    ]

unfoldable pub completion_of : (JsonValue → String) → ToolUseBlock → ToolCallResult → ToolCompletion
unfolding project_content
completion_of stringify call r = record {
  tool_use_id = call.tool_use_id;
  name = call.name;
  output = project_content stringify r.content;
  is_error = r.is_error;
  is_terminal = r.is_terminal;
  tool_start_time = r.tool_start_time;
  tool_end_time = r.tool_end_time;
  metadata = r.metadata;
}

-- `settled[index] ?? errorResult(...)`, of each call.
unfoldable pub results : ℕ → List ToolUseBlock → List (Option ToolCallResult) → List ToolCallResult
unfolding error_result
results at [] os = []
results at (c ∷ cs) [] = error_result at c.tool_use_id "interrupted" ∷ results at cs []
results at (c ∷ cs) (o ∷ os) =
    or_else o (error_result at c.tool_use_id "interrupted") ∷ results at cs os
