-- ===== src/Tool/Pipeline.antt =====
-- packages/agent-core/src/agents/tool/pipeline.ts: the per-call pipeline of an ordinary tool.
use ephemeral_agent.Common.{
  ℕ, ◌≤◌, String, ◌≡◌, ◌↔◌, Bool, true, false, Option, none, List, [], ◌∷◌, arith, if◌then◌else◌,
}
use ephemeral_agent.Contracts.{JsonValue, str, JsonObject, ToolUseBlock, join}
use ephemeral_agent.Tool.Hooks.{
  HookDecision, passthrough, deny, ToolCallFacts, ToolResult, output, error, HookEntry,
  pre_tool_use, post_tool_use,
}

-- A settled call less its id.
pub record PipelineResult : Type 0 where
  pub content : JsonValue
  pub is_error : Bool
  pub is_terminal : Bool
  pub tool_start_time : ℕ
  pub tool_end_time : ℕ
  pub metadata : Option JsonObject

-- `safeParse`: the schema library's verdict, with its issue summary.
pub data Parsed (I : Type 0) : Type 0 where
  parsed : I → Parsed I
  invalid : String → Parsed I

pub data Execution : Type 0 where
  yields : ToolResult → Execution
  crashes : String → Execution

pub record ToolDefinition (I : Type 0) : Type 0 where
  pub name : String
  pub input : JsonObject → Parsed I
  pub execute : I → Execution

-- What a call meets: the signal, the registry's size, and the clock at a rejection and around
-- `execute`.
pub record CallScene : Type 0 where
  pub aborted : Bool
  pub tasks : ℕ
  pub rejected_at : ℕ
  pub started_at : ℕ
  pub ended_at : ℕ

unfoldable pub call_facts : ToolUseBlock → String → ℕ → ToolCallFacts
call_facts call tool_name count = record {
  tool_use_id = call.tool_use_id;
  tool_name = tool_name;
  input = call.input;
  background_task_count = count;
}

unfoldable pub rejected_result : ℕ → String → PipelineResult
rejected_result at content = record {
  content = str content;
  is_error = true;
  is_terminal = false;
  tool_start_time = at;
  tool_end_time = at;
  metadata = none;
}

unfoldable pub stamp : ToolResult → ℕ → ℕ → PipelineResult
stamp (error m) started ended = record {
  content = str m;
  is_error = true;
  is_terminal = false;
  tool_start_time = started;
  tool_end_time = ended;
  metadata = none;
}
stamp (output v meta) started ended = record {
  content = v;
  is_error = false;
  is_terminal = false;
  tool_start_time = started;
  tool_end_time = ended;
  metadata = meta;
}

abbrev pub settled : Execution → ToolResult
settled (yields r) = r
settled (crashes m) = error m

abbrev replaced : HookDecision → ToolResult → ToolResult
replaced passthrough r = r
replaced (deny m) r = error m

-- The result, with the inputs on which `execute` was called.
module _ {I : Type 0} where
  after_pre :
      ToolDefinition I
      → List HookEntry
      → CallScene
      → ToolCallFacts
      → I
      → HookDecision
      → PipelineResult × List I
  unfolding stamp rejected_result
  after_pre d hooks scene facts i (deny m) = (rejected_result scene.rejected_at m, [])
  after_pre d hooks scene facts i passthrough =
      let result = settled (d.execute i) in
      (
        stamp (replaced (post_tool_use hooks facts result) result) scene.started_at scene.ended_at,
        i ∷ [],
      )

  after_parse :
      ToolDefinition I
      → List HookEntry
      → CallScene
      → ToolUseBlock
      → Parsed I
      → PipelineResult × List I
  unfolding after_pre call_facts
  after_parse d hooks scene call (invalid summary) = (
    rejected_result scene.rejected_at
        (join "" ("invalid input for " ∷ d.name ∷ ": " ∷ summary ∷ [])),
    [],
  )
  after_parse d hooks scene call (parsed i) =
      let facts = call_facts call d.name scene.tasks in
      after_pre d hooks scene facts i (pre_tool_use hooks facts)

  unfoldable pub run_tool :
      ToolDefinition I → List HookEntry → CallScene → ToolUseBlock → PipelineResult × List I
  unfolding after_parse
  run_tool d hooks scene call =
      if scene.aborted
      then (rejected_result scene.rejected_at "interrupted", [])
      else after_parse d hooks scene call (d.input call.input)

  -- `execute` runs exactly if the run is not aborted, the input parses and every matching pre hook
  -- lets the call through; then it runs once, on the parsed input.
  pub run_tool_executes :
      (d : ToolDefinition I) (hooks : List HookEntry) (scene : CallScene) (call : ToolUseBlock)
      (i : I)
      → ((run_tool d hooks scene call).1 ≡ i ∷ []) ↔ (
          (scene.aborted ≡ false)
          × (d.input call.input ≡ parsed i)
          × (pre_tool_use hooks (call_facts call d.name scene.tasks) ≡ passthrough))
  unfolding run_tool
  run_tool_executes d hooks scene call i = (λ h. ground arith, λ h. ground arith)

  -- If the clock does not go back while the tool runs, the result of an ordinary call is never
  -- terminal, it is an error if the tool did not execute, and its times are in order.
  run_tool_result :
      (d : ToolDefinition I) (hooks : List HookEntry) (scene : CallScene) (call : ToolUseBlock)
      → scene.started_at ≤ scene.ended_at
      → let (r, ran) = run_tool d hooks scene call in
        (r.is_terminal ≡ false)
        × (ran ≡ [] → r.is_error ≡ true)
        × (r.tool_start_time ≤ r.tool_end_time)
  unfolding run_tool
  run_tool_result d hooks scene call t = ground arith

  -- A denied result is replaced by the hooks' reason, although the tool has run.
  pub post_deny_replaces :
      (d : ToolDefinition I) (hooks : List HookEntry) (scene : CallScene) (call : ToolUseBlock)
      (i : I) (m : String)
      → (run_tool d hooks scene call).1 ≡ i ∷ []
      → post_tool_use hooks (call_facts call d.name scene.tasks) (settled (d.execute i)) ≡ deny m
      → ((run_tool d hooks scene call).0.content ≡ str m)
        × ((run_tool d hooks scene call).0.is_error ≡ true)
  unfolding run_tool
  post_deny_replaces d hooks scene call i m h k = ground arith
