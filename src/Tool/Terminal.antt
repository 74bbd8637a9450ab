-- ===== src/Tool/Terminal.antt =====
-- packages/agent-core/src/agents/tool/terminal.ts: the terminal tool, on the run that it ends.
use ephemeral_agent.Common.{ℕ, String, true, false, none, some, List, [], ◌∷◌, if◌then◌else◌}
use ephemeral_agent.Contracts.{str, obj, JsonObject, ToolUseBlock, join}
use ephemeral_agent.Tasks.{task_count}
use ephemeral_agent.Run.{Run, blockers, begin_submission, cancel_submission, Activity, perform_all}
use ephemeral_agent.Tool.Hooks.{
  HookDecision, passthrough, deny, ToolCallFacts, output, HookEntry, pre_tool_use, post_tool_use,
}
use ephemeral_agent.Tool.Pipeline.{
  PipelineResult, Parsed, parsed, invalid, call_facts, rejected_result,
}

-- What the host's `onSubmit` does.
pub data SubmitReply (T : Type 0) : Type 0 where
  accepts : T → SubmitReply T
  rejects : String → SubmitReply T
  submit_throws : String → SubmitReply T

-- `schema` is the schema library's parser of a submission.
pub record OutcomeBinding (T : Type 0) : Type 0 where
  pub name : String
  pub schema : JsonObject → Parsed T
  pub on_submit : T → String → SubmitReply T

-- The clock, and what the host does while the pre hooks, the post hooks and `onSubmit` are awaited.
pub record SubmissionScene : Type 0 where
  pub rejected_at : ℕ
  pub started_at : ℕ
  pub ended_at : ℕ
  pub during_pre : List Activity
  pub during_post : List Activity
  pub during_submit : List Activity

abbrev pub submit_error : SubmissionScene → String → PipelineResult
submit_error scene m = record {
  content = str m;
  is_error = true;
  is_terminal = false;
  tool_start_time = scene.started_at;
  tool_end_time = scene.ended_at;
  metadata = none;
}

abbrev pub submit_success : SubmissionScene → PipelineResult
submit_success scene = record {
  content = str "submission accepted";
  is_error = false;
  is_terminal = true;
  tool_start_time = scene.started_at;
  tool_end_time = scene.ended_at;
  metadata = none;
}

module _ {T : Type 0} where
  unfoldable pub settle_submission :
      SubmissionScene → SubmitReply T → Run T → Run T × PipelineResult
  settle_submission scene (accepts v) r = (record r { accepted = some v }, submit_success scene)
  settle_submission scene (rejects m) r = (cancel_submission r, submit_error scene m)
  settle_submission scene (submit_throws m) r =
      (cancel_submission r, submit_error scene (join "" ("onSubmit failed: " ∷ m ∷ [])))

  unfoldable pub after_post_hooks :
      OutcomeBinding T
      → SubmissionScene
      → ToolUseBlock
      → T
      → HookDecision
      → Run T
      → Run T × PipelineResult
  unfolding settle_submission
  after_post_hooks b scene call p (deny m) r = (r, rejected_result scene.rejected_at m)
  after_post_hooks b scene call p passthrough r =
      settle_submission scene (b.on_submit p call.tool_use_id)
        (perform_all scene.during_submit (begin_submission r))

  unfoldable pub after_gate :
      OutcomeBinding T
      → List HookEntry
      → SubmissionScene
      → ToolUseBlock
      → ToolCallFacts
      → T
      → List String
      → Run T
      → Run T × PipelineResult
  unfolding after_post_hooks
  after_gate b hooks scene call facts p (m ∷ ms) r = (
    r,
    rejected_result scene.rejected_at (join "" ("submission denied: " ∷ join "; " (m ∷ ms) ∷ [])),
  )
  after_gate b hooks scene call facts p [] r =
      after_post_hooks b scene call p (post_tool_use hooks facts (output (obj call.input) none))
        (perform_all scene.during_post r)

  unfoldable pub after_pre_hooks :
      (ℕ → String)
      → OutcomeBinding T
      → List HookEntry
      → SubmissionScene
      → ToolUseBlock
      → ToolCallFacts
      → T
      → HookDecision
      → Run T
      → Run T × PipelineResult
  unfolding after_gate
  after_pre_hooks show b hooks scene call facts p (deny m) r =
      (r, rejected_result scene.rejected_at m)
  after_pre_hooks show b hooks scene call facts p passthrough r =
      after_gate b hooks scene call facts p (blockers show r) r

  unfoldable pub after_schema :
      (ℕ → String)
      → OutcomeBinding T
      → List HookEntry
      → SubmissionScene
      → ToolUseBlock
      → Parsed T
      → Run T
      → Run T × PipelineResult
  unfolding after_pre_hooks
  after_schema show b hooks scene call (invalid summary) r = (
    r,
    rejected_result scene.rejected_at
        (join "" ("invalid submission for " ∷ b.name ∷ ": " ∷ summary ∷ [])),
  )
  after_schema show b hooks scene call (parsed p) r =
      let facts = call_facts call b.name (task_count r.tasks) in
      after_pre_hooks show b hooks scene call facts p (pre_tool_use hooks facts)
        (perform_all scene.during_pre r)

  unfoldable pub run_terminal :
      (ℕ → String)
      → OutcomeBinding T
      → List HookEntry
      → SubmissionScene
      → ToolUseBlock
      → Run T
      → Run T × PipelineResult
  unfolding after_schema
  run_terminal show b hooks scene call r =
      if r.handle.aborted
      then (r, rejected_result scene.rejected_at "interrupted")
      else after_schema show b hooks scene call (b.schema call.input) r
