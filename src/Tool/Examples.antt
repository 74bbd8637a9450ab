-- ===== src/Tool/Examples.antt =====
-- The tool layer's theorems on an ordinary call and on a submission.
use ephemeral_agent.Common.{
  ℕ, String, ◌≡◌, refl, ap, ◌↔◌, true, false, none, some, List, [], ◌∷◌, All,
}
use ephemeral_agent.Contracts.{str, end, user, ToolUseBlock, text, Message}
use ephemeral_agent.Handle.{queued, steer, has_pending_steers, new_handle}
use ephemeral_agent.Inbox
use ephemeral_agent.Tasks
use ephemeral_agent.Conversation.{new_conversation}
use ephemeral_agent.Run.{Run, blockers, Activity, steering, perform_all, gate_open}
use ephemeral_agent.Tool.Hooks.{
  passthrough, decides, throws, output, error, HookEntry, pre_entry, pre_replies, pre_tool_use,
  Clears, pre_tool_use_passes,
}
use ephemeral_agent.Tool.Pipeline.{
  PipelineResult, parsed, yields, ToolDefinition, CallScene, call_facts, run_tool,
  run_tool_executes,
}
use ephemeral_agent.Tool.Terminal.{
  accepts, OutcomeBinding, SubmissionScene, submit_success, run_terminal,
}
use ephemeral_agent.Tool.Submission.{
  IsAcceptable, after_submit, acceptable_is_accepted, terminal-IsAcceptable, blockers_gate,
}
use ephemeral_agent.Tool.Latch.{
  accepted_leaves_no_steer, late_steer_dropped, second_submission_refused,
}

abbrev message : Message
message = record { role = user; content = text "wait" ∷ [] }

abbrev fresh_run : Run String
fresh_run = record {
  handle = new_handle;
  inbox = Inbox.new;
  tasks = Tasks.new;
  conversation = new_conversation (message ∷ []);
  submitting = false;
  accepted = none;
}

abbrev call : ToolUseBlock
call = record { tool_use_id = "t1"; name = "submit"; input = end }

abbrev binding : OutcomeBinding String
binding = record {
  name = "submit";
  schema = λ input. parsed "payload";
  on_submit = λ payload i. accepts payload;
}

abbrev allow : HookEntry
allow = pre_entry (some "submit") (λ f. decides passthrough)

abbrev forbid : HookEntry
forbid = pre_entry none (λ f. throws "broken hook")

abbrev scene : List Activity → SubmissionScene
scene during_post = record {
  rejected_at = 1;
  started_at = 2;
  ended_at = 3;
  during_pre = [];
  during_post = during_post;
  during_submit = steering message ∷ [];
}

abbrev show : ℕ → String
show n = "n"

acceptable :
    (todo : List Activity)
    → IsAcceptable show binding (allow ∷ []) (scene todo) call "payload" "payload" fresh_run
unfolding pre_tool_use new_handle pre_replies call_facts blockers Tasks.task_count perform_all
    Inbox.count has_pending_steers ephemeral_agent.Tool.Hooks.post_tool_use
    ephemeral_agent.Tool.Hooks.post_replies
acceptable todo = record {
  running = refl;
  parses = refl;
  passes_pre = refl;
  unblocked = refl;
  passes_post = refl;
  accepted_by_host = refl;
}

accepted_call : run_terminal show binding (allow ∷ []) (scene []) call fresh_run ≡ (
  record (after_submit (scene []) fresh_run) { accepted = some "payload" },
  submit_success (scene []),
)
accepted_call =
    acceptable_is_accepted show binding (allow ∷ []) (scene []) call "payload" "payload" fresh_run
      (acceptable [])

terminal-IsAcceptable_example :
    (p : String) × (v : String) × IsAcceptable show binding
      (allow ∷ [])
      (scene [])
      call
      p
      v
      fresh_run
terminal-IsAcceptable_example =
    terminal-IsAcceptable show binding (allow ∷ []) (scene []) call fresh_run
      (ap (λ (x : Run String × PipelineResult). x.1.is_terminal) accepted_call)

accepted_leaves_no_steer_example :
    has_pending_steers (run_terminal show binding (allow ∷ []) (scene []) call fresh_run).0.handle
    ≡ false
accepted_leaves_no_steer_example =
    accepted_leaves_no_steer show binding (allow ∷ []) (scene []) call "payload" "payload" fresh_run
      refl (acceptable [])

late_steer_dropped_example :
    ((steer message (perform_all (scene (steering message ∷ [])).during_pre fresh_run).handle).1
      ≡ queued)
    × ((run_terminal show binding
          (allow ∷ [])
          (scene (steering message ∷ []))
          call
          fresh_run).1.is_terminal
        ≡ true)
    × ((run_terminal show binding
          (allow ∷ [])
          (scene (steering message ∷ []))
          call
          fresh_run).0.handle.steers
        ≡ message ∷ [])
unfolding perform_all new_handle
late_steer_dropped_example =
    late_steer_dropped show binding (allow ∷ []) (scene (steering message ∷ [])) call "payload"
      "payload" message fresh_run refl refl refl refl (acceptable (steering message ∷ []))

second_submission_refused_example :
    (run_terminal show binding
      (allow ∷ [])
      (scene [])
      call
      (run_terminal show binding (allow ∷ []) (scene []) call fresh_run).0).1.is_terminal
    ≡ false
second_submission_refused_example =
    second_submission_refused show binding (allow ∷ []) (scene []) (scene []) call call "payload"
      "payload" fresh_run (acceptable [])

pre_tool_use_passes_example :
    (pre_tool_use (allow ∷ forbid ∷ []) (call_facts call "submit" 0) ≡ passthrough)
    ↔ All (Clears (call_facts call "submit" 0)) (allow ∷ forbid ∷ [])
pre_tool_use_passes_example = pre_tool_use_passes (allow ∷ forbid ∷ []) (call_facts call "submit" 0)

abbrev definition : ToolDefinition String
definition = record {
  name = "read";
  input = λ input. parsed "path";
  execute = λ path. yields (output (str "contents") none);
}

abbrev call_scene : CallScene
call_scene = record { aborted = false; tasks = 0; rejected_at = 1; started_at = 2; ended_at = 5 }

run_tool_executes_example : ((run_tool definition (allow ∷ []) call_scene call).1 ≡ "path" ∷ []) ↔ (
    (call_scene.aborted ≡ false)
    × (definition.input call.input ≡ parsed "path")
    × (pre_tool_use (allow ∷ []) (call_facts call definition.name call_scene.tasks) ≡ passthrough))
run_tool_executes_example = run_tool_executes definition (allow ∷ []) call_scene call "path"

blockers_gate_example :
    (blockers show fresh_run ≡ []) ↔ ((gate_open fresh_run ≡ true) × (fresh_run.submitting ≡ false))
blockers_gate_example = blockers_gate show fresh_run
