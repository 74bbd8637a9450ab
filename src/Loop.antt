-- ===== src/Loop.antt =====
-- packages/agent-core/src/agents/engine/agent-loop.ts: the loop spine. A `Round` holds what the
-- environment does in one pass of the loop at each of its awaits.
pub mod Batch
pub mod State
pub mod Live
pub mod History
pub mod Passes
pub mod Outcomes
pub mod Runs
pub mod Park
pub mod Examples
use ephemeral_agent.Common.{
  ℕ, zero, ◌+◌, ◌-◌, min, String, ◌≡◌, ap, ◌⊎◌, inl, inr, Bool, true, false, not, ◌&&◌, Option,
  none, some, List, [], ◌∷◌, map, leb, if◌then◌else◌, length, set, is_empty,
}
use ephemeral_agent.Contracts.{
  JsonValue, str, num, end, user, assistant, ToolUseBlock, text, tool_use, tool_result, Message,
  ToolCallResult, join, assistant_text, tool_uses,
}
use ephemeral_agent.Usage.{UsageSnapshot, add_usage, zero_usage}
use ephemeral_agent.Events.{
  max_turns, provider_error, internal, AgentRunError, RunStatus, completed, failed, cancelled,
  AgentEventBody, turn_started, AgentEvent,
}
use ephemeral_agent.Handle.{pending, steer, emit, drain_steers, has_pending_steers, finish}
use ephemeral_agent.Handle.Lifecycle.{is_final}
use ephemeral_agent.Inbox
use ephemeral_agent.Inbox.Render.{system_notification_message}
use ephemeral_agent.Tasks
use ephemeral_agent.Tasks.{disposes, registry_is_empty, task_count}
use ephemeral_agent.Conversation.{
  Conversation, append_user, append_users, append_assistant, append_tool_results, notification,
  steer as steer_origin,
}
use ephemeral_agent.Run.{
  Run, act_on_tasks, begin_submission, cancel_submission, take_accepted, Activity, perform,
  perform_all, gate_open,
}
use ephemeral_agent.Turn.{
  Failure, provider_failure, other_failure, ProviderStream, CompletedTurn, TurnResult,
  turn_completed, turn_threw, run_assistant_turn,
}
use ephemeral_agent.Loop.State.{
  TerminationMode, text_mode, terminal_mode, TurnFacts, LoopContext, BatchStep, acting, emitting,
  opening, reopening, accepting, BatchResult, returned, batch_threw, Round, LoopState,
}
use ephemeral_agent.Loop.Batch.{normalize_batch, project_tool_result, any_terminal}

-- How a pass of the loop ends: with another pass, parked and then woken, or with the status that
-- it hands to `finish`.
pub data Pass (T : Type 0) : Type 0 where
  continues : LoopState T → Pass T
  parks : LoopState T → Pass T
  exits : LoopState T → RunStatus T → Pass T

abbrev pub missing_submission : AgentRunError
missing_submission = record {
  kind = internal;
  message = "terminal result without an accepted submission";
}

module _ {T : Type 0} where
  unfoldable pub classify_loop_error : Bool → Failure → RunStatus T
  classify_loop_error true f = cancelled
  classify_loop_error false (provider_failure m) =
      failed (record { kind = provider_error; message = m })
  classify_loop_error false (other_failure m) = failed (record { kind = internal; message = m })

  unfoldable pub batch_step : BatchStep T → Run T → Run T
  batch_step (acting a) r = perform a r
  batch_step (emitting body e) r = record r { handle = emit body r.handle }
  batch_step opening r = begin_submission r
  batch_step reopening r = cancel_submission r
  batch_step (accepting v) r = record r { accepted = some v }

  unfoldable pub batch_steps : List (BatchStep T) → Run T → Run T
  unfolding batch_step
  batch_steps [] r = r
  batch_steps (b ∷ rest) r = batch_steps rest (batch_step b r)

  -- Steers first, then notifications; the result says whether both queues were empty.
  unfoldable pub drain_boundary : (JsonValue → String) → Run T → Run T × Bool
  drain_boundary stringify r =
      let steers = (drain_steers r.handle).1 in
      let notes = (Inbox.drain r.inbox).1 in
      (
        record r {
          handle = (drain_steers r.handle).0;
          inbox = (Inbox.drain r.inbox).0;
          conversation =
              append_users (map (system_notification_message stringify) notes) notification
                (append_users steers steer_origin r.conversation);
        },
        is_empty steers && is_empty notes,
      )

  abbrev pub is_text : TerminationMode T → Bool
  is_text (text_mode of_text) = true
  is_text terminal_mode = false

  abbrev pub outcome_of : TerminationMode T → Option Message → Option T
  outcome_of (text_mode of_text) (some m) = some (of_text (assistant_text m))
  outcome_of (text_mode of_text) none = none
  outcome_of terminal_mode m = none

  abbrev pub budget_error : LoopContext T → AgentRunError
  budget_error c = record {
    kind = max_turns;
    message =
        join "" ("run spent its " ∷ c.show c.max_turns ∷ "-turn budget without completing" ∷ []);
  }

  unfoldable pub facts_of : LoopContext T → LoopState T → List ToolUseBlock → TurnFacts
  facts_of c s calls = record {
    turn = s.turns;
    max_turns = c.max_turns;
    terminal_tool_name = c.terminal_tool_name;
    tool_calls = length calls;
    background_task_count = task_count s.run.tasks;
    has_pending_steers = has_pending_steers s.run.handle;
  }

  -- A terminal result ends the run: with the accepted submission, if there is one to take.
  pub terminal_status : TerminationMode T → Option T → RunStatus T
  terminal_status terminal_mode (some v) = completed v
  terminal_status terminal_mode none = failed missing_submission
  terminal_status (text_mode of_text) v = failed missing_submission

  pub take_for : TerminationMode T → Run T → Run T
  take_for terminal_mode r = (take_accepted r).0
  take_for (text_mode of_text) r = r

  pub with_run : LoopState T → Run T → LoopState T
  with_run s r = record s { run = r }

  -- After the batch has settled.
  pub settle_batch :
      LoopContext T → Round T → List ToolUseBlock → BatchResult → LoopState T → Pass T
  unfolding terminal_status take_for with_run
  settle_batch c r calls (batch_threw f) s = exits s (classify_loop_error s.run.handle.aborted f)
  settle_batch c r calls (returned results) s =
      let answers = normalize_batch r.clock calls results in
      let run' = record s.run {
        conversation =
            append_tool_results (map (project_tool_result c.stringify) answers) s.run.conversation;
      } in
      if any_terminal answers
      then exits (with_run s (take_for c.mode run')) (terminal_status c.mode run'.accepted)
      else if run'.handle.aborted
      then exits (with_run s run') cancelled
      else continues (with_run s run')

  -- The boundary hook of a turn that goes on.
  unfoldable pub run_boundary :
      LoopContext T → Round T → List ToolUseBlock → LoopState T → LoopState T
  unfolding with_run
  run_boundary c r calls s = with_run s (perform_all (r.boundary (facts_of c s calls)) s.run)

  pub run_batch : LoopContext T → Round T → List ToolUseBlock → LoopState T → Pass T
  unfolding settle_batch with_run
  run_batch c r calls s =
      let batch = r.batch calls s.run.conversation.llm in
      settle_batch c r calls batch.1 (with_run s (batch_steps batch.0 s.run))

  -- A committed turn: the text exit, rest, or a batch.
  pub after_turn : LoopContext T → Round T → Message → List ToolUseBlock → LoopState T → Pass T
  unfolding run_batch
  after_turn c r m [] s = elim (outcome_of c.mode (if gate_open s.run then some m else none)) [
    | some o ↦ exits s (completed o)
    | none ↦ continues (
        run_boundary c r []
          (record s { pending_text = if is_text c.mode then some m else none; at_rest = true }))
  ]
  after_turn c r m (u ∷ calls) s = run_batch c r (u ∷ calls) (run_boundary c r (u ∷ calls) s)

  pub commit_turn : LoopContext T → Round T → CompletedTurn → LoopState T → Pass T
  unfolding after_turn
  commit_turn c r t s = after_turn c r t.message (tool_uses t.message) (record s {
    run = record s.run { conversation = append_assistant t.message s.run.conversation };
    turns = s.turns + 1;
    usage = add_usage s.usage t.usage;
  })

  pub settle_turn : LoopContext T → Round T → Run T × TurnResult → LoopState T → Pass T
  unfolding commit_turn with_run
  settle_turn c r (run', turn_threw f) s =
      exits (with_run s run') (classify_loop_error run'.handle.aborted f)
  settle_turn c r (run', turn_completed t) s = commit_turn c r t (with_run s run')

  pub provider_phase : LoopContext T → Round T → LoopState T → Pass T
  unfolding settle_turn
  provider_phase c r s =
      if leb c.max_turns s.turns
      then exits s (failed (budget_error c))
      else settle_turn c r
          (run_assistant_turn r.stream
            (record s.run { handle = emit (turn_started (s.turns + 1)) s.run.handle }))
          (record s { at_rest = false; pending_text = none })

  -- A pass that is at rest and drained nothing: complete, re-prompt or park.
  pub rest_phase : LoopContext T → Round T → LoopState T → Pass T
  unfolding provider_phase with_run
  rest_phase c r s =
      if registry_is_empty s.run.tasks
      then elim (outcome_of c.mode s.pending_text) [
        | some o ↦ exits s (completed o)
        | none ↦ provider_phase c r s
      ]
      else parks (with_run s (perform_all r.wake s.run))

  unfoldable pub run_pass : LoopContext T → Round T → LoopState T → Pass T
  unfolding rest_phase provider_phase with_run
  run_pass c r s =
      if s.run.handle.aborted
      then exits s cancelled
      else let (run', quiet) = drain_boundary c.stringify s.run in
        if s.at_rest && quiet
        then rest_phase c r (with_run s run')
        else provider_phase c r (with_run s run')

  -- `finish`, and the disposal that follows it.
  unfoldable pub finish_run : LoopState T → RunStatus T → Run T
  finish_run s status =
      let run' = record s.run {
        handle = finish (record { usage = s.usage; turns = s.turns; status = status }) s.run.handle;
      } in
      act_on_tasks (disposes "run finished") run'

  -- The loop over the rounds that the environment supplies: finished, or suspended when they end.
  unfoldable pub run_agent_loop : LoopContext T → List (Round T) → LoopState T → Run T ⊎ LoopState T
  unfolding run_pass
  run_agent_loop c [] s = inr s
  run_agent_loop c (r ∷ rest) s = elim (run_pass c r s) [
    | continues s' ↦ run_agent_loop c rest s'
    | parks s' ↦ run_agent_loop c rest s'
    | exits s' status ↦ inl (finish_run s' status)
  ]

  abbrev pub initial_state : Run T → LoopState T
  initial_state r = record {
    run = r;
    turns = 0;
    usage = zero_usage;
    pending_text = none;
    at_rest = false;
  }
