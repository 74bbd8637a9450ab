-- ===== src/Loop/Examples.antt =====
-- A text run of one turn, a turn with a tool call, and the loop's theorems on them.
use ephemeral_agent.Common.{
  String, ◌≡◌, refl, ◌⊎◌, inl, inr, true, false, none, some, List, [], ◌∷◌, map, arith,
}
use ephemeral_agent.Contracts.{
  end, user, assistant, ToolUseBlock, text, tool_use, Message, ToolCallResult, assistant_text,
  tool_uses,
}
use ephemeral_agent.Usage.{zero_usage}
use ephemeral_agent.Events.{assistant_text_delta, assistant_message_complete, run_started}
use ephemeral_agent.Handle.{interrupt, emit, drain_steers, has_pending_steers, new_handle}
use ephemeral_agent.Inbox
use ephemeral_agent.Tasks
use ephemeral_agent.Conversation.{new_conversation}
use ephemeral_agent.Run.{Run, start_run, interruption, perform, perform_all, gate_open}
use ephemeral_agent.Turn.{other_failure, event, meanwhile, catch_turn, run_assistant_turn}
use ephemeral_agent.Loop.State.{text_mode, LoopContext, returned, Round, LoopState}
use ephemeral_agent.Loop.{
  Pass, continues, parks, exits, classify_loop_error, batch_step, batch_steps, drain_boundary,
  run_boundary, run_pass, run_agent_loop, initial_state,
}
use ephemeral_agent.Loop.History.{IsAnswered}
use ephemeral_agent.Loop.Passes.{LoopInv}
use ephemeral_agent.Loop.Batch.{
  project_tool_result, normalize_batch, block_ids, normalize_batch_ids,
}
use ephemeral_agent.Loop.Park.{wait_for_wake, is_woken, is_released, park_wakes}
use ephemeral_agent.Handle.{queued, steer}
use ephemeral_agent.Tasks.{Action, step}
use ephemeral_agent.Run.{steering, notifying, tasking, interruption}
use ephemeral_agent.Common.{Option, ◌<◌}
use ephemeral_agent.Common.{length}
use ephemeral_agent.Loop.Runs.{
  text_exit_gate, cancelled_only_if_aborted, history-IsAnswered, IsFinishedRun, loop_outcome,
  parked_passes, loop_ends, start_run-LoopInv,
}

abbrev seed : Message
seed = record { role = user; content = text "hello" ∷ [] }

abbrev started : Run String
started = record {
  handle = emit (run_started "agent") new_handle;
  inbox = Inbox.new;
  tasks = Tasks.new;
  conversation = new_conversation (seed ∷ []);
  submitting = false;
  accepted = none;
}

abbrev context : LoopContext String
context = record {
  max_turns = 1;
  terminal_tool_name = none;
  mode = text_mode (λ s. s);
  stringify = λ v. "{}";
  show = λ n. "n";
}

abbrev start : LoopState String
start = initial_state started

start-LoopInv : LoopInv context start
start-LoopInv =
    start_run-LoopInv context "agent" (seed ∷ []) started (refl, tt) (unfold start_run in refl)

-- The environment of a pass whose reply is the given message.
abbrev answering : Message → List ToolCallResult → Round String
answering m results = record {
  stream = record {
    items =
        event (assistant_text_delta "hi")
        ∷ event (assistant_message_complete m zero_usage (some "end_turn"))
        ∷ [];
    failure = none;
  };
  boundary = λ f. [];
  batch = λ calls ms. ([], returned results);
  clock = 7;
  wake = [];
}

abbrev reply : Message
reply = record { role = assistant; content = text "hi" ∷ [] }

abbrev call : ToolUseBlock
call = record { tool_use_id = "t1"; name = "read"; input = end }

abbrev calling : Message
calling = record { role = assistant; content = tool_use call ∷ [] }

abbrev stopping : Round String
stopping = record (answering reply []) {
  stream = record { items = meanwhile interruption ∷ []; failure = some (other_failure "aborted") };
}

-- The state in which a pass leaves the loop.
abbrev state_of : Pass String → LoopState String
state_of (continues s) = s
state_of (parks s) = s
state_of (exits s status) = s

abbrev run_of : Run String ⊎ LoopState String → Run String
run_of (inl r) = r
run_of (inr s) = s.run

text_exit_gate_example :
    gate_open (state_of (run_pass context (answering reply []) start)).run ≡ true
unfolding emit new_handle run_assistant_turn tool_uses has_pending_steers drain_boundary
    drain_steers Tasks.registry_is_empty Inbox.inbox_is_empty Inbox.drain assistant_text run_pass
text_exit_gate_example =
    text_exit_gate context (answering reply []) start
      (state_of (run_pass context (answering reply []) start)) "hi" start-LoopInv refl refl

cancelled_only_if_aborted_example :
    (state_of (run_pass context stopping start)).run.handle.aborted ≡ true
unfolding emit new_handle run_assistant_turn tool_uses has_pending_steers drain_boundary
    drain_steers Tasks.registry_is_empty Inbox.inbox_is_empty Inbox.drain assistant_text run_pass
    perform interrupt classify_loop_error ephemeral_agent.Turn.catch_turn
cancelled_only_if_aborted_example =
    cancelled_only_if_aborted context stopping start (state_of (run_pass context stopping start))
      start-LoopInv refl

history-IsAnswered_example :
    IsAnswered (state_of (run_pass context (answering calling []) start)).run.conversation.llm
unfolding emit new_handle run_assistant_turn tool_uses has_pending_steers drain_boundary
    drain_steers Tasks.registry_is_empty Inbox.inbox_is_empty Inbox.drain assistant_text run_pass
    ephemeral_agent.Loop.Batch.normalize_batch ephemeral_agent.Loop.batch_steps
    ephemeral_agent.Loop.run_boundary ephemeral_agent.Run.perform_all
history-IsAnswered_example =
    history-IsAnswered context (answering calling []) start
      (state_of (run_pass context (answering calling []) start)) start-LoopInv (inl refl)

loop_outcome_example :
    IsFinishedRun context (run_of (run_agent_loop context (answering reply [] ∷ []) start))
unfolding emit new_handle run_assistant_turn tool_uses has_pending_steers drain_boundary
    drain_steers Tasks.registry_is_empty Inbox.inbox_is_empty Inbox.drain assistant_text
    run_agent_loop
loop_outcome_example =
    loop_outcome context (answering reply [] ∷ []) start
      (run_of (run_agent_loop context (answering reply [] ∷ []) start)) start-LoopInv refl

loop_ends_example :
    (final : Run String) × (run_agent_loop context
        (answering calling [] ∷ answering reply [] ∷ [])
        start
      ≡ inl final)
unfolding emit new_handle run_assistant_turn tool_uses has_pending_steers drain_boundary
    drain_steers Tasks.registry_is_empty Inbox.inbox_is_empty Inbox.drain assistant_text run_pass
    parked_passes ephemeral_agent.Loop.Batch.normalize_batch batch_steps run_boundary perform_all
loop_ends_example =
    loop_ends context (answering calling [] ∷ answering reply [] ∷ []) start start-LoopInv
      (omega arith)

normalize_batch_ids_example :
    block_ids (map (project_tool_result (λ v. "{}")) (normalize_batch 7 (call ∷ call ∷ []) []))
    ≡ "t1" ∷ "t1" ∷ []
normalize_batch_ids_example = normalize_batch_ids 7 (λ v. "{}") (call ∷ call ∷ []) []

park_wakes_example :
    let q = wait_for_wake 0 3 started in
    ((m : Message) → (steer m q.handle).1 ≡ queued → is_woken 3 (perform (steering m) q) ≡ true)
    × ((m : String) (k : Option String) → is_woken 3 (perform (notifying m k) q) ≡ true)
    × ((a : Action)
        → length (step q.tasks a).entries < length q.tasks.entries
        → is_woken 3 (perform (tasking a) q) ≡ true)
    × (is_released 3 (perform interruption q) ≡ true)
unfolding emit new_handle
park_wakes_example = park_wakes 0 3 started refl
