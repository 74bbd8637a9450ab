-- ===== src/Workflow/Actions.antt =====
-- workflow-runtime.ts: a run from outside. `start()` and the promise queue of `#enqueue` each carry
-- at most one operation; what reaches the queue while it is busy runs later, so an action that needs
-- the queue changes nothing before the queue is free.
use ephemeral_agent.Common.{
  ℕ, suc, String, Bool, true, false, ◌&&◌, ◌||◌, Option, none, some, List, [], ◌∷◌, ◌++◌,
  if◌then◌else◌, is_some, get_elem?,
}
use ephemeral_agent.Contracts.{JsonValue, str, end, field, JsonObject}
use ephemeral_agent.Nodes.{NodeSettlement, WorkflowNodeSettlement, NodeRunStatus}
use ephemeral_agent.Nodes.Stream.{ConsumerAction, new_stream, consume}
use ephemeral_agent.Workflow.{
  WorkflowDefinition, StateTransitionRecord, WorkflowStatus, WorkflowState, WorkflowOutcome,
  WorkflowImplementation, workflow_started, workflow_transition_applied,
}
use ephemeral_agent.Workflow.State.{
  WorkflowNodeRunEntry, Launching, RunInstance, is_running, emit, record_snapshot, finish,
  put_entry, launch_next, launch_all,
}
use ephemeral_agent.Workflow.Run.{
  Thread, start_thread, queue_thread, LaunchAnswer, launched, thrown, settlement_of,
  finish_or_dispatch, settle_node_run, submit_node_completion,
}

-- The answer of a launch to the operation that awaits it, a submission through the completion port
-- of an entry, the settlement of its handle, an interrupt of the run, in which the `interrupt` of
-- some handles may reject, and what the consumer does.
pub data Action : Type 0 where
  answers : Thread → LaunchAnswer → Action
  submits : (entry : ℕ) → JsonValue → Action
  settles : (entry : ℕ) → NodeSettlement → Action
  interrupts : (reason : String) (rejects : ℕ → Bool) → Action
  consumes : ConsumerAction → Action

-- Some running entry has a handle whose `interrupt` rejects; the first entry has number `i`.
unfoldable pub some_rejects : (ℕ → Bool) → ℕ → List WorkflowNodeRunEntry → Bool
some_rejects rejects i [] = false
some_rejects rejects i (e ∷ es) =
    (is_running e.status && e.has_handle && rejects i) || some_rejects rejects (suc i) es

unfoldable pub cancel_running : List WorkflowNodeRunEntry → List WorkflowNodeRunEntry
cancel_running [] = []
cancel_running (e ∷ es) =
    (if is_running e.status then (record e { status = NodeRunStatus.cancelled }) else e)
    ∷ cancel_running es

abbrev pub with_handle : WorkflowNodeRunEntry → WorkflowNodeRunEntry
with_handle e = record e { has_handle = true }

module _ {D : Type 0} where
  unfoldable pub thread : Thread → RunInstance D → Option Launching
  thread start_thread s = s.starting
  thread queue_thread s = s.queued

  unfoldable pub put_thread : Thread → RunInstance D × Option Launching → RunInstance D
  put_thread start_thread r = record r.0 { starting = r.1 }
  put_thread queue_thread r = record r.0 { queued = r.1 }

  unfoldable pub cancel_recorded : String → RunInstance D → RunInstance D
  unfolding emit record_snapshot cancel_running
  cancel_recorded reason s =
      let transition : StateTransitionRecord = record {
        type = "workflow_interrupted";
        fields = field "reason" (str reason) end;
      } in
      let state : WorkflowState D = record s.state {
        is_workflow_done = true;
        workflow_status = WorkflowStatus.failure;
        last_transition = some transition;
      } in
      record_snapshot (
        emit (workflow_transition_applied transition state.version)
          (record s { nodes = cancel_running s.nodes; state = state }))

  unfoldable pub cancelled_run : String → RunInstance D → RunInstance D
  unfolding cancel_recorded finish
  cancelled_run reason s = finish (WorkflowOutcome.cancelled reason) (cancel_recorded reason s)

  -- A handle that rejects leaves the run as it is, with its signal aborted.
  unfoldable pub interrupt : String → (ℕ → Bool) → RunInstance D → RunInstance D
  unfolding some_rejects cancelled_run
  interrupt reason rejects s =
      if s.finished
      then s
      else let aborted = record s { aborted = true } in
        if some_rejects rejects 0 s.nodes then aborted else cancelled_run reason aborted

module _ {D : Type 0} (impl : WorkflowImplementation D) where
  -- The constructor, and `start()` up to its test for a state that is done.
  unfoldable pub announced : WorkflowDefinition → JsonObject → RunInstance D
  unfolding emit record_snapshot new_stream
  announced definition args =
      let created : RunInstance D = record {
        definition = definition;
        stream = new_stream;
        aborted = false;
        nodes = [];
        snapshots = [];
        timeline = [];
        resolved = none;
        state = impl.create_initial_state definition args;
        finished = false;
        last_dispatches = [];
        starting = none;
        queued = none;
      } in
      record_snapshot (emit (workflow_started definition.metadata) created)

  unfoldable pub start : WorkflowDefinition → JsonObject → RunInstance D
  unfolding finish_or_dispatch launch_next put_thread announced
  start definition args =
      put_thread start_thread (launch_all (finish_or_dispatch impl (announced definition args)))

  -- A launch that throws settles its entry as failed; where that throws, the operation ends.
  unfoldable pub launch_answered :
      LaunchAnswer
      → Launching
      → WorkflowNodeRunEntry
      → RunInstance D
      → RunInstance D × Option Launching
  unfolding put_entry settle_node_run launch_next
  launch_answered launched l e s = launch_next l.rest (put_entry l.entry (with_handle e) s)
  launch_answered (thrown reason) l e s =
      elim (settle_node_run impl l.entry e
        (WorkflowNodeSettlement.failed e.start.node e.metadata reason) s) [
          | none ↦ (s, none)
          | some r ↦ launch_next (r.1 ++ l.rest) r.0
        ]

  unfoldable pub answer : Thread → LaunchAnswer → RunInstance D → RunInstance D
  unfolding thread put_thread launch_answered
  answer t a s = elim (thread t s) [
    | none ↦ s
    | some l ↦ elim (get_elem? s.nodes l.entry) [
      | none ↦ s
      | some e ↦ put_thread t (launch_answered a l e s)
    ]
  ]

  unfoldable pub submit : ℕ → JsonValue → RunInstance D → RunInstance D
  unfolding submit_node_completion launch_next put_thread
  submit i payload s = elim (get_elem? s.nodes i) [
    | none ↦ s
    | some e ↦ put_thread queue_thread (launch_all (submit_node_completion impl i e payload s).0)
  ]

  unfoldable pub settle_from :
      ℕ → WorkflowNodeRunEntry → NodeSettlement → RunInstance D → RunInstance D
  unfolding settlement_of settle_node_run launch_next put_thread
  settle_from i e n s = elim (settlement_of e n) [
    | none ↦ s
    | some settlement ↦ elim (settle_node_run impl i e settlement s) [
      | none ↦ s
      | some r ↦ put_thread queue_thread (launch_all r)
    ]
  ]

  -- Only an entry that has a handle is monitored.
  unfoldable pub settle : ℕ → NodeSettlement → RunInstance D → RunInstance D
  unfolding settle_from
  settle i n s = elim (get_elem? s.nodes i) [
    | none ↦ s
    | some e ↦ if e.has_handle then settle_from i e n s else s
  ]

  unfoldable pub act : RunInstance D → Action → RunInstance D
  unfolding answer submit settle interrupt consume
  act s (answers t a) = answer t a s
  act s (submits i payload) = if is_some s.queued then s else submit i payload s
  act s (settles i n) = if is_some s.queued then s else settle i n s
  act s (interrupts reason rejects) = if is_some s.queued then s else interrupt reason rejects s
  act s (consumes c) = record s { stream = consume c s.stream }

  unfoldable pub run : RunInstance D → List Action → RunInstance D
  unfolding act
  run s [] = s
  run s (a ∷ rest) = run (act s a) rest
