-- ===== src/Workflow/Run.antt =====
-- workflow-runtime.ts: the operations of one run. The loop of `#dispatch` awaits each launch, and a
-- launch that throws settles its node run, which dispatches again; so an operation hands back the
-- dispatches left to launch, and the answer to a launch takes it further.
use Prim.Native.String
use ephemeral_agent.Common.{
  ℕ, String, true, not, ◌||◌, Option, none, some, List, [], map, if◌then◌else◌, or_else, is_empty,
}
use ephemeral_agent.Contracts.{JsonValue, str, obj, end, field}
use ephemeral_agent.Nodes.{
  Parsed, NodeOutcome, NodeOutcomeSubmissionResult, accept, reject, NodeSettlement,
  WorkflowNodeSettlement, NodeRunStatus, WorkflowNodeDispatch,
}
use ephemeral_agent.Workflow.{
  StateTransitionRecord, WorkflowStatus, WorkflowState, ok, invalid, DeadlockReport,
  WorkflowOutcome, WorkflowImplementation, WorkflowRunEventBody, workflow_dispatched,
  workflow_node_outcome_received, workflow_transition_applied, workflow_deadlocked,
}
use ephemeral_agent.Workflow.State.{
  WorkflowNodeRunEntry, RunInstance, is_running, is_deadlocked, status_text, runtime_snapshot, emit,
  record_snapshot, finish, apply_transition, put_entry,
}

-- Which of the two an answer to a launch belongs to.
pub data Thread : Type 0 where
  start_thread queue_thread : Thread

-- `launch` is answered with a handle, or it throws.
pub data LaunchAnswer : Type 0 where
  launched : LaunchAnswer
  thrown : (reason : String) → LaunchAnswer

-- The settlement that `#monitorNodeSettlement` enqueues; a completed one is not.
unfoldable pub settlement_of : WorkflowNodeRunEntry → NodeSettlement → Option WorkflowNodeSettlement
settlement_of e (NodeSettlement.completed o) = none
settlement_of e (NodeSettlement.rejected reason) =
    some (WorkflowNodeSettlement.rejected e.start.node e.metadata reason)
settlement_of e (NodeSettlement.failed reason) =
    some (WorkflowNodeSettlement.failed e.start.node e.metadata reason)
settlement_of e (NodeSettlement.cancelled reason) =
    some (WorkflowNodeSettlement.cancelled e.start.node e.metadata reason)

-- `entry.status = settlement.status`.
abbrev pub status_of : WorkflowNodeSettlement → NodeRunStatus
status_of (WorkflowNodeSettlement.completed a) = NodeRunStatus.completed
status_of (WorkflowNodeSettlement.rejected n m r) = NodeRunStatus.rejected
status_of (WorkflowNodeSettlement.failed n m r) = NodeRunStatus.failed
status_of (WorkflowNodeSettlement.cancelled n m r) = NodeRunStatus.cancelled

module _ {D : Type 0} (impl : WorkflowImplementation D) where
  -- The outcome that a state which is done resolves the run with.
  unfoldable pub outcome_of : WorkflowState D → WorkflowOutcome
  outcome_of state = or_else (impl.get_workflow_outcome state) (
      if is_deadlocked state.workflow_status
      then WorkflowOutcome.deadlocked (status_text state.workflow_status) none
      else WorkflowOutcome.failure (some (status_text state.workflow_status)) none)

  unfoldable pub deadlock_recorded : DeadlockReport → RunInstance D → RunInstance D
  unfolding emit record_snapshot
  deadlock_recorded report s =
      let transition : StateTransitionRecord = record {
        type = "workflow_deadlocked";
        fields =
            field "reason" (str report.reason)
              (elim report.details [ none ↦ end | some d ↦ field "details" (obj d) end ]);
      } in
      let state : WorkflowState D = record s.state {
        is_workflow_done = true;
        workflow_status = WorkflowStatus.deadlocked;
        last_transition = some transition;
      } in
      record_snapshot (
        emit (workflow_transition_applied transition state.version)
          (emit (workflow_deadlocked report) (record s { state = state })))

  unfoldable pub declare_deadlock : DeadlockReport → RunInstance D → RunInstance D
  unfolding deadlock_recorded finish
  declare_deadlock report s =
      finish (WorkflowOutcome.deadlocked report.reason report.details) (deadlock_recorded report s)

  unfoldable pub deadlock_if_idle : RunInstance D → RunInstance D
  unfolding runtime_snapshot declare_deadlock
  deadlock_if_idle s =
      if s.state.is_workflow_done || not (is_empty (runtime_snapshot s).running_nodes)
      then s
      else if not (is_empty s.last_dispatches)
      then s
      else elim (impl.deadlock s.state (runtime_snapshot s) s.last_dispatches) [
        | none ↦ s
        | some report ↦ declare_deadlock report s
      ]

  abbrev dispatched : List WorkflowNodeDispatch → WorkflowRunEventBody
  dispatched ds =
      workflow_dispatched (
        map (λ (d : WorkflowNodeDispatch). record { node = d.start.node; metadata = d.metadata })
          ds)

  -- `#dispatch` up to its loop, with the dispatches that the loop launches.
  unfoldable pub dispatch : RunInstance D → RunInstance D × List WorkflowNodeDispatch
  unfolding runtime_snapshot emit deadlock_if_idle
  dispatch s =
      if s.state.is_workflow_done
      then (s, [])
      else let ds = impl.dispatch s.definition s.state (runtime_snapshot s) in
        let kept = record s { last_dispatches = ds } in
        if is_empty ds then (deadlock_if_idle kept, []) else (emit (dispatched ds) kept, ds)

  -- `#finishIfDone`, and the dispatch that follows it where it returns false.
  unfoldable pub finish_or_dispatch : RunInstance D → RunInstance D × List WorkflowNodeDispatch
  unfolding finish outcome_of dispatch
  finish_or_dispatch s =
      if s.state.is_workflow_done then (finish (outcome_of s.state) s, []) else dispatch s

  unfoldable pub applied : WorkflowNodeSettlement → RunInstance D → RunInstance D
  unfolding runtime_snapshot apply_transition record_snapshot
  applied settlement s =
      let settled =
        apply_transition (impl.apply_node_settlement s.state settlement (runtime_snapshot s)) s in
      record_snapshot (
        apply_transition (impl.evaluate_workflow_progress settled.state (runtime_snapshot settled))
          settled)

  unfoldable pub apply_validated_settlement :
      WorkflowNodeSettlement → RunInstance D → RunInstance D × List WorkflowNodeDispatch
  unfolding applied finish_or_dispatch
  apply_validated_settlement settlement s = finish_or_dispatch (applied settlement s)

  -- `none` is a thrown error: the entry has settled, or the settlement is not valid.
  unfoldable pub settle_node_run :
      ℕ
      → WorkflowNodeRunEntry
      → WorkflowNodeSettlement
      → RunInstance D
      → Option (RunInstance D × List WorkflowNodeDispatch)
  unfolding runtime_snapshot put_entry apply_validated_settlement
  settle_node_run i e settlement s =
      if not (is_running e.status)
      then none
      else elim (impl.validate_node_settlement s.state settlement (runtime_snapshot s)) [
        | invalid reason ↦ none
        | ok ↦ some (
            apply_validated_settlement settlement
              (put_entry i (record e { status = status_of settlement }) s))
      ]

  unfoldable pub completed_entry : NodeOutcome → WorkflowNodeRunEntry → WorkflowNodeRunEntry
  completed_entry o e = record e { status = NodeRunStatus.completed; accepted = some o }

  unfoldable pub accepted_settlement : NodeOutcome → WorkflowNodeRunEntry → WorkflowNodeSettlement
  accepted_settlement o e = WorkflowNodeSettlement.completed (record {
    node = e.start.node;
    metadata = e.metadata;
    outcome_name = o.outcome_name;
    outcome = o.outcome;
  })

  abbrev invalid_text : String → String → String
  invalid_text name summary = String.◌++◌ "invalid " (String.◌++◌ name (String.◌++◌ ": " summary))

  -- What the submission of an outcome that parsed leads to: its answer is given once the dispatches
  -- that follow are launched.
  unfoldable pub submit_parsed :
      ℕ
      → WorkflowNodeRunEntry
      → NodeOutcome
      → RunInstance D
      → (RunInstance D × List WorkflowNodeDispatch) × NodeOutcomeSubmissionResult
  unfolding emit runtime_snapshot put_entry apply_validated_settlement completed_entry
      accepted_settlement
  submit_parsed i e o s =
      let received = emit (workflow_node_outcome_received e.start.node.name) s in
      elim (impl.validate_node_settlement received.state (accepted_settlement o e)
        (runtime_snapshot received)) [
          | invalid reason ↦ ((received, []), reject reason)
          | ok ↦ (
            apply_validated_settlement (accepted_settlement o e)
                (put_entry i (completed_entry o e) received),
            accept o,
          )
        ]

  unfoldable pub submit_node_completion :
      ℕ
      → WorkflowNodeRunEntry
      → JsonValue
      → RunInstance D
      → (RunInstance D × List WorkflowNodeDispatch) × NodeOutcomeSubmissionResult
  unfolding submit_parsed
  submit_node_completion i e payload s =
      if not (is_running e.status)
      then ((s, []), reject "node run is already finished")
      else elim (e.start.outcome.safe_parse payload) [
        | Parsed.issues summary ↦ ((s, []), reject (invalid_text e.start.outcome.name summary))
        | Parsed.success value ↦
            submit_parsed i e (record { outcome_name = e.start.outcome.name; outcome = value }) s
      ]
