-- ===== src/Ralph/Settlement.antt =====
-- ralph_loop/workflow.mjs: the initial state, and what a settlement does to the state.
use ephemeral_agent.Common.{
  ℕ, ◌+◌, String, false, none, some, [], ◌∷◌, ◌++◌, if◌then◌else◌, opt_eq, or_else,
}
use ephemeral_agent.Contracts.{JsonValue, str, num, end, field, JsonObject}
use ephemeral_agent.Nodes.{WorkflowNodeSettlement}
use ephemeral_agent.Workflow.{
  WorkflowDefinition, WorkflowStatus, RuntimeSnapshot, ValidationResult, invalid,
  StateTransitionResult,
}
use ephemeral_agent.Ralph.{
  Phase, planner, reviewer, critic, done, Host, RalphState, State, phase_text, is_done, text_append,
  with_transition, unchanged, settlement_role, settlement_failure,
}

module _ (host : Host) where
  abbrev pub attempt_field : ℕ → JsonObject → JsonObject
  attempt_field n rest = field "attempt" (num (host.digits n)) rest

  unfoldable pub create_initial_state : WorkflowDefinition → JsonObject → State
  create_initial_state definition args = record {
    version = 0;
    is_workflow_done = false;
    workflow_status = WorkflowStatus.running;
    last_transition = none;
    own = record {
      attempt = 1;
      max_attempts = host.parse_args args;
      phase = planner;
      planner = none;
      reviewer = none;
      critic = none;
      failures = [];
    };
  }

  unfoldable pub validate_node_settlement :
      State → WorkflowNodeSettlement → RuntimeSnapshot → ValidationResult
  unfolding settlement_role
  validate_node_settlement state settlement runtime =
      let role = settlement_role settlement in
      if is_done state.own.phase
      then invalid "workflow is already done"
      else if opt_eq role (some (phase_text state.own.phase))
      then ValidationResult.ok
      else invalid (
          text_append (
            "settlement role \""
            ∷ or_else role "unknown"
            ∷ "\" does not match phase \""
            ∷ phase_text state.own.phase
            ∷ "\""
            ∷ []))

  -- `version: state.version + 1`, with one field of the state set.
  abbrev pub stepped : RalphState → State → State
  stepped own state = record state { version = state.version + 1; own = own }

  unfoldable pub apply_completed : Phase → JsonValue → State → StateTransitionResult RalphState
  unfolding with_transition
  apply_completed planner payload state =
      with_transition "ralph_planner_submitted" (attempt_field state.own.attempt end)
        (stepped (record state.own { planner = some (host.parse_planner payload) }) state)
  apply_completed reviewer payload state =
      with_transition "ralph_reviewer_submitted" (attempt_field state.own.attempt end)
        (stepped (record state.own { reviewer = some (host.parse_reviewer payload) }) state)
  apply_completed critic payload state =
      with_transition "ralph_critic_submitted" (attempt_field state.own.attempt end)
        (stepped (record state.own { critic = some (host.parse_critic payload) }) state)
  apply_completed done payload state = unchanged state

  unfoldable pub apply_failed : String → State → StateTransitionResult RalphState
  unfolding with_transition
  apply_failed failure state =
      with_transition "ralph_node_failed"
        (field "phase" (str (phase_text state.own.phase))
          (attempt_field state.own.attempt (field "reason" (str failure) end)))
        (stepped (record state.own { failures = state.own.failures ++ failure ∷ [] }) state)

  unfoldable pub apply_node_settlement :
      State → WorkflowNodeSettlement → RuntimeSnapshot → StateTransitionResult RalphState
  unfolding settlement_failure apply_completed apply_failed
  apply_node_settlement state (WorkflowNodeSettlement.completed a) runtime =
      apply_completed state.own.phase a.outcome state
  apply_node_settlement state settlement runtime =
      if is_done state.own.phase
      then unchanged state
      else elim (settlement_failure settlement state.own.phase) [
        | none ↦ unchanged state
        | some failure ↦ apply_failed failure state
      ]
