-- ===== src/Ralph/Evaluation.antt =====
-- ralph_loop/workflow.mjs: the evaluation after a settlement, the deadlock report and the outcome.
use ephemeral_agent.Common.{
  ◌+◌, String, Bool, true, false, not, ◌||◌, Option, none, some, List, [], ◌∷◌, ◌++◌, str_eq, ltb,
  if◌then◌else◌, is_empty,
}
use ephemeral_agent.Contracts.{str, num, arr, obj, JsonItems, nil, item, end, field, JsonObject}
use ephemeral_agent.Nodes.{WorkflowNodeDispatch}
use ephemeral_agent.Workflow.{
  StateTransitionRecord, WorkflowStatus, RuntimeSnapshot, StateTransitionResult, DeadlockReport,
  WorkflowOutcome,
}
use ephemeral_agent.Ralph.{
  Phase, planner, reviewer, critic, done, PlannerPayload, ReviewerPayload, CriticPayload, Host,
  RalphState, State, phase_text, is_done, text_append, includes, with_transition, unchanged,
  with_own, transition_reason,
}
use ephemeral_agent.Ralph.Settlement.{attempt_field}

abbrev pub is_success : WorkflowStatus → Bool
is_success WorkflowStatus.success = true
is_success _ = false

abbrev strings : List String → JsonItems
strings [] = nil
strings (t ∷ ts) = item (str t) (strings ts)

-- `state.last_transition ?? {}`.
abbrev transition_json : Option StateTransitionRecord → JsonObject
transition_json none = end
transition_json (some t) = field "type" (str t.type) t.fields

abbrev pub is_node_failed : StateTransitionRecord → Bool
is_node_failed t = str_eq t.type "ralph_node_failed"

module _ (host : Host) where
  unfoldable pub retry_or_fail : State → String → StateTransitionResult RalphState
  unfolding with_transition includes
  retry_or_fail state reason =
      let own = state.own in
      let failures =
        if includes reason own.failures then own.failures else own.failures ++ reason ∷ [] in
      if ltb own.attempt own.max_attempts
      then with_transition "ralph_retrying"
          (attempt_field host (own.attempt + 1) (field "reason" (str reason) end))
          (with_own
            (record own {
              attempt = own.attempt + 1;
              phase = planner;
              planner = none;
              reviewer = none;
              critic = none;
              failures = failures;
            })
            state)
      else with_transition "ralph_failed"
          (attempt_field host own.attempt (field "reason" (str reason) end))
          (record state {
            is_workflow_done = true;
            workflow_status = WorkflowStatus.failure;
            own = record own { failures = failures };
          })

  unfoldable pub advance : State → Phase → String → StateTransitionResult RalphState
  unfolding with_transition
  advance state phase type =
      with_transition type
        (attempt_field host state.own.attempt (field "phase" (str (phase_text phase)) end))
        (with_own (record state.own { phase = phase }) state)

  unfoldable pub succeed : State → StateTransitionResult RalphState
  unfolding with_transition
  succeed state =
      with_transition "ralph_succeeded" (attempt_field host state.own.attempt end) (record state {
        is_workflow_done = true;
        workflow_status = WorkflowStatus.success;
        own = record state.own { phase = done };
      })

  unfoldable pub judge_planner : Option PlannerPayload → State → StateTransitionResult RalphState
  unfolding retry_or_fail advance
  judge_planner none state = unchanged state
  judge_planner (some p) state =
      if not p.pass
      then retry_or_fail state (text_append ("planner failed: " ∷ p.summary ∷ []))
      else advance state reviewer "ralph_planner_passed"

  unfoldable pub judge_reviewer : Option ReviewerPayload → State → StateTransitionResult RalphState
  unfolding retry_or_fail advance
  judge_reviewer none state = unchanged state
  judge_reviewer (some r) state =
      if not r.pass
      then retry_or_fail state (text_append ("reviewer failed: " ∷ r.summary ∷ []))
      else advance state critic "ralph_reviewer_passed"

  unfoldable pub judge_critic : Option CriticPayload → State → StateTransitionResult RalphState
  unfolding retry_or_fail succeed
  judge_critic none state = unchanged state
  judge_critic (some c) state =
      if not c.pass
      then retry_or_fail state (text_append ("critic failed: " ∷ c.summary ∷ []))
      else succeed state

  unfoldable pub judge : Phase → State → StateTransitionResult RalphState
  unfolding judge_planner judge_reviewer judge_critic
  judge planner state = judge_planner state.own.planner state
  judge reviewer state = judge_reviewer state.own.reviewer state
  judge critic state = judge_critic state.own.critic state
  judge done state = unchanged state

  -- The test on the last transition.
  unfoldable pub evaluate_after :
      Option StateTransitionRecord → State → StateTransitionResult RalphState
  unfolding transition_reason retry_or_fail judge
  evaluate_after none state = judge state.own.phase state
  evaluate_after (some t) state =
      if is_node_failed t
      then retry_or_fail state (transition_reason t)
      else judge state.own.phase state

  unfoldable pub evaluate_workflow_progress :
      State → RuntimeSnapshot → StateTransitionResult RalphState
  unfolding evaluate_after
  evaluate_workflow_progress state runtime =
      if state.is_workflow_done || is_done state.own.phase
      then unchanged state
      else evaluate_after state.last_transition state

  unfoldable pub deadlock :
      State → RuntimeSnapshot → List WorkflowNodeDispatch → Option DeadlockReport
  deadlock state runtime last_dispatches =
      if state.is_workflow_done
      then none
      else if not (is_empty runtime.running_nodes)
      then none
      else if not (is_empty last_dispatches)
      then none
      else some (record {
        reason = "ralph loop has no dispatchable node";
        details = some (
            attempt_field host state.own.attempt (
              field "phase" (str (phase_text state.own.phase))
                (field "lastTransition" (obj (transition_json state.last_transition)) end)));
      })

  -- `state.planner?.summary ?? ""`, and so on.
  abbrev summaries : RalphState → JsonObject
  summaries own =
      field "planner_summary" (str (elim own.planner [ none ↦ "" | some p ↦ p.summary ])) (
        field "reviewer_summary" (str (elim own.reviewer [ none ↦ "" | some r ↦ r.summary ]))
          (field "critic_summary" (str (elim own.critic [ none ↦ "" | some c ↦ c.summary ])) end))

  unfoldable pub workflow_outcome : State → Option WorkflowOutcome
  workflow_outcome state =
      if not state.is_workflow_done
      then none
      else if is_success state.workflow_status
      then some (WorkflowOutcome.success (some (obj (summaries state.own))))
      else some (
          WorkflowOutcome.failure
            (some (
              text_append
                ("ralph failed after " ∷ host.digits state.own.attempt ∷ " attempt(s)" ∷ [])))
            (some (
              obj (
                field "attempts" (num (host.digits state.own.attempt))
                  (field "failures" (arr (strings state.own.failures)) end)))))
