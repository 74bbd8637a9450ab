-- ===== src/Ralph/Dispatch.antt =====
-- ralph_loop/workflow.mjs: the bindings of the roles, and the node that a phase starts.
use ephemeral_agent.Common.{
  String, Bool, not, ◌&&◌, ◌||◌, Option, none, some, List, [], ◌∷◌, str_eq, if◌then◌else◌, is_some,
  is_empty,
}
use ephemeral_agent.Contracts.{
  JsonValue, str, bool, null, obj, JsonFields, end, field, JsonObject, user, text, Message,
}
use ephemeral_agent.Nodes.{
  NodeKind, NodeDefinition, NodeOutcomeContract, NodeInput, agent_input, workflow_input,
  NodeStartSpec, WorkflowNodeDispatch,
}
use ephemeral_agent.Workflow.{WorkflowDefinition, RuntimeSnapshot}
use ephemeral_agent.Ralph.{
  Phase, planner, reviewer, critic, PlannerPayload, ReviewerPayload, Host, RalphState, State,
  phase_text, is_done, text_append, get_field, string_of,
}
use ephemeral_agent.Ralph.Settlement.{attempt_field}

unfoldable pub kind_of : Option JsonValue → Option NodeKind
kind_of (some (str s)) =
    if str_eq s "agent"
    then some NodeKind.agent
    else if str_eq s "workflow"
    then some NodeKind.workflow
    else none
kind_of _ = none

-- `isBinding`, with the node definition that the value then is.
unfoldable pub binding : Option JsonValue → Option NodeDefinition
unfolding kind_of get_field
binding (some (obj fields)) = elim (kind_of (get_field "kind" fields)) [
  | none ↦ none
  | some kind ↦ elim (string_of (get_field "name" fields)) [
    | none ↦ none
    | some name ↦ some (record {
      kind = kind;
      name = name;
      description = string_of (get_field "description" fields);
    })
  ]
]
binding _ = none

-- `isBindingMap`: all three roles are bound.
unfoldable pub is_binding_map : JsonFields → Bool
unfolding binding get_field
is_binding_map fields =
    is_some (binding (get_field "planner" fields))
    && is_some (binding (get_field "reviewer" fields))
    && is_some (binding (get_field "critic" fields))

node_bindings : Option JsonObject → Option JsonValue
unfolding get_field
node_bindings none = none
node_bindings (some metadata) = get_field "nodeBindings" metadata

bound : Option JsonValue → Phase → Option NodeDefinition
unfolding is_binding_map binding get_field
bound (some (obj fields)) phase =
    if is_binding_map fields then binding (get_field (phase_text phase) fields) else none
bound _ phase = none

unfoldable pub binding_for : WorkflowDefinition → Phase → Option NodeDefinition
unfolding node_bindings bound
binding_for definition phase = bound (node_bindings definition.metadata) phase

module _ (host : Host) where
  -- For a phase that is neither the planner's nor the reviewer's, the contract of the critic.
  outcome_for : Phase → NodeOutcomeContract
  outcome_for planner = record {
    name = "submit_planner_ralph_outcome";
    description = "Submit the Ralph planner result for this attempt.";
    safe_parse = host.safe_parse planner;
  }
  outcome_for reviewer = record {
    name = "submit_reviewer_ralph_outcome";
    description = "Submit the Ralph reviewer result for this attempt.";
    safe_parse = host.safe_parse reviewer;
  }
  outcome_for phase = record {
    name = "submit_critic_ralph_outcome";
    description = "Submit the Ralph critic result for this attempt.";
    safe_parse = host.safe_parse critic;
  }

  abbrev plan_of : RalphState → String
  plan_of own = elim own.planner [ none ↦ "" | some p ↦ p.plan ]

  abbrev review_of : RalphState → String
  review_of own = elim own.reviewer [ none ↦ "" | some r ↦ r.review ]

  prompt : Phase → RalphState → String
  prompt planner own =
      text_append
        ("Attempt " ∷ host.digits own.attempt ∷ ": produce a concise implementation plan." ∷ [])
  prompt reviewer own = text_append (
      "Attempt "
      ∷ host.digits own.attempt
      ∷ ": review this plan and decide whether it passes.\n\n"
      ∷ plan_of own
      ∷ [])
  prompt phase own = text_append (
      "Attempt "
      ∷ host.digits own.attempt
      ∷ ": critique the accepted plan and review.\n\nPlan: "
      ∷ plan_of own
      ∷ "\nReview: "
      ∷ review_of own
      ∷ [])

  build_messages : RalphState → List Message
  unfolding prompt
  build_messages own = record { role = user; content = text (prompt own.phase own) ∷ [] } ∷ []

  abbrev pub role_metadata : RalphState → JsonObject
  role_metadata own = field "role" (str (phase_text own.phase)) (attempt_field host own.attempt end)

  -- `state.planner ?? null`.
  planner_json : Option PlannerPayload → JsonValue
  planner_json none = null
  planner_json (some p) =
      obj (
        field "pass" (bool p.pass)
          (field "plan" (str p.plan) (field "summary" (str p.summary) end)))

  reviewer_json : Option ReviewerPayload → JsonValue
  reviewer_json none = null
  reviewer_json (some r) = obj (
      field "pass" (bool r.pass)
        (field "review" (str r.review) (field "summary" (str r.summary) end)))

  input_for : NodeKind → RalphState → NodeInput
  unfolding build_messages planner_json reviewer_json
  input_for NodeKind.agent own = agent_input (build_messages own) (some (role_metadata own))
  input_for NodeKind.workflow own =
      workflow_input
        (field "phase" (str (phase_text own.phase)) (
          attempt_field host own.attempt (
            field "planner" (planner_json own.planner)
              (field "reviewer" (reviewer_json own.reviewer) end))))
        (some (role_metadata own))

  start_for : RalphState → NodeDefinition → NodeStartSpec
  unfolding input_for outcome_for
  start_for own node = record {
    node = node;
    input = input_for node.kind own;
    outcome = outcome_for own.phase;
  }

  unfoldable pub dispatch_of : RalphState → NodeDefinition → WorkflowNodeDispatch
  unfolding start_for
  dispatch_of own node = record { start = start_for own node; metadata = some (role_metadata own) }

  unfoldable pub dispatch : WorkflowDefinition → State → RuntimeSnapshot → List WorkflowNodeDispatch
  unfolding binding_for dispatch_of
  dispatch definition state runtime =
      if state.is_workflow_done || is_done state.own.phase
      then []
      else if not (is_empty runtime.running_nodes)
      then []
      else elim (binding_for definition state.own.phase) [
        | none ↦ []
        | some node ↦ dispatch_of state.own node ∷ []
      ]
