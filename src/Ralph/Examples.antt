-- ===== src/Ralph/Examples.antt =====
-- A Ralph loop of two attempts, by hand and run by the workflow runtime.
use ephemeral_agent.Common.{
  ◌≤◌, String, ◌≡◌, refl, ◌⊎◌, Bool, true, false, none, some, List, [], ◌∷◌, arith, length,
  replicate,
}
use ephemeral_agent.Contracts.{JsonValue, str, bool, obj, end, field}
use ephemeral_agent.Nodes.{NodeKind, NodeDefinition, Parsed, WorkflowNodeSettlement}
use ephemeral_agent.Workflow.{WorkflowDefinition, RuntimeSnapshot}
use ephemeral_agent.Workflow.State.{RunInstance}
use ephemeral_agent.Workflow.Run.{start_thread, queue_thread, launched, thrown}
use ephemeral_agent.Workflow.Actions.{Action, answers, submits, start, act, run}
use ephemeral_agent.Workflow.Streams.{front, Sound, Absorbs}
use ephemeral_agent.Workflow.Progress.{HasRunning, Declines}
use ephemeral_agent.Workflow.Advance.{workflow_progress}
use ephemeral_agent.Workflow.Runs.{workflow_events, finished_run-Absorbs}
use ephemeral_agent.Ralph.{State, RalphState, Host}
use ephemeral_agent.Ralph.Settlement.{create_initial_state}
use ephemeral_agent.Ralph.Ladder.{IsWon, IsLost}
use ephemeral_agent.Ralph.Rises.{Settled, Climbs, round-Climbs}
use ephemeral_agent.Workflow.Fields.{running_count}
use ephemeral_agent.Ralph.OneNode.{ralph_one_at_a_time}
use ephemeral_agent.Ralph.Runs.{ralph_loop, rounds, initial-IsOpen, ralph_ends, ralph_never_stalls}

abbrev truth : JsonValue → Bool
truth (bool b) = b
truth v = false

-- Payloads are read from a bare Boolean.
abbrev host : Host
host = record {
  parse_args = λ args. 2;
  parse_planner = λ v. record { pass = truth v; plan = "plan"; summary = "planned" };
  parse_reviewer = λ v. record { pass = truth v; review = "review"; summary = "reviewed" };
  parse_critic = λ v. record { pass = truth v; verdict = "verdict"; summary = "judged" };
  safe_parse = λ p v. Parsed.success v;
  digits = λ n. "n";
}

abbrev agent_binding : String → JsonValue
agent_binding name = obj (field "kind" (str "agent") (field "name" (str name) end))

abbrev definition : WorkflowDefinition
definition = record {
  description = none;
  nodes = none;
  args = none;
  metadata = some (
      field "nodeBindings"
        (obj (
          field "planner" (agent_binding "p")
            (field "reviewer" (agent_binding "r") (field "critic" (agent_binding "c") end))))
        end);
}

abbrev fresh : RunInstance RalphState
unfolding start ralph_loop
fresh = start (ralph_loop host) definition end

abbrev first_launched : List Action
first_launched = answers start_thread launched ∷ []

-- The planner fails once; then all three pass.
abbrev to_success : List Action
to_success =
    answers start_thread (thrown "no agent")
    ∷ answers start_thread launched
    ∷ submits 1 (bool true)
    ∷ answers queue_thread launched
    ∷ submits 2 (bool true)
    ∷ answers queue_thread launched
    ∷ submits 3 (bool true)
    ∷ []

succeeds : (run (ralph_loop host) fresh to_success).finished ≡ true
unfolding run act start ralph_loop
succeeds = refl

nodes_started : length (run (ralph_loop host) fresh to_success).nodes ≡ 4
unfolding run act start ralph_loop
nodes_started = refl

abbrev after_success : RunInstance RalphState
unfolding run act start ralph_loop
after_success = run (ralph_loop host) fresh to_success

workflow_events_example : Sound (front after_success)
unfolding after_success run
workflow_events_example = workflow_events (ralph_loop host) definition end to_success

finished_run-Absorbs_example :
    Absorbs
      (front after_success)
      (front (run (ralph_loop host) after_success (submits 3 (bool false) ∷ [])))
unfolding run start ralph_loop
finished_run-Absorbs_example =
    finished_run-Absorbs (ralph_loop host) definition end to_success (submits 3 (bool false) ∷ [])
      refl

workflow_progress_example :
    HasRunning (run (ralph_loop host) fresh first_launched).nodes
    ⊎ Declines (ralph_loop host) (run (ralph_loop host) fresh first_launched)
unfolding run start ralph_loop
workflow_progress_example = workflow_progress (ralph_loop host) definition end first_launched refl

ralph_never_stalls_example : HasRunning (run (ralph_loop host) fresh first_launched).nodes
unfolding run start ralph_loop
ralph_never_stalls_example = ralph_never_stalls host definition end first_launched refl

abbrev no_nodes : RuntimeSnapshot
no_nodes = record { running_nodes = []; finished_nodes = []; timeline = [] }

abbrev planner_node : NodeDefinition
planner_node = record { kind = NodeKind.agent; name = "p"; description = none }

abbrev failed_node : WorkflowNodeSettlement
failed_node = WorkflowNodeSettlement.failed planner_node none "no agent"

abbrev initial : State
unfolding create_initial_state
initial = create_initial_state host definition end

round-Climbs_example : Climbs host no_nodes no_nodes failed_node initial
unfolding initial create_initial_state
round-Climbs_example =
    round-Climbs host no_nodes no_nodes failed_node initial
      (initial-IsOpen host definition end (omega arith))

abbrev six_failures : List Settled
six_failures =
    replicate 6 (record { before = no_nodes; after = no_nodes; settlement = failed_node })

ralph_ends_example :
    IsWon (rounds host six_failures initial) ⊎ IsLost (rounds host six_failures initial)
unfolding initial create_initial_state
ralph_ends_example = ralph_ends host definition end six_failures (omega arith) (omega arith)

ralph_one_at_a_time_example :
    (running_count after_success.nodes ≤ 1) × (length after_success.nodes ≤ 6)
unfolding after_success run
ralph_one_at_a_time_example = ralph_one_at_a_time host definition end to_success (omega arith)
