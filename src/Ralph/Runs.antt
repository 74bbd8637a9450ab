-- ===== src/Ralph/Runs.antt =====
-- ralph_loop/workflow.mjs: the script as a workflow implementation, every sequence of rounds from its
-- initial state, and a run of it by the workflow runtime.
use ephemeral_agent.Workflow.Advance.{workflow_progress}
use ephemeral_agent.Workflow.Progress.{HasRunning, is_empty-map, Declines}
use ephemeral_agent.Workflow.Actions.{Action, start, run}
use ephemeral_agent.Workflow.State.{RunInstance, node_snapshot, running_entries, runtime_snapshot}
use ephemeral_agent.Ralph.Climbing.{ladder_going}
use ephemeral_agent.Ralph.Rises.{height, height-climb, Settled, round-Climbs}
use ephemeral_agent.Ralph.Ladder.{ladder_of, IsOpen, IsWon, IsLost, RalphInv, passes, round}
use ephemeral_agent.Ralph.Dispatch.{dispatch}
use ephemeral_agent.Ralph.Evaluation.{evaluate_workflow_progress, deadlock, workflow_outcome}
use ephemeral_agent.Ralph.Settlement.{
  create_initial_state, validate_node_settlement, apply_node_settlement,
}
use ephemeral_agent.Ralph.{Host, RalphState, State}
use ephemeral_agent.Workflow.{WorkflowDefinition, WorkflowImplementation}
use ephemeral_agent.Contracts.{JsonObject}
use ephemeral_agent.Common.{
  ◌*◌, ◌≤◌, ◌≡◌, refl, sym, ap, subst, ◌⊎◌, inl, inr, true, false, List, [], ◌∷◌, arith,
  if◌then◌else◌, Bool-cases, is_some, if_intro, if_false, length, is_empty,
}

-- `defineWorkflowImplementation({...})`.
unfoldable pub ralph_loop : Host → WorkflowImplementation RalphState
unfolding create_initial_state dispatch validate_node_settlement apply_node_settlement
    evaluate_workflow_progress deadlock workflow_outcome
ralph_loop host = record {
  create_initial_state = create_initial_state host;
  dispatch = dispatch host;
  validate_node_settlement = validate_node_settlement host;
  apply_node_settlement = apply_node_settlement host;
  evaluate_workflow_progress = evaluate_workflow_progress host;
  deadlock = deadlock host;
  get_workflow_outcome = workflow_outcome host;
}

module _ (host : Host) where
  -- The rounds of a run, up to a state that is done.
  unfoldable pub rounds : List Settled → State → State
  unfolding round
  rounds [] s = s
  rounds (x ∷ xs) s =
      let rest = rounds xs (round host x.before x.after x.settlement s) in
      if s.is_workflow_done then s else rest

  pub initial-IsOpen :
      (definition : WorkflowDefinition) (args : JsonObject)
      → 1 ≤ host.parse_args args
      → IsOpen (create_initial_state host definition args)
  unfolding create_initial_state
  initial-IsOpen definition args positive = record {
    going = refl;
    status = refl;
    phase = refl;
    slots = (refl, refl, refl);
    started = omega arith;
    within = positive;
    reasons = omega arith;
  }

  rounds_done : (xs : List Settled) (s : State) → s.is_workflow_done ≡ true → rounds xs s ≡ s
  unfolding rounds
  rounds_done [] s h = refl
  rounds_done (x ∷ xs) s h =
      if_intro (λ (t : State). t ≡ s) s.is_workflow_done s _ (λ _. refl)
        (λ g. absurd (ground (arith, h)))

  -- Some round is left while the state is open.
  pub height-open : (s : State) → IsOpen s → 1 ≤ height s.own.max_attempts (ladder_of s)
  height-open s v = omega (
    arith,
    height-climb s.own.max_attempts s.own.attempt false s.own.phase v.phase,
    ap (height s.own.max_attempts) (ladder_going s v.going),
  )

  rounds-end :
      (xs : List Settled) (s : State)
      → RalphInv s
      → height s.own.max_attempts (ladder_of s) ≤ length xs
      → IsWon (rounds xs s) ⊎ IsLost (rounds xs s)
  unfolding rounds
  rounds-end xs s (inr (inl v)) few =
      subst (λ t. IsWon t ⊎ IsLost t) (sym (rounds_done xs s v.stopped)) (inl v)
  rounds-end xs s (inr (inr v)) few =
      subst (λ t. IsWon t ⊎ IsLost t) (sym (rounds_done xs s v.stopped)) (inr v)
  rounds-end [] s (inl v) few = absurd (omega (arith, height-open s v))
  rounds-end (x ∷ xs) s (inl v) few =
      let t = round host x.before x.after x.settlement s in
      let (at, same, sound) = round-Climbs host x.before x.after x.settlement s v in
      let passed = passes host s.own.phase x.settlement in
      subst (λ t. IsWon t ⊎ IsLost t) (sym (if_false s.is_workflow_done s (rounds xs t) v.going))
        (rounds-end xs t sound (
          omega (
            arith,
            ap (λ m. height m (ladder_of t)) same,
            ap (height s.own.max_attempts) at,
            height-climb s.own.max_attempts s.own.attempt passed s.own.phase v.phase,
            ap (height s.own.max_attempts) (ladder_going s v.going),
          )))

  -- If `max_attempts` is positive, then after three rounds for each attempt, whatever settled in them,
  -- the workflow is done: by success, with a passing payload of the planner, the reviewer and the
  -- critic, or by failure in the last attempt.
  pub ralph_ends :
      (definition : WorkflowDefinition) (args : JsonObject) (xs : List Settled)
      → 1 ≤ host.parse_args args
      → 3 * host.parse_args args ≤ length xs
      → IsWon (rounds xs (create_initial_state host definition args))
        ⊎ IsLost (rounds xs (create_initial_state host definition args))
  unfolding create_initial_state height ladder_of
  ralph_ends definition args xs positive enough =
      rounds-end xs (create_initial_state host definition args)
        (inl (initial-IsOpen definition args positive)) (omega (arith, enough, positive))

  Declines-absurd : (s : RunInstance RalphState) → Declines (ralph_loop host) s → HasRunning s.nodes
  unfolding ralph_loop deadlock runtime_snapshot
  Declines-absurd s (going, _, quiet) = elim (Bool-cases (is_empty (running_entries s.nodes))) [
    | inr busy ↦ busy
    | inl idle ↦ absurd (
        ground (
          arith,
          going,
          idle,
          is_empty-map node_snapshot (running_entries s.nodes),
          ap is_some quiet,
        ))
  ]

  -- Run by the workflow runtime, whatever its nodes, an interrupt and the consumer do, a Ralph loop
  -- that has not finished has a running node.
  pub ralph_never_stalls :
      (definition : WorkflowDefinition) (args : JsonObject) (actions : List Action)
      → (run (ralph_loop host) (start (ralph_loop host) definition args) actions).finished ≡ false
      → HasRunning (run (ralph_loop host) (start (ralph_loop host) definition args) actions).nodes
  ralph_never_stalls definition args actions unfinished =
      elim (workflow_progress (ralph_loop host) definition args actions unfinished) [
        | inl r ↦ r
        | inr d ↦ Declines-absurd _ d
      ]
