-- ===== src/Ralph/OneNode.antt =====
-- ralph_loop/workflow.mjs run by the workflow runtime: every sequence of actions on the run.
use ephemeral_agent.Ralph.Alone.{answer-RunInv, submit-RunInv, settle_from-RunInv}
use ephemeral_agent.Ralph.Handled.{none-Quiet, launch-RunInv}
use ephemeral_agent.Ralph.Single.{Lone, RunInv, finished-Ready, finish_or_dispatch-Ready}
use ephemeral_agent.Ralph.Runs.{ralph_loop, initial-IsOpen}
use ephemeral_agent.Ralph.Rises.{height}
use ephemeral_agent.Ralph.Ladder.{ladder_of}
use ephemeral_agent.Ralph.Settlement.{create_initial_state}
use ephemeral_agent.Ralph.{Host, RalphState}
use ephemeral_agent.Workflow.Fields.{running_count, running_count-cancel}
use ephemeral_agent.Workflow.Actions.{
  Action, answers, submits, settles, interrupts, consumes, some_rejects, cancel_recorded,
  cancelled_run, interrupt, announced, start, submit, settle_from, settle, act, run,
}
use ephemeral_agent.Workflow.Run.{start_thread, finish_or_dispatch}
use ephemeral_agent.Workflow.State.{RunInstance, emit, record_snapshot, finish, launch_next}
use ephemeral_agent.Workflow.{WorkflowDefinition, WorkflowOutcome}
use ephemeral_agent.Contracts.{JsonObject}
use ephemeral_agent.Common.{
  ℕ, ◌*◌, ◌≤◌, String, ◌≡◌, refl, inl, inr, Bool, true, List, [], ◌∷◌, arith, Option-cases, is_some,
  if_intro, length, get_elem?,
}
use ephemeral_agent.Nodes.Stream.{ConsumerAction, consume}
use ephemeral_agent.Nodes.{NodeSettlement}

module _ (host : Host) (m : ℕ) where
  -- The signal, the event stream and a finish leave what the invariant speaks of.
  aborted-RunInv :
      (s : RunInstance RalphState) → RunInv m s → RunInv m (record s { aborted = true })
  aborted-RunInv s v = record {
    one = v.one;
    few = v.few;
    quiet = v.quiet;
    going = λ f.
        let g = v.going f in record { state_open = g.state_open; limit = g.limit; left = g.left };
    lone = v.lone;
  }

  streamed-RunInv :
      (c : ConsumerAction) (s : RunInstance RalphState)
      → RunInv m s
      → RunInv m (record s { stream = consume c s.stream })
  streamed-RunInv c s v = record {
    one = v.one;
    few = v.few;
    quiet = v.quiet;
    going = λ f.
        let g = v.going f in record { state_open = g.state_open; limit = g.limit; left = g.left };
    lone = v.lone;
  }

  finish-RunInv :
      (o : WorkflowOutcome) (s : RunInstance RalphState)
      → running_count s.nodes ≡ 0
      → length s.nodes ≤ 3 * m
      → Lone s
      → RunInv m (finish o s)
  finish-RunInv o s idle few lone =
      let r = finished-Ready host m o s idle few lone in
      record {
        one = omega (arith, r.idle);
        few = omega (arith, r.few);
        quiet = λ f. r.idle;
        going = λ f. absurd (omega (arith, (r.going f).1));
        lone = r.lone;
      }

  settle-RunInv :
      (i : ℕ) (n : NodeSettlement) (s : RunInstance RalphState)
      → RunInv m s
      → RunInv m (settle (ralph_loop host) i n s)
  unfolding settle
  settle-RunInv i n s v = elim (Option-cases (get_elem? s.nodes i)) [
    | inl g ↦ rw (settle, g) v
    | inr (e, g) ↦
        rw (settle, g)
          (if_intro (RunInv m) e.has_handle (settle_from (ralph_loop host) i e n s) s
            (λ _. settle_from-RunInv host m i e n s g v) (λ _. v))
  ]

  interrupt-RunInv :
      (reason : String) (rejects : ℕ → Bool) (s : RunInstance RalphState)
      → RunInv m s
      → RunInv m (interrupt reason rejects s)
  unfolding interrupt cancelled_run cancel_recorded record_snapshot emit
  interrupt-RunInv reason rejects s v =
      if_intro (RunInv m) s.finished s _ (λ _. v)
        (λ f.
          if_intro (RunInv m) (some_rejects rejects 0 s.nodes) _ _ (λ _. aborted-RunInv s v)
            (λ _.
              let recorded = cancel_recorded reason (record s { aborted = true }) in
              let (none_left, size) = running_count-cancel s.nodes in
              finish-RunInv (WorkflowOutcome.cancelled reason) recorded none_left
                (omega (arith, size, v.few)) v.lone))

  act-RunInv :
      (s : RunInstance RalphState) (a : Action) → RunInv m s → RunInv m (act (ralph_loop host) s a)
  unfolding act
  act-RunInv s (answers t a) v = answer-RunInv host m t a s v
  act-RunInv s (submits i p) v =
      if_intro (RunInv m) (is_some s.queued) s (submit (ralph_loop host) i p s) (λ _. v)
        (λ _. submit-RunInv host m i p s v)
  act-RunInv s (settles i n) v =
      if_intro (RunInv m) (is_some s.queued) s (settle (ralph_loop host) i n s) (λ _. v)
        (λ _. settle-RunInv i n s v)
  act-RunInv s (interrupts reason rejects) v =
      if_intro (RunInv m) (is_some s.queued) s (interrupt reason rejects s) (λ _. v)
        (λ _. interrupt-RunInv reason rejects s v)
  act-RunInv s (consumes c) v = streamed-RunInv c s v

  run-RunInv :
      (s : RunInstance RalphState) (actions : List Action)
      → RunInv m s
      → RunInv m (run (ralph_loop host) s actions)
  unfolding run
  run-RunInv s [] v = v
  run-RunInv s (a ∷ rest) v = run-RunInv (act (ralph_loop host) s a) rest (act-RunInv s a v)

module _ (host : Host) (definition : WorkflowDefinition) (args : JsonObject) where
  start-RunInv :
      1 ≤ host.parse_args args
      → RunInv (host.parse_args args) (start (ralph_loop host) definition args)
  unfolding start launch_next announced record_snapshot emit ralph_loop create_initial_state height
      ladder_of
  start-RunInv positive =
      let m = host.parse_args args in
      let before = announced (ralph_loop host) definition args in
      let r = finish_or_dispatch (ralph_loop host) before in
      launch-RunInv host m start_thread r.0 r.1 (
        finish_or_dispatch-Ready host m before (record {
          idle = refl;
          limit = refl;
          left = omega (arith, positive);
          sound = inl (initial-IsOpen host definition args positive);
          unfinished = refl;
          lone = (none-Quiet host m, none-Quiet host m);
        }))

  -- If `max_attempts` is positive, then in a Ralph loop run by the workflow runtime, whatever its
  -- nodes, an interrupt and the consumer do, at most one node runs at a time, and at most three nodes
  -- are ever started for each attempt.
  pub ralph_one_at_a_time :
      (actions : List Action)
      → 1 ≤ host.parse_args args
      → (running_count
            (run (ralph_loop host) (start (ralph_loop host) definition args) actions).nodes
          ≤ 1)
        × (length (run (ralph_loop host) (start (ralph_loop host) definition args) actions).nodes
            ≤ 3 * host.parse_args args)
  ralph_one_at_a_time actions positive =
      let v =
        run-RunInv host (host.parse_args args) (start (ralph_loop host) definition args) actions
          (start-RunInv positive) in
      (v.one, v.few)
