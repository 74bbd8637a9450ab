-- ===== src/Ralph/Single.antt =====
-- ralph_loop/workflow.mjs run by the workflow runtime: what a settlement leads to.
use ephemeral_agent.Ralph.Dispatch.{dispatch, dispatch_of, binding_for}
use ephemeral_agent.Ralph.Evaluation.{deadlock}
use ephemeral_agent.Workflow.Run
use ephemeral_agent.Ralph.Runs.{ralph_loop, height-open}
use ephemeral_agent.Ralph.Rises.{height}
use ephemeral_agent.Ralph.Ladder.{ladder_of, IsOpen, RalphInv}
use ephemeral_agent.Ralph.{Host, RalphState, State, is_done}
use ephemeral_agent.Workflow.Fields.{running_count, finish-SameWork}
use ephemeral_agent.Workflow.Progress.{is_empty-map, is_empty_nil, finish-finished}
use ephemeral_agent.Workflow.Run.{
  launched, deadlock_recorded, declare_deadlock, deadlock_if_idle, finish_or_dispatch,
}
use ephemeral_agent.Workflow.State.{
  Launching, RunInstance, node_snapshot, running_entries, runtime_snapshot, emit, record_snapshot,
  finish,
}
use ephemeral_agent.Workflow.{WorkflowDefinition, RuntimeSnapshot, DeadlockReport, WorkflowOutcome}
use ephemeral_agent.Common.{
  ℕ, ◌+◌, ◌*◌, ◌≤◌, ◌≡◌, refl, sym, ap, subst, ◌∙◌, ◌⊎◌, inl, inr, true, false, not, ◌||◌, Option,
  some, List, [], ◌∷◌, arith, Option-cases, if_intro, if_false, length, is_empty,
}
use ephemeral_agent.Nodes.{WorkflowNodeDispatch}

-- The run of a Ralph loop of `m` attempts, where `r` nodes are running.
pub record Sound (m r : ℕ) (s : RunInstance RalphState) : Type 0 where
  pub state_open : IsOpen s.state
  pub limit : s.state.own.max_attempts ≡ m
  pub left : length s.nodes + height m (ladder_of s.state) ≤ 3 * m + r

-- No operation of the run has a dispatch left besides the one that it awaits.
abbrev pub Quiet : Option Launching → Type 0
Quiet o = (l : Launching) → o ≡ some l → l.rest ≡ []

abbrev pub Lone : RunInstance RalphState → Type 0
Lone s = Quiet s.starting × Quiet s.queued

-- A run between actions.
pub record RunInv (m : ℕ) (s : RunInstance RalphState) : Type 0 where
  pub one : running_count s.nodes ≤ 1
  pub few : length s.nodes ≤ 3 * m
  pub quiet : s.finished ≡ true → running_count s.nodes ≡ 0
  pub going : s.finished ≡ false → Sound m (running_count s.nodes) s
  pub lone : Lone s

-- After a settlement: the run has finished, or one node is to be launched.
pub record Ready (m : ℕ) (r : RunInstance RalphState × List WorkflowNodeDispatch) : Type 0 where
  pub idle : running_count r.0.nodes ≡ 0
  pub few : length r.0.nodes + length r.1 ≤ 3 * m
  pub single : length r.1 ≤ 1
  pub stopped : r.0.finished ≡ true → length r.1 ≡ 0
  pub going : r.0.finished ≡ false → Sound m 0 r.0 × (length r.1 ≡ 1)
  pub lone : Lone r.0

-- The state of the run before the test whether it is done.
pub record Judged (m : ℕ) (s : RunInstance RalphState) : Type 0 where
  pub idle : running_count s.nodes ≡ 0
  pub limit : s.state.own.max_attempts ≡ m
  pub left : length s.nodes + height m (ladder_of s.state) ≤ 3 * m
  pub sound : RalphInv s.state
  pub unfinished : s.finished ≡ false
  pub lone : Lone s

RalphInv-IsOpen : (s : State) → RalphInv s → s.is_workflow_done ≡ false → IsOpen s
RalphInv-IsOpen s (inl v) h = v
RalphInv-IsOpen s (inr (inl v)) h = absurd (ground (arith, h, v.stopped))
RalphInv-IsOpen s (inr (inr v)) h = absurd (ground (arith, h, v.stopped))

is_empty-zero {ℓ} : {A : Type ℓ} (xs : List A) → length xs ≡ 0 → is_empty xs ≡ true
is_empty-zero [] h = refl
is_empty-zero (x ∷ xs) h = absurd (omega arith)

abbrev AtMostOne : List WorkflowNodeDispatch → Type 0
AtMostOne ds = (ds ≡ []) ⊎ ((d : WorkflowNodeDispatch) × (ds ≡ d ∷ []))

module _ (host : Host) (m : ℕ) where
  pub finished-Ready :
      (o : WorkflowOutcome) (s : RunInstance RalphState)
      → running_count s.nodes ≡ 0
      → length s.nodes ≤ 3 * m
      → Lone s
      → Ready m (finish o s, [])
  finished-Ready o s idle few lone =
      let (n, st, a, q) = finish-SameWork o s in
      record {
        idle = omega (arith, idle, ap running_count n);
        few = omega (arith, few, ap length n);
        single = omega arith;
        stopped = λ f. refl;
        going = λ f. absurd (ground (arith, f, finish-finished (ralph_loop host) o s));
        lone = (subst Quiet (sym a) lone.0, subst Quiet (sym q) lone.1);
      }

  -- The script starts no node or one.
  ralph_dispatch-cases :
      (definition : WorkflowDefinition) (s : State) (runtime : RuntimeSnapshot)
      → (dispatch host definition s runtime ≡ [])
        ⊎ ((d : WorkflowNodeDispatch) × (dispatch host definition s runtime ≡ d ∷ []))
  unfolding dispatch
  ralph_dispatch-cases definition s runtime =
      if_intro AtMostOne (s.is_workflow_done || is_done s.own.phase) _ _ (λ _. inl refl)
        (λ _.
          if_intro AtMostOne (not (is_empty runtime.running_nodes)) _ _ (λ _. inl refl)
            (λ _. elim (Option-cases (binding_for definition s.own.phase)) [
              | inl h ↦ rw h (inl refl)
              | inr (node, h) ↦ rw h (inr (dispatch_of host s.own node, refl))
            ]))

  -- With none running and none to start, it reports a deadlock.
  ralph_deadlock :
      (s : State) (runtime : RuntimeSnapshot)
      → s.is_workflow_done ≡ false
      → is_empty runtime.running_nodes ≡ true
      → (report : DeadlockReport) × (deadlock host s runtime [] ≡ some report)
  unfolding deadlock
  ralph_deadlock s runtime d idle = (
    _,
    if_false s.is_workflow_done _ _ d
        ∙ if_false (not (is_empty runtime.running_nodes)) _ _ (ap not idle),
  )

  stuck-Ready :
      (s : RunInstance RalphState)
      → s.state.is_workflow_done ≡ false
      → s.last_dispatches ≡ []
      → running_count s.nodes ≡ 0
      → length s.nodes ≤ 3 * m
      → Lone s
      → Ready m (deadlock_if_idle (ralph_loop host) s, [])
  unfolding deadlock_if_idle declare_deadlock deadlock_recorded record_snapshot emit ralph_loop
      runtime_snapshot
  stuck-Ready s d last r few lone =
      let rt = runtime_snapshot s in
      let idle : is_empty rt.running_nodes ≡ true =
        is_empty-map node_snapshot (running_entries s.nodes)
        ∙ is_empty-zero (running_entries s.nodes) r in
      let (report, h) = ralph_deadlock s.state rt d idle in
      let asked : deadlock host s.state rt s.last_dispatches ≡ some report =
        subst (λ ds. deadlock host s.state rt ds ≡ some report) (sym last) h in
      if_intro (λ (t : RunInstance RalphState). Ready m (t, []))
        (s.state.is_workflow_done || not (is_empty rt.running_nodes)) _ _
        (λ e. absurd (ground (arith, e, d, idle)))
        (λ _.
          if_intro (λ (t : RunInstance RalphState). Ready m (t, []))
            (not (is_empty s.last_dispatches)) _ _
            (λ e. absurd (ground (arith, e, ap is_empty last)))
            (λ _.
              rw asked
                (finished-Ready _ (deadlock_recorded (ralph_loop host) report s) r few lone)))

  pub finish_or_dispatch-Ready :
      (s : RunInstance RalphState) → Judged m s → Ready m (finish_or_dispatch (ralph_loop host) s)
  unfolding finish_or_dispatch Run.dispatch ralph_loop emit
  finish_or_dispatch-Ready s v =
      let ds = dispatch host s.definition s.state (runtime_snapshot s) in
      let kept : RunInstance RalphState = record s { last_dispatches = ds } in
      if_intro (Ready m) s.state.is_workflow_done _ _
        (λ _. finished-Ready _ s v.idle (omega (arith, v.left)) v.lone)
        (λ d.
          if_intro (Ready m) s.state.is_workflow_done _ _ (λ e. absurd (ground (arith, d, e)))
            (λ _.
              if_intro (Ready m) (is_empty ds) _ _
                (λ e. stuck-Ready kept d (is_empty_nil ds e) v.idle (omega (arith, v.left)) v.lone)
                (λ e.
                  let op = RalphInv-IsOpen s.state v.sound d in
                  let one_left : length ds ≡ 1 =
                    elim (ralph_dispatch-cases s.definition s.state (runtime_snapshot s)) [
                      | inl q ↦ absurd (ground (arith, e, ap is_empty q))
                      | inr (x, q) ↦ ap length q
                    ] in
                  record {
                    idle = v.idle;
                    few = omega (
                      arith,
                      v.left,
                      one_left,
                      height-open host s.state op,
                      ap (λ k. height k (ladder_of s.state)) v.limit,
                    );
                    single = omega (arith, one_left);
                    stopped = λ f. absurd (ground (arith, f, v.unfinished));
                    lone = v.lone;
                    going = λ _. (
                      record { state_open = op; limit = v.limit; left = omega (arith, v.left) },
                      one_left,
                    );
                  })))
