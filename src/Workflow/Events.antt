-- ===== src/Workflow/Events.antt =====
-- workflow-runtime.ts: each operation of a run, as the events it emits and the finish it may make.
use ephemeral_agent.Common.{
  ℕ, String, refl, subst, inl, inr, Bool, true, not, ◌||◌, Option, List, [], ◌∷◌, Option-cases,
  if_intro, is_empty,
}
use ephemeral_agent.Nodes.{WorkflowNodeSettlement, WorkflowNodeDispatch}
use ephemeral_agent.Workflow.{StateTransitionResult, WorkflowOutcome, WorkflowImplementation}
use ephemeral_agent.Workflow.State.{
  launch_all, Launching, RunInstance, runtime_snapshot, emit, record_snapshot, finish,
  apply_transition, claim_dispatch, launch_next,
}
use ephemeral_agent.Workflow.Run.{
  apply_validated_settlement, Thread, start_thread, queue_thread, deadlock_recorded,
  declare_deadlock, deadlock_if_idle, dispatch, finish_or_dispatch, applied,
}
use ephemeral_agent.Workflow.Actions.{
  some_rejects, put_thread, cancel_recorded, cancelled_run, interrupt,
}
use ephemeral_agent.Workflow.Streams.{
  Front, front, emit_front, finish_front, Moves, emits, finishes,
}

module _ {D : Type 0} (f : Front) where
  abbrev pub Ran : RunInstance D → Type 0
  Ran s = Moves f (front s)

  finish-Ran : (o : WorkflowOutcome) (s : RunInstance D) → Ran s → Ran (finish o s)
  unfolding finish finish_front emit emit_front
  finish-Ran o s m =
      if_intro Ran s.finished s _ (λ _. m) (λ h. subst (Moves f) (rw h refl) (finishes o m))

  apply_transition-Ran :
      (r : StateTransitionResult D) (s : RunInstance D) → Ran s → Ran (apply_transition r s)
  unfolding apply_transition emit emit_front
  apply_transition-Ran r s m = elim (Option-cases r.transition) [
    | inl h ↦ rw h m
    | inr (t, h) ↦ rw h (emits _ refl m)
  ]

  pub launch_next-Ran :
      (ds : List WorkflowNodeDispatch) (s : RunInstance D) → Ran s → Ran (launch_next ds s).0
  unfolding launch_next claim_dispatch
  launch_next-Ran [] s m = m
  launch_next-Ran (d ∷ rest) s m = m

  pub put_thread-Ran :
      (t : Thread) (r : RunInstance D × Option Launching) → Ran r.0 → Ran (put_thread t r)
  unfolding put_thread
  put_thread-Ran start_thread r m = m
  put_thread-Ran queue_thread r m = m

  pub interrupt-Ran :
      (reason : String) (rejects : ℕ → Bool) (s : RunInstance D)
      → Ran s
      → Ran (interrupt reason rejects s)
  unfolding interrupt cancelled_run cancel_recorded record_snapshot emit emit_front
  interrupt-Ran reason rejects s m =
      if_intro Ran s.finished s _ (λ _. m)
        (λ _.
          if_intro Ran (some_rejects rejects 0 s.nodes) _ _ (λ _. m)
            (λ _.
              finish-Ran _ (cancel_recorded reason (record s { aborted = true }))
                (emits _ refl (emits _ refl m))))

  abbrev pub RanBy : RunInstance D × List WorkflowNodeDispatch → Type 0
  RanBy r = Ran r.0

  module _ (impl : WorkflowImplementation D) where
    deadlock_if_idle-Ran : (s : RunInstance D) → Ran s → Ran (deadlock_if_idle impl s)
    unfolding deadlock_if_idle declare_deadlock deadlock_recorded record_snapshot emit emit_front
    deadlock_if_idle-Ran s m =
        if_intro Ran (s.state.is_workflow_done || not (is_empty (runtime_snapshot s).running_nodes))
          _ _ (λ _. m)
          (λ _.
            if_intro Ran (not (is_empty s.last_dispatches)) _ _ (λ _. m)
              (λ _.
                elim (Option-cases (impl.deadlock s.state (runtime_snapshot s) s.last_dispatches)) [
                  | inl h ↦ rw h m
                  | inr (report, h) ↦ rw h (
                      finish-Ran _ (deadlock_recorded impl report s)
                        (emits _ refl (emits _ refl (emits _ refl m))))
                ]))

    abbrev looked : RunInstance D → RunInstance D
    looked s = record s {
      last_dispatches = impl.dispatch s.definition s.state (runtime_snapshot s);
    }

    pub finish_or_dispatch-Ran : (s : RunInstance D) → Ran s → RanBy (finish_or_dispatch impl s)
    unfolding finish_or_dispatch dispatch emit emit_front
    finish_or_dispatch-Ran s m =
        if_intro RanBy s.state.is_workflow_done _ _ (λ _. finish-Ran _ s m)
          (λ _.
            if_intro RanBy s.state.is_workflow_done _ _ (λ _. m)
              (λ _.
                if_intro RanBy (is_empty (looked s).last_dispatches) _ _
                  (λ _. deadlock_if_idle-Ran (looked s) m) (λ _. emits _ refl m)))

    applied-Ran : (n : WorkflowNodeSettlement) (s : RunInstance D) → Ran s → Ran (applied impl n s)
    unfolding applied record_snapshot emit emit_front
    applied-Ran n s m =
        let settled =
          apply_transition (impl.apply_node_settlement s.state n (runtime_snapshot s)) s in
        emits _ refl (apply_transition-Ran _ settled (apply_transition-Ran _ s m))

    pub apply_validated_settlement-Ran :
        (n : WorkflowNodeSettlement) (s : RunInstance D)
        → Ran s
        → RanBy (apply_validated_settlement impl n s)
    unfolding apply_validated_settlement
    apply_validated_settlement-Ran n s m =
        finish_or_dispatch-Ran (applied impl n s) (applied-Ran n s m)

    pub launched-Ran :
        (r : RunInstance D × List WorkflowNodeDispatch) → RanBy r → Ran (launch_all r).0
    unfolding launch_next
    launched-Ran r m = launch_next-Ran r.1 r.0 m
