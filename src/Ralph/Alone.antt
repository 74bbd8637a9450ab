-- ===== src/Ralph/Alone.antt =====
-- ralph_loop/workflow.mjs run by the workflow runtime: the answers, submissions and settlements
-- that reach it.
use ephemeral_agent.Ralph.Handled.{
  put_thread-RunInv, none-Quiet, launch-RunInv, handled-Ready, with_handle-RunInv, thread-Quiet,
}
use ephemeral_agent.Ralph.Single.{RunInv}
use ephemeral_agent.Ralph.Runs.{ralph_loop}
use ephemeral_agent.Ralph.{Host, RalphState}
use ephemeral_agent.Workflow.Cases.{
  settled_entry, received, outcome_entry, settle_node_run-cases, submit_node_completion-cases,
}
use ephemeral_agent.Workflow.Actions.{
  with_handle, thread, put_thread, launch_answered, answer, submit, settle_from,
}
use ephemeral_agent.Workflow.Run.{
  Thread, queue_thread, LaunchAnswer, launched, thrown, settlement_of, status_of,
  apply_validated_settlement, accepted_settlement,
}
use ephemeral_agent.Workflow.State.{
  WorkflowNodeRunEntry, Launching, RunInstance, is_running, emit, put_entry, launch_next,
}
use ephemeral_agent.Contracts.{JsonValue}
use ephemeral_agent.Common.{
  ℕ, ◌≡◌, refl, sym, ap, subst, ◌∙◌, inl, inr, false, none, some, [], ◌++◌, append-nil,
  Option-cases, get_elem?,
}
use ephemeral_agent.Nodes.{NodeSettlement, WorkflowNodeSettlement, NodeRunStatus}

status_of_settled : (n : WorkflowNodeSettlement) → is_running (status_of n) ≡ false
status_of_settled (WorkflowNodeSettlement.completed a) = refl
status_of_settled (WorkflowNodeSettlement.rejected d k r) = refl
status_of_settled (WorkflowNodeSettlement.failed d k r) = refl
status_of_settled (WorkflowNodeSettlement.cancelled d k r) = refl

module _ (host : Host) (m : ℕ) where
  answered-RunInv :
      (t : Thread) (a : LaunchAnswer) (l : Launching) (e : WorkflowNodeRunEntry)
      (s : RunInstance RalphState)
      → RunInv m s
      → l.rest ≡ []
      → get_elem? s.nodes l.entry ≡ some e
      → RunInv m (put_thread t (launch_answered (ralph_loop host) a l e s))
  unfolding launch_answered launch_next put_entry
  answered-RunInv t launched l e s v rest g =
      let handed = put_entry l.entry (with_handle e) s in
      subst (λ ds. RunInv m (put_thread t (launch_next ds handed))) (sym rest)
        (put_thread-RunInv host m t handed none (with_handle-RunInv host m l.entry e s g v)
          (none-Quiet host m))
  answered-RunInv t (thrown reason) l e s v rest g =
      let n = WorkflowNodeSettlement.failed e.start.node e.metadata reason in
      elim (settle_node_run-cases (ralph_loop host) l.entry e n s) [
        | inl c ↦ rw (launch_answered, c) (put_thread-RunInv host m t s none v (none-Quiet host m))
        | inr (r, c) ↦
            let after =
              apply_validated_settlement (ralph_loop host) n (settled_entry l.entry e n s) in
            rw (launch_answered, c)
              (subst (λ ds. RunInv m (put_thread t (launch_next ds after.0)))
                (sym (ap (λ x. after.1 ++ x) rest ∙ append-nil after.1))
                (launch-RunInv host m t after.0 after.1 (
                  handled-Ready host m n l.entry e (record e { status = NodeRunStatus.failed }) s
                    (settled_entry l.entry e n s) v g r refl refl refl refl v.lone)))
      ]

  pub answer-RunInv :
      (t : Thread) (a : LaunchAnswer) (s : RunInstance RalphState)
      → RunInv m s
      → RunInv m (answer (ralph_loop host) t a s)
  unfolding answer
  answer-RunInv t a s v = elim (Option-cases (thread t s)) [
    | inl h ↦ rw (answer, h) v
    | inr (l, h) ↦ elim (Option-cases (get_elem? s.nodes l.entry)) [
      | inl g ↦ rw (answer, h, g) v
      | inr (e, g) ↦
          rw (answer, h, g) (answered-RunInv t a l e s v (thread-Quiet host m t s l v.lone h) g)
    ]
  ]

  received-RunInv :
      (e : WorkflowNodeRunEntry) (s : RunInstance RalphState) → RunInv m s → RunInv m (received e s)
  unfolding emit
  received-RunInv e s v = record {
    one = v.one;
    few = v.few;
    quiet = v.quiet;
    going = λ f.
        let g = v.going f in record { state_open = g.state_open; limit = g.limit; left = g.left };
    lone = v.lone;
  }

  pub submit-RunInv :
      (i : ℕ) (p : JsonValue) (s : RunInstance RalphState)
      → RunInv m s
      → RunInv m (submit (ralph_loop host) i p s)
  unfolding submit emit put_entry launch_next
  submit-RunInv i p s v = elim (Option-cases (get_elem? s.nodes i)) [
    | inl g ↦ rw (submit, g) v
    | inr (e, g) ↦ elim (submit_node_completion-cases (ralph_loop host) i e p s) [
      | inl c ↦
          rw (submit, g, c) (put_thread-RunInv host m queue_thread s none v (none-Quiet host m))
      | inr (r, inl c) ↦
          rw (submit, g, c)
            (put_thread-RunInv host m queue_thread (received e s) none (received-RunInv e s v)
              (none-Quiet host m))
      | inr (r, inr (o, c)) ↦
          let n = accepted_settlement (ralph_loop host) o e in
          let after = apply_validated_settlement (ralph_loop host) n (outcome_entry i o e s) in
          rw (submit, g, c)
            (launch-RunInv host m queue_thread after.0 after.1 (
              handled-Ready host m n i e
                (record e { status = NodeRunStatus.completed; accepted = some o }) s
                (outcome_entry i o e s) v g r refl refl refl refl v.lone))
    ]
  ]

  pub settle_from-RunInv :
      (i : ℕ) (e : WorkflowNodeRunEntry) (n : NodeSettlement) (s : RunInstance RalphState)
      → get_elem? s.nodes i ≡ some e
      → RunInv m s
      → RunInv m (settle_from (ralph_loop host) i e n s)
  unfolding settle_from put_entry launch_next
  settle_from-RunInv i e n s g v = elim (Option-cases (settlement_of e n)) [
    | inl h ↦ rw (settle_from, h) v
    | inr (w, h) ↦ elim (settle_node_run-cases (ralph_loop host) i e w s) [
      | inl c ↦ rw (settle_from, h, c) v
      | inr (r, c) ↦
          let after = apply_validated_settlement (ralph_loop host) w (settled_entry i e w s) in
          rw (settle_from, h, c)
            (launch-RunInv host m queue_thread after.0 after.1 (
              handled-Ready host m w i e (record e { status = status_of w }) s
                (settled_entry i e w s) v g r (status_of_settled w) refl refl refl v.lone))
    ]
  ]
