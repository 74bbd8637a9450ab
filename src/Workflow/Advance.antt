-- ===== src/Workflow/Advance.antt =====
-- workflow-runtime.ts: every sequence of actions on a run, and whether the run can go on after it.
use ephemeral_agent.Common.{
  ℕ, String, ◌≡◌, ◌⊎◌, inl, inr, Bool, true, false, none, List, [], ◌∷◌, Option-cases, is_some,
  if_intro, get_elem?,
}
use ephemeral_agent.Contracts.{JsonValue, JsonObject}
use ephemeral_agent.Nodes.{NodeSettlement, WorkflowNodeSettlement}
use ephemeral_agent.Workflow.{WorkflowDefinition, WorkflowImplementation}
use ephemeral_agent.Workflow.State.{
  WorkflowNodeRunEntry, RunInstance, runtime_snapshot, emit, put_entry, launch_next, launch_all,
}
use ephemeral_agent.Workflow.Run.{
  Thread, start_thread, queue_thread, LaunchAnswer, launched, thrown, settlement_of,
  finish_or_dispatch, applied, apply_validated_settlement, accepted_settlement,
}
use ephemeral_agent.Workflow.Actions.{
  Action, answers, submits, settles, interrupts, consumes, some_rejects, with_handle, thread,
  cancel_recorded, cancelled_run, interrupt, announced, start, launch_answered, answer, submit,
  settle_from, settle, act, run,
}
use ephemeral_agent.Workflow.Cases.{
  settled_entry, received, outcome_entry, settle_node_run-cases, submit_node_completion-cases,
}
use ephemeral_agent.Workflow.Progress.{
  HasRunning, HasRunning-get_elem?, Declines, Progresses, finish-Progresses,
  finish_or_dispatch-Goes, launch_next-Progresses, applied-Progresses, put_thread-Progresses,
  with_handle-Progresses,
}

module _ {D : Type 0} (impl : WorkflowImplementation D) where
  answer-Progresses :
      (t : Thread) (a : LaunchAnswer) (s : RunInstance D)
      → Progresses impl s
      → Progresses impl (answer impl t a s)
  unfolding answer launch_answered put_entry
  answer-Progresses t launched s v = elim (Option-cases (thread t s)) [
    | inl h ↦ rw (answer, h) v
    | inr (l, h) ↦ elim (Option-cases (get_elem? s.nodes l.entry)) [
      | inl g ↦ rw (answer, h, g) v
      | inr (e, g) ↦
          rw (answer, h, g)
            (put_thread-Progresses impl t (launch_next l.rest (put_entry l.entry (with_handle e) s))
              (launch_next-Progresses impl l.rest (put_entry l.entry (with_handle e) s)
                (λ _. with_handle-Progresses impl l.entry e s g v)))
    ]
  ]
  answer-Progresses t (thrown reason) s v = elim (Option-cases (thread t s)) [
    | inl h ↦ rw (answer, h) v
    | inr (l, h) ↦ elim (Option-cases (get_elem? s.nodes l.entry)) [
      | inl g ↦ rw (answer, h, g) v
      | inr (e, g) ↦
          let n = WorkflowNodeSettlement.failed e.start.node e.metadata reason in
          elim (settle_node_run-cases impl l.entry e n s) [
            | inl c ↦
                rw (answer, h, g, launch_answered, c) (put_thread-Progresses impl t (s, none) v)
            | inr (_, c) ↦
                rw (answer, h, g, launch_answered, c)
                  (put_thread-Progresses impl t _
                    (applied-Progresses impl n (settled_entry l.entry e n s) l.rest))
          ]
    ]
  ]

  launch_all-Progresses :
      (n : WorkflowNodeSettlement) (s : RunInstance D)
      → Progresses impl (launch_all (apply_validated_settlement impl n s)).0
  unfolding launch_next apply_validated_settlement
  launch_all-Progresses n s =
      launch_next-Progresses impl _ _ (finish_or_dispatch-Goes impl (applied impl n s))

  submit-Progresses :
      (i : ℕ) (p : JsonValue) (s : RunInstance D)
      → Progresses impl s
      → Progresses impl (submit impl i p s)
  unfolding submit emit launch_next
  submit-Progresses i p s v = elim (Option-cases (get_elem? s.nodes i)) [
    | inl g ↦ rw (submit, g) v
    | inr (e, g) ↦ elim (submit_node_completion-cases impl i e p s) [
      | inl c ↦ rw (submit, g, c) (put_thread-Progresses impl queue_thread (s, none) v)
      | inr (r, inl c) ↦
          rw (submit, g, c)
            (put_thread-Progresses impl queue_thread (received e s, none)
              (λ _. inl (HasRunning-get_elem? s.nodes i e g r)))
      | inr (r, inr (o, c)) ↦
          rw (submit, g, c)
            (put_thread-Progresses impl queue_thread
              (launch_all (
                apply_validated_settlement impl (accepted_settlement impl o e)
                  (outcome_entry i o e s)))
              (launch_all-Progresses _ (outcome_entry i o e s)))
    ]
  ]

  settle_from-Progresses :
      (i : ℕ) (e : WorkflowNodeRunEntry) (n : NodeSettlement) (s : RunInstance D)
      → Progresses impl s
      → Progresses impl (settle_from impl i e n s)
  unfolding settle_from
  settle_from-Progresses i e n s v = elim (Option-cases (settlement_of e n)) [
    | inl h ↦ rw (settle_from, h) v
    | inr (w, h) ↦ elim (settle_node_run-cases impl i e w s) [
      | inl c ↦ rw (settle_from, h, c) v
      | inr (_, c) ↦
          rw (settle_from, h, c)
            (put_thread-Progresses impl queue_thread
              (launch_all (apply_validated_settlement impl w (settled_entry i e w s)))
              (launch_all-Progresses w (settled_entry i e w s)))
    ]
  ]

  settle-Progresses :
      (i : ℕ) (n : NodeSettlement) (s : RunInstance D)
      → Progresses impl s
      → Progresses impl (settle impl i n s)
  unfolding settle
  settle-Progresses i n s v = elim (Option-cases (get_elem? s.nodes i)) [
    | inl g ↦ rw (settle, g) v
    | inr (e, g) ↦
        rw (settle, g)
          (if_intro (Progresses impl) e.has_handle (settle_from impl i e n s) s
            (λ _. settle_from-Progresses i e n s v) (λ _. v))
  ]

  interrupt-Progresses :
      (reason : String) (rejects : ℕ → Bool) (s : RunInstance D)
      → Progresses impl s
      → Progresses impl (interrupt reason rejects s)
  unfolding interrupt cancelled_run runtime_snapshot
  interrupt-Progresses reason rejects s v =
      if_intro (Progresses impl) s.finished s _ (λ _. v)
        (λ _.
          if_intro (Progresses impl) (some_rejects rejects 0 s.nodes) _ _ (λ _. v)
            (λ _. finish-Progresses impl _ (cancel_recorded reason (record s { aborted = true }))))

  act-Progresses :
      (s : RunInstance D) (a : Action) → Progresses impl s → Progresses impl (act impl s a)
  unfolding act runtime_snapshot
  act-Progresses s (answers t a) v = answer-Progresses t a s v
  act-Progresses s (submits i p) v =
      if_intro (Progresses impl) (is_some s.queued) s (submit impl i p s) (λ _. v)
        (λ _. submit-Progresses i p s v)
  act-Progresses s (settles i n) v =
      if_intro (Progresses impl) (is_some s.queued) s (settle impl i n s) (λ _. v)
        (λ _. settle-Progresses i n s v)
  act-Progresses s (interrupts reason rejects) v =
      if_intro (Progresses impl) (is_some s.queued) s (interrupt reason rejects s) (λ _. v)
        (λ _. interrupt-Progresses reason rejects s v)
  act-Progresses s (consumes c) v = v

  run-Progresses :
      (s : RunInstance D) (actions : List Action)
      → Progresses impl s
      → Progresses impl (run impl s actions)
  unfolding run
  run-Progresses s [] v = v
  run-Progresses s (a ∷ rest) v = run-Progresses (act impl s a) rest (act-Progresses s a v)

  start-Progresses :
      (definition : WorkflowDefinition) (args : JsonObject)
      → Progresses impl (start impl definition args)
  unfolding start launch_next
  start-Progresses definition args =
      put_thread-Progresses impl start_thread
        (launch_all (finish_or_dispatch impl (announced impl definition args)))
        (launch_next-Progresses impl _ _
          (finish_or_dispatch-Goes impl (announced impl definition args)))

  -- Whatever the workflow, its nodes, an interrupt and the consumer do: a run that has not finished
  -- has a running node, or its workflow, asked in the very state that the run is in, is not done and
  -- has neither a node to dispatch nor a deadlock to report.
  pub workflow_progress :
      (definition : WorkflowDefinition) (args : JsonObject) (actions : List Action)
      → (run impl (start impl definition args) actions).finished ≡ false
      → HasRunning (run impl (start impl definition args) actions).nodes
        ⊎ Declines impl (run impl (start impl definition args) actions)
  workflow_progress definition args actions =
      run-Progresses (start impl definition args) actions (start-Progresses definition args)
