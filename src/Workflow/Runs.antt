-- ===== src/Workflow/Runs.antt =====
-- workflow-runtime.ts: every sequence of actions on a run, as its consumer and its caller see it.
use ephemeral_agent.Common.{
  ℕ, ◌≡◌, refl, inl, inr, true, false, none, List, [], ◌∷◌, Option-cases, is_some, if_intro,
  get_elem?,
}
use ephemeral_agent.Contracts.{JsonValue, JsonObject}
use ephemeral_agent.Nodes.{NodeSettlement, WorkflowNodeSettlement}
use ephemeral_agent.Nodes.Stream.{new_stream}
use ephemeral_agent.Workflow.{WorkflowDefinition, WorkflowImplementation}
use ephemeral_agent.Workflow.State.{
  WorkflowNodeRunEntry, RunInstance, emit, record_snapshot, put_entry, launch_all,
}
use ephemeral_agent.Workflow.Run.{
  Thread, start_thread, queue_thread, LaunchAnswer, launched, thrown, settlement_of,
  finish_or_dispatch, apply_validated_settlement, accepted_settlement,
}
use ephemeral_agent.Workflow.Actions.{
  Action, answers, submits, settles, interrupts, consumes, with_handle, thread, interrupt,
  announced, start, launch_answered, answer, submit, settle_from, settle, act, run,
}
use ephemeral_agent.Workflow.Cases.{
  settled_entry, received, outcome_entry, settle_node_run-cases, submit_node_completion-cases,
}
use ephemeral_agent.Workflow.Streams.{
  Front, front, emit_front, Moves, stays, emits, consumed, Sound, Moves-Sound, Absorbs,
  Moves-Absorbs,
}
use ephemeral_agent.Workflow.Events.{
  Ran, launch_next-Ran, put_thread-Ran, interrupt-Ran, finish_or_dispatch-Ran,
  apply_validated_settlement-Ran, launched-Ran,
}

module _ {D : Type 0} (f : Front) (impl : WorkflowImplementation D) where
  answer-Ran :
      (t : Thread) (a : LaunchAnswer) (s : RunInstance D) → Ran f s → Ran f (answer impl t a s)
  unfolding answer launch_answered put_entry
  answer-Ran t launched s m = elim (Option-cases (thread t s)) [
    | inl h ↦ rw (answer, h) m
    | inr (l, h) ↦ elim (Option-cases (get_elem? s.nodes l.entry)) [
      | inl g ↦ rw (answer, h, g) m
      | inr (e, g) ↦
          rw (answer, h, g)
            (put_thread-Ran f t _
              (launch_next-Ran f l.rest (put_entry l.entry (with_handle e) s) m))
    ]
  ]
  answer-Ran t (thrown reason) s m = elim (Option-cases (thread t s)) [
    | inl h ↦ rw (answer, h) m
    | inr (l, h) ↦ elim (Option-cases (get_elem? s.nodes l.entry)) [
      | inl g ↦ rw (answer, h, g) m
      | inr (e, g) ↦
          let n = WorkflowNodeSettlement.failed e.start.node e.metadata reason in
          elim (settle_node_run-cases impl l.entry e n s) [
            | inl c ↦ rw (answer, h, g, launch_answered, c) (put_thread-Ran f t (s, none) m)
            | inr (_, c) ↦
                rw (answer, h, g, launch_answered, c)
                  (put_thread-Ran f t _ (
                    launch_next-Ran f _ _
                      (apply_validated_settlement-Ran f impl n (settled_entry l.entry e n s) m)))
          ]
    ]
  ]

  submit-Ran : (i : ℕ) (p : JsonValue) (s : RunInstance D) → Ran f s → Ran f (submit impl i p s)
  unfolding submit emit emit_front put_entry
  submit-Ran i p s m = elim (Option-cases (get_elem? s.nodes i)) [
    | inl g ↦ rw (submit, g) m
    | inr (e, g) ↦ elim (submit_node_completion-cases impl i e p s) [
      | inl c ↦ rw (submit, g, c) (put_thread-Ran f queue_thread (s, none) m)
      | inr (_, inl c) ↦
          rw (submit, g, c) (put_thread-Ran f queue_thread (received e s, none) (emits _ refl m))
      | inr (_, inr (o, c)) ↦
          rw (submit, g, c)
            (put_thread-Ran f queue_thread
              (launch_all (
                apply_validated_settlement impl (accepted_settlement impl o e)
                  (outcome_entry i o e s)))
              (launched-Ran f impl _
                (apply_validated_settlement-Ran f impl _ (outcome_entry i o e s) (emits _ refl m))))
    ]
  ]

  settle_from-Ran :
      (i : ℕ) (e : WorkflowNodeRunEntry) (n : NodeSettlement) (s : RunInstance D)
      → Ran f s
      → Ran f (settle_from impl i e n s)
  unfolding settle_from
  settle_from-Ran i e n s m = elim (Option-cases (settlement_of e n)) [
    | inl h ↦ rw (settle_from, h) m
    | inr (w, h) ↦ elim (settle_node_run-cases impl i e w s) [
      | inl c ↦ rw (settle_from, h, c) m
      | inr (_, c) ↦
          rw (settle_from, h, c)
            (put_thread-Ran f queue_thread
              (launch_all (apply_validated_settlement impl w (settled_entry i e w s)))
              (launched-Ran f impl _
                (apply_validated_settlement-Ran f impl w (settled_entry i e w s) m)))
    ]
  ]

  settle-Ran :
      (i : ℕ) (n : NodeSettlement) (s : RunInstance D) → Ran f s → Ran f (settle impl i n s)
  unfolding settle settle_from
  settle-Ran i n s m = elim (Option-cases (get_elem? s.nodes i)) [
    | inl g ↦ rw (settle, g) m
    | inr (e, g) ↦
        rw (settle, g)
          (if_intro (Ran f) e.has_handle (settle_from impl i e n s) s
            (λ _. settle_from-Ran i e n s m) (λ _. m))
  ]

  act-Ran : (s : RunInstance D) (a : Action) → Ran f s → Ran f (act impl s a)
  unfolding act
  act-Ran s (answers t a) m = answer-Ran t a s m
  act-Ran s (submits i p) m =
      if_intro (Ran f) (is_some s.queued) s (submit impl i p s) (λ _. m) (λ _. submit-Ran i p s m)
  act-Ran s (settles i n) m =
      if_intro (Ran f) (is_some s.queued) s (settle impl i n s) (λ _. m) (λ _. settle-Ran i n s m)
  act-Ran s (interrupts reason rejects) m =
      if_intro (Ran f) (is_some s.queued) s (interrupt reason rejects s) (λ _. m)
        (λ _. interrupt-Ran f reason rejects s m)
  act-Ran s (consumes c) m = consumed c m

  pub run-Ran : (s : RunInstance D) (actions : List Action) → Ran f s → Ran f (run impl s actions)
  unfolding run
  run-Ran s [] m = m
  run-Ran s (a ∷ rest) m = run-Ran (act impl s a) rest (act-Ran s a m)

new_front : Front
unfolding new_stream
new_front = record { stream = new_stream; finished = false; resolved = none }

new_front-Sound : Sound new_front
unfolding new_front new_stream
new_front-Sound = record {
  stream = record { numbered = tt; counted = refl; complete = λ d c. refl };
  closing = refl;
  open_run = λ h. (refl, refl);
  settled = λ h. cc;
}

module _ {D : Type 0} (impl : WorkflowImplementation D) where
  start-Ran :
      (definition : WorkflowDefinition) (args : JsonObject)
      → Moves new_front (front (start impl definition args))
  unfolding start announced new_front record_snapshot emit emit_front
  start-Ran definition args =
      let r = finish_or_dispatch impl (announced impl definition args) in
      put_thread-Ran new_front start_thread (launch_all r) (
        launched-Ran new_front impl r (
          finish_or_dispatch-Ran new_front impl (announced impl definition args)
            (emits _ refl (emits _ refl stays))))

  -- Whatever the workflow, its nodes and the consumer do, the events of a run are numbered from zero;
  -- those that the consumer has been handed or has waiting are all the events emitted, until the
  -- consumer leaves or the run finishes. A run that has not finished has no outcome and no
  -- `workflow_finished` event. One that has finished has settled one outcome, and unless the consumer
  -- left, its events end with `workflow_finished` of that outcome, and have no other.
  pub workflow_events :
      (definition : WorkflowDefinition) (args : JsonObject) (actions : List Action)
      → Sound (front (run impl (start impl definition args) actions))
  workflow_events definition args actions =
      Moves-Sound
        (run-Ran new_front impl (start impl definition args) actions (start-Ran definition args))
        new_front-Sound

  -- Once a run has finished, nothing that its nodes, an interrupt or the consumer do changes its
  -- outcome, and a consumer that stays sees no further event.
  pub finished_run-Absorbs :
      (definition : WorkflowDefinition) (args : JsonObject) (actions more : List Action)
      → (run impl (start impl definition args) actions).finished ≡ true
      → Absorbs
          (front (run impl (start impl definition args) actions))
          (front (run impl (run impl (start impl definition args) actions) more))
  finished_run-Absorbs definition args actions more h =
      let s = run impl (start impl definition args) actions in
      Moves-Absorbs (run-Ran (front s) impl s more stays) (workflow_events definition args actions)
        h
