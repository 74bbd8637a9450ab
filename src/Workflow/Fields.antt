-- ===== src/Workflow/Fields.antt =====
-- workflow-runtime.ts: what the operations of a run leave of its nodes, its state and its threads.
use ephemeral_agent.Common.{
  ℕ, zero, suc, ◌+◌, ◌≡◌, refl, ap, ◌∙◌, inl, inr, true, false, some, List, [], ◌∷◌, ◌++◌, arith,
  Bool-cases, Option-cases, or_else, if_intro, one_if, length, get_elem?, set, select, length-map,
}
use ephemeral_agent.Workflow.{StateTransitionResult, WorkflowOutcome}
use ephemeral_agent.Workflow.State.{
  WorkflowNodeRunEntry, RunInstance, is_running, node_snapshot, running_entries, emit, finish,
  apply_transition,
}
use ephemeral_agent.Workflow.Actions.{cancel_running, with_handle}
use ephemeral_agent.Workflow.Progress.{snapshots-with_handle}

abbrev pub running_count : List WorkflowNodeRunEntry → ℕ
running_count es = length (running_entries es)

pub running_count-last :
    (es : List WorkflowNodeRunEntry) (e : WorkflowNodeRunEntry)
    → running_count (es ++ e ∷ []) ≡ running_count es + one_if (is_running e.status)
unfolding running_entries
running_count-last [] e = ground arith
running_count-last (d ∷ es) e = ground (arith, running_count-last es e)

-- An entry that stops running.
pub running_count-set :
    (es : List WorkflowNodeRunEntry) (i : ℕ) (e e' : WorkflowNodeRunEntry)
    → get_elem? es i ≡ some e
    → is_running e.status ≡ true
    → is_running e'.status ≡ false
    → running_count (set es i e') + 1 ≡ running_count es
unfolding running_entries
running_count-set [] i e e' h r n = cc
running_count-set (d ∷ es) zero e e' h r n =
    let here : is_running d.status ≡ true = ap (λ o. is_running (or_else o d).status) h ∙ r in
    ground (arith, here, n)
running_count-set (d ∷ es) (suc i) e e' h r n = ground (arith, running_count-set es i e e' h r n)

pub running_count-with_handle :
    (es : List WorkflowNodeRunEntry) (i : ℕ) (e : WorkflowNodeRunEntry)
    → get_elem? es i ≡ some e
    → running_count (set es i (with_handle e)) ≡ running_count es
unfolding running_entries
running_count-with_handle es i e h =
    let same = ap length (snapshots-with_handle is_running es i e h) in
    omega (
      arith,
      same,
      length-map node_snapshot (select (λ d. is_running d.status) (set es i (with_handle e))),
      length-map node_snapshot (select (λ d. is_running d.status) es),
    )

pub running_count-cancel :
    (es : List WorkflowNodeRunEntry)
    → (running_count (cancel_running es) ≡ 0) × (length (cancel_running es) ≡ length es)
unfolding running_entries cancel_running
running_count-cancel [] = (refl, refl)
running_count-cancel (e ∷ es) =
    let (r, l) = running_count-cancel es in
    elim (Bool-cases (is_running e.status)) [
      | inl h ↦ rw h (r, ap suc l)
      | inr h ↦ rw h (ground (arith, h, r), ap suc l)
    ]

module _ {D : Type 0} where
  -- Nothing but the event stream, the snapshots, the timeline and the outcome differs.
  abbrev pub SameWork : RunInstance D → RunInstance D → Type 0
  SameWork s t =
      (t.nodes ≡ s.nodes) × (t.state ≡ s.state) × (t.starting ≡ s.starting) × (t.queued ≡ s.queued)

  pub finish-SameWork : (o : WorkflowOutcome) (s : RunInstance D) → SameWork s (finish o s)
  unfolding finish emit
  finish-SameWork o s =
      if_intro (SameWork s) s.finished s _ (λ _. (refl, refl, refl, refl))
        (λ _. (refl, refl, refl, refl))

  -- A transition sets the state.
  pub apply_transition_lem :
      (r : StateTransitionResult D) (s : RunInstance D)
      → ((apply_transition r s).state ≡ r.state)
        × ((apply_transition r s).nodes ≡ s.nodes)
        × ((apply_transition r s).starting ≡ s.starting)
        × ((apply_transition r s).queued ≡ s.queued)
        × ((apply_transition r s).finished ≡ s.finished)
  unfolding apply_transition emit
  apply_transition_lem r s = elim (Option-cases r.transition) [
    | inl h ↦ rw h (refl, refl, refl, refl, refl)
    | inr (t, h) ↦ rw h (refl, refl, refl, refl, refl)
  ]
