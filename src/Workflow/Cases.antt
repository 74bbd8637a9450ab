-- ===== src/Workflow/Cases.antt =====
-- workflow-runtime.ts: the ways in which a settlement, a submission and an answer can go.
use ephemeral_agent.Common.{ℕ, String, ◌≡◌, refl, ◌⊎◌, inl, inr, true, none, some, [], Bool-cases}
use ephemeral_agent.Contracts.{JsonValue}
use ephemeral_agent.Nodes.{Parsed, NodeOutcome, WorkflowNodeSettlement, NodeRunStatus}
use ephemeral_agent.Workflow.{
  ValidationResult, invalid, WorkflowImplementation, workflow_node_outcome_received,
}
use ephemeral_agent.Workflow.State.{
  WorkflowNodeRunEntry, RunInstance, is_running, runtime_snapshot, emit, put_entry,
}
use ephemeral_agent.Workflow.Run.{
  status_of, apply_validated_settlement, settle_node_run, completed_entry, accepted_settlement,
  submit_parsed, submit_node_completion,
}

pub ValidationResult-cases :
    (v : ValidationResult) → (v ≡ ValidationResult.ok) ⊎ ((r : String) × (v ≡ invalid r))
ValidationResult-cases ValidationResult.ok = inl refl
ValidationResult-cases (invalid r) = inr (r, refl)

pub Parsed-cases :
    (p : Parsed)
    → ((v : JsonValue) × (p ≡ Parsed.success v)) ⊎ ((t : String) × (p ≡ Parsed.issues t))
Parsed-cases (Parsed.success v) = inl (v, refl)
Parsed-cases (Parsed.issues t) = inr (t, refl)

module _ {D : Type 0} where
  abbrev pub settled_entry :
      ℕ → WorkflowNodeRunEntry → WorkflowNodeSettlement → RunInstance D → RunInstance D
  unfolding put_entry
  settled_entry i e n s = put_entry i (record e { status = status_of n }) s

  abbrev pub received : WorkflowNodeRunEntry → RunInstance D → RunInstance D
  unfolding emit
  received e s = emit (workflow_node_outcome_received e.start.node.name) s

  abbrev pub outcome_entry : ℕ → NodeOutcome → WorkflowNodeRunEntry → RunInstance D → RunInstance D
  unfolding put_entry
  outcome_entry i o e s =
      put_entry i (record e { status = NodeRunStatus.completed; accepted = some o }) (received e s)

module _ {D : Type 0} (impl : WorkflowImplementation D) where
  -- A settlement throws, or it is applied to a running entry.
  pub settle_node_run-cases :
      (i : ℕ) (e : WorkflowNodeRunEntry) (n : WorkflowNodeSettlement) (s : RunInstance D)
      → (settle_node_run impl i e n s ≡ none)
        ⊎ ((is_running e.status ≡ true)
            × (settle_node_run impl i e n s
                ≡ some (apply_validated_settlement impl n (settled_entry i e n s))))
  unfolding settle_node_run put_entry
  settle_node_run-cases i e n s = elim (Bool-cases (is_running e.status)) [
    | inr h ↦ inl (rw h refl)
    | inl h ↦
        elim (ValidationResult-cases
          (impl.validate_node_settlement s.state n (runtime_snapshot s))) [
            | inl good ↦ inr (h, rw (h, good) refl)
            | inr (r, bad) ↦ inl (rw (h, bad) refl)
          ]
  ]

  -- The submission of an outcome that parsed.
  submit_parsed-cases :
      (i : ℕ) (e : WorkflowNodeRunEntry) (o : NodeOutcome) (s : RunInstance D)
      → ((submit_parsed impl i e o s).0 ≡ (received e s, []))
        ⊎ ((submit_parsed impl i e o s).0
            ≡ apply_validated_settlement impl
                (accepted_settlement impl o e)
                (outcome_entry i o e s))
  unfolding submit_parsed put_entry completed_entry
  submit_parsed-cases i e o s =
      elim (ValidationResult-cases (
        impl.validate_node_settlement (received e s).state (accepted_settlement impl o e)
          (runtime_snapshot (received e s)))) [
            | inl good ↦ inr (rw (submit_parsed, good) refl)
            | inr (r, bad) ↦ inl (rw (submit_parsed, bad) refl)
          ]

  -- A submission is refused at once, refused by the workflow, or applied; the last two need a
  -- running entry.
  pub submit_node_completion-cases :
      (i : ℕ) (e : WorkflowNodeRunEntry) (p : JsonValue) (s : RunInstance D)
      → ((submit_node_completion impl i e p s).0 ≡ (s, []))
        ⊎ ((is_running e.status ≡ true)
            × (((submit_node_completion impl i e p s).0 ≡ (received e s, []))
                ⊎ ((o : NodeOutcome) × ((submit_node_completion impl i e p s).0
                      ≡ apply_validated_settlement impl
                          (accepted_settlement impl o e)
                          (outcome_entry i o e s)))))
  unfolding submit_node_completion
  submit_node_completion-cases i e p s = elim (Bool-cases (is_running e.status)) [
    | inr h ↦ inl (rw h refl)
    | inl h ↦ elim (Parsed-cases (e.start.outcome.safe_parse p)) [
      | inr (t, bad) ↦ inl (rw (h, bad) refl)
      | inl (v, good) ↦
          let o : NodeOutcome = record { outcome_name = e.start.outcome.name; outcome = v } in
          elim (submit_parsed-cases i e o s) [
            | inl q ↦ inr (h, inl (rw (h, good) q))
            | inr q ↦ inr (h, inr (o, rw (h, good) q))
          ]
    ]
  ]
