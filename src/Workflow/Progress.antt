-- ===== src/Workflow/Progress.antt =====
-- workflow-runtime.ts: whether a run can go on after one of its operations.
use ephemeral_agent.Common.{
  ℕ, zero, suc, ◌≡◌, refl, sym, ap, subst, ◌⊎◌, inl, inr, Bool, true, false, not, ◌||◌, Option,
  none, some, List, [], ◌∷◌, ◌++◌, map, arith, Bool-cases, Option-cases, or_else, if_intro,
  get_elem?, set, is_empty, select,
}
use ephemeral_agent.Nodes.{WorkflowNodeSettlement, NodeRunStatus, WorkflowNodeDispatch}
use ephemeral_agent.Workflow.{WorkflowOutcome, WorkflowImplementation}
use ephemeral_agent.Workflow.State.{
  WorkflowNodeRunEntry, Launching, RunInstance, is_running, node_snapshot, running_entries,
  finished_entries, runtime_snapshot, emit, finish, claim_dispatch, put_entry, launch_next,
}
use ephemeral_agent.Workflow.Run.{
  Thread, start_thread, queue_thread, deadlock_recorded, declare_deadlock, deadlock_if_idle,
  dispatch, finish_or_dispatch, applied, apply_validated_settlement,
}
use ephemeral_agent.Workflow.Actions.{with_handle, put_thread}

abbrev pub HasRunning : List WorkflowNodeRunEntry → Type 0
HasRunning es = is_empty (running_entries es) ≡ false

HasRunning-last :
    (es : List WorkflowNodeRunEntry) (e : WorkflowNodeRunEntry)
    → is_running e.status ≡ true
    → HasRunning (es ++ e ∷ [])
unfolding running_entries
HasRunning-last [] e h = ground arith
HasRunning-last (d ∷ es) e h = ground (arith, HasRunning-last es e h)

pub HasRunning-get_elem? :
    (es : List WorkflowNodeRunEntry) (i : ℕ) (e : WorkflowNodeRunEntry)
    → get_elem? es i ≡ some e
    → is_running e.status ≡ true
    → HasRunning es
unfolding running_entries
HasRunning-get_elem? [] i e h r = cc
HasRunning-get_elem? (d ∷ es) zero e h r = ground arith
HasRunning-get_elem? (d ∷ es) (suc i) e h r = ground (arith, HasRunning-get_elem? es i e h r)

-- What a predicate on the status selects shows the same once an entry gets its handle.
pub snapshots-with_handle :
    (p : NodeRunStatus → Bool) (es : List WorkflowNodeRunEntry) (i : ℕ) (e : WorkflowNodeRunEntry)
    → get_elem? es i ≡ some e
    → map node_snapshot (select (λ d. p d.status) (set es i (with_handle e)))
      ≡ map node_snapshot (select (λ d. p d.status) es)
unfolding node_snapshot
snapshots-with_handle p [] i e h = refl
snapshots-with_handle p (d ∷ es) zero e h =
    subst
      (λ (x : WorkflowNodeRunEntry).
        map node_snapshot (select (λ d. p d.status) (with_handle x ∷ es))
        ≡ map node_snapshot (select (λ d. p d.status) (d ∷ es)))
      (ap (λ o. or_else o d) h)
      (elim (Bool-cases (p d.status)) [ inl q ↦ rw q refl | inr q ↦ rw q refl ])
snapshots-with_handle p (d ∷ es) (suc i) e h = elim (Bool-cases (p d.status)) [
  | inl q ↦ rw q (ap (λ rest. node_snapshot d ∷ rest) (snapshots-with_handle p es i e h))
  | inr q ↦ rw q (snapshots-with_handle p es i e h)
]

HasRunning-with_handle :
    (es : List WorkflowNodeRunEntry) (i : ℕ) (e : WorkflowNodeRunEntry)
    → get_elem? es i ≡ some e
    → HasRunning es
    → HasRunning (set es i (with_handle e))
unfolding running_entries
HasRunning-with_handle [] i e h r = r
HasRunning-with_handle (d ∷ es) zero e h r =
    subst (λ (x : WorkflowNodeRunEntry). HasRunning (with_handle x ∷ es)) (ap (λ o. or_else o d) h)
      (elim (Bool-cases (is_running d.status)) [
        | inl q ↦ rw q refl
        | inr q ↦ rw q (ground (arith, r))
      ])
HasRunning-with_handle (d ∷ es) (suc i) e h r = elim (Bool-cases (is_running d.status)) [
  | inl q ↦ rw q refl
  | inr q ↦ rw q (HasRunning-with_handle es i e h (ground arith))
]

pub is_empty-map {ℓ κ} :
    {A : Type ℓ} {B : Type κ} (f : A → B) (xs : List A) → is_empty (map f xs) ≡ is_empty xs
is_empty-map f [] = refl
is_empty-map f (x ∷ xs) = refl

pub is_empty_nil {ℓ} : {A : Type ℓ} (xs : List A) → is_empty xs ≡ true → xs ≡ []
is_empty_nil [] h = refl
is_empty_nil (x ∷ xs) h = cc

runtime_snapshot-with_handle :
    {D : Type 0} (i : ℕ) (e : WorkflowNodeRunEntry) (s : RunInstance D)
    → get_elem? s.nodes i ≡ some e
    → runtime_snapshot (put_entry i (with_handle e) s) ≡ runtime_snapshot s
unfolding runtime_snapshot put_entry running_entries finished_entries
runtime_snapshot-with_handle i e s g =
    rw
      (
        snapshots-with_handle is_running s.nodes i e g,
        snapshots-with_handle (λ x. not (is_running x)) s.nodes i e g,
      )
      refl

module _ {D : Type 0} (impl : WorkflowImplementation D) where
  -- The workflow has neither a node to start nor a deadlock to report.
  abbrev pub Declines : RunInstance D → Type 0
  Declines s =
      (s.state.is_workflow_done ≡ false)
      × (impl.dispatch s.definition s.state (runtime_snapshot s) ≡ [])
      × (impl.deadlock s.state (runtime_snapshot s) [] ≡ none)

  abbrev pub Progresses : RunInstance D → Type 0
  Progresses s = s.finished ≡ false → HasRunning s.nodes ⊎ Declines s

  pub finish-finished : (o : WorkflowOutcome) (s : RunInstance D) → (finish o s).finished ≡ true
  unfolding finish emit
  finish-finished o s = ground arith

  pub finish-Progresses : (o : WorkflowOutcome) (s : RunInstance D) → Progresses (finish o s)
  finish-Progresses o s f = absurd (ground (arith, finish-finished o s))

  deadlock_if_idle-Progresses :
      (s : RunInstance D)
      → s.state.is_workflow_done ≡ false
      → impl.dispatch s.definition s.state (runtime_snapshot s) ≡ []
      → s.last_dispatches ≡ []
      → Progresses (deadlock_if_idle impl s)
  unfolding deadlock_if_idle declare_deadlock runtime_snapshot
  deadlock_if_idle-Progresses s d none_left last =
      if_intro Progresses
        (s.state.is_workflow_done || not (is_empty (runtime_snapshot s).running_nodes)) _ _
        (λ h _. inl (ground (arith, d, is_empty-map node_snapshot (running_entries s.nodes))))
        (λ _.
          if_intro Progresses (not (is_empty s.last_dispatches)) _ _
            (λ h. absurd (ground (arith, ap is_empty last)))
            (λ _.
              elim (Option-cases (impl.deadlock s.state (runtime_snapshot s) s.last_dispatches)) [
                | inl c ↦ rw c (λ _. inr (
                  d,
                  none_left,
                  subst (λ ds. impl.deadlock s.state (runtime_snapshot s) ds ≡ none) last c,
                ))
                | inr (report, c) ↦ rw c (finish-Progresses _ (deadlock_recorded impl report s))
              ]))

  -- An operation that leaves no dispatch to launch leaves the run able to go on.
  abbrev pub Goes : RunInstance D × List WorkflowNodeDispatch → Type 0
  Goes r = r.1 ≡ [] → Progresses r.0

  pub finish_or_dispatch-Goes : (s : RunInstance D) → Goes (finish_or_dispatch impl s)
  unfolding finish_or_dispatch dispatch runtime_snapshot
  finish_or_dispatch-Goes s =
      let ds = impl.dispatch s.definition s.state (runtime_snapshot s) in
      let kept : RunInstance D = record s { last_dispatches = ds } in
      if_intro Goes s.state.is_workflow_done _ _ (λ _ _. finish-Progresses _ s)
        (λ d.
          if_intro Goes s.state.is_workflow_done _ _ (λ d' _. absurd (ground (arith, d)))
            (λ _.
              if_intro Goes (is_empty ds) _ _
                (λ e _. deadlock_if_idle-Progresses kept d (is_empty_nil ds e) (is_empty_nil ds e))
                (λ e q. absurd (ground (arith, e, ap is_empty q)))))

  pub launch_next-Progresses :
      (ds : List WorkflowNodeDispatch) (s : RunInstance D)
      → (ds ≡ [] → Progresses s)
      → Progresses (launch_next ds s).0
  unfolding launch_next claim_dispatch
  launch_next-Progresses [] s h = h refl
  launch_next-Progresses (d ∷ rest) s h = λ f. inl (HasRunning-last s.nodes _ refl)

  pub append-Goes :
      (r : RunInstance D × List WorkflowNodeDispatch) (rest : List WorkflowNodeDispatch)
      → Goes r
      → Progresses (launch_next (r.1 ++ rest) r.0).0
  append-Goes (s, []) rest g = launch_next-Progresses rest s (λ _. g refl)
  append-Goes (s, d ∷ ds) rest g =
      launch_next-Progresses (d ∷ ds ++ rest) s (λ q. absurd (ground (arith, ap is_empty q)))

  pub applied-Progresses :
      (n : WorkflowNodeSettlement) (s : RunInstance D) (rest : List WorkflowNodeDispatch)
      → Progresses
          (launch_next
            ((apply_validated_settlement impl n s).1 ++ rest)
            (apply_validated_settlement impl n s).0).0
  unfolding apply_validated_settlement
  applied-Progresses n s rest = append-Goes _ rest (finish_or_dispatch-Goes (applied impl n s))

  pub put_thread-Progresses :
      (t : Thread) (r : RunInstance D × Option Launching)
      → Progresses r.0
      → Progresses (put_thread t r)
  unfolding put_thread runtime_snapshot
  put_thread-Progresses start_thread r v = v
  put_thread-Progresses queue_thread r v = v

  pub with_handle-Progresses :
      (i : ℕ) (e : WorkflowNodeRunEntry) (s : RunInstance D)
      → get_elem? s.nodes i ≡ some e
      → Progresses s
      → Progresses (put_entry i (with_handle e) s)
  unfolding put_entry
  with_handle-Progresses i e s g v f = elim (v f) [
    | inl r ↦ inl (HasRunning-with_handle s.nodes i e g r)
    | inr (d, left, dead) ↦
        let same : runtime_snapshot (put_entry i (with_handle e) s) ≡ runtime_snapshot s =
          runtime_snapshot-with_handle i e s g in
        inr (
          d,
          subst (λ rt. impl.dispatch s.definition s.state rt ≡ []) (sym same) left,
          subst (λ rt. impl.deadlock s.state rt [] ≡ none) (sym same) dead,
        )
  ]
