-- ===== src/Ralph/Rounds.antt =====
-- ralph_loop/workflow.mjs: where a failed attempt and a judged completion lead.
use ephemeral_agent.Common.{
  ℕ, ◌+◌, ◌≤◌, String, ◌≡◌, refl, sym, ap, subst, ◌∙◌, inl, inr, Bool, true, false, not, ◌||◌, some,
  List, [], ◌∷◌, ◌++◌, arith, ltb, if◌then◌else◌, Bool-cases, str_eq_refl, if_intro, length,
  length-append,
}
use ephemeral_agent.Workflow.{
  StateTransitionRecord, WorkflowStatus, RuntimeSnapshot, StateTransitionResult,
}
use ephemeral_agent.Ralph.{
  Phase, planner, Host, RalphState, State, is_done, includes, get_field, with_transition,
  transition_reason,
}
use ephemeral_agent.Ralph.Settlement.{apply_failed}
use ephemeral_agent.Ralph.Evaluation.{
  is_node_failed, retry_or_fail, judge, evaluate_after, evaluate_workflow_progress,
}
use ephemeral_agent.Ralph.Ladder.{Ladder, climbing, lost, climb, ladder_of, IsOpen, Arrives}

module _ (host : Host) where
  length-noted-le :
      (reason : String) (failures : List String) (n : ℕ)
      → length failures ≤ n
      → (includes reason failures ≡ false → length failures + 1 ≤ n)
      → length (if includes reason failures then failures else failures ++ reason ∷ []) ≤ n
  length-noted-le reason failures n known fresh =
      if_intro (λ (l : List String). length l ≤ n) (includes reason failures) failures _
        (λ _. known) (λ e. omega (arith, fresh e, length-append failures (reason ∷ [])))

  -- A failed attempt.
  retry_or_fail-Arrives :
      (s : State) (reason : String)
      → s.is_workflow_done ≡ false
      → s.workflow_status ≡ WorkflowStatus.running
      → 1 ≤ s.own.attempt
      → s.own.attempt ≤ s.own.max_attempts
      → length s.own.failures ≤ s.own.attempt
      → (includes reason s.own.failures ≡ false → length s.own.failures + 1 ≤ s.own.attempt)
      → Arrives s.own.max_attempts
          (if ltb s.own.attempt s.own.max_attempts
            then climbing (s.own.attempt + 1) planner
            else lost s.own.attempt)
          (retry_or_fail host s reason).state
  unfolding retry_or_fail with_transition ladder_of
  retry_or_fail-Arrives s reason going status started within known fresh =
      let few = length-noted-le reason s.own.failures s.own.attempt known fresh in
      elim (Bool-cases (ltb s.own.attempt s.own.max_attempts)) [
        | inl lt ↦ rw lt (
          rw going refl,
          refl,
          inl (record {
            going = going;
            status = status;
            phase = refl;
            slots = (refl, refl, refl);
            started = omega arith;
            within = ground arith;
            reasons = omega (arith, few);
          }),
        )
        | inr ge ↦ rw ge (
          refl,
          refl,
          inr (
              inr (record {
                stopped = refl;
                status = refl;
                exhausted = ground arith;
                reasons = omega (arith, few);
              })),
        )
      ]

  includes-last :
      (reason : String) (failures : List String) → includes reason (failures ++ reason ∷ []) ≡ true
  unfolding includes
  includes-last reason [] = rw (str_eq_refl reason) refl
  includes-last reason (t ∷ ts) = ground (arith, includes-last reason ts)

  evaluate_open :
      (after : RuntimeSnapshot) (t : State)
      → t.is_workflow_done ≡ false
      → is_done t.own.phase ≡ false
      → evaluate_workflow_progress host t after ≡ evaluate_after host t.last_transition t
  unfolding evaluate_workflow_progress
  evaluate_open after t d p =
      if_intro
        (λ (r : StateTransitionResult RalphState). r ≡ evaluate_after host t.last_transition t)
        (t.is_workflow_done || is_done t.own.phase) _ _ (λ h. absurd (ground (arith, d, p)))
        (λ _. refl)

  abbrev pub fallen : State → Ladder
  fallen s = climb s.own.max_attempts false (climbing s.own.attempt s.own.phase)

  -- The failure of a node, recorded and evaluated.
  pub failed-Arrives :
      (after : RuntimeSnapshot) (failure : String) (s : State)
      → IsOpen s
      → Arrives s.own.max_attempts
          (fallen s)
          (evaluate_workflow_progress host (apply_failed host failure s).state after).state
  unfolding apply_failed with_transition transition_reason get_field evaluate_after climb
  failed-Arrives after failure s v =
      let t = (apply_failed host failure s).state in
      subst
        (λ (r : StateTransitionResult RalphState). Arrives s.own.max_attempts (fallen s) r.state)
        (sym (evaluate_open after t v.going v.phase))
        (retry_or_fail-Arrives t failure v.going v.status v.started v.within
          (omega (arith, v.reasons, length-append s.own.failures (failure ∷ [])))
          (λ e. absurd (ground (arith, e, includes-last failure s.own.failures))))

  -- A payload that does not pass, in a state whose slots hold it.
  pub rejected-Arrives :
      (reason : String) (t : State)
      → t.is_workflow_done ≡ false
      → t.workflow_status ≡ WorkflowStatus.running
      → 1 ≤ t.own.attempt
      → t.own.attempt ≤ t.own.max_attempts
      → length t.own.failures + 1 ≤ t.own.attempt
      → Arrives t.own.max_attempts (fallen t) (retry_or_fail host t reason).state
  unfolding climb
  rejected-Arrives reason t d w a m f =
      retry_or_fail-Arrives t reason d w a m (omega (arith, f)) (λ _. f)

  pub fork-Arrives :
      (m : ℕ) (l : Ladder) (b : Bool) (x y : StateTransitionResult RalphState)
      → (b ≡ false → Arrives m (climb m false l) x.state)
      → (b ≡ true → Arrives m (climb m true l) y.state)
      → Arrives m (climb m b l) (if not b then x else y).state
  fork-Arrives m l true x y hx hy = hy refl
  fork-Arrives m l false x y hx hy = hx refl

  -- A completion in a phase is judged by the slot that it fills.
  pub judged-Arrives :
      (after : RuntimeSnapshot) (phase : Phase) (t : State) (last : StateTransitionRecord)
      (l : Ladder)
      → t.is_workflow_done ≡ false
      → is_done phase ≡ false
      → t.own.phase ≡ phase
      → t.last_transition ≡ some last
      → is_node_failed last ≡ false
      → Arrives t.own.max_attempts l (judge host phase t).state
      → Arrives t.own.max_attempts l (evaluate_workflow_progress host t after).state
  unfolding evaluate_after
  judged-Arrives after phase t last l d p q e f h =
      subst (λ (r : StateTransitionResult RalphState). Arrives t.own.max_attempts l r.state)
        (sym (
          evaluate_open after t d (ap is_done q ∙ p)
          ∙ ap (λ o. evaluate_after host o t) e
          ∙ if_intro (λ (r : StateTransitionResult RalphState). r ≡ judge host t.own.phase t)
              (is_node_failed last) (retry_or_fail host t (transition_reason last))
              (judge host t.own.phase t) (λ g. absurd (ground (arith, f))) (λ _. refl)
          ∙ ap (λ ph. judge host ph t) q))
        h
