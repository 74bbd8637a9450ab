-- ===== src/Tool/Latch.antt =====
-- The finishing latch around `onSubmit`, and the window before it.
use ephemeral_agent.Common.{
  ℕ, String, ◌≡◌, refl, ap, ◌∙◌, inl, inr, true, false, not, some, List, [], ◌∷◌, arith, Bool-cases,
  is_empty,
}
use ephemeral_agent.Contracts.{ToolUseBlock, Message}
use ephemeral_agent.Handle.{
  RunHandle, queued, is_user, steer, interrupt, emit, has_pending_steers, begin_finishing,
}
use ephemeral_agent.Tasks.State.{LifecycleEvent}
use ephemeral_agent.Tasks.{task_count, registry_is_empty}
use ephemeral_agent.Tasks
use ephemeral_agent.Events.{task_event}
use ephemeral_agent.Run.{
  Run, added_events, emit_all, blockers, begin_submission, Activity, steering, interruption,
  interrupt_run, notifying, tasking, perform, perform_all,
}
use ephemeral_agent.Tool.Hooks.{HookEntry}
use ephemeral_agent.Tool.Pipeline.{PipelineResult}
use ephemeral_agent.Tool.Submission.{
  blockers_gate, IsAcceptable, before_submit, after_submit, acceptable_is_accepted,
  terminal-IsAcceptable,
}
use ephemeral_agent.Tool.Terminal.{OutcomeBinding, SubmissionScene, run_terminal}

is_empty-nil : (ms : List Message) → not (is_empty ms) ≡ false → ms ≡ []
is_empty-nil [] h = refl
is_empty-nil (m ∷ ms) h = cc

module _ {T : Type 0} where
  -- Once finishing has begun, nothing that the host does adds a steer.
  emit_all-steers :
      (es : List LifecycleEvent) (h : RunHandle T)
      → ((emit_all es h).steers ≡ h.steers) × ((emit_all es h).finishing ≡ h.finishing)
  unfolding emit_all
  emit_all-steers [] h = (refl, refl)
  emit_all-steers (e ∷ es) h =
      let (s, f) = emit_all-steers es (emit (task_event e) h) in
      (s ∙ (unfold emit in refl), f ∙ (unfold emit in refl))

  abbrev IsLatched : Run T → Run T → Type 0
  IsLatched r q =
      (q.handle.steers ≡ r.handle.steers)
      × (q.handle.finishing ≡ true)
      × (q.submitting ≡ r.submitting)

  perform-IsLatched :
      (a : Activity) (r : Run T) → r.handle.finishing ≡ true → IsLatched r (perform a r)
  unfolding perform
  perform-IsLatched (steering m) r f = unfold steer in ground arith
  perform-IsLatched interruption r f = unfold interrupt interrupt_run in ground arith
  perform-IsLatched (notifying m k) r f = ground arith
  perform-IsLatched (tasking a) r f =
      let (s, g) =
        emit_all-steers (added_events r.tasks.emitted (Tasks.step r.tasks a).emitted) r.handle in
      (s, g ∙ f, refl)

  perform_all-IsLatched :
      (todo : List Activity) (r : Run T)
      → r.handle.finishing ≡ true
      → IsLatched r (perform_all todo r)
  unfolding perform_all
  perform_all-IsLatched [] r f = (refl, f, refl)
  perform_all-IsLatched (a ∷ rest) r f =
      let (s, g, u) = perform-IsLatched a r f in
      let (s', g', u') = perform_all-IsLatched rest (perform a r) g in (s' ∙ s, g', u' ∙ u)

  -- While `onSubmit` is awaited no steer gets in, and the gate stays shut to a second submission.
  pub submission_latch :
      (scene : SubmissionScene) (r : Run T)
      → ((after_submit scene r).handle.steers ≡ (before_submit scene r).handle.steers)
        × ((after_submit scene r).submitting ≡ true)
  submission_latch scene r =
      let (s, g, u) =
        perform_all-IsLatched scene.during_submit (begin_submission (before_submit scene r))
          (unfold begin_submission begin_finishing in refl) in
      (s ∙ (unfold begin_submission begin_finishing in refl), u ∙ (unfold begin_submission in refl))

  unblocked-steers : (show : ℕ → String) (q : Run T) → blockers show q ≡ [] → q.handle.steers ≡ []
  unblocked-steers show q h =
      let (g, s) = (blockers_gate show q).0 h in
      is_empty-nil q.handle.steers (unfold has_pending_steers in ground arith)

  accepted_steers :
      (show : ℕ → String) (b : OutcomeBinding T) (hooks : List HookEntry) (scene : SubmissionScene)
      (call : ToolUseBlock) (p v : T) (r : Run T)
      → IsAcceptable show b hooks scene call p v r
      → (run_terminal show b hooks scene call r).0.handle.steers
        ≡ (before_submit scene r).handle.steers
  accepted_steers show b hooks scene call p v r a =
      ap (λ (q : Run T × PipelineResult). q.0.handle.steers)
        (acceptable_is_accepted show b hooks scene call p v r a)
      ∙ (submission_latch scene r).0

  quiet_steers :
      (todo : List Activity) (q : Run T)
      → todo ≡ []
      → (perform_all todo q).handle.steers ≡ q.handle.steers
  quiet_steers todo q e = rw e (unfold perform_all in refl)

  one_steer :
      (todo : List Activity) (m : Message) (q : Run T)
      → todo ≡ steering m ∷ []
      → is_user m.role ≡ true
      → q.handle.finishing ≡ false
      → q.handle.finished ≡ false
      → q.handle.steers ≡ []
      → ((steer m q.handle).1 ≡ queued) × ((perform_all todo q).handle.steers ≡ m ∷ [])
  one_steer todo m q e u f g n = (
    unfold steer in ground arith,
    ap (λ (t : List Activity). (perform_all t q).handle.steers) e
        ∙ (unfold perform_all perform steer in ground arith),
  )

  -- If the host does nothing while the post hooks run, an accepted submission leaves no steer
  -- pending.
  pub accepted_leaves_no_steer :
      (show : ℕ → String) (b : OutcomeBinding T) (hooks : List HookEntry) (scene : SubmissionScene)
      (call : ToolUseBlock) (p v : T) (r : Run T)
      → scene.during_post ≡ []
      → IsAcceptable show b hooks scene call p v r
      → has_pending_steers (run_terminal show b hooks scene call r).0.handle ≡ false
  accepted_leaves_no_steer show b hooks scene call p v r quiet a =
      unfold has_pending_steers in
      ap (λ (ms : List Message). not (is_empty ms))
        (accepted_steers show b hooks scene call p v r a
          ∙ quiet_steers scene.during_post (perform_all scene.during_pre r) quiet
          ∙ unblocked-steers show (perform_all scene.during_pre r) a.unblocked)

  -- The gate is tested before the post hooks and the latch is set after them. If a user message
  -- is sent while they run, and the run was neither finishing nor finished, then the message is
  -- queued, the submission is accepted all the same, and the message is still pending after the
  -- terminal result.
  pub late_steer_dropped :
      (show : ℕ → String) (b : OutcomeBinding T) (hooks : List HookEntry) (scene : SubmissionScene)
      (call : ToolUseBlock) (p v : T) (m : Message) (r : Run T)
      → scene.during_post ≡ steering m ∷ []
      → is_user m.role ≡ true
      → (perform_all scene.during_pre r).handle.finishing ≡ false
      → (perform_all scene.during_pre r).handle.finished ≡ false
      → IsAcceptable show b hooks scene call p v r
      → ((steer m (perform_all scene.during_pre r).handle).1 ≡ queued)
        × ((run_terminal show b hooks scene call r).1.is_terminal ≡ true)
        × ((run_terminal show b hooks scene call r).0.handle.steers ≡ m ∷ [])
  late_steer_dropped show b hooks scene call p v m r e u f g a =
      let q = perform_all scene.during_pre r in
      let (taken, still) =
        one_steer scene.during_post m q e u f g (unblocked-steers show q a.unblocked) in
      (
        taken,
        ap (λ (x : Run T × PipelineResult). x.1.is_terminal)
            (acceptable_is_accepted show b hooks scene call p v r a),
        accepted_steers show b hooks scene call p v r a ∙ still,
      )

  -- After an accepted submission a later submission on the run that it leaves gives no terminal
  -- result.
  pub second_submission_refused :
      (show : ℕ → String) (b : OutcomeBinding T) (hooks : List HookEntry)
      (scene scene' : SubmissionScene) (call call' : ToolUseBlock) (p v : T) (r : Run T)
      → IsAcceptable show b hooks scene call p v r
      → (run_terminal show b hooks scene' call'
          (run_terminal show b hooks scene call r).0).1.is_terminal
        ≡ false
  second_submission_refused show b hooks scene scene' call call' p v r a =
      elim (Bool-cases (run_terminal show b hooks scene' call' first).1.is_terminal) [
        | inr n ↦ n
        | inl y ↦
            let (p', v', a') = terminal-IsAcceptable show b hooks scene' call' first y in
            let open_gate =
              (blockers_gate show (perform_all scene'.during_pre first)).0 a'.unblocked in
            cc (open_gate.1, shut)
      ]
    where
      first : Run T
      first = (run_terminal show b hooks scene call r).0

      shut : (perform_all scene'.during_pre first).submitting ≡ true
      shut =
          let (x, latched, submitting) =
            perform_all-IsLatched scene.during_submit (begin_submission (before_submit scene r))
              (unfold begin_submission begin_finishing in refl) in
          let same : first ≡ record (after_submit scene r) { accepted = some v } =
            ap (λ (q : Run T × PipelineResult). q.0)
              (acceptable_is_accepted show b hooks scene call p v r a) in
          let (y, z, kept) =
            perform_all-IsLatched scene'.during_pre first
              (ap (λ (q : Run T). q.handle.finishing) same ∙ latched) in
          kept ∙ ap (λ (q : Run T). q.submitting) same ∙ (submission_latch scene r).1
