-- ===== src/Tool/Submission.antt =====
-- The submission gate: when a terminal call is accepted.
use ephemeral_agent.Common.{
  ℕ, String, ◌≡◌, refl, ◌↔◌, inl, inr, true, false, none, some, List, [], ◌∷◌, arith, Bool-cases,
}
use ephemeral_agent.Contracts.{obj, ToolUseBlock}
use ephemeral_agent.Inbox.{inbox_is_empty}
use ephemeral_agent.Inbox
use ephemeral_agent.Tasks.{task_count, registry_is_empty}
use ephemeral_agent.Run.{Run, blockers, begin_submission, perform_all, gate_open}
use ephemeral_agent.Tool.Hooks.{
  HookDecision, passthrough, deny, ToolCallFacts, output, HookEntry, pre_tool_use, post_tool_use,
}
use ephemeral_agent.Tool.Pipeline.{Parsed, parsed, invalid, call_facts, rejected_result}
use ephemeral_agent.Tool.Terminal.{
  SubmitReply, accepts, rejects, submit_throws, OutcomeBinding, SubmissionScene, submit_success,
  settle_submission, after_post_hooks, after_gate, after_pre_hooks, after_schema, run_terminal,
}

module _ {T : Type 0} where
  -- The submission gate names no blocker exactly if the gate of the text exit is open and no
  -- submission of this batch was accepted before.
  pub blockers_gate :
      (show : ℕ → String) (r : Run T)
      → (blockers show r ≡ []) ↔ ((gate_open r ≡ true) × (r.submitting ≡ false))
  unfolding blockers task_count Inbox.count registry_is_empty inbox_is_empty
  blockers_gate show r = (λ h. ground arith, λ h. ground arith)

  -- The conditions under which a submission is accepted, at the point where each is tested.
  pub record IsAcceptable (show : ℕ → String) (b : OutcomeBinding T) (hooks : List HookEntry)
      (scene : SubmissionScene) (call : ToolUseBlock) (p v : T) (r : Run T) : Type 0 where
    pub running : r.handle.aborted ≡ false
    pub parses : b.schema call.input ≡ parsed p
    pub passes_pre : pre_tool_use hooks (call_facts call b.name (task_count r.tasks)) ≡ passthrough
    pub unblocked : blockers show (perform_all scene.during_pre r) ≡ []
    pub passes_post :
        post_tool_use hooks
          (call_facts call b.name (task_count r.tasks))
          (output (obj call.input) none)
        ≡ passthrough
    pub accepted_by_host : b.on_submit p call.tool_use_id ≡ accepts v

  -- The run after the post hooks were awaited, and after `onSubmit` was.
  abbrev pub before_submit : SubmissionScene → Run T → Run T
  before_submit scene r = perform_all scene.during_post (perform_all scene.during_pre r)

  abbrev pub after_submit : SubmissionScene → Run T → Run T
  after_submit scene r = perform_all scene.during_submit (begin_submission (before_submit scene r))

  -- A submission that meets the conditions of acceptance gives the terminal result and leaves the
  -- host's value to be taken, on the run as it is after `onSubmit`.
  pub acceptable_is_accepted :
      (show : ℕ → String) (b : OutcomeBinding T) (hooks : List HookEntry) (scene : SubmissionScene)
      (call : ToolUseBlock) (p v : T) (r : Run T)
      → IsAcceptable show b hooks scene call p v r
      → run_terminal show b hooks scene call r
        ≡ (record (after_submit scene r) { accepted = some v }, submit_success scene)
  unfolding run_terminal
  acceptable_is_accepted show b hooks scene call p v r a =
      simp (a.running, a.parses, a.passes_pre, a.unblocked, a.passes_post, a.accepted_by_host)

  Conclusion :
      (ℕ → String)
      → OutcomeBinding T
      → List HookEntry
      → SubmissionScene
      → ToolUseBlock
      → Run T
      → Type 0
  Conclusion show b hooks scene call r =
      (p : T) × (v : T) × IsAcceptable show b hooks scene call p v r

  module _ (show : ℕ → String) (b : OutcomeBinding T) (hooks : List HookEntry)
      (scene : SubmissionScene) (call : ToolUseBlock) (r : Run T) where
    abbrev facts_now : ToolCallFacts
    facts_now = call_facts call b.name (task_count r.tasks)

    reply_cases :
        (p : T) (q : SubmitReply T) (s : Run T)
        → (settle_submission scene q s).1.is_terminal ≡ true
        → (v : T) × (q ≡ accepts v)
    unfolding settle_submission
    reply_cases p (accepts v) s h = (v, refl)
    reply_cases p (rejects m) s h = cc
    reply_cases p (submit_throws m) s h = cc

    post_cases :
        (p : T) (d : HookDecision) (s : Run T)
        → (after_post_hooks b scene call p d s).1.is_terminal ≡ true
        → (d ≡ passthrough) × ((v : T) × (b.on_submit p call.tool_use_id ≡ accepts v))
    unfolding after_post_hooks
    post_cases p passthrough s h = (refl, reply_cases p (b.on_submit p call.tool_use_id) _ h)
    post_cases p (deny m) s h = unfold rejected_result in cc

    gate_cases :
        (p : T) (ms : List String) (s : Run T)
        → (after_gate b hooks scene call facts_now p ms s).1.is_terminal ≡ true
        → (ms ≡ [])
          × (post_tool_use hooks facts_now (output (obj call.input) none) ≡ passthrough)
          × ((v : T) × (b.on_submit p call.tool_use_id ≡ accepts v))
    unfolding after_gate
    gate_cases p [] s h = let (d, e) = post_cases p _ _ h in (refl, d, e)
    gate_cases p (m ∷ ms) s h = unfold rejected_result in cc

    pre_cases :
        (p : T) (d : HookDecision) (s : Run T)
        → (after_pre_hooks show b hooks scene call facts_now p d s).1.is_terminal ≡ true
        → (d ≡ passthrough)
          × (blockers show s ≡ [])
          × (post_tool_use hooks facts_now (output (obj call.input) none) ≡ passthrough)
          × ((v : T) × (b.on_submit p call.tool_use_id ≡ accepts v))
    unfolding after_pre_hooks
    pre_cases p passthrough s h =
        let (n, d, e) = gate_cases p (blockers show s) s h in (refl, n, d, e)
    pre_cases p (deny m) s h = unfold rejected_result in cc

    schema_cases :
        (q : Parsed T)
        → r.handle.aborted ≡ false
        → b.schema call.input ≡ q
        → (after_schema show b hooks scene call q r).1.is_terminal ≡ true
        → Conclusion show b hooks scene call r
    unfolding after_schema Conclusion
    schema_cases (invalid m) a e h = unfold rejected_result in cc
    schema_cases (parsed p) a e h =
        let (d, n, post, (v, host)) = pre_cases p _ (perform_all scene.during_pre r) h in
        (
          p,
          v,
          record {
            running = a;
            parses = e;
            passes_pre = d;
            unblocked = n;
            passes_post = post;
            accepted_by_host = host;
          },
        )

    -- A terminal result comes only from a submission that met every condition of acceptance, for
    -- some payload and value.
    pub terminal-IsAcceptable :
        (run_terminal show b hooks scene call r).1.is_terminal ≡ true
        → (p : T) × (v : T) × IsAcceptable show b hooks scene call p v r
    unfolding run_terminal Conclusion
    terminal-IsAcceptable h = elim (Bool-cases r.handle.aborted) [
      | inl a ↦ absurd (unfold rejected_result in ground arith)
      | inr a ↦ schema_cases (b.schema call.input) a refl (ground arith)
    ]
