-- ===== src/Loop/Runs.antt =====
-- agent-loop.ts, the loop over a whole run: its outcome, its budget and its gate.
pub mod Committed
pub mod Totals
use ephemeral_agent.Common.{
  ℕ, suc, ◌+◌, ◌≤◌, ◌<◌, String, ◌≡◌, refl, sym, ap, subst, ◌∙◌, ◌⊎◌, inl, inr, true, false, Option,
  none, some, List, [], ◌∷◌, arith, or_else, length, All,
}
use ephemeral_agent.Contracts.{Message}
use ephemeral_agent.Events.{RunStatus, completed, cancelled, AgentOutcome, run_started, task_event}
use ephemeral_agent.Handle.{RunHandle, emit, finish, new_handle}
use ephemeral_agent.Handle.Lifecycle.{
  HandleInv, new_handle-HandleInv, emit-HandleInv, finish-HandleInv,
}
use ephemeral_agent.Inbox
use ephemeral_agent.Tasks
use ephemeral_agent.Tasks.State.{Status, LifecycleEvent}
use ephemeral_agent.Tasks.{register, complete, settle, cancel, disposes, step, run}
use ephemeral_agent.Conversation.{initial, new_conversation, append_users_llm}
use ephemeral_agent.Run.{Run, added_events, emit_all, act_on_tasks, start_run, gate_open}
use ephemeral_agent.Loop.State.{LoopContext, Round, LoopState}
use ephemeral_agent.Loop.{
  Pass, continues, parks, exits, is_text, run_pass, finish_run, run_agent_loop, initial_state,
}
use ephemeral_agent.Loop.Live.{IsUser, IsLive, emit-IsLive}
use ephemeral_agent.Loop.History.{IsAnswered, IsAnswered-append_users}
use ephemeral_agent.Loop.Passes.{LoopInv, ExitOk, PassOk}
use ephemeral_agent.Loop.Outcomes.{run_pass-PassOk}

module _ {T : Type 0} where
  -- In text mode a pass from a state that satisfies the invariant of the loop completes the run
  -- only if, at that moment, no steer is pending, no background task is registered and no
  -- notification is undrained.
  pub text_exit_gate :
      (c : LoopContext T) (r : Round T) (s s' : LoopState T) (v : T)
      → LoopInv c s
      → is_text c.mode ≡ true
      → run_pass c r s ≡ exits s' (completed v)
      → gate_open s'.run ≡ true
  text_exit_gate c r s s' v inv t e =
      let ok : ExitOk c s' (completed v) = subst (PassOk c s.turns) e (run_pass-PassOk c r s inv) in
      ok.gated t refl

  -- A pass from a state that satisfies the invariant of the loop reports the run as cancelled
  -- only if it was interrupted.
  pub cancelled_only_if_aborted :
      (c : LoopContext T) (r : Round T) (s s' : LoopState T)
      → LoopInv c s
      → run_pass c r s ≡ exits s' cancelled
      → s'.run.handle.aborted ≡ true
  cancelled_only_if_aborted c r s s' inv e =
      let ok : ExitOk c s' cancelled = subst (PassOk c s.turns) e (run_pass-PassOk c r s inv) in
      ok.aborted refl

  -- If a pass from a state that satisfies the invariant of the loop goes on or parks, every
  -- message of the provider history that calls tools is followed by the message with their
  -- results, in call order.
  pub history-IsAnswered :
      (c : LoopContext T) (r : Round T) (s s' : LoopState T)
      → LoopInv c s
      → (run_pass c r s ≡ continues s') ⊎ (run_pass c r s ≡ parks s')
      → IsAnswered s'.run.conversation.llm
  history-IsAnswered c r s s' inv (inl e) =
      let ok : PassOk c s.turns (continues s') =
        subst (PassOk c s.turns) e (run_pass-PassOk c r s inv) in
      ok.0.answered
  history-IsAnswered c r s s' inv (inr e) =
      let ok : PassOk c s.turns (parks s') =
        subst (PassOk c s.turns) e (run_pass-PassOk c r s inv) in
      ok.0.answered

  emit_all-HandleInv :
      (es : List LifecycleEvent) (h : RunHandle T)
      → HandleInv h
      → HandleInv (emit_all es h)
        × ((emit_all es h).finished ≡ h.finished)
        × ((emit_all es h).resolved ≡ h.resolved)
  unfolding emit_all
  emit_all-HandleInv [] h v = (v, refl, refl)
  emit_all-HandleInv (e ∷ es) h v =
      let (w, f, r) =
        emit_all-HandleInv es (emit (task_event e) h) (emit-HandleInv (task_event e) h refl v) in
      (w, f ∙ (unfold emit in refl), r ∙ (unfold emit in refl))

  abbrev outcome_at : LoopState T → RunStatus T → AgentOutcome T
  outcome_at s status = record { usage = s.usage; turns = s.turns; status = status }

  finish_flags :
      (o : AgentOutcome T) (h : RunHandle T)
      → h.finished ≡ false
      → ((finish o h).finished ≡ true) × ((finish o h).resolved ≡ some o)
  unfolding finish
  finish_flags o h f = (ground arith, ground arith)

  finish_run_lem :
      (s : LoopState T) (status : RunStatus T)
      → IsLive s.run.handle
      → HandleInv (finish_run s status).handle
        × ((finish_run s status).handle.finished ≡ true)
        × ((finish_run s status).handle.resolved ≡ some (outcome_at s status))
  unfolding finish_run act_on_tasks
  finish_run_lem s status l =
      let (fin, res) = finish_flags (outcome_at s status) s.run.handle l.unfinished in
      let (v, f, r) =
        emit_all-HandleInv
          (added_events s.run.tasks.emitted
            (Tasks.step s.run.tasks (disposes "run finished")).emitted)
          (finish (outcome_at s status) s.run.handle)
          (finish-HandleInv (outcome_at s status) s.run.handle l.sound) in
      (v, f ∙ fin, r ∙ res)

  -- What a finished run is: its one outcome is settled, within the budget, and the consumer's
  -- events are sound.
  abbrev pub IsFinishedRun : LoopContext T → Run T → Type 0
  IsFinishedRun c r =
      (o : AgentOutcome T) × (r.handle.resolved ≡ some o)
      × (o.turns ≤ c.max_turns)
      × (r.handle.finished ≡ true)
      × HandleInv r.handle

  abbrev EndsOk : LoopContext T → Run T ⊎ LoopState T → Type 0
  EndsOk c (inl r) = IsFinishedRun c r
  EndsOk c (inr s) = LoopInv c s

  after_pass : LoopContext T → List (Round T) → Pass T → Run T ⊎ LoopState T
  after_pass c rest (continues s) = run_agent_loop c rest s
  after_pass c rest (parks s) = run_agent_loop c rest s
  after_pass c rest (exits s status) = inl (finish_run s status)

  run_agent_loop-cons :
      (c : LoopContext T) (r : Round T) (rest : List (Round T)) (s : LoopState T)
      → run_agent_loop c (r ∷ rest) s ≡ after_pass c rest (run_pass c r s)
  unfolding run_agent_loop after_pass
  run_agent_loop-cons c r rest s = ground arith

  run_agent_loop-EndsOk :
      (c : LoopContext T) (rounds : List (Round T)) (s : LoopState T)
      → LoopInv c s
      → EndsOk c (run_agent_loop c rounds s)
  run_agent_loop-EndsOk c [] s v = unfold run_agent_loop in v
  run_agent_loop-EndsOk c (r ∷ rest) s v =
      subst (EndsOk c) (sym (run_agent_loop-cons c r rest s))
        (go (run_pass c r s) (run_pass-PassOk c r s v) (run_agent_loop-EndsOk c rest))
    where
      go :
          (p : Pass T)
          → PassOk c s.turns p
          → ((t : LoopState T) → LoopInv c t → EndsOk c (run_agent_loop c rest t))
          → EndsOk c (after_pass c rest p)
      go (continues t) k later = unfold after_pass in later t k.0
      go (parks t) k later = unfold after_pass in later t k.0
      go (exits t status) k later =
          let (v', f, e) = finish_run_lem t status k.live in
          unfold after_pass in (outcome_at t status, e, k.within, f, v')

  -- Whatever the environment does in each round, a loop that starts from its invariant and ends
  -- has settled an outcome whose turn count is within the budget; the run is finished, and its
  -- handle satisfies the invariant of a handle.
  pub loop_outcome :
      (c : LoopContext T) (rounds : List (Round T)) (s : LoopState T) (final : Run T)
      → LoopInv c s
      → run_agent_loop c rounds s ≡ inl final
      → IsFinishedRun c final
  loop_outcome c rounds s final v e = subst (EndsOk c) e (run_agent_loop-EndsOk c rounds s v)

  -- How many of the passes park.
  parked_in : LoopContext T → List (Round T) → Pass T → (LoopState T → ℕ) → ℕ
  parked_in c rest (continues s) later = later s
  parked_in c rest (parks s) later = suc (later s)
  parked_in c rest (exits s status) later = 0

  unfoldable pub parked_passes : LoopContext T → List (Round T) → LoopState T → ℕ
  unfolding parked_in
  parked_passes c [] s = 0
  parked_passes c (r ∷ rest) s = parked_in c rest (run_pass c r s) (parked_passes c rest)

  -- The turn budget bounds the loop: from a state that satisfies its invariant, given more rounds
  -- than turns left and parked passes together, the loop ends.
  pub loop_ends :
      (c : LoopContext T) (rounds : List (Round T)) (s : LoopState T)
      → LoopInv c s
      → c.max_turns + parked_passes c rounds s < length rounds + s.turns
      → (final : Run T) × (run_agent_loop c rounds s ≡ inl final)
  unfolding parked_passes
  loop_ends c [] s v h = absurd (omega (arith, h, v.within))
  loop_ends c (r ∷ rest) s v h =
      rw (run_agent_loop-cons c r rest s)
        (go (run_pass c r s) (run_pass-PassOk c r s v) h (loop_ends c rest))
    where
      go :
          (p : Pass T)
          → PassOk c s.turns p
          → c.max_turns + parked_in c rest p (parked_passes c rest) < suc (length rest) + s.turns
          → ((t : LoopState T)
              → LoopInv c t
              → c.max_turns + parked_passes c rest t < length rest + t.turns
              → (final : Run T) × (run_agent_loop c rest t ≡ inl final))
          → (final : Run T) × (after_pass c rest p ≡ inl final)
      go (continues t) k b later = unfold after_pass in later t k.0 (omega (arith, b, k.1))
      go (parks t) k b later = unfold after_pass in later t k.0 (omega (arith, b, k.1))
      go (exits t status) k b later = (finish_run t status, unfold after_pass in refl)

  start_some :
      (name : String) (m : Message) (ms : List Message)
      → start_run {T = T} name (m ∷ ms)
        ≡ some (record {
          handle = emit (run_started name) new_handle;
          inbox = Inbox.new;
          tasks = Tasks.new;
          conversation = new_conversation (m ∷ ms);
          submitting = false;
          accepted = none;
        })
  unfolding start_run
  start_some name m ms = refl

  -- A started run, seeded with user messages, satisfies the invariant of the loop.
  pub start_run-LoopInv :
      (c : LoopContext T) (name : String) (seeds : List Message) (r : Run T)
      → All IsUser seeds
      → start_run name seeds ≡ some r
      → LoopInv c (initial_state r)
  start_run-LoopInv c name [] r u e = unfold start_run in cc
  start_run-LoopInv c name (m ∷ ms) r u e =
      subst (λ q. LoopInv c (initial_state q))
        (ap (λ (o : Option (Run T)). or_else o r) (sym (start_some name m ms) ∙ e))
        (record {
          live = emit-IsLive (run_started name) new_handle refl (
              unfold new_handle in
              record { sound = new_handle-HandleInv; unfinished = refl; users = tt });
          answered =
              unfold new_conversation in
              subst IsAnswered
                (sym (append_users_llm (m ∷ ms) initial (record { llm = []; observed = [] })))
                (IsAnswered-append_users [] (m ∷ ms) tt u);
          within = omega arith;
        })
