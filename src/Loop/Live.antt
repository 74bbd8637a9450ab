-- ===== src/Loop/Live.antt =====
-- What the awaits of the loop keep of a run: its handle, its queued steers and its provider history.
use ephemeral_agent.Common.{
  ℕ, String, ◌≡◌, refl, ap, ◌∙◌, inl, inr, true, false, Option, none, some, List, [], ◌∷◌, arith,
  Bool-cases, if_intro, All, All-append,
}
use ephemeral_agent.Contracts.{ContentBlock, Message}
use ephemeral_agent.Events.{
  assistant_text_delta, reasoning_delta, tool_use_delta, assistant_message_complete, AgentEventBody,
  turn_started, llm_event, task_event,
}
use ephemeral_agent.Handle.{
  RunHandle, is_user, steer, interrupt, emit, begin_finishing, cancel_finishing,
}
use ephemeral_agent.Handle.Soundness.{act-HandleInv}
use ephemeral_agent.Handle.Lifecycle.{
  is_final, steers_with, interrupts, begins_finishing, cancels_finishing, act, HandleInv,
  emit-HandleInv,
}
use ephemeral_agent.Tasks.State.{LifecycleEvent}
use ephemeral_agent.Tasks
use ephemeral_agent.Conversation.{PartialReason, Conversation, append_partial_assistant}
use ephemeral_agent.Run.{
  Run, added_events, emit_all, begin_submission, cancel_submission, Activity, steering,
  interruption, notifying, tasking, perform, perform_all,
}
use ephemeral_agent.Turn.{
  Failure, StreamItem, event, meanwhile, ProviderStream, salvage, catch_turn, emit_event,
  read_stream, run_assistant_turn,
}
use ephemeral_agent.Loop.State.{BatchStep, acting, emitting, opening, reopening, accepting}
use ephemeral_agent.Loop.{batch_step, batch_steps}

abbrev pub IsUser : Message → Type 0
IsUser m = is_user m.role ≡ true

salvage-llm :
    (reason : Option PartialReason) (content : List ContentBlock) (c : Conversation)
    → (salvage reason content c).llm ≡ c.llm
unfolding salvage append_partial_assistant
salvage-llm none content c = refl
salvage-llm (some reason) [] c = refl
salvage-llm (some reason) (b ∷ rest) c = refl

module _ {T : Type 0} where
  pub record IsLive (h : RunHandle T) : Type 0 where
    pub sound : HandleInv h
    pub unfinished : h.finished ≡ false
    pub users : All IsUser h.steers

  pub emit-IsLive :
      (body : AgentEventBody T) (h : RunHandle T)
      → is_final body ≡ false
      → IsLive h
      → IsLive (emit body h)
  emit-IsLive body h n l = record {
    sound = emit-HandleInv body h n l.sound;
    unfinished = unfold emit in l.unfinished;
    users = unfold emit in l.users;
  }

  pub emit_all-IsLive :
      (es : List LifecycleEvent) (h : RunHandle T) → IsLive h → IsLive (emit_all es h)
  unfolding emit_all
  emit_all-IsLive [] h l = l
  emit_all-IsLive (e ∷ es) h l =
      emit_all-IsLive es (emit (task_event e) h) (emit-IsLive (task_event e) h refl l)

  steer-users :
      (m : Message) (h : RunHandle T) → All IsUser h.steers → All IsUser (steer m h).0.steers
  unfolding steer
  steer-users m h u = elim (Bool-cases (is_user m.role)) [
    | inl i ↦ ground (arith, All-append IsUser h.steers (m ∷ []) u (i, tt))
    | inr i ↦ ground arith
  ]

  perform-IsLive : (a : Activity) (r : Run T) → IsLive r.handle → IsLive (perform a r).handle
  unfolding perform
  perform-IsLive (steering m) r l = record {
    sound = unfold act in act-HandleInv r.handle (steers_with m) l.sound;
    unfinished = unfold steer in ground (arith, l.unfinished);
    users = steer-users m r.handle l.users;
  }
  perform-IsLive interruption r l = record {
    sound = unfold act in act-HandleInv r.handle interrupts l.sound;
    unfinished = unfold interrupt in ground (arith, l.unfinished);
    users = unfold interrupt in rw l.unfinished l.users;
  }
  perform-IsLive (notifying m k) r l =
      if_intro (λ (q : Run T). IsLive q.handle) r.handle.finished r _ (λ _. l) (λ _. l)
  perform-IsLive (tasking a) r l =
      emit_all-IsLive (added_events r.tasks.emitted (Tasks.step r.tasks a).emitted) r.handle l

  perform-llm : (a : Activity) (r : Run T) → (perform a r).conversation ≡ r.conversation
  unfolding perform
  perform-llm (steering m) r = refl
  perform-llm interruption r = refl
  perform-llm (notifying m k) r = ground arith
  perform-llm (tasking a) r = refl

  pub perform_all-IsLive :
      (todo : List Activity) (r : Run T) → IsLive r.handle → IsLive (perform_all todo r).handle
  unfolding perform_all
  perform_all-IsLive [] r l = l
  perform_all-IsLive (a ∷ rest) r l = perform_all-IsLive rest (perform a r) (perform-IsLive a r l)

  pub perform_all-llm :
      (todo : List Activity) (r : Run T) → (perform_all todo r).conversation ≡ r.conversation
  unfolding perform_all
  perform_all-llm [] r = refl
  perform_all-llm (a ∷ rest) r = perform_all-llm rest (perform a r) ∙ perform-llm a r

  batch_step-IsLive :
      (b : BatchStep T) (r : Run T) → IsLive r.handle → IsLive (batch_step b r).handle
  unfolding batch_step
  batch_step-IsLive (acting a) r l = perform-IsLive a r l
  batch_step-IsLive (emitting body e) r l = emit-IsLive body r.handle e l
  batch_step-IsLive opening r l =
      unfold begin_submission begin_finishing in
      record {
        sound = unfold act in act-HandleInv r.handle begins_finishing l.sound;
        unfinished = l.unfinished;
        users = l.users;
      }
  batch_step-IsLive reopening r l =
      unfold cancel_submission in
      record {
        sound = unfold act in act-HandleInv r.handle cancels_finishing l.sound;
        unfinished = unfold cancel_finishing in ground (arith, l.unfinished);
        users =
            unfold cancel_finishing in
            if_intro (λ (h : RunHandle T). All IsUser h.steers) r.handle.finished r.handle _
              (λ _. l.users) (λ _. l.users);
      }
  batch_step-IsLive (accepting v) r l = l

  batch_step-llm : (b : BatchStep T) (r : Run T) → (batch_step b r).conversation ≡ r.conversation
  unfolding batch_step
  batch_step-llm (acting a) r = perform-llm a r
  batch_step-llm (emitting body e) r = refl
  batch_step-llm opening r = unfold begin_submission in refl
  batch_step-llm reopening r = unfold cancel_submission in refl
  batch_step-llm (accepting v) r = refl

  pub batch_steps-IsLive :
      (bs : List (BatchStep T)) (r : Run T) → IsLive r.handle → IsLive (batch_steps bs r).handle
  unfolding batch_steps
  batch_steps-IsLive [] r l = l
  batch_steps-IsLive (b ∷ rest) r l =
      batch_steps-IsLive rest (batch_step b r) (batch_step-IsLive b r l)

  pub batch_steps-llm :
      (bs : List (BatchStep T)) (r : Run T) → (batch_steps bs r).conversation ≡ r.conversation
  unfolding batch_steps
  batch_steps-llm [] r = refl
  batch_steps-llm (b ∷ rest) r = batch_steps-llm rest (batch_step b r) ∙ batch_step-llm b r

  -- A turn keeps the run live and does not touch the provider history, however it ends.
  abbrev pub Keeps : Run T → Run T → Type 0
  Keeps r r' = IsLive r'.handle × (r'.conversation.llm ≡ r.conversation.llm)

  read_stream-Keeps :
      (items : List StreamItem) (failure : Option Failure) (t q : String) (r : Run T)
      → IsLive r.handle
      → Keeps r (read_stream items failure t q r).0
  unfolding read_stream
  read_stream-Keeps [] failure t q r l = unfold catch_turn in (l, salvage-llm _ _ r.conversation)
  read_stream-Keeps (meanwhile a ∷ rest) failure t q r l =
      let (live, same) = read_stream-Keeps rest failure t q (perform a r) (perform-IsLive a r l) in
      (live, same ∙ ap (λ (c : Conversation). c.llm) (perform-llm a r))
  read_stream-Keeps (event (assistant_text_delta d) ∷ rest) failure t q r l =
      read_stream-Keeps rest failure _ _ (emit_event (assistant_text_delta d) r)
        (emit-IsLive (llm_event (assistant_text_delta d)) r.handle refl l)
  read_stream-Keeps (event (reasoning_delta d) ∷ rest) failure t q r l =
      read_stream-Keeps rest failure _ _ (emit_event (reasoning_delta d) r)
        (emit-IsLive (llm_event (reasoning_delta d)) r.handle refl l)
  read_stream-Keeps (event (tool_use_delta u) ∷ rest) failure t q r l =
      read_stream-Keeps rest failure _ _ (emit_event (tool_use_delta u) r)
        (emit-IsLive (llm_event (tool_use_delta u)) r.handle refl l)
  read_stream-Keeps (event (assistant_message_complete m u stop) ∷ rest) failure t q r l =
      (emit-IsLive (llm_event (assistant_message_complete m u stop)) r.handle refl l, refl)

  pub run_assistant_turn-Keeps :
      (s : ProviderStream) (n : ℕ) (r : Run T)
      → IsLive r.handle
      → Keeps r (run_assistant_turn s (record r { handle = emit (turn_started n) r.handle })).0
  unfolding run_assistant_turn
  run_assistant_turn-Keeps s n r l =
      read_stream-Keeps s.items s.failure "" ""
        (record r { handle = emit (turn_started n) r.handle })
        (emit-IsLive (turn_started n) r.handle refl l)
