-- ===== src/Loop/Passes.antt =====
-- One pass of the loop, phase by phase: what it keeps, and what each way out guarantees.
use ephemeral_agent.Common.{
  ℕ, ◌+◌, ◌≤◌, ◌≡◌, refl, sym, ap, subst, ◌∙◌, Bool, true, false, Option, none, some, List, [], ◌∷◌,
  ◌++◌, map, append_assoc, if◌then◌else◌, if_intro,
}
use ephemeral_agent.Events.{RunStatus, completed, cancelled}
use ephemeral_agent.Conversation.{Conversation, append_tool_results}
use ephemeral_agent.Run.{Run, take_accepted, gate_open}
use ephemeral_agent.Turn.{Failure, provider_failure, other_failure}
use ephemeral_agent.Loop.Batch.{
  normalize_batch, project_tool_result, any_terminal, call_ids, normalize_batch_ids,
}
use ephemeral_agent.Contracts.{user, ToolUseBlock, tool_result, Message, ToolCallResult, tool_uses}
use ephemeral_agent.Loop.State.{
  TerminationMode, text_mode, terminal_mode, LoopContext, BatchResult, returned, batch_threw, Round,
  LoopState,
}
use ephemeral_agent.Loop.{
  Pass, continues, parks, exits, classify_loop_error, is_text, outcome_of, facts_of,
  terminal_status, take_for, with_run, settle_batch, run_boundary, run_batch, after_turn,
}
use ephemeral_agent.Loop.Live.{
  IsLive, perform_all-IsLive, perform_all-llm, batch_steps-IsLive, batch_steps-llm,
}
use ephemeral_agent.Loop.History.{
  answers, IsAnswered, IsAnswered-append, IsAnswered-append_pair, asks-none, asks-IsReplied,
  answer_ids-results,
}

module _ {T : Type 0} where
  abbrev pub is_completed : RunStatus T → Bool
  is_completed (completed v) = true
  is_completed _ = false

  abbrev pub is_cancelled : RunStatus T → Bool
  is_cancelled cancelled = true
  is_cancelled _ = false

  -- What holds between two passes.
  pub record LoopInv (c : LoopContext T) (s : LoopState T) : Type 0 where
    pub live : IsLive s.run.handle
    pub answered : IsAnswered s.run.conversation.llm
    pub within : s.turns ≤ c.max_turns

  -- What a way out guarantees: a text completion passes the gate, and only an aborted run is
  -- cancelled.
  pub record ExitOk (c : LoopContext T) (s : LoopState T) (status : RunStatus T) : Type 0 where
    pub live : IsLive s.run.handle
    pub within : s.turns ≤ c.max_turns
    pub gated : is_text c.mode ≡ true → is_completed status ≡ true → gate_open s.run ≡ true
    pub aborted : is_cancelled status ≡ true → s.run.handle.aborted ≡ true

  -- A pass that goes on has spent one turn; a parked one none.
  abbrev pub PassOk : LoopContext T → ℕ → Pass T → Type 0
  PassOk c n (continues s) = LoopInv c s × (s.turns ≡ n + 1)
  PassOk c n (parks s) = LoopInv c s × (s.turns ≡ n)
  PassOk c n (exits s status) = ExitOk c s status

  pub classify-ExitOk :
      (c : LoopContext T) (f : Failure) (s : LoopState T)
      → IsLive s.run.handle
      → s.turns ≤ c.max_turns
      → ExitOk c s (classify_loop_error s.run.handle.aborted f)
  classify-ExitOk c f s l w = record {
    live = l;
    within = w;
    gated = λ t d. absurd (not_completed s.run.handle.aborted f d);
    aborted = λ k. only_aborted s.run.handle.aborted f k;
  }
    where
      not_completed : (b : Bool) (g : Failure) → is_completed (classify_loop_error b g) ≡ true → ⊥
      not_completed true g d = unfold classify_loop_error in cc d
      not_completed false (provider_failure m) d = unfold classify_loop_error in cc d
      not_completed false (other_failure m) d = unfold classify_loop_error in cc d

      only_aborted :
          (b : Bool) (g : Failure) → is_cancelled (classify_loop_error b g) ≡ true → b ≡ true
      only_aborted true g d = refl
      only_aborted false (provider_failure m) d = unfold classify_loop_error in cc d
      only_aborted false (other_failure m) d = unfold classify_loop_error in cc d

  take_for-handle : (mode : TerminationMode T) (r : Run T) → (take_for mode r).handle ≡ r.handle
  unfolding take_for
  take_for-handle terminal_mode r = unfold take_accepted in refl
  take_for-handle (text_mode of_text) r = refl

  terminal_status-text :
      (mode : TerminationMode T) (v : Option T)
      → is_text mode ≡ true
      → is_completed (terminal_status mode v) ≡ false
  unfolding terminal_status
  terminal_status-text (text_mode of_text) v t = refl
  terminal_status-text terminal_mode v t = cc

  terminal_status-runs :
      (mode : TerminationMode T) (v : Option T) → is_cancelled (terminal_status mode v) ≡ false
  unfolding terminal_status
  terminal_status-runs (text_mode of_text) v = refl
  terminal_status-runs terminal_mode (some v) = refl
  terminal_status-runs terminal_mode none = refl

  -- The message that answers a batch.
  abbrev reply_message : LoopContext T → Round T → List ToolUseBlock → List ToolCallResult → Message
  reply_message c r calls results = record {
    role = user;
    content =
        map tool_result
          (map (project_tool_result c.stringify) (normalize_batch r.clock calls results));
  }

  reply_message-answers :
      (c : LoopContext T) (r : Round T) (calls : List ToolUseBlock) (results : List ToolCallResult)
      → answers (reply_message c r calls results) ≡ call_ids calls
  reply_message-answers c r calls results =
      answer_ids-results
        (map (project_tool_result c.stringify) (normalize_batch r.clock calls results))
      ∙ normalize_batch_ids r.clock c.stringify calls results

  batch-IsAnswered :
      (c : LoopContext T) (r : Round T) (m : Message) (calls : List ToolUseBlock)
      (results : List ToolCallResult) (base llm : List Message)
      → tool_uses m ≡ calls
      → llm ≡ base ++ m ∷ []
      → IsAnswered base
      → IsAnswered (llm ++ reply_message c r calls results ∷ [])
  batch-IsAnswered c r m calls results base llm e l b =
      let reply = reply_message c r calls results in
      subst IsAnswered
        (sym (append_assoc base (m ∷ []) (reply ∷ []))
          ∙ ap (λ (ms : List Message). ms ++ reply ∷ []) (sym l))
        (IsAnswered-append_pair base m reply b
          (asks-IsReplied m reply (reply_message-answers c r calls results ∙ ap call_ids (sym e)))
          refl)

  settle_batch-PassOk :
      (c : LoopContext T) (r : Round T) (m : Message) (calls : List ToolUseBlock)
      (res : BatchResult) (base : List Message) (n : ℕ) (s : LoopState T)
      → tool_uses m ≡ calls
      → IsLive s.run.handle
      → s.turns ≤ c.max_turns
      → s.turns ≡ n + 1
      → s.run.conversation.llm ≡ base ++ m ∷ []
      → IsAnswered base
      → PassOk c n (settle_batch c r calls res s)
  unfolding settle_batch
  settle_batch-PassOk c r m calls (batch_threw f) base n s e l w t h b = classify-ExitOk c f s l w
  settle_batch-PassOk c r m calls (returned results) base n s e l w t h b =
      if_intro (PassOk c n) (any_terminal (normalize_batch r.clock calls results)) _ _
        (λ _.
          unfold with_run in
          record {
            live = unfold append_tool_results in subst IsLive (sym (take_for-handle c.mode _)) l;
            within = w;
            gated = λ x d. absurd (cc (terminal_status-text c.mode s.run.accepted x));
            aborted = λ k. absurd (cc (terminal_status-runs c.mode s.run.accepted));
          })
        (λ _.
          if_intro (PassOk c n) s.run.handle.aborted _ _
            (λ a.
              unfold with_run in
              record { live = l; within = w; gated = λ x d. cc; aborted = λ k. a })
            (λ _.
              unfold with_run in
              (
                record {
                  live = l;
                  answered =
                      unfold append_tool_results in
                      batch-IsAnswered c r m calls results base s.run.conversation.llm e h b;
                  within = w;
                },
                t,
              )))

  with_boundary :
      (c : LoopContext T) (r : Round T) (calls : List ToolUseBlock) (s : LoopState T)
      → IsLive s.run.handle
      → IsLive (run_boundary c r calls s).run.handle
        × ((run_boundary c r calls s).run.conversation ≡ s.run.conversation)
  unfolding run_boundary
  with_boundary c r calls s l =
      let todo = r.boundary (facts_of c s calls) in
      (perform_all-IsLive todo s.run l, perform_all-llm todo s.run)

  run_batch-PassOk :
      (c : LoopContext T) (r : Round T) (m : Message) (calls : List ToolUseBlock)
      (base : List Message) (n : ℕ) (s : LoopState T)
      → tool_uses m ≡ calls
      → IsLive s.run.handle
      → s.turns ≤ c.max_turns
      → s.turns ≡ n + 1
      → s.run.conversation.llm ≡ base ++ m ∷ []
      → IsAnswered base
      → PassOk c n (run_batch c r calls s)
  unfolding run_batch
  run_batch-PassOk c r m calls base n s e l w t h b =
      let batch = r.batch calls s.run.conversation.llm in
      settle_batch-PassOk c r m calls batch.1 base n _ e (batch_steps-IsLive batch.0 s.run l) w t
        (ap (λ (k : Conversation). k.llm) (batch_steps-llm batch.0 s.run) ∙ h) b

  outcome_of-gated :
      (mode : TerminationMode T) (m : Message) (b : Bool) (o : T)
      → outcome_of mode (if b then some m else none) ≡ some o
      → b ≡ true
  outcome_of-gated (text_mode of_text) m true o h = refl
  outcome_of-gated (text_mode of_text) m false o h = cc
  outcome_of-gated terminal_mode m b o h = cc

  pub after_turn-PassOk :
      (c : LoopContext T) (r : Round T) (m : Message) (calls : List ToolUseBlock)
      (base : List Message) (n : ℕ) (s : LoopState T)
      → tool_uses m ≡ calls
      → IsLive s.run.handle
      → s.turns ≤ c.max_turns
      → s.turns ≡ n + 1
      → s.run.conversation.llm ≡ base ++ m ∷ []
      → IsAnswered base
      → PassOk c n (after_turn c r m calls s)
  unfolding after_turn
  after_turn-PassOk c r m [] base n s e l w t h b =
      go (outcome_of c.mode (if gate_open s.run then some m else none)) refl
    where
      rested : LoopState T
      rested = record s { pending_text = if is_text c.mode then some m else none; at_rest = true }

      go :
          (o : Option T)
          → outcome_of c.mode (if gate_open s.run then some m else none) ≡ o
          → PassOk c n (elim o [
            | some v ↦ exits s (completed v)
            | none ↦ continues (run_boundary c r [] rested)
          ])
      go (some v) g = record {
        live = l;
        within = w;
        gated = λ x d. outcome_of-gated c.mode m (gate_open s.run) v g;
        aborted = λ k. cc;
      }
      go none g = (
        record {
          live = (with_boundary c r [] rested l).0;
          answered =
              subst IsAnswered
                (sym (ap (λ (k : Conversation). k.llm) (with_boundary c r [] rested l).1 ∙ h))
                (IsAnswered-append base m b (asks-none m e));
          within = unfold run_boundary with_run in w;
        },
        unfold run_boundary with_run in t,
      )
  after_turn-PassOk c r m (u ∷ calls) base n s e l w t h b =
      let (live, same) = with_boundary c r (u ∷ calls) s l in
      run_batch-PassOk c r m (u ∷ calls) base n _ e live (unfold run_boundary with_run in w)
        (unfold run_boundary with_run in t) (ap (λ (k : Conversation). k.llm) same ∙ h) b
