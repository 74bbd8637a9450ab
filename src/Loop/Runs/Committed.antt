-- ===== src/Loop/Runs/Committed.antt =====
-- What one pass of the loop commits: the turn, its usage and its assistant message.
use ephemeral_agent.Common.{
  ℕ, suc, String, Bool, true, map, ◌+◌, ◌≡◌, refl, ap, subst, ◌∙◌, ◌⊎◌, inl, inr, false, ◌&&◌,
  Option, none, some, List, [], ◌∷◌, ◌++◌, arith, leb, if◌then◌else◌, Option-cases, or_else,
  if_intro,
}
use ephemeral_agent.Usage.{add_usage}
use ephemeral_agent.Contracts.{
  JsonValue, ToolUseBlock, Message, tool_uses, ContentBlock, user, tool_result,
}
use ephemeral_agent.Events.{completed, turn_started}
use ephemeral_agent.Handle.{emit}
use ephemeral_agent.Tasks.{registry_is_empty}
use ephemeral_agent.Run.{Run, gate_open, perform_all, take_accepted}
use ephemeral_agent.Conversation.{
  append_assistant, append_users, append_user, append_tool_results, Conversation, ConversationEntry,
  user_entry, assistant_entry, partial_entry, tool_results_entry, UserMessageOrigin, notification,
}
use ephemeral_agent.Conversation.{steer as steer_origin}
use ephemeral_agent.Loop.Live.{perform_all-llm, batch_steps-llm}
use ephemeral_agent.Turn.{
  Failure, provider_failure, other_failure, run_assistant_turn, CompletedTurn, TurnResult,
  turn_completed, turn_threw, truncation,
}
use ephemeral_agent.Turn.Salvage.{
  first_completion, result_of, run_assistant_turn_lem, conversation_after, partial_entries, arrived,
  text_read, events_read, reasoning_read,
}
use ephemeral_agent.Loop.State.{
  TerminationMode, text_mode, terminal_mode, LoopContext, BatchResult, returned, batch_threw, Round,
  LoopState,
}
use ephemeral_agent.Loop.{
  Pass, continues, parks, exits, drain_boundary, outcome_of, settle_batch, run_boundary, after_turn,
  settle_turn, provider_phase, rest_phase, run_pass, with_run, take_for, facts_of, run_batch,
  batch_steps, is_text, commit_turn,
}
use ephemeral_agent.Loop.Batch.{any_terminal, normalize_batch, project_tool_result}

result_of-completed :
    (o : Option CompletedTurn) (f : Failure) (t : CompletedTurn)
    → turn_completed t ≡ result_of o f
    → o ≡ some t
result_of-completed none f t h = cc
result_of-completed (some u) f t h = cc

-- The assistant messages of a conversation, as its observer saw them.
abbrev pub assistant_count : List ConversationEntry → ℕ
assistant_count [] = 0
assistant_count (assistant_entry m ∷ rest) = suc (assistant_count rest)
assistant_count (_ ∷ rest) = assistant_count rest

assistant_count-append :
    (es fs : List ConversationEntry)
    → assistant_count (es ++ fs) ≡ assistant_count es + assistant_count fs
assistant_count-append [] fs = omega arith
assistant_count-append (user_entry o m ∷ es) fs = assistant_count-append es fs
assistant_count-append (assistant_entry m ∷ es) fs = omega (arith, assistant_count-append es fs)
assistant_count-append (partial_entry r m ∷ es) fs = assistant_count-append es fs
assistant_count-append (tool_results_entry m ∷ es) fs = assistant_count-append es fs

partial_entries-count :
    (aborted : Bool) (f : Failure) (blocks : List ContentBlock)
    → assistant_count (partial_entries aborted f blocks) ≡ 0
partial_entries-count aborted f [] = refl
partial_entries-count true f (b ∷ rest) = refl
partial_entries-count false (provider_failure m) (b ∷ rest) = refl
partial_entries-count false (other_failure m) (b ∷ rest) = refl

conversation_after-count :
    (o : Option CompletedTurn) (f : Failure) (aborted : Bool) (said thought : String)
    (c : Conversation)
    → assistant_count (conversation_after o f aborted said thought c).observed
      ≡ assistant_count c.observed
conversation_after-count (some t) f aborted said thought c = refl
conversation_after-count none f aborted said thought c = omega (
  arith,
  assistant_count-append c.observed (partial_entries aborted f (arrived thought said)),
  partial_entries-count aborted f (arrived thought said),
)

append_users-count :
    (ms : List Message) (origin : UserMessageOrigin) (c : Conversation)
    → assistant_count (append_users ms origin c).observed ≡ assistant_count c.observed
unfolding append_users append_user
append_users-count [] origin c = refl
append_users-count (m ∷ ms) origin c =
    append_users-count ms origin (append_user m origin c)
    ∙ omega (arith, assistant_count-append c.observed (user_entry origin m ∷ []))

module _ {T : Type 0} where
  abbrev pub assistants : Run T → ℕ
  assistants r = assistant_count r.conversation.observed

  drain_boundary-count :
      (stringify : JsonValue → String) (r : Run T)
      → assistants (drain_boundary stringify r).0 ≡ assistants r
  unfolding drain_boundary
  drain_boundary-count stringify r =
      append_users-count _ notification _ ∙ append_users-count _ steer_origin r.conversation

  take_for-conversation :
      (m : TerminationMode T) (r : Run T) → (take_for m r).conversation ≡ r.conversation
  unfolding take_for
  take_for-conversation terminal_mode r = unfold take_accepted in refl
  take_for-conversation (text_mode of_text) r = refl

  abbrev pub state_after : Pass T → LoopState T
  state_after (continues s) = s
  state_after (parks s) = s
  state_after (exits s status) = s

  -- A pass commits no turn, or the one that its stream completes; `n` assistant messages were in
  -- the conversation before.
  abbrev pub IsCounted : ℕ → LoopState T → Option CompletedTurn → Pass T → Type 0
  IsCounted n s o p =
      (((state_after p).turns ≡ s.turns)
        × ((state_after p).usage ≡ s.usage)
        × (assistants (state_after p).run ≡ n))
      ⊎ ((t : CompletedTurn) × (o ≡ some t)
          × ((state_after p).turns ≡ s.turns + 1)
          × ((state_after p).usage ≡ add_usage s.usage t.usage)
          × (assistants (state_after p).run ≡ n + 1))

  -- After the commit nothing changes the totals.
  abbrev KeepsTotals : ℕ → LoopState T → Pass T → Type 0
  KeepsTotals n s p =
      ((state_after p).turns ≡ s.turns)
      × ((state_after p).usage ≡ s.usage)
      × (assistants (state_after p).run ≡ n)

  settle_batch-KeepsTotals :
      (c : LoopContext T) (r : Round T) (calls : List ToolUseBlock) (b : BatchResult)
      (s : LoopState T)
      → KeepsTotals (assistants s.run) s (settle_batch c r calls b s)
  unfolding settle_batch with_run
  settle_batch-KeepsTotals c r calls (batch_threw f) s = (refl, refl, refl)
  settle_batch-KeepsTotals c r calls (returned results) s =
      let answers = normalize_batch r.clock calls results in
      let blocks = map (project_tool_result c.stringify) answers in
      let run' : Run T = record s.run {
        conversation = append_tool_results blocks s.run.conversation;
      } in
      let same : assistants run' ≡ assistants s.run =
        unfold append_tool_results in
        assistant_count-append s.run.conversation.observed
          (tool_results_entry (record { role = user; content = map tool_result blocks }) ∷ [])
        ∙ omega arith in
      if_intro (KeepsTotals (assistants s.run) s) (any_terminal answers) _ _
        (λ _. (
          refl,
          refl,
          ap (λ (x : Conversation). assistant_count x.observed) (take_for-conversation c.mode run')
              ∙ same,
        ))
        (λ _.
          if_intro (KeepsTotals (assistants s.run) s) s.run.handle.aborted _ _
            (λ _. (refl, refl, same)) (λ _. (refl, refl, same)))

  same_count : (r q : Run T) → r.conversation ≡ q.conversation → assistants r ≡ assistants q
  same_count r q h = ap (λ (x : Conversation). assistant_count x.observed) h

  after_turn-KeepsTotals :
      (c : LoopContext T) (r : Round T) (m : Message) (calls : List ToolUseBlock) (s : LoopState T)
      → KeepsTotals (assistants s.run) s (after_turn c r m calls s)
  unfolding after_turn run_boundary run_batch with_run
  after_turn-KeepsTotals c r m [] s =
      let rested : LoopState T = record s {
        pending_text = if is_text c.mode then some m else none;
        at_rest = true;
      } in
      go (outcome_of c.mode (if gate_open s.run then some m else none)) rested refl refl refl
    where
      go :
          (o : Option T) (t : LoopState T)
          → t.turns ≡ s.turns
          → t.usage ≡ s.usage
          → assistants t.run ≡ assistants s.run
          → KeepsTotals
              (assistants s.run)
              s
              (elim o [ some v ↦ exits s (completed v) | none ↦ continues (run_boundary c r [] t) ])
      go (some v) t a b k = (refl, refl, refl)
      go none t a b k = (
        a,
        b,
        same_count (perform_all (r.boundary (facts_of c t [])) t.run) t.run
              (perform_all-llm (r.boundary (facts_of c t [])) t.run)
            ∙ k,
      )
  after_turn-KeepsTotals c r m (u ∷ calls) s =
      let todo = r.boundary (facts_of c s (u ∷ calls)) in
      let bounded : Run T = perform_all todo s.run in
      let batch = r.batch (u ∷ calls) bounded.conversation.llm in
      let acted : Run T = batch_steps batch.0 bounded in
      let (n, x, k) = settle_batch-KeepsTotals c r (u ∷ calls) batch.1 (record s { run = acted }) in
      (
        n,
        x,
        k ∙ same_count acted s.run (batch_steps-llm batch.0 bounded ∙ perform_all-llm todo s.run),
      )

  settle_turn-IsCounted :
      (c : LoopContext T) (r : Round T) (o : Option CompletedTurn) (f : Failure)
      (q : Run T × TurnResult) (n : ℕ) (s : LoopState T)
      → q.1 ≡ result_of o f
      → assistants q.0 ≡ n
      → IsCounted n s o (settle_turn c r q s)
  unfolding settle_turn commit_turn with_run
  settle_turn-IsCounted c r o f (run', turn_threw g) n s h k = inl (refl, refl, k)
  settle_turn-IsCounted c r o f (run', turn_completed t) n s h k =
      let (m, u, w) = after_turn-KeepsTotals c r t.message (tool_uses t.message) (record s {
        run = record run' { conversation = append_assistant t.message run'.conversation };
        turns = s.turns + 1;
        usage = add_usage s.usage t.usage;
      }) in
      let added : assistant_count (append_assistant t.message run'.conversation).observed
          ≡ assistants run' + 1 =
        unfold append_assistant in
        assistant_count-append run'.conversation.observed (assistant_entry t.message ∷ []) in
      inr (t, result_of-completed o f t h, m, u, omega (arith, w, added, k))

  provider_phase-IsCounted :
      (c : LoopContext T) (r : Round T) (s : LoopState T)
      → IsCounted (assistants s.run) s (first_completion r.stream.items) (provider_phase c r s)
  unfolding provider_phase
  provider_phase-IsCounted c r s =
      let o = first_completion r.stream.items in
      let f = or_else r.stream.failure truncation in
      let begun : Run T = record s.run {
        handle = emit (turn_started (s.turns + 1)) s.run.handle;
      } in
      let turn = run_assistant_turn r.stream begun in
      let (said, kept) = run_assistant_turn_lem r.stream begun in
      if_intro (IsCounted (assistants s.run) s o) (leb c.max_turns s.turns) _ _
        (λ _. inl (refl, refl, refl))
        (λ _.
          settle_turn-IsCounted c r o f turn (assistants s.run)
            (record s { at_rest = false; pending_text = none }) said
            (ap (λ (x : Conversation). assistant_count x.observed) kept
              ∙ conversation_after-count o f turn.0.handle.aborted
                  (text_read (events_read r.stream.items) "")
                  (reasoning_read (events_read r.stream.items) "") s.run.conversation))

  rest_phase-IsCounted :
      (c : LoopContext T) (r : Round T) (s : LoopState T)
      → IsCounted (assistants s.run) s (first_completion r.stream.items) (rest_phase c r s)
  unfolding rest_phase with_run
  rest_phase-IsCounted c r s =
      let o = first_completion r.stream.items in
      if_intro (IsCounted (assistants s.run) s o) (registry_is_empty s.run.tasks) _ _
        (λ _. elim (Option-cases (outcome_of c.mode s.pending_text)) [
          | inl e ↦ rw e (provider_phase-IsCounted c r s)
          | inr (v, e) ↦ rw e (inl (refl, refl, refl))
        ])
        (λ _.
          inl (
            refl,
            refl,
            same_count (perform_all r.wake s.run) s.run (perform_all-llm r.wake s.run),
          ))

  pub run_pass-IsCounted :
      (c : LoopContext T) (r : Round T) (s : LoopState T)
      → IsCounted (assistants s.run) s (first_completion r.stream.items) (run_pass c r s)
  unfolding run_pass with_run
  run_pass-IsCounted c r s =
      let o = first_completion r.stream.items in
      let drained : Run T = (drain_boundary c.stringify s.run).0 in
      let t : LoopState T = record s { run = drained } in
      let same = drain_boundary-count c.stringify s.run in
      if_intro (IsCounted (assistants s.run) s o) s.run.handle.aborted _ _
        (λ _. inl (refl, refl, refl))
        (λ _.
          if_intro (IsCounted (assistants s.run) s o)
            (s.at_rest && (drain_boundary c.stringify s.run).1) _ _
            (λ _. subst (λ n. IsCounted n s o (rest_phase c r t)) same (rest_phase-IsCounted c r t))
            (λ _.
              subst (λ n. IsCounted n s o (provider_phase c r t)) same
                (provider_phase-IsCounted c r t)))
