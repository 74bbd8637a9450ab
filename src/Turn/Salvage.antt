-- ===== src/Turn/Salvage.antt =====
-- A provider turn against a description of its whole stream.
use ephemeral_agent.Common.{
  String, ◌≡◌, refl, ap, ◌∙◌, Bool, true, false, not, str_eq, if◌then◌else◌, is_empty, select, map,
  append-nil, ◌++◌, Option, none, some, List, [], ◌∷◌, arith, or_else,
}
use ephemeral_agent.Events.{
  LlmStreamEvent, assistant_text_delta, reasoning_delta, tool_use_delta, assistant_message_complete,
}
use ephemeral_agent.Conversation.{
  Conversation, PartialReason, interrupted, ConversationEntry, partial_entry,
  append_partial_assistant,
}
use ephemeral_agent.Contracts.{assistant, ContentBlock, text, reasoning}
use ephemeral_agent.Run.{Run, Activity, steering, interruption, notifying, tasking, perform}
use ephemeral_agent.Turn.{
  Failure, provider_failure, other_failure, StreamItem, event, meanwhile, ProviderStream,
  CompletedTurn, TurnResult, turn_completed, turn_threw, truncation, add_text, add_reasoning,
  salvage_reason, salvage_content, salvage, catch_turn, completion_of, emit_event, read_stream,
  run_assistant_turn,
}

-- The first completion in the stream, if there is one.
abbrev pub first_completion : List StreamItem → Option CompletedTurn
first_completion [] = none
first_completion (meanwhile a ∷ rest) = first_completion rest
first_completion (event e ∷ rest) =
    let later = first_completion rest in elim (completion_of e) [ some t ↦ some t | none ↦ later ]

-- The provider's events up to and including the completion, or all of them.
abbrev pub events_read : List StreamItem → List LlmStreamEvent
events_read [] = []
events_read (meanwhile a ∷ rest) = events_read rest
events_read (event e ∷ rest) =
    let later = events_read rest in elim (completion_of e) [ some t ↦ e ∷ [] | none ↦ e ∷ later ]

abbrev pub text_read : List LlmStreamEvent → String → String
text_read [] acc = acc
text_read (e ∷ rest) acc = text_read rest (add_text e acc)

abbrev pub reasoning_read : List LlmStreamEvent → String → String
reasoning_read [] acc = acc
reasoning_read (e ∷ rest) acc = reasoning_read rest (add_reasoning e acc)

abbrev pub result_of : Option CompletedTurn → Failure → TurnResult
result_of (some t) f = turn_completed t
result_of none f = turn_threw f

-- What arrived as one message, the reasoning first: a part that is empty is left out.
abbrev pub arrived : String → String → List ContentBlock
arrived thought said =
    map (λ (b : String × ContentBlock). b.1)
      (select (λ (b : String × ContentBlock). not (str_eq b.0 ""))
        ((thought, reasoning thought) ∷ (said, text said) ∷ []))

abbrev pub is_provider_failure : Failure → Bool
is_provider_failure (provider_failure m) = true
is_provider_failure (other_failure m) = false

abbrev pub partial_of : PartialReason → List ContentBlock → ConversationEntry
partial_of reason blocks = partial_entry reason (record { role = assistant; content = blocks })

-- What a failed turn shows the observer: nothing if nothing arrived; else one partial message, as
-- interrupted if the run was aborted and as a provider error if the failure is the provider's.
abbrev pub partial_entries : Bool → Failure → List ContentBlock → List ConversationEntry
partial_entries aborted f blocks =
    if is_empty blocks
    then []
    else if aborted
    then partial_of interrupted blocks ∷ []
    else if is_provider_failure f
    then partial_of PartialReason.provider_error blocks ∷ []
    else []

-- The conversation that a turn leaves: untouched if it completes, else with the partial message of
-- what was read, for the observer alone.
abbrev pub conversation_after :
    Option CompletedTurn → Failure → Bool → String → String → Conversation → Conversation
conversation_after (some t) f aborted said thought c = c
conversation_after none f aborted said thought c = record c {
  observed = c.observed ++ partial_entries aborted f (arrived thought said);
}

salvage_content-arrived :
    (thought said : String) → salvage_content thought said ≡ arrived thought said
unfolding salvage_content
salvage_content-arrived thought said = ground arith

salvage_lem :
    (aborted : Bool) (f : Failure) (blocks : List ContentBlock) (c : Conversation)
    → salvage (salvage_reason aborted f) blocks c
      ≡ record c { observed = c.observed ++ partial_entries aborted f blocks }
unfolding salvage salvage_reason append_partial_assistant
salvage_lem true f [] c = rw (append-nil c.observed) refl
salvage_lem false (provider_failure m) [] c = rw (append-nil c.observed) refl
salvage_lem false (other_failure m) [] c = rw (append-nil c.observed) refl
salvage_lem true f (b ∷ rest) c = refl
salvage_lem false (provider_failure m) (b ∷ rest) c = refl
salvage_lem false (other_failure m) (b ∷ rest) c = rw (append-nil c.observed) refl

module _ {T : Type 0} where
  conversation-perform : (a : Activity) (r : Run T) → (perform a r).conversation ≡ r.conversation
  unfolding perform
  conversation-perform (steering m) r = refl
  conversation-perform interruption r = refl
  conversation-perform (notifying m k) r = ground arith
  conversation-perform (tasking a) r = refl

  read_stream_lem :
      (items : List StreamItem) (failure : Option Failure) (t q : String) (r : Run T)
      → let f = or_else failure truncation in
        let (r', res) = read_stream items failure t q r in
        (res ≡ result_of (first_completion items) f)
        × (r'.conversation
            ≡ conversation_after
                (first_completion items)
                f
                r'.handle.aborted
                (text_read (events_read items) t)
                (reasoning_read (events_read items) q)
                r.conversation)
  unfolding read_stream
  read_stream_lem [] failure t q r =
      unfold catch_turn in
      (
        refl,
        rw (salvage_content-arrived q t) (
            salvage_lem r.handle.aborted (or_else failure truncation) (arrived q t) r.conversation),
      )
  read_stream_lem (meanwhile a ∷ rest) failure t q r =
      let (x, y) = read_stream_lem rest failure t q (perform a r) in
      (
        x,
        y
            ∙ ap
                (λ (c : Conversation).
                  conversation_after (first_completion rest) (or_else failure truncation)
                    (read_stream rest failure t q (perform a r)).0.handle.aborted
                    (text_read (events_read rest) t) (reasoning_read (events_read rest) q) c)
                (conversation-perform a r),
      )
  read_stream_lem (event (assistant_text_delta d) ∷ rest) failure t q r =
      read_stream_lem rest failure _ _ (emit_event (assistant_text_delta d) r)
  read_stream_lem (event (reasoning_delta d) ∷ rest) failure t q r =
      read_stream_lem rest failure _ _ (emit_event (reasoning_delta d) r)
  read_stream_lem (event (tool_use_delta u) ∷ rest) failure t q r =
      read_stream_lem rest failure _ _ (emit_event (tool_use_delta u) r)
  read_stream_lem (event (assistant_message_complete m u stop) ∷ rest) failure t q r = (refl, refl)

  pub run_assistant_turn_lem :
      (s : ProviderStream) (r : Run T)
      → let f = or_else s.failure truncation in
        let (r', res) = run_assistant_turn s r in
        (res ≡ result_of (first_completion s.items) f)
        × (r'.conversation
            ≡ conversation_after
                (first_completion s.items)
                f
                r'.handle.aborted
                (text_read (events_read s.items) "")
                (reasoning_read (events_read s.items) "")
                r.conversation)
  unfolding run_assistant_turn
  run_assistant_turn_lem s r = read_stream_lem s.items s.failure "" "" r
