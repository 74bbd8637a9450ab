-- ===== src/Turn.antt =====
-- packages/agent-core/src/agents/engine/turn.ts: one provider turn over a streamed reply.
pub mod Salvage
use Prim.Native.String
use ephemeral_agent.Common.{
  ◌+◌, ◌-◌, String, ap, Bool, true, false, Option, none, some, List, [], ◌∷◌, ◌++◌, str_eq,
  if◌then◌else◌, or_else,
}
use ephemeral_agent.Contracts.{
  str, arr, item, end, assistant, ContentBlock, text, reasoning, Message, assistant_text,
  reasoning_text,
}
use ephemeral_agent.Usage.{UsageSnapshot}
use ephemeral_agent.Events.{
  LlmStreamEvent, assistant_text_delta, reasoning_delta, assistant_message_complete, provider_error,
  completed, llm_event,
}
use ephemeral_agent.Handle.{emit}
use ephemeral_agent.Conversation.{
  PartialReason, interrupted, Conversation, append_partial_assistant, assistant_message,
}
use ephemeral_agent.Run.{Run, Activity, perform}

-- What an `await` can throw: a `ProviderError`, or anything else, with its message.
pub data Failure : Type 0 where
  provider_failure : String → Failure
  other_failure : String → Failure

-- What the client's stream brings, with what the host does in between.
pub data StreamItem : Type 0 where
  event : LlmStreamEvent → StreamItem
  meanwhile : Activity → StreamItem

-- The client's stream: its items, and how it ends if no completion was among them.
pub record ProviderStream : Type 0 where
  pub items : List StreamItem
  pub failure : Option Failure

pub record CompletedTurn : Type 0 where
  pub message : Message
  pub usage : UsageSnapshot
  pub stop_reason : Option String

pub data TurnResult : Type 0 where
  turn_completed : CompletedTurn → TurnResult
  turn_threw : Failure → TurnResult

abbrev pub truncation : Failure
truncation = other_failure "provider stream ended without assistant completion"

-- The two accumulators of the loop over the stream.
abbrev pub add_text : LlmStreamEvent → String → String
add_text (assistant_text_delta t) acc = String.◌++◌ acc t
add_text _ acc = acc

abbrev pub add_reasoning : LlmStreamEvent → String → String
add_reasoning (reasoning_delta t) acc = String.◌++◌ acc t
add_reasoning _ acc = acc

unfoldable pub salvage_reason : Bool → Failure → Option PartialReason
salvage_reason true f = some interrupted
salvage_reason false (provider_failure m) = some PartialReason.provider_error
salvage_reason false (other_failure m) = none

unfoldable pub salvage_content : String → String → List ContentBlock
salvage_content reasoning_text text_so_far =
    (if str_eq reasoning_text "" then [] else reasoning reasoning_text ∷ [])
    ++ (if str_eq text_so_far "" then [] else text text_so_far ∷ [])

unfoldable pub salvage : Option PartialReason → List ContentBlock → Conversation → Conversation
salvage none content c = c
salvage (some reason) [] c = c
salvage (some reason) (b ∷ rest) c =
    append_partial_assistant (record { role = assistant; content = b ∷ rest }) reason c

-- The `catch`: keep what text and reasoning arrived on the side channel, and rethrow.
unfoldable pub catch_turn : {T : Type 0} → String → String → Failure → Run T → Run T × TurnResult
unfolding salvage_reason salvage_content salvage
catch_turn text_so_far reasoning_text f r = (
  record r {
    conversation =
        salvage (salvage_reason r.handle.aborted f) (salvage_content reasoning_text text_so_far)
          r.conversation;
  },
  turn_threw f,
)

abbrev pub completion_of : LlmStreamEvent → Option CompletedTurn
completion_of (assistant_message_complete m u stop) =
    some (record { message = m; usage = u; stop_reason = stop })
completion_of _ = none

unfoldable pub emit_event : {T : Type 0} → LlmStreamEvent → Run T → Run T
emit_event e r = record r { handle = emit (llm_event e) r.handle }

unfoldable pub read_stream :
    {T : Type 0} → List StreamItem → Option Failure → String → String → Run T → Run T × TurnResult
unfolding emit_event
read_stream [] failure text_so_far reasoning_text r =
    catch_turn text_so_far reasoning_text (or_else failure truncation) r
read_stream (meanwhile a ∷ rest) failure text_so_far reasoning_text r =
    read_stream rest failure text_so_far reasoning_text (perform a r)
read_stream (event e ∷ rest) failure text_so_far reasoning_text r =
    let later =
      read_stream rest failure (add_text e text_so_far) (add_reasoning e reasoning_text)
        (emit_event e r) in
    elim (completion_of e) [ some turn ↦ (emit_event e r, turn_completed turn) | none ↦ later ]

unfoldable pub run_assistant_turn : {T : Type 0} → ProviderStream → Run T → Run T × TurnResult
unfolding read_stream
run_assistant_turn s r = read_stream s.items s.failure "" "" r
