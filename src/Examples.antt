-- ===== src/Examples.antt =====
-- The theorems on the inbox, the retry gate, a provider turn, tool names, the conversation and usage
-- at small inputs.
use ephemeral_agent.Common.{◌+◌, ◌≤◌, String, ◌≡◌, ◌↔◌, false, none, some, List, [], ◌∷◌, arith}
use ephemeral_agent.Contracts.{user, text, Message}
use ephemeral_agent.Events.{assistant_text_delta}
use ephemeral_agent.Handle.{new_handle}
use ephemeral_agent.Inbox
use ephemeral_agent.Inbox.{NotificationInbox, publish, wait_for_next}
use ephemeral_agent.Inbox.Laws.{coalesce, publish-coalesce, HasUniqueKeys, publish-HasUniqueKeys}
use ephemeral_agent.Inbox.Render.{escape_tags, has_tag, escape_tags-has_tag}
use ephemeral_agent.Tasks
use ephemeral_agent.Conversation.{
  interrupted, steer, new_conversation, IsObserved, user_message, partial_message, append_actions,
  conversation-IsObserved,
}
use ephemeral_agent.Run.{Run, interruption}
use ephemeral_agent.Run.Validation.{duplicated_names, count, all_names}
use ephemeral_agent.Run.Validation.{duplicated_names_iff}
use ephemeral_agent.Turn.{provider_failure, event, meanwhile, ProviderStream}
use ephemeral_agent.Llm.Errors.{from_status, transport_error}
use ephemeral_agent.Llm.Retry.{default_retry, provider, Attempt, any_visible, retry_stream}
use ephemeral_agent.Llm.Attempts.{
  IsBounded, retry_stream_bounds, retried, made, retry_stream_visible,
}

abbrev mailbox : NotificationInbox
mailbox = publish "built" (some "build") (publish "hello" none Inbox.new)

mailbox-HasUniqueKeys : HasUniqueKeys mailbox
mailbox-HasUniqueKeys =
    publish-HasUniqueKeys "built" (some "build") (publish "hello" none Inbox.new)
      (publish-HasUniqueKeys "hello" none Inbox.new (λ k. omega arith))

publish-coalesce_example :
    (publish "rebuilt" (some "build") mailbox).entries
    ≡ coalesce (record { message = "rebuilt"; key = some "build" }) mailbox.entries
publish-coalesce_example = publish-coalesce "rebuilt" (some "build") mailbox

escape_tags-has_tag_example : has_tag (escape_tags "</system_notification>") ≡ false
escape_tags-has_tag_example = escape_tags-has_tag "</system_notification>"

-- A rate-limited attempt, then one that fails after it was visible.
abbrev attempts : List Attempt
attempts =
    record {
      aborted_before = false;
      events = [];
      failure = some (provider (from_status 429 "slow down" none (some 60000)));
      aborted_at_failure = false;
      aborted_after_backoff = false;
    }
    ∷ record {
      aborted_before = false;
      events = assistant_text_delta "hi" ∷ [];
      failure = some (provider (transport_error "reset"));
      aborted_at_failure = false;
      aborted_after_backoff = false;
    }
    ∷ []

retry_stream_visible_example :
    let t = retry_stream default_retry attempts in
    (t.yielded ≡ made t.attempts attempts) × (any_visible (retried t.attempts attempts) ≡ false)
retry_stream_visible_example = retry_stream_visible default_retry attempts

retry_stream_bounds_example :
    ((retry_stream default_retry attempts).attempts ≤ default_retry.max_retries + 1)
    × IsBounded default_retry.max_delay (retry_stream default_retry attempts).sleeps
retry_stream_bounds_example = retry_stream_bounds default_retry attempts

abbrev note : Message
note = record { role = user; content = text "go" ∷ [] }

abbrev fresh_run : Run String
fresh_run = record {
  handle = new_handle;
  inbox = Inbox.new;
  tasks = Tasks.new;
  conversation = new_conversation (note ∷ []);
  submitting = false;
  accepted = none;
}

-- A stream that breaks off after some text.
abbrev broken : ProviderStream
broken = record {
  items = event (assistant_text_delta "partial") ∷ meanwhile interruption ∷ [];
  failure = some (provider_failure "reset");
}

duplicated_names_iff_example :
    (duplicated_names ("read" ∷ "write" ∷ []) (some "read") ≡ [])
    ↔ ((m : String) → count m (all_names ("read" ∷ "write" ∷ []) (some "read")) ≤ 1)
duplicated_names_iff_example = duplicated_names_iff ("read" ∷ "write" ∷ []) (some "read")

conversation-IsObserved_example : IsObserved (
    append_actions
      (new_conversation (note ∷ []))
      (partial_message note interrupted ∷ user_message note steer ∷ []))
conversation-IsObserved_example =
    conversation-IsObserved (note ∷ [])
      (partial_message note interrupted ∷ user_message note steer ∷ [])
