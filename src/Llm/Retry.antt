-- ===== src/Llm/Retry.antt =====
-- packages/agent-core/src/agents/llm-client/retry.ts and config.ts: the retry gate of a stream.
use ephemeral_agent.Common.{
  ℕ, ◌+◌, ◌*◌, ◌^◌, min, String, Bool, true, false, not, ◌||◌, Option, none, some, List, [], ◌∷◌,
  ◌++◌, ltb, leb, ◌==◌, if◌then◌else◌, is_some, or_else, find,
}
use ephemeral_agent.Events.{
  LlmStreamEvent, assistant_text_delta, reasoning_delta, tool_use_delta, assistant_message_complete,
}
use ephemeral_agent.Llm.Errors.{
  ProviderErrorKind, authentication, rate_limit, server, request, transport, decode, ProviderError,
}

-- Delays are in milliseconds.
pub record RetryConfig : Type 0 where
  pub max_retries : ℕ
  pub base_delay : ℕ
  pub max_delay : ℕ
  pub status_codes : List ℕ

abbrev pub default_retry : RetryConfig
default_retry = record {
  max_retries = 3;
  base_delay = 1000;
  max_delay = 30000;
  status_codes = 429 ∷ 500 ∷ 502 ∷ 503 ∷ 529 ∷ [];
}

unfoldable pub is_visible : LlmStreamEvent → Bool
is_visible (assistant_text_delta t) = true
is_visible (reasoning_delta t) = true
is_visible (tool_use_delta u) = true
is_visible (assistant_message_complete m u s) = false

includes : List ℕ → ℕ → Bool
includes [] n = false
includes (m ∷ ms) n = m == n || includes ms n

retryable_status : List ℕ → Option ℕ → Bool
unfolding includes
retryable_status codes none = false
retryable_status codes (some n) = includes codes n

retryable_kind : RetryConfig → ProviderErrorKind → ProviderError → Bool
unfolding retryable_status
retryable_kind cfg rate_limit e = retryable_status cfg.status_codes e.status_code
retryable_kind cfg server e = retryable_status cfg.status_codes e.status_code
retryable_kind cfg transport e = true
retryable_kind cfg decode e = e.truncated
retryable_kind cfg authentication e = false
retryable_kind cfg request e = false

unfoldable pub is_retryable : RetryConfig → ProviderError → Bool
unfolding retryable_kind
is_retryable cfg e = retryable_kind cfg e.kind e

unfoldable pub delay_of : RetryConfig → ProviderError → ℕ → ℕ
delay_of cfg e attempt = min (or_else e.retry_after (cfg.base_delay * 2 ^ attempt)) cfg.max_delay

-- What one attempt throws: a `ProviderError`, or anything else.
pub data Thrown : Type 0 where
  provider : ProviderError → Thrown
  foreign : String → Thrown

-- One attempt, and whether the caller's signal has aborted before it, when it throws, and after the
-- backoff.
pub record Attempt : Type 0 where
  pub aborted_before : Bool
  pub events : List LlmStreamEvent
  pub failure : Option Thrown
  pub aborted_at_failure : Bool
  pub aborted_after_backoff : Bool

pub data Ending : Type 0 where
  completed_stream : Ending
  threw : Thrown → Ending
  abort_error : Ending
  unsettled : Ending

-- What the consumer has been handed, the delays slept, the attempts started, and the end.
-- `unsettled` is a stream whose next attempt is still to come.
pub record Transcript : Type 0 where
  pub yielded : List LlmStreamEvent
  pub sleeps : List ℕ
  pub attempts : ℕ
  pub ending : Ending

abbrev pub ends : Ending → Transcript
ends e = record { yielded = []; sleeps = []; attempts = 0; ending = e }

-- An attempt before the rest of the transcript.
abbrev pub attempted : List LlmStreamEvent → List ℕ → Transcript → Transcript
attempted events sleeps t = record {
  yielded = events ++ t.yielded;
  sleeps = sleeps ++ t.sleeps;
  attempts = t.attempts + 1;
  ending = t.ending;
}

abbrev pub any_visible : List LlmStreamEvent → Bool
any_visible es = is_some (find is_visible es)

-- A delay of zero is not slept.
abbrev pub slept : ℕ → List ℕ
slept d = if ltb 0 d then d ∷ [] else []

unfoldable pub retry_after_failure :
    RetryConfig → ℕ → Bool → Attempt → Option Thrown → Transcript → Transcript
unfolding delay_of is_retryable
retry_after_failure cfg index visible a none later = attempted a.events [] (ends completed_stream)
retry_after_failure cfg index visible a (some (foreign m)) later =
    attempted a.events [] (ends (threw (foreign m)))
retry_after_failure cfg index visible a (some (provider e)) later =
    if a.aborted_at_failure || (visible || (leb cfg.max_retries index || not (is_retryable cfg e)))
    then attempted a.events [] (ends (threw (provider e)))
    else attempted a.events (slept (delay_of cfg e index))
        (if a.aborted_after_backoff then ends abort_error else later)

-- `index` counts the attempts and `visible` is the flag that spans them.
unfoldable pub retry_from : RetryConfig → ℕ → Bool → List Attempt → Transcript
unfolding retry_after_failure
retry_from cfg index visible [] = ends unsettled
retry_from cfg index visible (a ∷ rest) =
    let later = retry_from cfg (index + 1) (visible || any_visible a.events) rest in
    if a.aborted_before
    then ends abort_error
    else retry_after_failure cfg index (visible || any_visible a.events) a a.failure later

unfoldable pub retry_stream : RetryConfig → List Attempt → Transcript
unfolding retry_from
retry_stream cfg attempts = retry_from cfg 0 false attempts
