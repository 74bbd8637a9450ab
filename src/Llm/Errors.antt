-- ===== src/Llm/Errors.antt =====
-- packages/agent-core/src/agents/llm-client/errors.ts: the taxonomy of provider failures.
use ephemeral_agent.Common.{
  ℕ, String, ◌≡◌, refl, Bool, true, false, ◌||◌, Option, none, some, ◌==◌, if◌then◌else◌,
}

pub data ProviderErrorKind : Type 0 where
  authentication rate_limit server request transport decode : ProviderErrorKind

-- `retry_after` is in milliseconds.
pub record ProviderError : Type 0 where
  pub kind : ProviderErrorKind
  pub message : String
  pub status_code : Option ℕ
  pub request_id : Option String
  pub retry_after : Option ℕ
  pub truncated : Bool

unfoldable pub kind_of_status : ℕ → ProviderErrorKind
kind_of_status status =
    if status == 401 || status == 403
    then authentication
    else if status == 429
    then rate_limit
    else if status == 500 || (status == 502 || (status == 503 || status == 529))
    then server
    else request

unfoldable pub from_status : ℕ → String → Option String → Option ℕ → ProviderError
unfolding kind_of_status
from_status status message request_id retry_after = record {
  kind = kind_of_status status;
  message = message;
  status_code = some status;
  request_id = request_id;
  retry_after = retry_after;
  truncated = false;
}

unfoldable pub transport_error : String → ProviderError
transport_error message = record {
  kind = transport;
  message = message;
  status_code = none;
  request_id = none;
  retry_after = none;
  truncated = false;
}

unfoldable pub truncated_stream : Option String → ProviderError
truncated_stream request_id = record {
  kind = decode;
  message = "stream ended without provider terminal event";
  status_code = none;
  request_id = request_id;
  retry_after = none;
  truncated = true;
}

-- What an sdk call throws: an owned error, a connection error, an api error with or without a
-- status, or anything else. The headers of an api error are read by the platform.
pub data SdkError : Type 0 where
  owned : ProviderError → SdkError
  connection : String → SdkError
  api : Option ℕ → Option String → Option ℕ → String → SdkError
  other : String → SdkError

pub data ErrorPhase : Type 0 where
  open_phase stream_phase : ErrorPhase

abbrev plain_error : ProviderErrorKind → String → Option String → ProviderError
plain_error kind message request_id = record {
  kind = kind;
  message = message;
  status_code = none;
  request_id = request_id;
  retry_after = none;
  truncated = false;
}

abbrev first_id : Option String → Option String → Option String
first_id (some i) fallback = some i
first_id none fallback = fallback

unfoldable pub to_provider_error : SdkError → ErrorPhase → Option String → ProviderError
unfolding from_status
to_provider_error (owned e) phase fallback = e
to_provider_error (connection m) phase fallback = plain_error transport m fallback
to_provider_error (api (some status) request_id retry_after m) phase fallback =
    from_status status m (first_id request_id fallback) retry_after
to_provider_error (api none request_id retry_after m) phase fallback =
    plain_error decode m (first_id request_id fallback)
to_provider_error (other m) open_phase fallback = plain_error request m fallback
to_provider_error (other m) stream_phase fallback = plain_error decode m fallback

-- No mapped error claims to be a truncated stream: only an owned one can be.
pub to_provider_error_truncated :
    (e : SdkError) (phase : ErrorPhase) (fallback : Option String)
    → (to_provider_error e phase fallback).truncated ≡ true
    → (p : ProviderError) × (e ≡ owned p)
unfolding to_provider_error
to_provider_error_truncated (owned p) phase fallback h = (p, refl)
to_provider_error_truncated (connection m) phase fallback h = cc
to_provider_error_truncated (api (some status) i r m) phase fallback h = cc
to_provider_error_truncated (api none i r m) phase fallback h = cc
to_provider_error_truncated (other m) open_phase fallback h = cc
to_provider_error_truncated (other m) stream_phase fallback h = cc
