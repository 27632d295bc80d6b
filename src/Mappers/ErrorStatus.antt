-- ===== src/Mappers/ErrorStatus.antt =====
-- `normalizeErrorStatus` and `normalizeProviderError` of mappers.ts, and the comparison of their
-- results that the stream handler makes by `JSON.stringify`.
use gpt.Prelude.{String, Bool, true, false, ◌&&◌, Option, none, some, ◌==◌, eqb}
use gpt.Types.{ProviderErrorType, MessageErrorStatus, TokenUsage}

pub data BackendProviderError : Type 0 where
  rate_limited authentication_error server_error service_unavailable bad_request :
      BackendProviderError
  context_length_exceeded content_policy_violation network_error timeout : BackendProviderError
  invalid_image unknown : String → BackendProviderError
  other_kind : BackendProviderError

pub data BackendErrorStatus : Type 0 where
  node_offline timeout : BackendErrorStatus
  canister_call_error invalid_state configuration_error unknown : String → BackendErrorStatus
  provider_error : BackendProviderError → BackendErrorStatus
  other_kind : BackendErrorStatus

unfoldable pub normalize_provider_error : BackendProviderError → ProviderErrorType
normalize_provider_error BackendProviderError.rate_limited = ProviderErrorType.rate_limited
normalize_provider_error BackendProviderError.authentication_error =
    ProviderErrorType.authentication_error
normalize_provider_error BackendProviderError.server_error = ProviderErrorType.server_error
normalize_provider_error BackendProviderError.service_unavailable =
    ProviderErrorType.service_unavailable
normalize_provider_error BackendProviderError.bad_request = ProviderErrorType.bad_request
normalize_provider_error BackendProviderError.context_length_exceeded =
    ProviderErrorType.context_length_exceeded
normalize_provider_error BackendProviderError.content_policy_violation =
    ProviderErrorType.content_policy_violation
normalize_provider_error BackendProviderError.network_error = ProviderErrorType.network_error
normalize_provider_error BackendProviderError.timeout = ProviderErrorType.timeout
normalize_provider_error (BackendProviderError.invalid_image s) = ProviderErrorType.invalid_image s
normalize_provider_error (BackendProviderError.unknown s) = ProviderErrorType.unknown s
normalize_provider_error BackendProviderError.other_kind =
    ProviderErrorType.unknown "Unknown provider error"

unfoldable pub normalize_error_status : Option BackendErrorStatus → Option MessageErrorStatus
normalize_error_status none = none
normalize_error_status (some BackendErrorStatus.node_offline) =
    some (MessageErrorStatus.node_offline none)
normalize_error_status (some BackendErrorStatus.timeout) = some (MessageErrorStatus.timeout none)
normalize_error_status (some (BackendErrorStatus.canister_call_error s)) =
    some (MessageErrorStatus.canister_call_error s)
normalize_error_status (some (BackendErrorStatus.invalid_state s)) =
    some (MessageErrorStatus.invalid_state s)
normalize_error_status (some (BackendErrorStatus.configuration_error s)) =
    some (MessageErrorStatus.configuration_error s)
normalize_error_status (some (BackendErrorStatus.unknown s)) = some (MessageErrorStatus.unknown s)
normalize_error_status (some (BackendErrorStatus.provider_error e)) =
    some (MessageErrorStatus.provider_error (normalize_provider_error e))
normalize_error_status (some BackendErrorStatus.other_kind) =
    some (MessageErrorStatus.unknown "Unknown error kind")

abbrev pub same_text : Option String → Option String → Bool
same_text none none = true
same_text (some s) (some t) = s == t
same_text _ _ = false

unfoldable pub same_provider_error : ProviderErrorType → ProviderErrorType → Bool
same_provider_error ProviderErrorType.rate_limited ProviderErrorType.rate_limited = true
same_provider_error ProviderErrorType.authentication_error ProviderErrorType.authentication_error =
    true
same_provider_error ProviderErrorType.server_error ProviderErrorType.server_error = true
same_provider_error ProviderErrorType.service_unavailable ProviderErrorType.service_unavailable =
    true
same_provider_error ProviderErrorType.bad_request ProviderErrorType.bad_request = true
same_provider_error ProviderErrorType.context_length_exceeded
      ProviderErrorType.context_length_exceeded =
    true
same_provider_error ProviderErrorType.content_policy_violation
      ProviderErrorType.content_policy_violation =
    true
same_provider_error ProviderErrorType.network_error ProviderErrorType.network_error = true
same_provider_error ProviderErrorType.timeout ProviderErrorType.timeout = true
same_provider_error (ProviderErrorType.invalid_image s) (ProviderErrorType.invalid_image t) = s == t
same_provider_error (ProviderErrorType.unknown s) (ProviderErrorType.unknown t) = s == t
same_provider_error _ _ = false

unfoldable pub same_error : Option MessageErrorStatus → Option MessageErrorStatus → Bool
unfolding same_provider_error
same_error none none = true
same_error (some (MessageErrorStatus.timeout s)) (some (MessageErrorStatus.timeout t)) =
    same_text s t
same_error (some (MessageErrorStatus.node_offline s)) (some (MessageErrorStatus.node_offline t)) =
    same_text s t
same_error (some (MessageErrorStatus.provider_error s))
      (some (MessageErrorStatus.provider_error t)) =
    same_provider_error s t
same_error (some (MessageErrorStatus.canister_call_error s))
      (some (MessageErrorStatus.canister_call_error t)) =
    s == t
same_error (some (MessageErrorStatus.invalid_state s)) (some (MessageErrorStatus.invalid_state t)) =
    s == t
same_error (some (MessageErrorStatus.configuration_error s))
      (some (MessageErrorStatus.configuration_error t)) =
    s == t
same_error (some (MessageErrorStatus.unknown s)) (some (MessageErrorStatus.unknown t)) = s == t
same_error _ _ = false

unfoldable pub same_usage : Option TokenUsage → Option TokenUsage → Bool
same_usage none none = true
same_usage (some u) (some v) =
    eqb u.prompt_tokens v.prompt_tokens
    && eqb u.completion_tokens v.completion_tokens
    && eqb u.total_tokens v.total_tokens
same_usage _ _ = false
