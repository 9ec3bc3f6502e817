-- ===== src/Sdk/Failures.antt =====
-- What a caller of the client library sees of an exception in the server, through
-- api/exception_handlers.py and the library's errors.py.
use ai_runtime.Prelude.{
  ℕ, ◌≤◌, String, ◌≡◌, refl, true, false, Option, none, some, List, [], ◌∷◌, is_empty_text, leb,
  arith, Bool-cases, inl, inr, if◌then◌else◌,
}
use ai_runtime.Errors.{
  domain_validation, unsupported_model, provider_not_registered, provider_error,
  model_not_available, quota_exceeded, rate_limit_exceeded, idempotency_conflict,
  context_limit_exceeded, organization_not_found, organization_slug_conflict,
  organization_suspended, api_key_not_found, api_key_already_revoked, invalid_api_key_credentials,
  prompt_not_found, prompt_version_conflict, mcp_server_not_found, mcp_server_name_conflict,
  mcp_error, lookup_error, external_error,
}
use ai_runtime.Json.{Json, JsonCodec}
use ai_runtime.Json
use ai_runtime.Api.Codes.{ErrorCode, code_value}
use ai_runtime.Api.Http.{get_header, set_header}
use ai_runtime.Api.Errors.{
  ApiError, Failure, api, validation, handler_of, error_envelope, error_response,
  respond_to_failure, unhandled_error_handler, plain, domain_validation_error_handler,
  model_not_available_handler, unsupported_model_handler, idempotency_conflict_handler,
  organization_not_found_handler, organization_slug_conflict_handler, api_key_not_found_handler,
  api_key_already_revoked_handler, mcp_server_not_found_handler, mcp_server_name_conflict_handler,
  mcp_error_handler, prompt_not_found_handler, prompt_version_conflict_handler,
  context_limit_exceeded_handler, provider_not_registered_handler, provider_error_handler,
  rate_limit_exceeded_handler, quota_exceeded_handler, error_json, set_headers,
  validation_error_handler,
}
use ai_runtime.Sdk.Errors.{
  AiRuntimeError, raised, raise_for_status, error_from_body, request_id_header,
}

-- The exception of the library that stands for what a handler passed to `_error_response`.
abbrev pub as_seen : Option String → ApiError → AiRuntimeError
as_seen request_id e = record {
  code = code_value e.code;
  message = e.message;
  status_code = e.status_code;
  request_id = request_id;
  retry_after = get_header "retry-after" e.headers;
}

-- The request ids that the middleware assigns are not empty.
abbrev pub IsAssigned : Option String → Type 0
IsAssigned none = Unit
IsAssigned (some id) = is_empty_text id ≡ false

-- The only header that a handler sets is Retry-After.
pub data OnlyRetryAfter : List (String × String) → Type 0 where
  no_header : OnlyRetryAfter []
  retry_after : (seconds : String) → OnlyRetryAfter (("retry-after", seconds) ∷ [])

-- An `APIError` has an error status and sets no header, as each one that the server raises.
abbrev pub IsErrorReport : Failure → Type 0
IsErrorReport (api e) = (400 ≤ e.status_code) × OnlyRetryAfter e.headers
IsErrorReport _ = Unit

record Reports (e : ApiError) : Type 0 where
  is_error : 400 ≤ e.status_code
  headers : OnlyRetryAfter e.headers

code_value-NonEmpty : (c : ErrorCode) → is_empty_text (code_value c) ≡ false
unfolding code_value
code_value-NonEmpty ErrorCode.invalid_request = refl
code_value-NonEmpty ErrorCode.unauthorized = refl
code_value-NonEmpty ErrorCode.forbidden = refl
code_value-NonEmpty ErrorCode.rate_limited = refl
code_value-NonEmpty ErrorCode.quota_exceeded = refl
code_value-NonEmpty ErrorCode.model_not_available = refl
code_value-NonEmpty ErrorCode.unsupported_model = refl
code_value-NonEmpty ErrorCode.conflict = refl
code_value-NonEmpty ErrorCode.prompt_not_found = refl
code_value-NonEmpty ErrorCode.mcp_server_not_found = refl
code_value-NonEmpty ErrorCode.mcp_error = refl
code_value-NonEmpty ErrorCode.organization_not_found = refl
code_value-NonEmpty ErrorCode.api_key_not_found = refl
code_value-NonEmpty ErrorCode.context_length_exceeded = refl
code_value-NonEmpty ErrorCode.provider_error = refl
code_value-NonEmpty ErrorCode.internal_error = refl

plain-Reports :
    (status : ℕ) (code : ErrorCode) (message : String)
    → 400 ≤ status
    → Reports (plain status code message)
plain-Reports status code message h = record { is_error = h; headers = no_header }

unhandled-Reports : Reports unhandled_error_handler
unfolding unhandled_error_handler
unhandled-Reports = plain-Reports 500 ErrorCode.internal_error _ (omega arith)

handler_of-Reports :
    (uuid_text : ℕ → String) (f : Failure) → IsErrorReport f → Reports (handler_of uuid_text f)
unfolding handler_of domain_validation_error_handler model_not_available_handler
    unsupported_model_handler idempotency_conflict_handler organization_not_found_handler
    organization_slug_conflict_handler api_key_not_found_handler api_key_already_revoked_handler
    mcp_server_not_found_handler mcp_server_name_conflict_handler mcp_error_handler
    prompt_not_found_handler prompt_version_conflict_handler context_limit_exceeded_handler
    provider_not_registered_handler provider_error_handler rate_limit_exceeded_handler
    quota_exceeded_handler validation_error_handler unhandled_error_handler
handler_of-Reports uuid_text (api e) h = record { is_error = h.0; headers = h.1 }
handler_of-Reports uuid_text (validation errors) h =
    plain-Reports 422 ErrorCode.invalid_request _ (omega arith)
handler_of-Reports uuid_text (Failure.raised (domain_validation message)) h =
    plain-Reports 422 ErrorCode.invalid_request _ (omega arith)
handler_of-Reports uuid_text (Failure.raised (model_not_available model)) h =
    plain-Reports 403 ErrorCode.model_not_available _ (omega arith)
handler_of-Reports uuid_text (Failure.raised (unsupported_model model)) h =
    plain-Reports 400 ErrorCode.unsupported_model _ (omega arith)
handler_of-Reports uuid_text (Failure.raised idempotency_conflict) h =
    plain-Reports 409 ErrorCode.conflict _ (omega arith)
handler_of-Reports uuid_text (Failure.raised organization_not_found) h =
    plain-Reports 404 ErrorCode.organization_not_found _ (omega arith)
handler_of-Reports uuid_text (Failure.raised (organization_slug_conflict slug)) h =
    plain-Reports 409 ErrorCode.conflict _ (omega arith)
handler_of-Reports uuid_text (Failure.raised api_key_not_found) h =
    plain-Reports 404 ErrorCode.api_key_not_found _ (omega arith)
handler_of-Reports uuid_text (Failure.raised (api_key_already_revoked id)) h =
    plain-Reports 409 ErrorCode.conflict _ (omega arith)
handler_of-Reports uuid_text (Failure.raised (mcp_server_not_found name)) h =
    plain-Reports 404 ErrorCode.mcp_server_not_found _ (omega arith)
handler_of-Reports uuid_text (Failure.raised (mcp_server_name_conflict name)) h =
    plain-Reports 409 ErrorCode.conflict _ (omega arith)
handler_of-Reports uuid_text (Failure.raised (mcp_error message)) h =
    plain-Reports 502 ErrorCode.mcp_error _ (omega arith)
handler_of-Reports uuid_text (Failure.raised (prompt_not_found name version)) h =
    plain-Reports 404 ErrorCode.prompt_not_found _ (omega arith)
handler_of-Reports uuid_text (Failure.raised prompt_version_conflict) h =
    plain-Reports 409 ErrorCode.conflict _ (omega arith)
handler_of-Reports uuid_text (Failure.raised context_limit_exceeded) h =
    plain-Reports 422 ErrorCode.context_length_exceeded _ (omega arith)
handler_of-Reports uuid_text (Failure.raised (provider_not_registered provider)) h =
    plain-Reports 503 ErrorCode.provider_error _ (omega arith)
handler_of-Reports uuid_text (Failure.raised (provider_error e)) h =
    plain-Reports 502 ErrorCode.provider_error _ (omega arith)
handler_of-Reports uuid_text (Failure.raised (rate_limit_exceeded seconds)) h = record {
  is_error = omega arith;
  headers = retry_after _;
}
handler_of-Reports uuid_text (Failure.raised (quota_exceeded seconds)) h = record {
  is_error = omega arith;
  headers = retry_after _;
}
handler_of-Reports uuid_text (Failure.raised organization_suspended) h =
    plain-Reports 500 ErrorCode.internal_error _ (omega arith)
handler_of-Reports uuid_text (Failure.raised invalid_api_key_credentials) h =
    plain-Reports 500 ErrorCode.internal_error _ (omega arith)
handler_of-Reports uuid_text (Failure.raised lookup_error) h =
    plain-Reports 500 ErrorCode.internal_error _ (omega arith)
handler_of-Reports uuid_text (Failure.raised external_error) h =
    plain-Reports 500 ErrorCode.internal_error _ (omega arith)

-- The document of an error.
abbrev pub envelope_of : Option String → ApiError → Json
envelope_of request_id e =
    error_json (record { code = e.code; message = e.message; request_id = request_id })

-- JSON that is written is read back.
abbrev pub IsReadBack : JsonCodec → Json → Type 0
IsReadBack json j = json.loads (json.dumps j) ≡ some j

error_envelope-as_seen :
    (json : JsonCodec)
    → (request_id : Option String) (e : ApiError) → IsReadBack json (envelope_of request_id e)
    → IsAssigned request_id
    → Reports e
    → is_empty_text e.message ≡ false
    → raise_for_status json (error_envelope json request_id e) ≡ raised (as_seen request_id e)
unfolding raise_for_status error_from_body request_id_header error_json set_headers set_header
    get_header Json.get_field
error_envelope-as_seen json request_id e codec assigned r present =
    go request_id codec assigned e.headers r.headers
  where
    is_error : leb 400 e.status_code ≡ true
    is_error = let k = r.is_error in ground arith

    go :
        (request_id : Option String)
        → IsReadBack json (envelope_of request_id e)
        → IsAssigned request_id
        → (hs : List (String × String)) → OnlyRetryAfter hs
        → raise_for_status json (error_envelope json request_id (record e { headers = hs }))
          ≡ raised (as_seen request_id (record e { headers = hs }))
    go none codec a _ no_header = rw (is_error, codec, code_value-NonEmpty e.code, present) refl
    go none codec a _ (retry_after s) =
        rw (is_error, codec, code_value-NonEmpty e.code, present) refl
    go (some id) codec a _ no_header =
        rw (is_error, codec, code_value-NonEmpty e.code, present, a) refl
    go (some id) codec a _ (retry_after s) =
        rw (is_error, codec, code_value-NonEmpty e.code, present, a) refl

-- What a request that raised gives the caller: the handler's answer, or the one for an unexpected
-- error if the handler has no message.
abbrev pub reported : ApiError → ApiError
reported e = if is_empty_text e.message then unhandled_error_handler else e

-- Every exception that reaches the server's handlers is raised again in the caller of the client
-- library, with the handler's status, code and message, the request's id, and the seconds to wait
-- before a retry where the handler gives them. The error's document is read back, request ids are not
-- empty, and an `APIError` has an error status and no header but Retry-After.
pub raise_for_status-respond_to_failure :
    (json : JsonCodec)
    → (uuid_text : ℕ → String) (request_id : Option String) (f : Failure) → IsAssigned request_id
    → IsErrorReport f
    → IsReadBack json (envelope_of request_id (reported (handler_of uuid_text f)))
    → raise_for_status json (respond_to_failure json uuid_text request_id f)
      ≡ raised (as_seen request_id (reported (handler_of uuid_text f)))
unfolding respond_to_failure error_response
raise_for_status-respond_to_failure json uuid_text request_id f assigned report read_back =
    elim (Bool-cases (is_empty_text (handler_of uuid_text f).message)) [
      | inl empty ↦ rw empty (
          error_envelope-as_seen json request_id unhandled_error_handler (rw empty at read_back)
            assigned unhandled-Reports unhandled_message)
      | inr present ↦ rw present (
          error_envelope-as_seen json request_id (handler_of uuid_text f) (rw present at read_back)
            assigned (handler_of-Reports uuid_text f report) present)
    ]
  where
    unhandled_message : is_empty_text unhandled_error_handler.message ≡ false
    unhandled_message = unfold unhandled_error_handler in refl
