-- ===== src/Api/Errors.antt =====
-- src/ai_runtime/api/errors.py, api/schemas/errors.py and api/exception_handlers.py: from an
-- exception to the response that the client gets. Starlette calls the handler that is registered for
-- the exception's class; an exception that has none, or that a handler raises, goes to the handler
-- of `Exception`. A UUID is a number, so how one is written is the parameter `uuid_text`.
use Prim.Native.String.{◌++◌}
use ai_runtime.Prelude.{ℕ, String, Option, none, some, List, [], ◌∷◌, is_empty_text, if◌then◌else◌}
use ai_runtime.Errors.{
  Error, domain_validation, unsupported_model, provider_not_registered, provider_error,
  model_not_available, quota_exceeded, rate_limit_exceeded, idempotency_conflict,
  context_limit_exceeded, organization_not_found, organization_slug_conflict,
  organization_suspended, api_key_not_found, api_key_already_revoked, invalid_api_key_credentials,
  prompt_not_found, prompt_version_conflict, mcp_server_not_found, mcp_server_name_conflict,
  mcp_error, lookup_error, external_error, ProviderError, Result, ok, err,
}
use ai_runtime.Json.{Json, JsonCodec, text, obj, Fields, end, field}
use ai_runtime.Api.Codes.{ErrorCode, code_value}
use ai_runtime.Api.Http.{HttpResponse, set_header, decimal}

-- `APIError`
pub record ApiError : Type 0 where
  pub code : ErrorCode
  pub message : String
  pub status_code : ℕ
  pub headers : List (String × String)

-- `ErrorDetailSchema`, and `ErrorResponseSchema` around it.
pub record ErrorDetail : Type 0 where
  pub code : ErrorCode
  pub message : String
  pub request_id : Option String

abbrev request_id_field : Option String → Fields
request_id_field none = end
request_id_field (some id) = field "request_id" (text id) end

-- `payload.model_dump(exclude_none=True)`
unfoldable pub error_json : ErrorDetail → Json
unfolding code_value
error_json d = obj (
    field "error"
      (obj (
        field "code" (text (code_value d.code))
          (field "message" (text d.message) (request_id_field d.request_id))))
      end)

abbrev set_request_id : Option String → List (String × String) → List (String × String)
set_request_id none hs = hs
set_request_id (some id) hs = set_header "x-request-id" id hs

-- The loop over the headers of `_error_response`.
unfoldable pub set_headers :
    List (String × String) → List (String × String) → List (String × String)
set_headers [] hs = hs
set_headers ((name, value) ∷ more) hs = set_headers more (set_header name value hs)

-- What an exception handler gets: an `APIError`, a `RequestValidationError` with the errors that
-- pydantic found, or another exception.
pub record ValidationIssue : Type 0 where
  -- `first["loc"]`, without the parts that are "body", joined with "."
  pub location : String
  pub issue : String

pub data Failure : Type 0 where
  api : ApiError → Failure
  validation : List ValidationIssue → Failure
  raised : Error → Failure

-- `_format_validation_message`
unfoldable pub format_validation_message : List ValidationIssue → String
format_validation_message [] = "The request is invalid."
format_validation_message (first ∷ rest) =
    if is_empty_text first.location
    then "Invalid request: " ++ first.issue ++ "."
    else "Invalid value for '" ++ first.location ++ "': " ++ first.issue ++ "."

-- The arguments of `_error_response` that a handler passes, but for the request id.
abbrev pub plain : ℕ → ErrorCode → String → ApiError
plain status code message = record {
  code = code;
  message = message;
  status_code = status;
  headers = [];
}

abbrev pub waiting : ℕ → ErrorCode → String → ApiError
waiting seconds code message = record {
  code = code;
  message = message;
  status_code = 429;
  headers = ("retry-after", decimal seconds) ∷ [];
}

unfoldable pub validation_error_handler : List ValidationIssue → ApiError
unfolding format_validation_message
validation_error_handler errors =
    plain 422 ErrorCode.invalid_request (format_validation_message errors)

unfoldable pub unhandled_error_handler : ApiError
unhandled_error_handler = plain 500 ErrorCode.internal_error "An unexpected error occurred."

unfoldable pub domain_validation_error_handler : String → ApiError
domain_validation_error_handler message = plain 422 ErrorCode.invalid_request message

unfoldable pub model_not_available_handler : String → ApiError
model_not_available_handler model =
    plain 403 ErrorCode.model_not_available
      "The requested model is not available for this organization."

unfoldable pub unsupported_model_handler : String → ApiError
unsupported_model_handler model =
    plain 400 ErrorCode.unsupported_model "The requested model is not supported."

unfoldable pub idempotency_conflict_handler : ApiError
idempotency_conflict_handler =
    plain 409 ErrorCode.conflict "A request with this Idempotency-Key is already in progress."

unfoldable pub organization_not_found_handler : ApiError
organization_not_found_handler =
    plain 404 ErrorCode.organization_not_found "Organization not found."

unfoldable pub organization_slug_conflict_handler : String → ApiError
organization_slug_conflict_handler slug =
    plain 409 ErrorCode.conflict ("organization slug already exists: " ++ slug)

unfoldable pub api_key_not_found_handler : ApiError
api_key_not_found_handler = plain 404 ErrorCode.api_key_not_found "API key not found."

unfoldable pub api_key_already_revoked_handler : (ℕ → String) → ℕ → ApiError
api_key_already_revoked_handler uuid_text id =
    plain 409 ErrorCode.conflict ("api key already revoked: " ++ uuid_text id)

unfoldable pub mcp_server_not_found_handler : String → ApiError
mcp_server_not_found_handler name =
    plain 404 ErrorCode.mcp_server_not_found ("MCP server not found: " ++ name)

unfoldable pub mcp_server_name_conflict_handler : String → ApiError
mcp_server_name_conflict_handler name =
    plain 409 ErrorCode.conflict ("MCP server name already registered: " ++ name)

unfoldable pub mcp_error_handler : String → ApiError
mcp_error_handler message = plain 502 ErrorCode.mcp_error message

unfoldable pub prompt_not_found_handler : ApiError
prompt_not_found_handler =
    plain 404 ErrorCode.prompt_not_found "The requested prompt was not found."

unfoldable pub prompt_version_conflict_handler : ApiError
prompt_version_conflict_handler =
    plain 409 ErrorCode.conflict "A prompt version was created concurrently; retry the request."

unfoldable pub context_limit_exceeded_handler : ApiError
context_limit_exceeded_handler =
    plain 422 ErrorCode.context_length_exceeded "The request does not fit the model context window."

unfoldable pub provider_not_registered_handler : ApiError
provider_not_registered_handler =
    plain 503 ErrorCode.provider_error "The selected provider is not registered."

unfoldable pub provider_error_handler : ProviderError → ApiError
provider_error_handler e = plain 502 ErrorCode.provider_error e.message

unfoldable pub rate_limit_exceeded_handler : ℕ → ApiError
rate_limit_exceeded_handler seconds = waiting seconds ErrorCode.rate_limited "Rate limit exceeded."

unfoldable pub quota_exceeded_handler : ℕ → ApiError
quota_exceeded_handler seconds =
    waiting seconds ErrorCode.quota_exceeded "Monthly token quota exceeded."

-- `register_exception_handlers`: the handler of an exception's class. The last four classes have
-- none of their own.
unfoldable pub handler_of : (ℕ → String) → Failure → ApiError
handler_of uuid_text (api e) = e
handler_of uuid_text (validation errors) = validation_error_handler errors
handler_of uuid_text (raised (domain_validation message)) = domain_validation_error_handler message
handler_of uuid_text (raised (model_not_available model)) = model_not_available_handler model
handler_of uuid_text (raised (unsupported_model model)) = unsupported_model_handler model
handler_of uuid_text (raised idempotency_conflict) = idempotency_conflict_handler
handler_of uuid_text (raised organization_not_found) = organization_not_found_handler
handler_of uuid_text (raised (organization_slug_conflict slug)) =
    organization_slug_conflict_handler slug
handler_of uuid_text (raised api_key_not_found) = api_key_not_found_handler
handler_of uuid_text (raised (api_key_already_revoked id)) =
    api_key_already_revoked_handler uuid_text id
handler_of uuid_text (raised (mcp_server_not_found name)) = mcp_server_not_found_handler name
handler_of uuid_text (raised (mcp_server_name_conflict name)) =
    mcp_server_name_conflict_handler name
handler_of uuid_text (raised (mcp_error message)) = mcp_error_handler message
handler_of uuid_text (raised (prompt_not_found name version)) = prompt_not_found_handler
handler_of uuid_text (raised prompt_version_conflict) = prompt_version_conflict_handler
handler_of uuid_text (raised context_limit_exceeded) = context_limit_exceeded_handler
handler_of uuid_text (raised (provider_not_registered provider)) = provider_not_registered_handler
handler_of uuid_text (raised (provider_error e)) = provider_error_handler e
handler_of uuid_text (raised (rate_limit_exceeded seconds)) = rate_limit_exceeded_handler seconds
handler_of uuid_text (raised (quota_exceeded seconds)) = quota_exceeded_handler seconds
handler_of uuid_text (raised organization_suspended) = unhandled_error_handler
handler_of uuid_text (raised invalid_api_key_credentials) = unhandled_error_handler
handler_of uuid_text (raised lookup_error) = unhandled_error_handler
handler_of uuid_text (raised external_error) = unhandled_error_handler

module _ (json : JsonCodec) where
  -- The response that `_error_response` builds from what a handler passes.
  abbrev pub error_envelope : Option String → ApiError → HttpResponse
  error_envelope request_id e = record {
    status_code = e.status_code;
    headers = set_headers e.headers (set_request_id request_id []);
    body =
        json.dumps
          (error_json (record { code = e.code; message = e.message; request_id = request_id }));
  }

  -- `_error_response`; pydantic rejects an empty message.
  unfoldable pub error_response : Option String → ApiError → Result HttpResponse
  error_response request_id e =
      if is_empty_text e.message then err external_error else ok (error_envelope request_id e)

  -- An exception in a handler goes to the handler of `Exception`.
  abbrev or_unhandled : Option String → Result HttpResponse → HttpResponse
  or_unhandled request_id (ok r) = r
  or_unhandled request_id (err e) = error_envelope request_id unhandled_error_handler

  -- The response to a request that raised.
  unfoldable pub respond_to_failure : (ℕ → String) → Option String → Failure → HttpResponse
  respond_to_failure uuid_text request_id failure =
      or_unhandled request_id (error_response request_id (handler_of uuid_text failure))
