-- ===== src/Sdk/Errors.antt =====
-- src/sdk/python/src/ai_runtime_sdk/errors.py, and the checks of a response in client.py.
use Prim.Native.String.{◌++◌}
use ai_runtime.Prelude.{ℕ, String, Option, none, some, is_empty_text, strip, leb, if◌then◌else◌}
use ai_runtime.Json.{Json, JsonCodec, text, obj, get_field}
use ai_runtime.Api.Http.{HttpResponse, get_header, decimal}

-- `AIRuntimeError`
pub record AiRuntimeError : Type 0 where
  pub code : String
  pub message : String
  pub status_code : ℕ
  pub request_id : Option String
  pub retry_after : Option String

-- What the client's code returns or raises.
pub data Outcome (Value : Type 0) : Type 0 where
  raised : AiRuntimeError → Outcome Value
  returned : Value → Outcome Value

-- `raw if isinstance(raw, str) and raw else fallback`
abbrev pub text_or : String → Option Json → String
text_or fallback (some (text s)) = if is_empty_text s then fallback else s
text_or fallback _ = fallback

abbrev pub some_text_or : Option String → Option Json → Option String
some_text_or fallback (some (text s)) = if is_empty_text s then fallback else some s
some_text_or fallback _ = fallback

abbrev envelope_error : ℕ → Option String → Option String → String → Option Json → AiRuntimeError
envelope_error status request_id retry_after fallback (some (obj error)) = record {
  code = text_or "internal_error" (get_field "code" error);
  message = text_or fallback (get_field "message" error);
  status_code = status;
  request_id = some_text_or request_id (get_field "request_id" error);
  retry_after = retry_after;
}
envelope_error status request_id retry_after fallback _ = record {
  code = "internal_error";
  message = fallback;
  status_code = status;
  request_id = request_id;
  retry_after = retry_after;
}

-- The value of "error", if the payload is an object.
abbrev error_of : Option Json → Option Json
error_of (some (obj payload)) = get_field "error" payload
error_of _ = none

-- `error_from_body`; the payload `none` is Python's `None`.
unfoldable pub error_from_body :
    Option Json → ℕ → Option String → Option String → String → AiRuntimeError
error_from_body payload status request_id retry_after fallback =
    envelope_error status request_id retry_after fallback (error_of payload)

abbrev non_empty : Option String → Option String
non_empty none = none
non_empty (some s) = if is_empty_text s then none else some s

-- `_request_id_header`
unfoldable pub request_id_header : HttpResponse → Option String
request_id_header r = non_empty (get_header "x-request-id" r.headers)

-- `response.text.strip() or f"HTTP {response.status_code}"`
abbrev fallback_message : HttpResponse → String
fallback_message r =
    let stripped = strip r.body in
    if is_empty_text stripped then "HTTP " ++ decimal r.status_code else stripped

-- `_raise_for_status`
unfoldable pub raise_for_status : JsonCodec → HttpResponse → Outcome (Unit {0})
raise_for_status json r =
    if leb 400 r.status_code
    then raised (
        error_from_body (json.loads r.body) r.status_code (request_id_header r)
          (get_header "retry-after" r.headers) (fallback_message r))
    else returned tt
