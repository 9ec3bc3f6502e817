-- ===== src/Providers/Gemini.antt =====
-- src/ai_runtime/providers/gemini/adapter.py. How a temperature is written is the parameter `write`.
pub mod Body
pub mod Replies
pub mod Steps
use ai_runtime.Providers.Gemini.Body.{to_gemini_body}
use ai_runtime.Prelude.{
  ℕ, suc, ◌+◌, String, Bool, true, false, not, ◌&&◌, Option, none, some, List, [], ◌∷◌, ◌++◌, ◌+++◌,
  is_empty, is_empty_text, if◌then◌else◌,
}
use ai_runtime.Errors.{Error, external_error, Result, ok, err, ◌>>=◌, ◌>>◌, raise_if}
use ai_runtime.Exec.{Exec}
use ai_runtime.Executor.{Stream}
use ai_runtime.Json.{
  Json, JsonCodec, null, bool, num, text, arr, obj, Items, nil, cons, Fields, end, get_field,
  map_items,
}
use ai_runtime.Generation.{
  MessageRole, user, system, tool, assistant, same_role, is_blank, ToolCall, post_init_tool_call,
  Message, ToolDefinition, TokenUsage, GenerationRequest, GenerationResponse, GenerationDelta,
  GenerationStreamEvent, ℤ, Float,
}
use ai_runtime.Responses.Payload.{role_value}
use ai_runtime.Api.Http.{decimal}
use ai_runtime.Providers.{
  as_text, as_object, first_item, adapter_error, fields_of, text_or_other, require_id, int_of,
  both_counts, require_usage, build_response, as_malformed, when_some, system_text, conversation,
  HttpClient,
}
use ai_runtime.Providers.Exchange.{
  exchange, Progress, Step, does, yield_delta, and_after, complete_stream, stream_exchange,
  chunk_object,
}

abbrev invalid_call : Error
invalid_call = adapter_error "Gemini response functionCall is invalid"

module _ (json : JsonCodec) where
  abbrev call_of : ℕ → Option String → Option Fields → Result (List ToolCall)
  call_of index (some name) (some args) = do
    let call : ToolCall = record {
      id = "call_" +++ decimal index +++ "_" +++ name;
      name = name;
      arguments = json.dumps (obj args);
    }
    post_init_tool_call call
    ok (call ∷ [])
  call_of index _ _ = err invalid_call

  abbrev object_call : ℕ → Option Fields → Result (List ToolCall)
  object_call index none = err invalid_call
  object_call index (some call) =
      call_of index (as_text (get_field "name" call)) (as_object (get_field "args" call))

  -- `"functionCall" not in part` is the case `none`.
  abbrev function_call : ℕ → Option Json → Result (List ToolCall)
  function_call index none = ok []
  function_call index (some call) = object_call index (as_object (some call))

  abbrev call_of_part : ℕ → Option Fields → Result (List ToolCall)
  call_of_part index none = ok []
  call_of_part index (some part) = function_call index (get_field "functionCall" part)

  unfoldable pub calls_from_parts : ℕ → Items → Result (List ToolCall)
  calls_from_parts index nil = ok []
  calls_from_parts index (cons j js) = do
    c ← call_of_part index (as_object (some j))
    cs ← calls_from_parts (index + 1) js
    ok (c ++ cs)

  -- `_tool_calls_from_gemini`
  unfoldable pub tool_calls_from_gemini : Option Json → Result (List ToolCall)
  tool_calls_from_gemini (some (arr parts)) = calls_from_parts 0 parts
  tool_calls_from_gemini _ = ok []

-- `part.get("thought") is True`
abbrev is_thought : Option Json → Bool
is_thought (some (bool b)) = b
is_thought _ = false

abbrev part_text : Option Json → Result String
part_text none = ok ""
part_text (some null) = ok ""
part_text (some (text s)) = ok s
part_text (some _) = err (adapter_error "Gemini response text part is missing text")

abbrev text_of_part : Option Fields → Result String
text_of_part none = err (adapter_error "Gemini response content part is invalid")
text_of_part (some part) =
    if is_thought (get_field "thought" part) then ok "" else part_text (get_field "text" part)

-- The loop of `_optional_text_from_parts`, with the texts put together.
unfoldable pub text_from_parts : Items → Result String
text_from_parts nil = ok ""
text_from_parts (cons j js) = do
  part ← text_of_part (as_object (some j))
  parts ← text_from_parts js
  ok (part +++ parts)

-- `_optional_text_from_parts`
unfoldable pub optional_text_from_parts : Option Json → Result String
optional_text_from_parts (some (arr parts)) = text_from_parts parts
optional_text_from_parts _ = ok ""

abbrev candidate_content : Option Json → Result Fields
candidate_content (some (obj content)) = ok content
candidate_content _ = err (adapter_error "Gemini response candidate is missing content")

-- `candidates[0]`
abbrev first_candidate : Option Json → Result Fields
first_candidate (some (arr (cons (obj candidate) rest))) = ok candidate
first_candidate (some (arr (cons _ rest))) =
    err (adapter_error "Gemini response candidate is invalid")
first_candidate _ = err (adapter_error "Gemini response is missing candidates")

abbrev usage_of_payload : Option Json → Result (Option TokenUsage)
usage_of_payload (some (obj u)) = require_usage "Gemini response usage is invalid" (
    both_counts (int_of (get_field "promptTokenCount" u))
      (int_of (get_field "candidatesTokenCount" u)))
usage_of_payload _ = ok none

module _ (json : JsonCodec) where
  -- The `try` block of `_from_gemini_payload`.
  unfoldable pub read_gemini_payload : Fields → GenerationRequest → Result GenerationResponse
  read_gemini_payload payload r = do
    id ← require_id "Gemini response is missing a valid id" (get_field "responseId" payload)
    candidate ← first_candidate (get_field "candidates" payload)
    content ← candidate_content (get_field "content" candidate)
    output ← optional_text_from_parts (get_field "parts" content)
    calls ← tool_calls_from_gemini json (get_field "parts" content)
    raise_if (is_blank output && is_empty calls)
        (adapter_error "Gemini response is missing text content")
    usage ← usage_of_payload (get_field "usageMetadata" payload)
    build_response id (text_or_other r.model (get_field "modelVersion" payload)) output calls usage

  -- `_from_gemini_payload`
  unfoldable pub from_gemini_payload : GenerationRequest → Fields → Result GenerationResponse
  from_gemini_payload r payload =
      as_malformed "Gemini response payload is malformed" (read_gemini_payload payload r)

-- `GeminiModelProvider`
pub record GeminiModelProvider : Type 0 where
  pub api_key : String
  pub base_url : String

abbrev pub gemini_headers : GeminiModelProvider → List (String × String)
gemini_headers p = ("x-goog-api-key", p.api_key) ∷ ("content-type", "application/json") ∷ []

abbrev pub gemini_url : GeminiModelProvider → String → String → String
gemini_url p model method = p.base_url +++ "/v1beta/models" +++ "/" +++ model +++ ":" +++ method

-- `GeminiModelProvider.generate`
unfoldable pub gemini_generate :
    {S : Type 0}
    → JsonCodec
    → (Float → Json)
    → HttpClient S
    → GeminiModelProvider
    → GenerationRequest
    → Exec S GenerationResponse
gemini_generate json write http p r =
    exchange json http "Gemini" (gemini_url p r.model "generateContent") (gemini_headers p)
      (to_gemini_body json write r) (from_gemini_payload json r)

abbrev content_text : Option Fields → Result String
content_text none = ok ""
content_text (some content) = optional_text_from_parts (get_field "parts" content)

abbrev candidate_text : Option Fields → Result String
candidate_text none = err (adapter_error "Gemini stream candidate is invalid")
candidate_text (some candidate) = content_text (as_object (get_field "content" candidate))

abbrev chunk_text : Option Json → Result String
chunk_text none = ok ""
chunk_text (some candidate) = candidate_text (as_object (some candidate))

-- `is not None`
abbrev is_given : Option Json → Bool
is_given none = false
is_given (some null) = false
is_given (some _) = true

abbrev after_counts : Progress → Bool → Result (Option TokenUsage) → Result Progress
after_counts p given (err e) = err e
after_counts p given (ok (some u)) = ok (record p { usage = some u })
after_counts p given (ok none) =
    if given then err (adapter_error "Gemini response usage is invalid") else ok p

abbrev with_usage : Option Fields → Progress → Result Progress
with_usage none p = ok p
with_usage (some u) p =
    after_counts p
      (if is_given (get_field "promptTokenCount" u)
        then true
        else is_given (get_field "candidatesTokenCount" u))
      (both_counts (int_of (get_field "promptTokenCount" u))
        (int_of (get_field "candidatesTokenCount" u)))

abbrev yield_content : Progress → String → Result (Option GenerationDelta × Progress)
yield_content p content =
    if is_empty_text content
    then ok (none, p)
    else yield_delta "Gemini stream is missing a valid id" p content

-- One round of the loop of `GeminiModelProvider.stream`.
unfoldable pub gemini_chunk : Progress → Fields → Result (Option GenerationDelta × Result Progress)
gemini_chunk p payload = do
  content ← chunk_text (first_item (get_field "candidates" payload))
  let seen : Progress = record p {
    response_id = text_or_other p.response_id (get_field "responseId" payload);
    model = text_or_other p.model (get_field "modelVersion" payload);
  }
  and_after (with_usage (as_object (get_field "usageMetadata" payload)))
      (yield_content seen content)

unfoldable pub gemini_step : JsonCodec → Progress → Option String × String → Step
gemini_step json p (event_name, payload) =
    does (chunk_object "Gemini" json payload >>= λ fs. gemini_chunk p fs)

-- `GeminiModelProvider.stream`; the query parameter is part of the address here.
unfoldable pub gemini_stream :
    {S : Type 0}
    → JsonCodec
    → (Float → Json)
    → HttpClient S
    → GeminiModelProvider
    → GenerationRequest
    → S
    → Stream GenerationStreamEvent × S
gemini_stream json write http p r =
    stream_exchange (gemini_step json) (complete_stream "Gemini stream is missing a valid id") http
      "Gemini" (gemini_url p r.model "streamGenerateContent" +++ "?alt=sse") (gemini_headers p)
      (to_gemini_body json write r) r
