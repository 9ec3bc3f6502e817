-- ===== src/Providers/OpenAi.antt =====
-- src/ai_runtime/providers/openai/adapter.py. How a temperature is written is the parameter `write`.
pub mod Body
pub mod Replies
pub mod Steps
use ai_runtime.Providers.OpenAi.Body.{to_openai_body}
use ai_runtime.Prelude.{
  ℕ, String, Bool, true, false, Option, none, some, List, [], ◌∷◌, ◌++◌, ◌+++◌, is_empty,
  is_empty_text, str_eq, not, ◌&&◌, if◌then◌else◌,
}
use ai_runtime.Errors.{Error, Result, ok, err, ◌>>=◌, ◌>>◌, raise_if}
use ai_runtime.Exec.{Exec}
use ai_runtime.Json.{
  Json, JsonCodec, null, bool, num, text, arr, obj, Items, nil, cons, Fields, get_field, map_items,
}
use ai_runtime.Generation.{
  tool, same_role, is_blank, ToolCall, post_init_tool_call, Message, ToolDefinition, TokenUsage,
  GenerationRequest, GenerationResponse, GenerationDelta, GenerationStreamEvent, ℤ, Float,
}
use ai_runtime.Responses.Payload.{role_value, text_or_null}
use ai_runtime.Providers.{
  as_text, as_object, first_item, adapter_error, fields_of, text_or_other, require_id, int_of,
  both_counts, require_usage, build_response, as_malformed, when_some, HttpClient,
}
use ai_runtime.Providers.Exchange.{
  exchange, Progress, Step, break, does, yield_text, and_after, complete_stream, stream_exchange,
  chunk_object,
}
use ai_runtime.Executor.{Stream}

abbrev invalid_calls : Error
invalid_calls = adapter_error "OpenAI response tool_calls is invalid"

-- The id of a call, once its function is known to be an object.
abbrev call_of : Option String → Option String → Option String → Result ToolCall
call_of (some id) (some name) (some arguments) = do
  raise_if (is_blank id) invalid_calls
  let call : ToolCall = record { id = id; name = name; arguments = arguments }
  post_init_tool_call call
  ok call
call_of _ _ _ = err invalid_calls

abbrev call_with_function : Option String → Option Fields → Result ToolCall
call_with_function id none = err invalid_calls
call_with_function id (some function) =
    call_of id (as_text (get_field "name" function)) (as_text (get_field "arguments" function))

abbrev call_of_item : Option Fields → Result ToolCall
call_of_item none = err invalid_calls
call_of_item (some item) =
    call_with_function (as_text (get_field "id" item)) (as_object (get_field "function" item))

unfoldable pub calls_of_items : Items → Result (List ToolCall)
calls_of_items nil = ok []
calls_of_items (cons j js) = do
  c ← call_of_item (as_object (some j))
  cs ← calls_of_items js
  ok (c ∷ cs)

-- `_tool_calls_from_openai`
unfoldable pub tool_calls_from_openai : Option Json → Result (List ToolCall)
tool_calls_from_openai none = ok []
tool_calls_from_openai (some null) = ok []
tool_calls_from_openai (some (arr items)) = calls_of_items items
tool_calls_from_openai (some _) = err invalid_calls

abbrev counts_of : Option Fields → Result (Option TokenUsage)
counts_of none = ok none
counts_of (some u) =
    require_usage "OpenAI response usage is invalid" (
      both_counts (int_of (get_field "prompt_tokens" u)) (int_of (get_field "completion_tokens" u)))

-- `_usage_from_openai_payload`
unfoldable pub usage_from_openai_payload : Option Json → Result (Option TokenUsage)
usage_from_openai_payload usage_payload = counts_of (as_object usage_payload)

-- `message.get("content")`, where `None` is the empty text
abbrev content_of : Option Json → Result String
content_of none = ok ""
content_of (some null) = ok ""
content_of (some (text s)) = ok s
content_of (some _) = err (adapter_error "OpenAI response message is missing content")

abbrev message_of : Option Json → Result Fields
message_of (some (obj message)) = ok message
message_of _ = err (adapter_error "OpenAI response choice is missing message")

-- `choices[0]`
abbrev first_choice : Option Json → Result Fields
first_choice (some (arr (cons (obj choice) rest))) = ok choice
first_choice (some (arr (cons _ rest))) = err (adapter_error "OpenAI response choice is invalid")
first_choice _ = err (adapter_error "OpenAI response is missing choices")

-- The `try` block of `_from_openai_payload`; a missing id raises a `KeyError`.
unfoldable pub read_openai_payload : Fields → GenerationRequest → Result GenerationResponse
read_openai_payload payload r = do
  id ← require_id "OpenAI response is missing a valid id" (get_field "id" payload)
  choice ← first_choice (get_field "choices" payload)
  message ← message_of (get_field "message" choice)
  content ← content_of (get_field "content" message)
  calls ← tool_calls_from_openai (get_field "tool_calls" message)
  raise_if (is_blank content && is_empty calls)
      (adapter_error "OpenAI response message is missing content")
  usage ← usage_from_openai_payload (get_field "usage" payload)
  build_response id (text_or_other r.model (get_field "model" payload)) content calls usage

abbrev pub has_id : Option Json → Bool
has_id none = false
has_id (some id) = true

-- `_from_openai_payload`
unfoldable pub from_openai_payload : GenerationRequest → Fields → Result GenerationResponse
from_openai_payload r payload =
    if has_id (get_field "id" payload)
    then as_malformed "OpenAI response payload is malformed" (read_openai_payload payload r)
    else err (adapter_error "OpenAI response payload is malformed")

-- `OpenAIModelProvider`
pub record OpenAiModelProvider : Type 0 where
  pub api_key : String
  pub base_url : String

abbrev pub openai_headers : OpenAiModelProvider → List (String × String)
openai_headers p =
    ("authorization", "Bearer " +++ p.api_key) ∷ ("content-type", "application/json") ∷ []

-- `OpenAIModelProvider.generate`
unfoldable pub openai_generate :
    {S : Type 0}
    → JsonCodec
    → (Float → Json)
    → HttpClient S
    → OpenAiModelProvider
    → GenerationRequest
    → Exec S GenerationResponse
openai_generate json write http p r =
    exchange json http "OpenAI" (p.base_url +++ "/chat/completions") (openai_headers p)
      (ok (to_openai_body write r false)) (from_openai_payload r)

-- The text of the first choice's delta, if the chunk has one.
abbrev delta_of : Option Fields → Option Json
delta_of none = none
delta_of (some d) = get_field "content" d

abbrev choice_content : Option Fields → Result (Option Json)
choice_content none = err (adapter_error "OpenAI stream choice is invalid")
choice_content (some choice) = ok (delta_of (as_object (get_field "delta" choice)))

abbrev chunk_content : Option Json → Result (Option Json)
chunk_content none = ok none
chunk_content (some choice) = choice_content (as_object (some choice))

abbrev with_usage : Progress → Option Json → Result Progress
with_usage p none = ok p
with_usage p (some u) = do
  usage ← usage_from_openai_payload (some u)
  ok (record p { usage = usage })

-- One round of the loop of `OpenAIModelProvider.stream`.
unfoldable pub openai_chunk : Progress → Fields → Result (Option GenerationDelta × Result Progress)
openai_chunk p payload = do
  content ← chunk_content (first_item (get_field "choices" payload))
  let seen : Progress = record p {
    response_id = text_or_other p.response_id (get_field "id" payload);
    model = text_or_other p.model (get_field "model" payload);
  }
  and_after (λ p'. with_usage p' (get_field "usage" payload))
      (yield_text "OpenAI stream is missing a valid id" seen content)

unfoldable pub openai_step : JsonCodec → Progress → Option String × String → Step
openai_step json p (event_name, payload) =
    if str_eq payload "[DONE]"
    then break
    else does (chunk_object "OpenAI" json payload >>= λ fs. openai_chunk p fs)

-- `OpenAIModelProvider.stream`
unfoldable pub openai_stream :
    {S : Type 0}
    → JsonCodec
    → (Float → Json)
    → HttpClient S
    → OpenAiModelProvider
    → GenerationRequest
    → S
    → Stream GenerationStreamEvent × S
openai_stream json write http p r =
    stream_exchange (openai_step json) (complete_stream "OpenAI stream is missing a valid id") http
      "OpenAI" (p.base_url +++ "/chat/completions") (openai_headers p)
      (ok (to_openai_body write r true)) r
