-- ===== src/Providers/Anthropic.antt =====
-- src/ai_runtime/providers/anthropic/adapter.py. How a temperature is written is the parameter
-- `write`.
pub mod Body
pub mod Replies
pub mod Steps
use ai_runtime.Providers.Anthropic.Body.{to_anthropic_body}
use ai_runtime.Prelude.{
  ℕ, String, Bool, true, false, not, ◌&&◌, Option, none, some, List, [], ◌∷◌, ◌++◌, ◌+++◌, is_empty,
  is_empty_text, str_eq, if◌then◌else◌,
}
use ai_runtime.Errors.{Error, Result, ok, err, ◌>>=◌, ◌>>◌, raise_if}
use ai_runtime.Exec.{Exec}
use ai_runtime.Executor.{Stream}
use ai_runtime.Json.{
  Json, JsonCodec, null, bool, num, text, arr, obj, Items, nil, cons, Fields, get_field, map_items,
}
use ai_runtime.Generation.{
  tool, assistant, same_role, is_blank, ToolCall, post_init_tool_call, Message, ToolDefinition,
  TokenUsage, token_usage, GenerationRequest, GenerationResponse, GenerationDelta,
  GenerationStreamEvent, ℤ, Float,
}
use ai_runtime.Responses.Payload.{role_value, text_or_null}
use ai_runtime.Providers.{
  as_text, as_object, adapter_error, fields_of, text_or_other, require_id, int_of, both_counts,
  some_usage, require_usage, build_response, as_malformed, when_some, system_text, conversation,
  HttpClient,
}
use ai_runtime.Providers.Exchange.{
  exchange, Progress, Step, does, yield_text, and_after, complete_stream, stream_exchange,
  chunk_object,
}

-- `_usage_from_anthropic_payload`
unfoldable pub usage_from_anthropic_payload : Option Json → Result (Option TokenUsage)
usage_from_anthropic_payload (some (obj u)) =
    require_usage "Anthropic response usage is invalid"
      (both_counts (int_of (get_field "input_tokens" u)) (int_of (get_field "output_tokens" u)))
usage_from_anthropic_payload _ = ok none

-- `block.get("type") == kind`
abbrev is_text : String → Option Json → Bool
is_text kind (some (text s)) = str_eq s kind
is_text kind _ = false

abbrev block_text : Option Json → Result String
block_text (some (text s)) = ok s
block_text _ = err (adapter_error "Anthropic response text block is missing text")

abbrev text_of_block : Json → Result String
text_of_block (obj block) =
    if is_text "text" (get_field "type" block) then block_text (get_field "text" block) else ok ""
text_of_block _ = err (adapter_error "Anthropic response content block is invalid")

-- The loop of `_text_from_content_blocks`, with the texts put together.
unfoldable pub text_from_blocks : Items → Result String
text_from_blocks nil = ok ""
text_from_blocks (cons j js) = do
  part ← text_of_block j
  parts ← text_from_blocks js
  ok (part +++ parts)

-- `_text_from_content_blocks`
unfoldable pub text_from_content_blocks : Option Json → Result String
text_from_content_blocks (some (arr (cons j js))) = text_from_blocks (cons j js)
text_from_content_blocks _ = err (adapter_error "Anthropic response is missing content")

module _ (json : JsonCodec) where
  abbrev call_of : Option String → Option String → Option Fields → Result (List ToolCall)
  call_of (some id) (some name) (some tool_input) = do
    let call : ToolCall = record { id = id; name = name; arguments = json.dumps (obj tool_input) }
    post_init_tool_call call
    ok (call ∷ [])
  call_of _ _ _ = err (adapter_error "Anthropic response tool_use block is invalid")

  -- The call of a block, or none if it is another block.
  abbrev call_of_block : Option Fields → Result (List ToolCall)
  call_of_block none = ok []
  call_of_block (some block) =
      if is_text "tool_use" (get_field "type" block)
      then call_of (as_text (get_field "id" block)) (as_text (get_field "name" block))
          (as_object (get_field "input" block))
      else ok []

  unfoldable pub calls_from_blocks : Items → Result (List ToolCall)
  calls_from_blocks nil = ok []
  calls_from_blocks (cons j js) = do
    c ← call_of_block (as_object (some j))
    cs ← calls_from_blocks js
    ok (c ++ cs)

  -- `_tool_calls_from_anthropic`
  unfoldable pub tool_calls_from_anthropic : Option Json → Result (List ToolCall)
  tool_calls_from_anthropic (some (arr blocks)) = calls_from_blocks blocks
  tool_calls_from_anthropic _ = ok []

  -- The `try` block of `_from_anthropic_payload`.
  unfoldable pub read_anthropic_payload : Fields → GenerationRequest → Result GenerationResponse
  read_anthropic_payload payload r = do
    id ← require_id "Anthropic response is missing a valid id" (get_field "id" payload)
    content ← text_from_content_blocks (get_field "content" payload)
    calls ← tool_calls_from_anthropic (get_field "content" payload)
    raise_if (is_blank content && is_empty calls)
        (adapter_error "Anthropic response is missing text content")
    usage ← usage_from_anthropic_payload (get_field "usage" payload)
    build_response id (text_or_other r.model (get_field "model" payload)) content calls usage

  -- `_from_anthropic_payload`
  unfoldable pub from_anthropic_payload : GenerationRequest → Fields → Result GenerationResponse
  from_anthropic_payload r payload =
      as_malformed "Anthropic response payload is malformed" (read_anthropic_payload payload r)

-- `AnthropicModelProvider`
pub record AnthropicModelProvider : Type 0 where
  pub api_key : String
  pub base_url : String

abbrev pub anthropic_headers : AnthropicModelProvider → List (String × String)
anthropic_headers p =
    ("x-api-key", p.api_key)
    ∷ ("anthropic-version", "2023-06-01")
    ∷ ("content-type", "application/json")
    ∷ []

-- `AnthropicModelProvider.generate`
unfoldable pub anthropic_generate :
    {S : Type 0}
    → JsonCodec
    → (Float → Json)
    → HttpClient S
    → AnthropicModelProvider
    → GenerationRequest
    → Exec S GenerationResponse
anthropic_generate json write http p r =
    exchange json http "Anthropic" (p.base_url +++ "/v1/messages") (anthropic_headers p)
      (to_anthropic_body json write r false) (from_anthropic_payload json r)

abbrev keep_count : Option ℤ → Option ℤ → Option ℤ
keep_count old none = old
keep_count old (some n) = some n

abbrev count_in : String → Option ℤ → Option Json → Option ℤ
count_in key old (some (obj usage)) = keep_count old (int_of (get_field key usage))
count_in key old _ = old

-- The branch for "message_start".
abbrev message_start : Progress → Option Fields → Result (Option GenerationDelta × Result Progress)
message_start p (some message) = ok (
  none,
  ok (record p {
    response_id = text_or_other p.response_id (get_field "id" message);
    model = text_or_other p.model (get_field "model" message);
    input_tokens = count_in "input_tokens" p.input_tokens (get_field "usage" message);
  }),
)
message_start p none = err (adapter_error "Anthropic stream message_start is invalid")

-- The text of a "text_delta", if it is one.
abbrev delta_text : Option Json → Option Json
delta_text (some (obj d)) =
    if is_text "text_delta" (get_field "type" d) then get_field "text" d else none
delta_text _ = none

abbrev by_type : String → Progress → Fields → Result (Option GenerationDelta × Result Progress)
by_type event_type p payload =
    if str_eq event_type "message_start"
    then message_start p (as_object (get_field "message" payload))
    else if str_eq event_type "content_block_delta"
    then and_after ok (
        yield_text "Anthropic stream is missing a valid id" p
          (delta_text (get_field "delta" payload)))
    else if str_eq event_type "message_delta"
    then ok (
      none,
      ok (record p {
        output_tokens = count_in "output_tokens" p.output_tokens (get_field "usage" payload);
      }),
    )
    else ok (none, ok p)

abbrev type_of : Option Json → String
type_of (some (text s)) = s
type_of _ = ""

-- `event_name or payload.get("type")`
abbrev event_type_of : Option String → Fields → String
event_type_of none payload = type_of (get_field "type" payload)
event_type_of (some name) payload =
    if is_empty_text name then type_of (get_field "type" payload) else name

-- One round of the loop of `AnthropicModelProvider.stream`.
unfoldable pub anthropic_step : JsonCodec → Progress → Option String × String → Step
anthropic_step json p (event_name, payload) =
    does
      (chunk_object "Anthropic" json payload >>= λ fs. by_type (event_type_of event_name fs) p fs)

-- The usage of a stream: both counts or none.
abbrev stream_usage : Option ℤ → Option ℤ → Result (Option TokenUsage)
stream_usage (some i) (some o) = some_usage (token_usage i o)
stream_usage none none = ok none
stream_usage _ _ = err (adapter_error "Anthropic response usage is invalid")

-- What follows the loop.
unfoldable pub anthropic_finish : Progress → Result GenerationResponse
anthropic_finish p = do
  raise_if (is_blank p.response_id) (adapter_error "Anthropic stream is missing a valid id")
  usage ← stream_usage p.input_tokens p.output_tokens
  complete_stream "Anthropic stream is missing a valid id" (record p { usage = usage })

-- `AnthropicModelProvider.stream`
unfoldable pub anthropic_stream :
    {S : Type 0}
    → JsonCodec
    → (Float → Json)
    → HttpClient S
    → AnthropicModelProvider
    → GenerationRequest
    → S
    → Stream GenerationStreamEvent × S
anthropic_stream json write http p r =
    stream_exchange (anthropic_step json) anthropic_finish http "Anthropic"
      (p.base_url +++ "/v1/messages") (anthropic_headers p) (to_anthropic_body json write r true) r
