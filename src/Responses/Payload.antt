-- ===== src/Responses/Payload.antt =====
-- `_serialize_response` and `_deserialize_response` of
-- src/ai_runtime/application/responses/create_response.py, and the fingerprint's payload of
-- cache_fingerprint.py, up to `json.dumps` and `json.loads`. A value of another JSON type than the
-- code reads raises.
pub mod Replay
use ai_runtime.Prelude.{
  ℕ, String, Bool, true, false, Option, none, some, List, [], ◌∷◌, map, str_eq, if◌then◌else◌,
}
use ai_runtime.Errors.{Error, external_error, Result, ok, err, ◌>>=◌, ◌>>◌}
use ai_runtime.Json.{
  Json, null, num, other_num, text, arr, obj, Items, nil, cons, Fields, end, field, get_field,
  map_items,
}
use ai_runtime.Api.Http.{int_json}
use ai_runtime.Generation.{
  MessageRole, system, user, assistant, tool, ToolCall, post_init_tool_call, Message,
  post_init_message, TokenUsage, GenerationRequest, GenerationResponse, post_init_response,
  ToolDefinition, ℤ, Float, pos, negsuc,
}

-- `role.value`
abbrev pub role_value : MessageRole → String
role_value system = "system"
role_value user = "user"
role_value assistant = "assistant"
role_value tool = "tool"

unfoldable pub tool_call_json : ToolCall → Json
tool_call_json c =
    obj (
      field "id" (text c.id)
        (field "name" (text c.name) (field "arguments" (text c.arguments) end)))

pub usage_json : Option TokenUsage → Json
usage_json none = null
usage_json (some u) =
    obj
      (field "input_tokens" (num u.input_tokens) (field "output_tokens" (num u.output_tokens) end))

-- The value of "output" in the payload.
abbrev pub message_fields_of : Message → Fields
message_fields_of m = field "role" (text (role_value m.role)) (
    field "content" (text m.content)
      (field "tool_calls" (arr (map_items tool_call_json m.tool_calls)) end))

-- The payload of `_serialize_response`.
pub response_json : GenerationResponse → Json
unfolding tool_call_json usage_json
response_json r = obj (
    field "id" (text r.id) (
      field "model" (text r.model) (
        field "output" (obj (message_fields_of r.output))
          (field "usage" (usage_json r.usage) end))))

-- `data[key]`, where a text, a number or an object is wanted
abbrev text_of : Option Json → Result String
text_of (some (text s)) = ok s
text_of _ = err external_error

abbrev number_of : Option Json → Result ℕ
number_of (some (num n)) = ok n
number_of _ = err external_error

abbrev object_of : Option Json → Result Fields
object_of (some (obj fs)) = ok fs
object_of _ = err external_error

-- `MessageRole(value)`
unfoldable pub role_of : String → Result MessageRole
role_of value =
    if str_eq value "system"
    then ok system
    else if str_eq value "user"
    then ok user
    else if str_eq value "assistant"
    then ok assistant
    else if str_eq value "tool"
    then ok tool
    else err external_error

pub read_tool_call : Json → Result ToolCall
read_tool_call j = do
  item ← object_of (some j)
  id ← text_of (get_field "id" item)
  name ← text_of (get_field "name" item)
  arguments ← text_of (get_field "arguments" item)
  let call : ToolCall = record { id = id; name = name; arguments = arguments }
  post_init_tool_call call
  ok call

pub read_items : Items → Result (List ToolCall)
unfolding read_tool_call
read_items nil = ok []
read_items (cons j js) = do call ← read_tool_call j; calls ← read_items js; ok (call ∷ calls)

-- `output.get("tool_calls", [])`
abbrev read_tool_calls : Option Json → Result (List ToolCall)
read_tool_calls none = ok []
read_tool_calls (some (arr items)) = read_items items
read_tool_calls (some _) = err external_error

read_usage : Option Json → Result (Option TokenUsage)
read_usage none = ok none
read_usage (some null) = ok none
read_usage (some j) = do
  u ← object_of (some j)
  input ← number_of (get_field "input_tokens" u)
  output ← number_of (get_field "output_tokens" u)
  ok (some (record { input_tokens = input; output_tokens = output }))

pub read_message : Fields → Result Message
unfolding role_of read_items
read_message output = do
  value ← text_of (get_field "role" output)
  role ← role_of value
  content ← text_of (get_field "content" output)
  calls ← read_tool_calls (get_field "tool_calls" output)
  let message : Message = record {
    role = role;
    content = content;
    tool_call_id = none;
    name = none;
    tool_calls = calls;
  }
  post_init_message message
  ok message

-- `_deserialize_response`, behind `json.loads`
pub read_response : Json → Result GenerationResponse
unfolding read_message read_usage
read_response j = do
  fs ← object_of (some j)
  usage ← read_usage (get_field "usage" fs)
  id ← text_of (get_field "id" fs)
  model ← text_of (get_field "model" fs)
  out ← object_of (get_field "output" fs)
  output ← read_message out
  let response : GenerationResponse = record {
    id = id;
    model = model;
    output = output;
    usage = usage;
    cached = false;
  }
  post_init_response response
  ok response

abbrev pub text_or_null : Option String → Json
text_or_null none = null
text_or_null (some s) = text s

abbrev pub number_or_null : Option ℤ → Json
number_or_null none = null
number_or_null (some n) = int_json n

pub message_fields : Message → Json
unfolding tool_call_json
message_fields m = obj (
    field "content" (text m.content) (
      field "name" (text_or_null m.name) (
        field "role" (text (role_value m.role)) (
          field "tool_call_id" (text_or_null m.tool_call_id)
            (field "tool_calls" (arr (map_items tool_call_json m.tool_calls)) end)))))

pub tool_fields : ToolDefinition → Json
tool_fields t = obj (
    field "description" (text t.description)
      (field "name" (text t.name) (field "parameters" t.parameters end)))

abbrev pub temperature_or_null : (Float → Json) → Option Float → Json
temperature_or_null write none = null
temperature_or_null write (some t) = write t

-- The payload of `fingerprint_generation_request`; `temperature` is how a temperature is written.
unfoldable pub fingerprint_payload : (Float → Json) → GenerationRequest → Json
unfolding message_fields tool_fields
fingerprint_payload temperature r = obj (
    field "max_output_tokens" (number_or_null r.max_output_tokens) (
      field "messages" (arr (map_items message_fields r.messages)) (
        field "model" (text r.model) (
          field "temperature" (temperature_or_null temperature r.temperature)
            (field "tools" (arr (map_items tool_fields r.tools)) end)))))
