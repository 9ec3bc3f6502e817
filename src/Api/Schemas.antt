-- ===== src/Api/Schemas.antt =====
-- The response side of src/ai_runtime/api/schemas/responses.py. A schema has the fields of its domain
-- class, so the domain's record stands for both; what pydantic checks when a schema is built from it
-- is written out, and a check that fails raises pydantic's `ValidationError`.
use ai_runtime.Prelude.{
  String, Bool, true, false, ◌||◌, Option, none, some, List, [], ◌∷◌, is_empty_text, if◌then◌else◌,
}
use ai_runtime.Errors.{external_error, Result, ok, err, ◌>>=◌, ◌>>◌}
use ai_runtime.Json.{Json, null, bool, num, text, arr, obj, Fields, end, field, map_items}
use ai_runtime.Generation.{
  ToolCall, Message, TokenUsage, total_tokens, GenerationResponse, post_init_tool_call,
  post_init_message,
}
use ai_runtime.Responses.Payload.{role_value, tool_call_json}

-- `ToolCallSchema.from_domain`: no field is empty.
unfoldable pub tool_call_schema : ToolCall → Result ToolCall
tool_call_schema c =
    if is_empty_text c.id || is_empty_text c.name || is_empty_text c.arguments
    then err external_error
    else ok c

unfoldable pub tool_call_schemas : List ToolCall → Result (List ToolCall)
tool_call_schemas [] = ok []
tool_call_schemas (c ∷ cs) = do d ← tool_call_schema c; ds ← tool_call_schemas cs; ok (d ∷ ds)

-- `[item.to_domain() for item in self.tool_calls]`
unfoldable pub check_tool_calls : List ToolCall → Result (Unit {0})
check_tool_calls [] = ok tt
check_tool_calls (c ∷ cs) = post_init_tool_call c >> check_tool_calls cs

abbrev as_validation_error : Result (Unit {0}) → Result (Unit {0})
as_validation_error (ok u) = ok u
as_validation_error (err e) = err external_error

-- `MessageSchema.validate_role_fields`
unfoldable pub validate_role_fields : Message → Result (Unit {0})
validate_role_fields m = as_validation_error (check_tool_calls m.tool_calls >> post_init_message m)

-- `MessageSchema.from_domain`
unfoldable pub message_schema : Message → Result Message
message_schema m = do
  calls ← tool_call_schemas m.tool_calls
  let schema : Message = record m { tool_calls = calls }
  validate_role_fields schema
  ok schema

-- `ResponseSchema.from_domain`
unfoldable pub response_schema : GenerationResponse → Result GenerationResponse
response_schema r = do output ← message_schema r.output; ok (record r { output = output })

abbrev calls_field : List ToolCall → Fields
calls_field [] = end
calls_field (c ∷ cs) = field "tool_calls" (arr (map_items tool_call_json (c ∷ cs))) end

abbrev optional_field : String → Option String → Fields → Fields
optional_field key none rest = rest
optional_field key (some value) rest = field key (text value) rest

-- `MessageSchema._omit_empty_tool_fields`
unfoldable pub message_dump : Message → Json
message_dump m = obj (
    field "role" (text (role_value m.role)) (
      field "content" (text m.content) (
        optional_field "tool_call_id" m.tool_call_id
          (optional_field "name" m.name (calls_field m.tool_calls)))))

-- The dump of a `TokenUsageSchema`.
unfoldable pub usage_dump : Option TokenUsage → Json
usage_dump none = null
usage_dump (some u) = obj (
    field "input_tokens" (num u.input_tokens) (
      field "output_tokens" (num u.output_tokens)
        (field "total_tokens" (num (total_tokens u)) end)))

abbrev cached_field : Bool → Fields
cached_field false = end
cached_field true = field "cached" (bool true) end

-- `ResponseSchema._omit_default_cached`
unfoldable pub response_dump : GenerationResponse → Json
unfolding message_dump usage_dump
response_dump r = obj (
    field "id" (text r.id) (
      field "model" (text r.model) (
        field "output" (message_dump r.output)
          (field "usage" (usage_dump r.usage) (cached_field r.cached)))))
