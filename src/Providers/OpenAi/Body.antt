-- ===== src/Providers/OpenAi/Body.antt =====
-- The request bodies of src/ai_runtime/providers/openai/adapter.py.
use ai_runtime.Prelude.{String, Bool, true, false, List, [], ◌∷◌, ◌++◌, if◌then◌else◌}
use ai_runtime.Json.{Json, null, bool, text, arr, obj, map_items}
use ai_runtime.Api.Http.{int_json}
use ai_runtime.Generation.{
  tool, same_role, is_blank, ToolCall, Message, ToolDefinition, GenerationRequest, Float,
}
use ai_runtime.Responses.Payload.{role_value, text_or_null}
use ai_runtime.Providers.{fields_of, when_some}

abbrev pub call_json : ToolCall → Json
call_json c = obj (
    fields_of (
      ("id", text c.id)
      ∷ ("type", text "function")
      ∷ ("function", obj (fields_of (("name", text c.name) ∷ ("arguments", text c.arguments) ∷ [])))
      ∷ []))

-- The fields of a message that is not a tool's.
abbrev pub message_fields : Message → List ToolCall → List (String × Json)
message_fields m [] = ("role", text (role_value m.role)) ∷ ("content", text m.content) ∷ []
message_fields m (c ∷ cs) =
    ("role", text (role_value m.role))
    ∷ ("content", if is_blank m.content then null else text m.content)
    ∷ ("tool_calls", arr (map_items call_json (c ∷ cs)))
    ∷ []

-- `_to_openai_message`
unfoldable pub to_openai_message : Message → Json
to_openai_message m =
    if same_role m.role tool
    then obj (
        fields_of (
          ("role", text "tool")
          ∷ ("tool_call_id", text_or_null m.tool_call_id)
          ∷ ("content", text m.content)
          ∷ []))
    else obj (fields_of (message_fields m m.tool_calls))

abbrev pub tool_json : ToolDefinition → Json
tool_json t = obj (
    fields_of (
      ("type", text "function")
      ∷ (
        "function",
        obj (
            fields_of (
              ("name", text t.name)
              ∷ ("description", text t.description)
              ∷ ("parameters", t.parameters)
              ∷ [])),
      )
      ∷ []))

abbrev pub tools_field : List ToolDefinition → List (String × Json)
tools_field [] = []
tools_field (t ∷ ts) = ("tools", arr (map_items tool_json (t ∷ ts))) ∷ []

abbrev pub stream_fields : Bool → List (String × Json)
stream_fields false = []
stream_fields true =
    ("stream", bool true)
    ∷ ("stream_options", obj (fields_of (("include_usage", bool true) ∷ [])))
    ∷ []

-- `_to_openai_body`
unfoldable pub to_openai_body : (Float → Json) → GenerationRequest → Bool → Json
to_openai_body write r streamed = obj (
    fields_of (
      ("model", text r.model)
      ∷ ("messages", arr (map_items to_openai_message r.messages))
      ∷ (when_some "temperature" write r.temperature
          ++ when_some "max_tokens" int_json r.max_output_tokens
          ++ tools_field r.tools
          ++ stream_fields streamed)))
