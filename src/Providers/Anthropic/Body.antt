-- ===== src/Providers/Anthropic/Body.antt =====
-- The request bodies of src/ai_runtime/providers/anthropic/adapter.py.
use ai_runtime.Prelude.{
  String, Bool, true, not, ◌&&◌, Option, none, some, List, [], ◌∷◌, ◌++◌, is_empty, if◌then◌else◌,
}
use ai_runtime.Errors.{Result, ok, err, ◌>>=◌, ◌>>◌, raise_if}
use ai_runtime.Json.{Json, JsonCodec, bool, text, arr, obj, Items, nil, cons, Fields, map_items}
use ai_runtime.Api.Http.{int_json}
use ai_runtime.Generation.{
  tool, assistant, same_role, is_blank, ToolCall, Message, ToolDefinition, GenerationRequest, ℤ,
  pos, Float,
}
use ai_runtime.Responses.Payload.{role_value, text_or_null}
use ai_runtime.Providers.{as_object, adapter_error, fields_of, when_some, system_text, conversation}

abbrev pub object_input : Option Fields → Result Json
object_input none = err (adapter_error "tool call arguments must be a JSON object")
object_input (some fs) = ok (obj fs)

-- The input of a `tool_use` block: the arguments, which have to be a JSON object.
abbrev pub input_of : Option Json → Result Json
input_of none = err (adapter_error "tool call arguments must be valid JSON")
input_of (some j) = object_input (as_object (some j))

module _ (json : JsonCodec) where
  -- The loop over the calls of a message.
  unfoldable pub tool_use_blocks : List ToolCall → Result Items
  tool_use_blocks [] = ok nil
  tool_use_blocks (c ∷ cs) = do
    tool_input ← input_of (json.loads c.arguments)
    blocks ← tool_use_blocks cs
    ok (
        cons
          (obj (
            fields_of (
              ("type", text "tool_use")
              ∷ ("id", text c.id)
              ∷ ("name", text c.name)
              ∷ ("input", tool_input)
              ∷ [])))
          blocks)

  abbrev pub text_block : String → Items → Items
  text_block content blocks =
      if is_blank content
      then blocks
      else cons (obj (fields_of (("type", text "text") ∷ ("text", text content) ∷ []))) blocks

  -- `_to_anthropic_message`
  unfoldable pub to_anthropic_message : Message → Result Json
  to_anthropic_message m =
      if same_role m.role tool
      then ok (
          obj (
            fields_of (
              ("role", text "user")
              ∷ (
                "content",
                arr (
                    cons
                      (obj (
                        fields_of (
                          ("type", text "tool_result")
                          ∷ ("tool_use_id", text_or_null m.tool_call_id)
                          ∷ ("content", text m.content)
                          ∷ [])))
                      nil),
              )
              ∷ [])))
      else if same_role m.role assistant && not (is_empty m.tool_calls)
      then (do
        blocks ← tool_use_blocks m.tool_calls
        ok (
            obj (
              fields_of (
                ("role", text "assistant") ∷ ("content", arr (text_block m.content blocks)) ∷ []))))
      else ok
          (obj (fields_of (("role", text (role_value m.role)) ∷ ("content", text m.content) ∷ [])))

  unfoldable pub to_anthropic_messages : List Message → Result Items
  to_anthropic_messages [] = ok nil
  to_anthropic_messages (m ∷ ms) = do
    j ← to_anthropic_message m
    js ← to_anthropic_messages ms
    ok (cons j js)

  abbrev pub tool_json : ToolDefinition → Json
  tool_json t = obj (
      fields_of (
        ("name", text t.name)
        ∷ ("description", text t.description)
        ∷ ("input_schema", t.parameters)
        ∷ []))

  abbrev pub tools_field : List ToolDefinition → List (String × Json)
  tools_field [] = []
  tools_field (t ∷ ts) = ("tools", arr (map_items tool_json (t ∷ ts))) ∷ []

  -- `_DEFAULT_MAX_OUTPUT_TOKENS`
  abbrev pub max_tokens : Option ℤ → ℤ
  max_tokens none = pos 1024
  max_tokens (some n) = n

  -- `_to_anthropic_body`
  unfoldable pub to_anthropic_body : (Float → Json) → GenerationRequest → Bool → Result Json
  to_anthropic_body write r streamed = do
    raise_if (is_empty (conversation r.messages))
        (adapter_error "messages must contain at least one non-system message")
    messages ← to_anthropic_messages (conversation r.messages)
    ok (
        obj (
          fields_of (
            ("model", text r.model)
            ∷ ("max_tokens", int_json (max_tokens r.max_output_tokens))
            ∷ ("messages", arr messages)
            ∷ (when_some "system" text (system_text r.messages)
                ++ when_some "temperature" write r.temperature
                ++ tools_field r.tools
                ++ (if streamed then ("stream", bool true) ∷ [] else [])))))
