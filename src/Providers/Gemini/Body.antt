-- ===== src/Providers/Gemini/Body.antt =====
-- The request bodies of src/ai_runtime/providers/gemini/adapter.py.
use ai_runtime.Prelude.{String, Option, none, some, List, [], ◌∷◌, ◌++◌, is_empty, if◌then◌else◌}
use ai_runtime.Errors.{external_error, Result, ok, err, ◌>>=◌, ◌>>◌, raise_if}
use ai_runtime.Json.{Json, JsonCodec, text, arr, obj, Items, nil, cons, Fields, map_items}
use ai_runtime.Api.Http.{int_json}
use ai_runtime.Generation.{
  MessageRole, tool, assistant, same_role, is_blank, ToolCall, Message, ToolDefinition,
  GenerationRequest, Float,
}
use ai_runtime.Responses.Payload.{role_value}
use ai_runtime.Providers.{as_object, adapter_error, fields_of, when_some, system_text, conversation}

-- `_gemini_role`
unfoldable pub gemini_role : MessageRole → String
gemini_role assistant = "model"
gemini_role tool = "user"
gemini_role role = role_value role

-- `message.name if message.name is not None and message.name.strip() else message.tool_call_id`
abbrev pub function_name : Option String → Option String → Option String
function_name none tool_call_id = tool_call_id
function_name (some name) tool_call_id = if is_blank name then tool_call_id else some name

-- The result of a tool: its content if that is a JSON object, and else an object around it.
abbrev pub function_result : String → Option Json → Json
function_result content (some (obj fs)) = obj fs
function_result content _ = obj (fields_of (("result", text content) ∷ []))

-- `assert name is not None`, and the part.
abbrev pub function_response : Option String → Json → Result Items
function_response none payload = err external_error
function_response (some name) payload = ok (
    cons
      (obj (
        fields_of (
          ("functionResponse", obj (fields_of (("name", text name) ∷ ("response", payload) ∷ [])))
          ∷ [])))
      nil)

abbrev pub object_args : Option Fields → Result Json
object_args none = err (adapter_error "tool call arguments must be a JSON object")
object_args (some fs) = ok (obj fs)

abbrev pub args_of : Option Json → Result Json
args_of none = err (adapter_error "tool call arguments must be valid JSON")
args_of (some j) = object_args (as_object (some j))

abbrev pub text_part : String → Json
text_part content = obj (fields_of (("text", text content) ∷ []))

module _ (json : JsonCodec) where
  -- The loop over the calls of a message.
  unfoldable pub function_call_parts : List ToolCall → Result Items
  function_call_parts [] = ok nil
  function_call_parts (c ∷ cs) = do
    args ← args_of (json.loads c.arguments)
    parts ← function_call_parts cs
    ok (
        cons
          (obj (
            fields_of (
              ("functionCall", obj (fields_of (("name", text c.name) ∷ ("args", args) ∷ [])))
              ∷ [])))
          parts)

  -- `_gemini_parts`
  unfoldable pub gemini_parts : Message → Result Items
  gemini_parts m =
      if same_role m.role tool
      then function_response (function_name m.name m.tool_call_id)
          (function_result m.content (json.loads m.content))
      else if is_empty m.tool_calls
      then ok (cons (text_part m.content) nil)
      else (do
        parts ← function_call_parts m.tool_calls
        ok (if is_blank m.content then parts else cons (text_part m.content) parts))

  unfoldable pub gemini_contents : List Message → Result Items
  unfolding gemini_role
  gemini_contents [] = ok nil
  gemini_contents (m ∷ ms) = do
    parts ← gemini_parts m
    more ← gemini_contents ms
    ok (
        cons (obj (fields_of (("role", text (gemini_role m.role)) ∷ ("parts", arr parts) ∷ [])))
          more)

  abbrev pub generation_config : List (String × Json) → List (String × Json)
  generation_config [] = []
  generation_config (f ∷ fs) = ("generationConfig", obj (fields_of (f ∷ fs))) ∷ []

  abbrev pub tool_json : ToolDefinition → Json
  tool_json t = obj (
      fields_of (
        ("name", text t.name)
        ∷ ("description", text t.description)
        ∷ ("parameters", t.parameters)
        ∷ []))

  abbrev pub tools_field : List ToolDefinition → List (String × Json)
  tools_field [] = []
  tools_field (t ∷ ts) =
      (
        "tools",
        arr (
            cons
              (obj (fields_of (("functionDeclarations", arr (map_items tool_json (t ∷ ts))) ∷ [])))
              nil),
      )
      ∷ []

  abbrev pub system_instruction : String → Json
  system_instruction content = obj (fields_of (("parts", arr (cons (text_part content) nil)) ∷ []))

  -- `_to_gemini_body`
  unfoldable pub to_gemini_body : (Float → Json) → GenerationRequest → Result Json
  to_gemini_body write r = do
    raise_if (is_empty (conversation r.messages))
        (adapter_error "messages must contain at least one non-system message")
    contents ← gemini_contents (conversation r.messages)
    ok (
        obj (
          fields_of (
            ("contents", arr contents)
            ∷ (when_some "systemInstruction" system_instruction (system_text r.messages)
                ++ generation_config (
                    when_some "temperature" write r.temperature
                    ++ when_some "maxOutputTokens" int_json r.max_output_tokens)
                ++ tools_field r.tools))))
