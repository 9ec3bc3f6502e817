-- ===== src/Sdk/Models.antt =====
-- src/sdk/python/src/ai_runtime_sdk/models.py: what pydantic builds from a JSON object, with unknown
-- fields ignored. pydantic also converts some values of other JSON types to a number or a Boolean;
-- what it makes of those is the parameter `Lax`.
pub mod Written
use ai_runtime.Prelude.{
  ℕ, String, Bool, true, false, Option, none, some, List, [], ◌∷◌, str_eq, if◌then◌else◌,
}
use ai_runtime.Errors.{ok, err}
use ai_runtime.Json.{Json, null, bool, num, text, arr, obj, Items, nil, cons, Fields, get_field}
use ai_runtime.Generation.{MessageRole, system, user, assistant, tool, ToolCall, Message, ℤ, pos}
use ai_runtime.Responses.Payload.{role_of}

pub record Lax : Type 0 where
  -- A value that is no natural number, as an `int`.
  pub as_int : Json → Option ℤ
  -- A value that is no Boolean, as a `bool`.
  pub as_bool : Json → Option Bool

pub record TokenUsage : Type 0 where
  pub input_tokens : ℤ
  pub output_tokens : ℤ
  pub total_tokens : ℤ

pub record Response : Type 0 where
  pub id : String
  pub model : String
  pub output : Message
  pub usage : Option TokenUsage
  pub cached : Bool
  pub request_id : Option String

pub record ResponseDelta : Type 0 where
  pub id : String
  pub model : String
  pub content : String
  pub request_id : Option String

infixl 5 ◌>>=◌
-- A field that is read before the next one; `none` is a `ValidationError`.
abbrev pub ◌>>=◌ : {A B : Type 0} → Option A → (A → Option B) → Option B
none >>= f = none
some a >>= f = f a

-- A required text.
unfoldable pub read_text : Option Json → Option String
read_text (some (text s)) = some s
read_text _ = none

-- A field of type `str` with the default "".
unfoldable pub read_text_or_empty : Option Json → Option String
read_text_or_empty none = some ""
read_text_or_empty (some j) = read_text (some j)

-- A field of type `str | None` with the default `None`.
unfoldable pub read_optional_text : Option Json → Option (Option String)
read_optional_text none = some none
read_optional_text (some null) = some none
read_optional_text (some (text s)) = some (some s)
read_optional_text _ = none

module _ (lax : Lax) where
  unfoldable pub read_int : Option Json → Option ℤ
  read_int none = none
  read_int (some (num n)) = some (pos n)
  read_int (some j) = lax.as_int j

  -- A field of type `bool` with the default `False`.
  unfoldable pub read_bool_or_false : Option Json → Option Bool
  read_bool_or_false none = some false
  read_bool_or_false (some (bool b)) = some b
  read_bool_or_false (some j) = lax.as_bool j

abbrev role_or_none : String → Option MessageRole
role_or_none value = elim (role_of value) [ ok role ↦ some role | err e ↦ none ]

-- A field of type `MessageRole`.
unfoldable pub read_role : Option Json → Option MessageRole
read_role (some (text value)) = role_or_none value
read_role _ = none

-- `ToolCall`
unfoldable pub read_tool_call : Json → Option ToolCall
read_tool_call (obj fs) = do
  id ← read_text (get_field "id" fs)
  name ← read_text (get_field "name" fs)
  arguments ← read_text (get_field "arguments" fs)
  some (record { id = id; name = name; arguments = arguments })
read_tool_call _ = none

unfoldable pub read_tool_calls : Items → Option (List ToolCall)
read_tool_calls nil = some []
read_tool_calls (cons j js) = do c ← read_tool_call j; cs ← read_tool_calls js; some (c ∷ cs)

-- A field of type `list[ToolCall]` with the default `[]`.
unfoldable pub read_tool_call_list : Option Json → Option (List ToolCall)
read_tool_call_list none = some []
read_tool_call_list (some (arr items)) = read_tool_calls items
read_tool_call_list _ = none

-- `Message`
unfoldable pub read_message : Option Json → Option Message
read_message (some (obj fs)) = do
  role ← read_role (get_field "role" fs)
  content ← read_text_or_empty (get_field "content" fs)
  tool_call_id ← read_optional_text (get_field "tool_call_id" fs)
  name ← read_optional_text (get_field "name" fs)
  tool_calls ← read_tool_call_list (get_field "tool_calls" fs)
  some (record {
    role = role;
    content = content;
    tool_call_id = tool_call_id;
    name = name;
    tool_calls = tool_calls;
  })
read_message _ = none

module _ (lax : Lax) where
  -- A field of type `TokenUsage | None` with the default `None`.
  unfoldable pub read_usage : Option Json → Option (Option TokenUsage)
  read_usage none = some none
  read_usage (some null) = some none
  read_usage (some (obj fs)) = do
    input ← read_int lax (get_field "input_tokens" fs)
    output ← read_int lax (get_field "output_tokens" fs)
    total ← read_int lax (get_field "total_tokens" fs)
    some (some (record { input_tokens = input; output_tokens = output; total_tokens = total }))
  read_usage (some _) = none

  -- `Response.model_validate(payload)`
  unfoldable pub read_response : Fields → Option Response
  read_response fs = do
    id ← read_text (get_field "id" fs)
    model ← read_text (get_field "model" fs)
    output ← read_message (get_field "output" fs)
    usage ← read_usage (get_field "usage" fs)
    cached ← read_bool_or_false lax (get_field "cached" fs)
    request_id ← read_optional_text (get_field "request_id" fs)
    some (record {
      id = id;
      model = model;
      output = output;
      usage = usage;
      cached = cached;
      request_id = request_id;
    })

-- The "delta" of a `_DeltaFrame`.
unfoldable pub read_delta_body : Option Json → Option String
read_delta_body (some (obj fs)) = read_text (get_field "content" fs)
read_delta_body _ = none

-- `_DeltaFrame.model_validate(payload)`, and the `ResponseDelta` made of it.
unfoldable pub read_delta : Fields → Option ResponseDelta
read_delta fs = do
  id ← read_text (get_field "id" fs)
  model ← read_text (get_field "model" fs)
  content ← read_delta_body (get_field "delta" fs)
  some (record { id = id; model = model; content = content; request_id = none })
