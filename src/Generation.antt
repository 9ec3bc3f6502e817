-- ===== src/Generation.antt =====
-- src/ai_runtime/domain/generation.py: messages, requests and responses, and the checks that their
-- constructors make (`__post_init__`). A `TokenUsage` that was built has natural
-- numbers for its counts.
pub mod Validity
use Prim.Native.Nat.{◌^◌}
use Prim.Native.String.{◌++◌}
use ai_runtime.Prelude.{
  ℕ, ◌+◌, ◌*◌, String, Bool, true, false, not, ◌&&◌, ◌||◌, Option, none, some, List, leb, ltb, ◌==◌,
  is_empty, any, is_empty_text, strip, is_space, if◌then◌else◌,
}
use ai_runtime.Errors.{Error, domain_validation, Result, ok, err, ◌>>=◌, ◌>>◌, raise_if}
use ai_runtime.Json.{Json, obj}

-- Signed numbers; `negsuc n` is -(n + 1).
pub data ℤ : Type 0 where
  pos : ℕ → ℤ
  negsuc : ℕ → ℤ

-- Python's floats: a finite one is `ratio m k`, that is m / 2 ^ k.
pub data Float : Type 0 where
  nan : Float
  infinity : Float
  minus_infinity : Float
  ratio : ℤ → ℕ → Float

pub data MessageRole : Type 0 where
  system user assistant tool : MessageRole

abbrev pub same_role : MessageRole → MessageRole → Bool
same_role system system = true
same_role user user = true
same_role assistant assistant = true
same_role tool tool = true
same_role _ _ = false

-- `not value.strip()`
unfoldable pub is_blank : String → Bool
unfolding strip
is_blank value = is_empty_text (strip value)

unfoldable pub require_non_blank : String → String → Result (Unit {0})
require_non_blank value field_name =
    raise_if (is_blank value) (domain_validation (field_name ++ " must not be empty or blank"))

pub record ToolDefinition : Type 0 where
  pub name : String
  pub description : String
  pub parameters : Json

abbrev is_object : Json → Bool
is_object (obj fs) = true
is_object _ = false

unfoldable pub post_init_tool_definition : ToolDefinition → Result (Unit {0})
unfolding require_non_blank
post_init_tool_definition t = do
  require_non_blank t.name "name"
  raise_if (not (is_object t.parameters)) (domain_validation "parameters must be a JSON object")

pub record ToolCall : Type 0 where
  pub id : String
  pub name : String
  pub arguments : String

unfoldable pub post_init_tool_call : ToolCall → Result (Unit {0})
unfolding require_non_blank
post_init_tool_call c = do
  require_non_blank c.id "id"
  require_non_blank c.name "name"
  raise_if (is_blank c.arguments) (domain_validation "arguments must not be empty or blank")

pub record Message : Type 0 where
  pub role : MessageRole
  pub content : String
  pub tool_call_id : Option String
  pub name : Option String
  pub tool_calls : List ToolCall

-- `value is None or not value.strip()`
abbrev pub is_missing : Option String → Bool
is_missing none = true
is_missing (some value) = is_blank value

abbrev pub is_some {ℓ} : {A : Type ℓ} → Option A → Bool
is_some none = false
is_some (some a) = true

-- The tail of `Message.__post_init__`, for the roles other than `TOOL`.
check_not_tool : Message → Result (Unit {0})
unfolding require_non_blank
check_not_tool m = do
  raise_if (is_some m.tool_call_id)
      (domain_validation "tool_call_id is only valid for tool messages")
  if not (is_empty m.tool_calls)
      then raise_if (not (same_role m.role assistant))
          (domain_validation "tool_calls are only valid on assistant messages")
      else require_non_blank m.content "content"

unfoldable pub post_init_message : Message → Result (Unit {0})
unfolding require_non_blank check_not_tool
post_init_message m =
    if same_role m.role tool
    then (do
      raise_if (is_missing m.tool_call_id)
          (domain_validation "tool_call_id is required for tool messages")
      require_non_blank m.content "content"
      raise_if (not (is_empty m.tool_calls))
          (domain_validation "tool messages cannot include tool_calls"))
    else check_not_tool m

pub record GenerationRequest : Type 0 where
  pub model : String
  pub messages : List Message
  pub temperature : Option Float
  pub max_output_tokens : Option ℤ
  pub stream : Bool
  pub tools : List ToolDefinition
  pub cache : Bool

-- `GenerationRequest.uses_tools`
unfoldable pub uses_tools : GenerationRequest → Bool
uses_tools r =
    if not (is_empty r.tools)
    then true
    else any (λ m. same_role m.role tool || not (is_empty m.tool_calls)) r.messages

-- `temperature is not None and not (0.0 <= temperature <= 2.0)`
abbrev in_range : Float → Bool
in_range nan = false
in_range infinity = false
in_range minus_infinity = false
in_range (ratio (pos m) k) = leb m (2 * 2 ^ k)
in_range (ratio (negsuc m) k) = false

abbrev is_out_of_range : Option Float → Bool
is_out_of_range none = false
is_out_of_range (some t) = not (in_range t)

-- `max_output_tokens is not None and max_output_tokens <= 0`
abbrev is_not_positive : Option ℤ → Bool
is_not_positive none = false
is_not_positive (some (pos n)) = n == 0
is_not_positive (some (negsuc n)) = true

-- The test of a limit that is a natural number.
abbrev pub is_zero : Option ℕ → Bool
is_zero none = false
is_zero (some n) = n == 0

unfoldable pub post_init_request : GenerationRequest → Result (Unit {0})
unfolding require_non_blank
post_init_request r = do
  require_non_blank r.model "model"
  raise_if (is_empty r.messages) (domain_validation "messages must contain at least one message")
  raise_if (is_out_of_range r.temperature)
      (domain_validation "temperature must be between 0 and 2 inclusive")
  raise_if (is_not_positive r.max_output_tokens)
      (domain_validation "max_output_tokens must be greater than zero")
  raise_if (r.stream && uses_tools r)
      (domain_validation "tools are not supported for streaming requests.")
  raise_if (r.stream && r.cache)
      (domain_validation "cache is not supported for streaming requests.")

-- A `TokenUsage` that was built: its counts are not negative.
pub record TokenUsage : Type 0 where
  pub input_tokens : ℕ
  pub output_tokens : ℕ

-- `TokenUsage(…)`, with its `__post_init__`
abbrev check_output : ℕ → ℤ → Result TokenUsage
check_output i (pos o) = ok (record { input_tokens = i; output_tokens = o })
check_output i (negsuc o) = err (domain_validation "output_tokens must not be negative")

unfoldable pub token_usage : ℤ → ℤ → Result TokenUsage
token_usage (pos i) o = check_output i o
token_usage (negsuc i) o = err (domain_validation "input_tokens must not be negative")

-- `TokenUsage.total_tokens`
unfoldable pub total_tokens : TokenUsage → ℕ
total_tokens u = u.input_tokens + u.output_tokens

pub record GenerationResponse : Type 0 where
  pub id : String
  pub model : String
  pub output : Message
  pub usage : Option TokenUsage
  pub cached : Bool

unfoldable pub post_init_response : GenerationResponse → Result (Unit {0})
unfolding require_non_blank
post_init_response r = do
  require_non_blank r.id "id"
  require_non_blank r.model "model"
  raise_if (not (same_role r.output.role assistant))
      (domain_validation "output message role must be assistant")

pub record GenerationDelta : Type 0 where
  pub id : String
  pub model : String
  pub content : String

unfoldable pub post_init_delta : GenerationDelta → Result (Unit {0})
unfolding require_non_blank
post_init_delta d = do
  require_non_blank d.id "id"
  require_non_blank d.model "model"
  raise_if (is_empty_text d.content) (domain_validation "content must not be empty")

-- `GenerationStreamEvent`
pub data GenerationStreamEvent : Type 0 where
  delta : GenerationDelta → GenerationStreamEvent
  completed : GenerationResponse → GenerationStreamEvent
