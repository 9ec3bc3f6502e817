-- ===== src/Providers.antt =====
-- src/ai_runtime/providers/: the adapters to the vendors' HTTP protocols, in the order of their
-- steps. httpx is the interface `HttpClient`: a request gives a status and a body, or an `HTTPError`;
-- a streamed one gives the lines of its body, which an `HTTPError` may cut off.
pub mod Sse
pub mod Exchange
pub mod OpenAi
pub mod Anthropic
pub mod Gemini
pub mod Sound
pub mod Streams
pub mod Vendors
use Prim.Native.Char.{code}
use ai_runtime.Prelude.{
  ℕ, zero, suc, ◌+◌, ◌-◌, ◌*◌, ◌&&◌, strip_prefix?, String, Bool, true, false, Option, none, some,
  List, [], ◌∷◌, ◌++◌, ◌+++◌, leb, is_empty_text, if◌then◌else◌,
}
use ai_runtime.Errors.{
  Error, ProviderError, provider_error, provider_error_of, transient, from_http_status, Result, ok,
  err, ◌>>=◌, ◌>>◌,
}
use ai_runtime.Exec.{Exec}
use ai_runtime.Json.{
  Json, JsonCodec, num, other_num, bool, text, arr, obj, Items, nil, cons, Fields, end, field,
  get_field,
}
use ai_runtime.Generation.{
  assistant, system, same_role, is_blank, ToolCall, post_init_tool_call, Message, post_init_message,
  TokenUsage, GenerationRequest, GenerationResponse, post_init_response, GenerationDelta,
  post_init_delta, GenerationStreamEvent, delta, completed, ℤ, pos, negsuc, token_usage,
}
use ai_runtime.Executor.{Stream, done, fail, emit}
use ai_runtime.Api.Http.{decimal}
use ai_runtime.Providers.Sse.{iter_sse_events}

pub data HttpReply : Type 0 where
  http_error : HttpReply
  reply : ℕ → String → HttpReply

pub data StreamReply : Type 0 where
  no_reply : StreamReply
  -- The status, the lines of the body, and whether an `HTTPError` ended them.
  lines_reply : ℕ → List String → Bool → StreamReply

pub record HttpClient (S : Type 0) : Type 0 where
  pub post : String → List (String × String) → Json → S → HttpReply × S
  pub stream : String → List (String × String) → Json → S → StreamReply × S

-- `OpenAIProviderError(message)` and the same of the other vendors.
abbrev pub adapter_error : String → Error
adapter_error message =
    provider_error (record { message = message; retryable = false; status_code = none })

-- A JSON object, written as a `dict`.
abbrev pub fields_of : List (String × Json) → Fields
fields_of [] = end
fields_of ((key, value) ∷ more) = field key value (fields_of more)

-- `isinstance(x, str)`
abbrev pub as_text : Option Json → Option String
as_text (some (text s)) = some s
as_text _ = none

-- `isinstance(x, dict)`
abbrev pub as_object : Option Json → Option Fields
as_object (some (obj fs)) = some fs
as_object _ = none

-- `x[0]`, if `isinstance(x, list) and x`
abbrev pub first_item : Option Json → Option Json
first_item (some (arr (cons j js))) = some j
first_item _ = none

-- `x if isinstance(x, str) and x.strip() else other`
unfoldable pub text_or_other : String → Option Json → String
text_or_other other (some (text s)) = if is_blank s then other else s
text_or_other other _ = other

-- The id of a response: a text that is not blank.
unfoldable pub require_id : String → Option Json → Result String
require_id message (some (text s)) = if is_blank s then err (adapter_error message) else ok s
require_id message _ = err (adapter_error message)

-- The number that decimal digits write, behind the digits that make up `n`.
unfoldable pub digits_value : ℕ → String → Option ℕ
digits_value n String.[] = some n
digits_value n (String.◌∷◌ c s) =
    let more = digits_value (n * 10 + (code c - 48)) s in
    if leb 48 (code c) && leb (code c) 57 then more else none

abbrev negated : Option ℕ → Option ℤ
negated none = none
negated (some zero) = some (pos 0)
negated (some (suc n)) = some (negsuc n)

-- A number that is not natural is an `int` if it is written as a minus sign and digits.
abbrev negative_int : Option String → Option ℤ
negative_int none = none
negative_int (some String.[]) = none
negative_int (some (String.◌∷◌ c s)) = negated (digits_value 0 (String.◌∷◌ c s))

-- `isinstance(x, int)`; a Boolean is an `int` in Python.
unfoldable pub int_of : Option Json → Option ℤ
int_of (some (num n)) = some (pos n)
int_of (some (other_num written)) = negative_int (strip_prefix? "-" written)
int_of (some (bool true)) = some (pos 1)
int_of (some (bool false)) = some (pos 0)
int_of _ = none

abbrev pub some_usage : Result TokenUsage → Result (Option TokenUsage)
some_usage (ok u) = ok (some u)
some_usage (err e) = err e

-- `TokenUsage(…)` of both counts, or none of them.
abbrev pub both_counts : Option ℤ → Option ℤ → Result (Option TokenUsage)
both_counts (some i) (some o) = some_usage (token_usage i o)
both_counts _ _ = ok none

abbrev pub require_usage : String → Result (Option TokenUsage) → Result (Option TokenUsage)
require_usage message (ok none) = err (adapter_error message)
require_usage message (ok (some u)) = ok (some u)
require_usage message (err e) = err e

-- `Message(role=MessageRole.ASSISTANT, content=…, tool_calls=…)`
abbrev pub assistant_message : String → List ToolCall → Message
assistant_message content calls = record {
  role = assistant;
  content = content;
  tool_call_id = none;
  name = none;
  tool_calls = calls;
}

-- `GenerationResponse(…)` of such a message
unfoldable pub build_response :
    String → String → String → List ToolCall → Option TokenUsage → Result GenerationResponse
build_response id model content calls usage = do
  post_init_message (assistant_message content calls)
  let response : GenerationResponse = record {
    id = id;
    model = model;
    output = assistant_message content calls;
    usage = usage;
    cached = false;
  }
  post_init_response response
  ok response

-- `except (KeyError, TypeError, ValueError)` behind `except …ProviderError: raise`
abbrev pub malformed_unless : String → Option ProviderError → Error
malformed_unless message none = adapter_error message
malformed_unless message (some e) = provider_error e

abbrev pub as_malformed : {A : Type 0} → String → Result A → Result A
as_malformed message (ok a) = ok a
as_malformed message (err e) = err (malformed_unless message (provider_error_of e))

-- `_split_system_messages`, the system part: their contents joined with "\n\n"
abbrev join_system : String → Option String → Option String
join_system content none = some content
join_system content (some rest) = some (content +++ "\n\n" +++ rest)

unfoldable pub system_text : List Message → Option String
system_text [] = none
system_text (m ∷ ms) =
    let rest = system_text ms in
    if same_role m.role system then join_system m.content rest else rest

-- The conversation of `_split_system_messages`.
unfoldable pub conversation : List Message → List Message
conversation [] = []
conversation (m ∷ ms) =
    let rest = conversation ms in if same_role m.role system then rest else m ∷ rest

-- `text` as a field of a `dict`, if it is not `None`.
abbrev pub when_some : {A : Type 0} → String → (A → Json) → Option A → List (String × Json)
when_some key write none = []
when_some key write (some a) = (key, write a) ∷ []
