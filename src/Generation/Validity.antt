-- ===== src/Generation/Validity.antt =====
-- What the constructors of domain/generation.py let through.
use Prim.Native.Nat.{◌^◌}
use ai_runtime.Prelude.{
  ◌*◌, ◌≤◌, ◌<◌, String, ◌≡◌, ◌≢◌, ◌↔◌, ◌⊎◌, false, Option, none, some, List, [], arith,
}
use ai_runtime.Errors.{ok}
use ai_runtime.Generation.{
  ℤ, pos, negsuc, Float, nan, infinity, minus_infinity, ratio, MessageRole, system, user, assistant,
  tool, ToolCall, Message, is_blank, post_init_message, GenerationRequest, uses_tools,
  post_init_request,
}

-- A text with something in it.
abbrev pub HasContent : String → Type 0
HasContent s = is_blank s ≡ false

-- What a message may be, role by role.
abbrev pub IsValidMessage : MessageRole → String → Option String → List ToolCall → Type 0
IsValidMessage tool content (some id) calls = HasContent id × HasContent content × (calls ≡ [])
IsValidMessage assistant content none calls = (calls ≢ []) ⊎ HasContent content
IsValidMessage system content none calls = HasContent content × (calls ≡ [])
IsValidMessage user content none calls = HasContent content × (calls ≡ [])
IsValidMessage _ _ _ _ = ⊥

module _ (content : String) (name : Option String) (calls : List ToolCall) where
  abbrev built : MessageRole → Option String → Message
  built role id = record {
    role = role;
    content = content;
    tool_call_id = id;
    name = name;
    tool_calls = calls;
  }

  post_init_message_cases :
      (role : MessageRole) (id : Option String)
      → (post_init_message (built role id) ≡ ok tt) ↔ IsValidMessage role content id calls
  unfolding post_init_message
  post_init_message_cases tool none = ground arith
  post_init_message_cases tool (some id) = ground arith
  post_init_message_cases assistant none = ground arith
  post_init_message_cases _ _ = ground arith

-- A message can be built exactly when it is of one of four forms: a tool result with the id of its
-- call and a text, and no calls; an assistant message with a text or with calls; a system or a user
-- message with a text and no calls. A call id stands on tool results only.
pub post_init_message_iff :
    (m : Message)
    → (post_init_message m ≡ ok tt) ↔ IsValidMessage m.role m.content m.tool_call_id m.tool_calls
post_init_message_iff m =
    post_init_message_cases m.content m.name m.tool_calls m.role m.tool_call_id

-- A number that lies between 0 and 2: m / 2 ^ k with 0 ≤ m ≤ 2 * 2 ^ k.
abbrev pub IsTemperature : Option Float → Type 0
IsTemperature none = Unit
IsTemperature (some (ratio (pos m) k)) = m ≤ 2 * 2 ^ k
IsTemperature (some (ratio (negsuc m) k)) = ⊥
IsTemperature (some nan) = ⊥
IsTemperature (some infinity) = ⊥
IsTemperature (some minus_infinity) = ⊥

abbrev pub IsPositive : Option ℤ → Type 0
IsPositive none = Unit
IsPositive (some (pos n)) = 0 < n
IsPositive (some (negsuc n)) = ⊥

-- What a request may be.
pub record IsValidRequest (r : GenerationRequest) : Type 0 where
  pub named : HasContent r.model
  pub nonempty : r.messages ≢ []
  pub temperature : IsTemperature r.temperature
  pub budget : IsPositive r.max_output_tokens
  pub streaming : (r.stream ≡ false) ⊎ ((uses_tools r ≡ false) × (r.cache ≡ false))

-- A request can be built exactly when its model has a name, it has a message, its temperature lies
-- between 0 and 2, its token budget is positive, and a stream has neither tools nor a cache.
pub post_init_request_iff :
    (r : GenerationRequest) → (post_init_request r ≡ ok tt) ↔ IsValidRequest r
unfolding post_init_request
post_init_request_iff r = (λ h. ground arith, λ v. ground arith)
