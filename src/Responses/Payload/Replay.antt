-- ===== src/Responses/Payload/Replay.antt =====
-- A stored response comes back as it was sent.
use ai_runtime.Prelude.{◌≡◌, refl, true, false, Option, none, some, List, [], ◌∷◌, arith, All}
use ai_runtime.Errors.{ok}
use ai_runtime.Json.{map_items, get_field}
use ai_runtime.Generation.{
  MessageRole, system, user, assistant, tool, ToolCall, post_init_tool_call, Message, same_role,
  post_init_message, TokenUsage, GenerationResponse, post_init_response,
}
use ai_runtime.Responses.Payload.{
  role_value, role_of, tool_call_json, usage_json, message_fields_of, response_json, read_items,
  read_usage, read_message, read_response,
}

read_items-map :
    (calls : List ToolCall)
    → All (λ c. post_init_tool_call c ≡ ok tt) calls
    → read_items (map_items tool_call_json calls) ≡ ok calls
unfolding read_items map_items tool_call_json get_field
read_items-map [] h = refl
read_items-map (c ∷ cs) (p, h) = rw (p, read_items-map cs h) refl

-- The response as a replay gives it: without the mark of a cache hit and the author's name.
abbrev pub replayed : GenerationResponse → GenerationResponse
replayed r = record r {
  output = record r.output { tool_call_id = none; name = none };
  cached = false;
}

-- A response that can be built.
pub record IsValidResponse (r : GenerationResponse) : Type 0 where
  pub response : post_init_response r ≡ ok tt
  pub output : post_init_message r.output ≡ ok tt
  pub calls : All (λ c. post_init_tool_call c ≡ ok tt) r.output.tool_calls

read_usage-json : (u : Option TokenUsage) → read_usage (some (usage_json u)) ≡ ok u
unfolding read_usage usage_json get_field
read_usage-json none = refl
read_usage-json (some u) = refl

pub role_of-value : (role : MessageRole) → role_of (role_value role) ≡ ok role
unfolding role_of
role_of-value system = refl
role_of-value user = refl
role_of-value assistant = refl
role_of-value tool = refl

role-same : (role : MessageRole) → same_role role assistant ≡ true → role ≡ assistant
role-same system h = cc
role-same assistant h = refl
role-same _ h = cc

role-response : (r : GenerationResponse) → post_init_response r ≡ ok tt → r.output.role ≡ assistant
unfolding post_init_response
role-response r h = ground (arith, role-same r.output.role)

-- The output's message without what the payload leaves out.
abbrev stripped : Message → Message
stripped m = record m { tool_call_id = none; name = none }

post_init-stripped :
    (m : Message)
    → m.role ≡ assistant
    → post_init_message m ≡ ok tt
    → post_init_message (stripped m) ≡ ok tt
unfolding post_init_message
post_init-stripped m a h = ground arith

read_message-json :
    (m : Message)
    → m.role ≡ assistant
    → post_init_message m ≡ ok tt
    → All (λ c. post_init_tool_call c ≡ ok tt) m.tool_calls
    → read_message (message_fields_of m) ≡ ok (stripped m)
unfolding read_message get_field
read_message-json m a h calls =
    simp (role_of-value, read_items-map m.tool_calls calls, post_init-stripped m a h)

post_init-replayed :
    (r : GenerationResponse)
    → post_init_response r ≡ ok tt
    → post_init_response (replayed r) ≡ ok tt
unfolding post_init_response
post_init-replayed r h = h

-- Reading the payload of a response gives the same response, its mark of a cache hit and its
-- output's `name` aside. The response can be built.
pub read_response-json :
    (r : GenerationResponse) → IsValidResponse r → read_response (response_json r) ≡ ok (replayed r)
unfolding read_response response_json get_field
read_response-json r v =
    let a = role-response r v.response in
    simp (
      read_usage-json,
      read_message-json r.output a v.output v.calls,
      post_init-replayed r v.response,
    )
