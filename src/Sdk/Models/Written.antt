-- ===== src/Sdk/Models/Written.antt =====
-- A response that the server's schemas write is read back by the client's models.
use ai_runtime.Prelude.{
  String, ◌≡◌, refl, Bool, true, false, Option, none, some, List, [], ◌∷◌, arith, All,
  is_empty_text, strip,
}
use ai_runtime.Errors.{ok}
use ai_runtime.Json.{map_items, get_field, Fields, obj, text}
use ai_runtime.Generation.{
  Message, ToolCall, GenerationResponse, TokenUsage as DomainUsage, total_tokens, pos, MessageRole,
  system, user, assistant, tool, post_init_tool_call, post_init_message, require_non_blank,
  is_blank,
}
use ai_runtime.Responses.Payload.{role_value, role_of, tool_call_json}
use ai_runtime.Responses.Payload.Replay.{IsValidResponse}
use ai_runtime.Api.Schemas.{
  message_dump, usage_dump, response_dump, tool_call_schema, tool_call_schemas, check_tool_calls,
  validate_role_fields, message_schema, response_schema,
}
use ai_runtime.Sdk.Models.{
  Lax, TokenUsage, Response, read_text, read_text_or_empty, read_optional_text, read_int,
  read_bool_or_false, read_role, read_tool_call, read_tool_calls, read_tool_call_list, read_message,
  read_usage, read_response,
}

read_tool_calls-map :
    (calls : List ToolCall) → read_tool_calls (map_items tool_call_json calls) ≡ some calls
unfolding read_tool_calls map_items tool_call_json read_tool_call read_text get_field
read_tool_calls-map [] = refl
read_tool_calls-map (c ∷ cs) = rw (read_tool_calls-map cs) refl

read_role-value : (role : MessageRole) → read_role (some (text (role_value role))) ≡ some role
unfolding read_role role_of
read_role-value system = refl
read_role-value user = refl
read_role-value assistant = refl
read_role-value tool = refl

read_message-dump : (m : Message) → read_message (some (message_dump m)) ≡ some m
unfolding read_message message_dump read_text read_text_or_empty read_optional_text
    read_tool_call_list get_field
read_message-dump m = go m.tool_call_id m.name m.tool_calls
  where
    go :
        (id name : Option String) (calls : List ToolCall)
        → read_message
            (some (message_dump (record m { tool_call_id = id; name = name; tool_calls = calls })))
          ≡ some (record m { tool_call_id = id; name = name; tool_calls = calls })
    go none none [] = rw (read_role-value m.role) refl
    go none (some n) [] = rw (read_role-value m.role) refl
    go (some i) none [] = rw (read_role-value m.role) refl
    go (some i) (some n) [] = rw (read_role-value m.role) refl
    go none none (c ∷ cs) = rw (read_role-value m.role, read_tool_calls-map (c ∷ cs)) refl
    go none (some n) (c ∷ cs) = rw (read_role-value m.role, read_tool_calls-map (c ∷ cs)) refl
    go (some i) none (c ∷ cs) = rw (read_role-value m.role, read_tool_calls-map (c ∷ cs)) refl
    go (some i) (some n) (c ∷ cs) = rw (read_role-value m.role, read_tool_calls-map (c ∷ cs)) refl

abbrev usage_of : Option DomainUsage → Option TokenUsage
usage_of none = none
usage_of (some u) = some (record {
  input_tokens = pos u.input_tokens;
  output_tokens = pos u.output_tokens;
  total_tokens = pos (total_tokens u);
})

read_usage-dump :
    (lax : Lax) (u : Option DomainUsage) → read_usage lax (some (usage_dump u)) ≡ some (usage_of u)
unfolding read_usage usage_dump read_int get_field
read_usage-dump lax none = refl
read_usage-dump lax (some u) = refl

-- The client's response for the server's.
abbrev pub as_response : GenerationResponse → Response
as_response r = record {
  id = r.id;
  model = r.model;
  output = r.output;
  usage = usage_of r.usage;
  cached = r.cached;
  request_id = none;
}

-- The fields of the object that a response is written as.
abbrev pub fields_of_response : (r : GenerationResponse) → Fields
unfolding response_dump
fields_of_response r = elim (response_dump r) [ obj fs ↦ fs | _ ↦ Fields.end ]

pub response_dump-fields : (r : GenerationResponse) → response_dump r ≡ obj (fields_of_response r)
unfolding response_dump
response_dump-fields r = refl

pub read_response-dump :
    (lax : Lax) (r : GenerationResponse)
    → read_response lax (fields_of_response r) ≡ some (as_response r)
unfolding read_response response_dump read_text read_bool_or_false read_optional_text get_field
read_response-dump lax r = go r.cached
  where
    go :
        (cached : Bool)
        → read_response lax (fields_of_response (record r { cached = cached }))
          ≡ some (as_response (record r { cached = cached }))
    go true = rw (read_message-dump r.output, read_usage-dump lax r.usage) refl
    go false = rw (read_message-dump r.output, read_usage-dump lax r.usage) refl

HasText-not_blank : (t : String) → is_blank t ≡ false → is_empty_text t ≡ false
unfolding is_blank strip
HasText-not_blank String.[] h = absurd (true-ne-false h)
  where
    true-ne-false : true ≡ false → ⊥
    true-ne-false e = cc
HasText-not_blank (String.◌∷◌ c t) h = refl

tool_call_schema-valid : (c : ToolCall) → post_init_tool_call c ≡ ok tt → tool_call_schema c ≡ ok c
unfolding tool_call_schema post_init_tool_call require_non_blank
tool_call_schema-valid c h =
    let i : is_blank c.id ≡ false = ground (arith, h) in
    let n : is_blank c.name ≡ false = ground (arith, h, i) in
    let a : is_blank c.arguments ≡ false = ground (arith, h, i, n) in
    simp (HasText-not_blank c.id i, HasText-not_blank c.name n, HasText-not_blank c.arguments a)

tool_call_schemas-valid :
    (calls : List ToolCall)
    → All (λ c. post_init_tool_call c ≡ ok tt) calls
    → (tool_call_schemas calls ≡ ok calls) × (check_tool_calls calls ≡ ok tt)
unfolding tool_call_schemas check_tool_calls
tool_call_schemas-valid [] h = (refl, refl)
tool_call_schemas-valid (c ∷ cs) (v, h) =
    let (schemas, checks) = tool_call_schemas-valid cs h in
    (rw (tool_call_schema-valid c v, schemas) refl, rw (v, checks) refl)

-- A response that the domain accepts passes the schema's checks.
pub response_schema-valid : (r : GenerationResponse) → IsValidResponse r → response_schema r ≡ ok r
unfolding response_schema message_schema validate_role_fields post_init_message
response_schema-valid r v =
    let (schemas, checks) = tool_call_schemas-valid r.output.tool_calls v.calls in
    simp (schemas, checks, v.output)
