-- ===== src/Providers/OpenAi/Replies.antt =====
-- The replies of OpenAI: what `generate` makes of one can be built, or is a provider's error.
use ai_runtime.Prelude.{
  String, refl, false, ◌&&◌, Option, none, some, ◌∷◌, All, Bool-cases, inl, inr, is_empty,
}
use ai_runtime.Errors.{ok, raise_if}
use ai_runtime.Json.{
  Json, JsonCodec, null, bool, num, other_num, text, arr, obj, Items, nil, cons, Fields, get_field,
}
use ai_runtime.Generation.{ToolCall, is_blank, post_init_tool_call, GenerationRequest, Float}
use ai_runtime.Responses.Payload.Replay.{IsValidResponse}
use ai_runtime.Providers.{HttpClient, as_object, as_text, adapter_error, require_id, text_or_other}
use ai_runtime.Providers.Sound.{
  Gives, Checked, bind-Gives, Gives-ok, as_malformed-Checked, IsValidCall, build_response-Gives,
  exchange-Checked,
}
use ai_runtime.Providers.OpenAi.{
  call_of, call_with_function, call_of_item, calls_of_items, tool_calls_from_openai,
  read_openai_payload, from_openai_payload, openai_generate, OpenAiModelProvider, has_id,
  usage_from_openai_payload, content_of, message_of, first_choice, openai_headers, invalid_calls,
}
use ai_runtime.Providers.OpenAi.Body.{to_openai_body}

call_of-Gives : (id name arguments : Option String) → Gives IsValidCall (call_of id name arguments)
call_of-Gives (some id) (some name) (some arguments) =
    bind-Gives IsValidCall (raise_if (is_blank id) invalid_calls) _ (λ u e.
      let c : ToolCall = record { id = id; name = name; arguments = arguments } in
      bind-Gives IsValidCall (post_init_tool_call c) (λ _. ok c) (λ v valid. valid))
call_of-Gives none _ _ = tt
call_of-Gives (some id) none _ = tt
call_of-Gives (some id) (some name) none = tt

call_of_item-Gives : (item : Option Fields) → Gives IsValidCall (call_of_item item)
call_of_item-Gives none = tt
call_of_item-Gives (some item) =
    go (as_text (get_field "id" item)) (as_object (get_field "function" item))
  where
    go :
        (id : Option String) (function : Option Fields)
        → Gives IsValidCall (call_with_function id function)
    go id none = tt
    go id (some function) =
        call_of-Gives id (as_text (get_field "name" function))
          (as_text (get_field "arguments" function))

calls_of_items-Gives : (items : Items) → Gives (All IsValidCall) (calls_of_items items)
unfolding calls_of_items
calls_of_items-Gives nil = tt
calls_of_items-Gives (cons j js) =
    bind-Gives (All IsValidCall) (call_of_item (as_object (some j))) _ (λ c e.
      bind-Gives (All IsValidCall) (calls_of_items js) (λ cs. ok (c ∷ cs))
        (λ cs es. (
          Gives-ok IsValidCall (call_of_item (as_object (some j)))
              (call_of_item-Gives (as_object (some j))) e,
          Gives-ok (All IsValidCall) (calls_of_items js) (calls_of_items-Gives js) es,
        )))

tool_calls_from_openai-Gives :
    (calls : Option Json) → Gives (All IsValidCall) (tool_calls_from_openai calls)
unfolding tool_calls_from_openai
tool_calls_from_openai-Gives none = tt
tool_calls_from_openai-Gives (some null) = tt
tool_calls_from_openai-Gives (some (arr items)) = calls_of_items-Gives items
tool_calls_from_openai-Gives (some (bool b)) = tt
tool_calls_from_openai-Gives (some (num n)) = tt
tool_calls_from_openai-Gives (some (other_num n)) = tt
tool_calls_from_openai-Gives (some (text s)) = tt
tool_calls_from_openai-Gives (some (obj fs)) = tt

read_openai_payload-Gives :
    (payload : Fields) (r : GenerationRequest)
    → Gives IsValidResponse (read_openai_payload payload r)
unfolding read_openai_payload
read_openai_payload-Gives payload r =
    bind-Gives IsValidResponse
      (require_id "OpenAI response is missing a valid id" (get_field "id" payload)) _
      (λ id e1.
        bind-Gives IsValidResponse (first_choice (get_field "choices" payload)) _ (λ choice e2.
          bind-Gives IsValidResponse (message_of (get_field "message" choice)) _ (λ message e3.
            bind-Gives IsValidResponse (content_of (get_field "content" message)) _ (λ content e4.
              bind-Gives IsValidResponse (tool_calls_from_openai (get_field "tool_calls" message)) _
                (λ calls e5.
                  bind-Gives IsValidResponse
                    (raise_if (is_blank content && is_empty calls)
                      (adapter_error "OpenAI response message is missing content"))
                    _
                    (λ u e6.
                      bind-Gives IsValidResponse
                        (usage_from_openai_payload (get_field "usage" payload)) _
                        (λ usage e7.
                          build_response-Gives id
                            (text_or_other r.model (get_field "model" payload)) content calls usage
                            (Gives-ok (All IsValidCall)
                              (tool_calls_from_openai (get_field "tool_calls" message))
                              (tool_calls_from_openai-Gives (get_field "tool_calls" message))
                              e5))))))))

from_openai_payload-Checked :
    (r : GenerationRequest) (payload : Fields)
    → Checked IsValidResponse (from_openai_payload r payload)
unfolding from_openai_payload
from_openai_payload-Checked r payload = elim (Bool-cases (has_id (get_field "id" payload))) [
  | inl e ↦ rw e (
      as_malformed-Checked IsValidResponse "OpenAI response payload is malformed"
        (read_openai_payload payload r) (read_openai_payload-Gives payload r))
  | inr e ↦ rw e (_, refl)
]

pub openai_generate-Checked :
    {S : Type 0} (json : JsonCodec) (write : Float → Json) (http : HttpClient S)
    (p : OpenAiModelProvider) (r : GenerationRequest) (s : S)
    → Checked IsValidResponse (openai_generate json write http p r s).0
unfolding openai_generate
openai_generate-Checked json write http p r s =
    exchange-Checked json "OpenAI" (from_openai_payload r) http _ (openai_headers p)
      (ok (to_openai_body write r false)) s (from_openai_payload-Checked r) tt
