-- ===== src/Providers/Anthropic/Replies.antt =====
-- The replies of Anthropic: what `generate` makes of one can be built, or is a provider's error.
use ai_runtime.Prelude.{
  String, refl, Bool, false, not, ◌&&◌, Option, none, some, List, [], ◌∷◌, ◌++◌, All, All-append,
  Bool-cases, inl, inr, is_empty,
}
use ai_runtime.Errors.{ok, raise_if}
use ai_runtime.Json.{
  Json, JsonCodec, null, bool, num, other_num, text, arr, obj, Items, nil, cons, Fields, get_field,
}
use ai_runtime.Generation.{
  ToolCall, Message, tool, assistant, same_role, is_blank, post_init_tool_call, GenerationRequest,
  Float,
}
use ai_runtime.Responses.Payload.Replay.{IsValidResponse}
use ai_runtime.Providers.{
  HttpClient, conversation, as_object, as_text, adapter_error, require_id, text_or_other,
}
use ai_runtime.Providers.Sound.{
  AnyValue, if-Checked, Gives, Checked, bind-Gives, bind-Checked, Gives-ok, as_malformed-Checked,
  raise_if-Checked, IsValidCall, build_response-Gives, exchange-Checked,
}
use ai_runtime.Providers.Anthropic.{
  is_text, call_of, call_of_block, calls_from_blocks, tool_calls_from_anthropic,
  text_from_content_blocks, usage_from_anthropic_payload, read_anthropic_payload,
  from_anthropic_payload, anthropic_headers, anthropic_generate, AnthropicModelProvider,
}
use ai_runtime.Providers.Anthropic.Body.{
  object_input, input_of, tool_use_blocks, to_anthropic_message, to_anthropic_messages,
  to_anthropic_body,
}

input_of-Checked : (j : Option Json) → Checked AnyValue (input_of j)
input_of-Checked none = (_, refl)
input_of-Checked (some j) = go (as_object (some j))
  where
    go : (o : Option Fields) → Checked AnyValue (object_input o)
    go none = (_, refl)
    go (some fs) = tt

module _ (json : JsonCodec) where
  tool_use_blocks-Checked : (calls : List ToolCall) → Checked AnyValue (tool_use_blocks json calls)
  unfolding tool_use_blocks
  tool_use_blocks-Checked [] = tt
  tool_use_blocks-Checked (c ∷ cs) =
      bind-Checked AnyValue AnyValue (input_of (json.loads c.arguments)) _
        (input_of-Checked (json.loads c.arguments))
        (λ i u.
          bind-Checked AnyValue AnyValue (tool_use_blocks json cs) _ (tool_use_blocks-Checked cs)
            (λ bs v. tt))

  to_anthropic_message-Checked : (m : Message) → Checked AnyValue (to_anthropic_message json m)
  unfolding to_anthropic_message
  to_anthropic_message-Checked m = if-Checked AnyValue (same_role m.role tool) _ _ tt (
      if-Checked AnyValue (same_role m.role assistant && not (is_empty m.tool_calls)) _ _
        (bind-Checked AnyValue AnyValue (tool_use_blocks json m.tool_calls) _
          (tool_use_blocks-Checked m.tool_calls) (λ bs u. tt))
        tt)

  to_anthropic_messages-Checked :
      (ms : List Message) → Checked AnyValue (to_anthropic_messages json ms)
  unfolding to_anthropic_messages
  to_anthropic_messages-Checked [] = tt
  to_anthropic_messages-Checked (m ∷ ms) =
      bind-Checked AnyValue AnyValue (to_anthropic_message json m) _
        (to_anthropic_message-Checked m)
        (λ i u.
          bind-Checked AnyValue AnyValue (to_anthropic_messages json ms) _
            (to_anthropic_messages-Checked ms) (λ bs v. tt))

  pub to_anthropic_body-Checked :
      (write : Float → Json) (r : GenerationRequest) (streamed : Bool)
      → Checked AnyValue (to_anthropic_body json write r streamed)
  unfolding to_anthropic_body
  to_anthropic_body-Checked write r streamed =
      bind-Checked AnyValue AnyValue
        (raise_if (is_empty (conversation r.messages))
          (adapter_error "messages must contain at least one non-system message"))
        _ (raise_if-Checked (is_empty (conversation r.messages)) _)
        (λ u v.
          bind-Checked AnyValue AnyValue (to_anthropic_messages json (conversation r.messages)) _
            (to_anthropic_messages-Checked (conversation r.messages)) (λ bs v. tt))

  call_of-Gives :
      (id name : Option String) (i : Option Fields)
      → Gives (All IsValidCall) (call_of json id name i)
  call_of-Gives (some id) (some name) (some i) =
      let c : ToolCall = record { id = id; name = name; arguments = json.dumps (obj i) } in
      bind-Gives (All IsValidCall) (post_init_tool_call c) (λ _. ok (c ∷ []))
        (λ v valid. (valid, tt))
  call_of-Gives none _ _ = tt
  call_of-Gives (some id) none _ = tt
  call_of-Gives (some id) (some name) none = tt

  call_of_block-Gives : (block : Option Fields) → Gives (All IsValidCall) (call_of_block json block)
  call_of_block-Gives none = tt
  call_of_block-Gives (some block) =
      elim (Bool-cases (is_text "tool_use" (get_field "type" block))) [
        | inl e ↦ rw e (
            call_of-Gives (as_text (get_field "id" block)) (as_text (get_field "name" block))
              (as_object (get_field "input" block)))
        | inr e ↦ rw e tt
      ]

  calls_from_blocks-Gives : (items : Items) → Gives (All IsValidCall) (calls_from_blocks json items)
  unfolding calls_from_blocks
  calls_from_blocks-Gives nil = tt
  calls_from_blocks-Gives (cons j js) =
      bind-Gives (All IsValidCall) (call_of_block json (as_object (some j))) _ (λ c e.
        bind-Gives (All IsValidCall) (calls_from_blocks json js) (λ cs. ok (c ++ cs))
          (λ cs es.
            All-append IsValidCall c cs
              (Gives-ok (All IsValidCall) (call_of_block json (as_object (some j)))
                (call_of_block-Gives (as_object (some j))) e)
              (Gives-ok (All IsValidCall) (calls_from_blocks json js) (calls_from_blocks-Gives js)
                es)))

  tool_calls_from_anthropic-Gives :
      (blocks : Option Json) → Gives (All IsValidCall) (tool_calls_from_anthropic json blocks)
  unfolding tool_calls_from_anthropic
  tool_calls_from_anthropic-Gives none = tt
  tool_calls_from_anthropic-Gives (some (arr items)) = calls_from_blocks-Gives items
  tool_calls_from_anthropic-Gives (some null) = tt
  tool_calls_from_anthropic-Gives (some (bool b)) = tt
  tool_calls_from_anthropic-Gives (some (num n)) = tt
  tool_calls_from_anthropic-Gives (some (other_num n)) = tt
  tool_calls_from_anthropic-Gives (some (text s)) = tt
  tool_calls_from_anthropic-Gives (some (obj fs)) = tt

  read_anthropic_payload-Gives :
      (payload : Fields) (r : GenerationRequest)
      → Gives IsValidResponse (read_anthropic_payload json payload r)
  unfolding read_anthropic_payload
  read_anthropic_payload-Gives payload r =
      bind-Gives IsValidResponse
        (require_id "Anthropic response is missing a valid id" (get_field "id" payload)) _
        (λ id e1.
          bind-Gives IsValidResponse (text_from_content_blocks (get_field "content" payload)) _
            (λ content e2.
              bind-Gives IsValidResponse
                (tool_calls_from_anthropic json (get_field "content" payload)) _
                (λ calls e3.
                  bind-Gives IsValidResponse
                    (raise_if (is_blank content && is_empty calls)
                      (adapter_error "Anthropic response is missing text content"))
                    _
                    (λ u e4.
                      bind-Gives IsValidResponse
                        (usage_from_anthropic_payload (get_field "usage" payload)) _
                        (λ usage e5.
                          build_response-Gives id
                            (text_or_other r.model (get_field "model" payload)) content calls usage
                            (Gives-ok (All IsValidCall)
                              (tool_calls_from_anthropic json (get_field "content" payload))
                              (tool_calls_from_anthropic-Gives (get_field "content" payload))
                              e3))))))

  from_anthropic_payload-Checked :
      (r : GenerationRequest) (payload : Fields)
      → Checked IsValidResponse (from_anthropic_payload json r payload)
  unfolding from_anthropic_payload
  from_anthropic_payload-Checked r payload =
      as_malformed-Checked IsValidResponse "Anthropic response payload is malformed"
        (read_anthropic_payload json payload r) (read_anthropic_payload-Gives payload r)

  pub anthropic_generate-Checked :
      {S : Type 0} (write : Float → Json) (http : HttpClient S) (p : AnthropicModelProvider)
      (r : GenerationRequest) (s : S)
      → Checked IsValidResponse (anthropic_generate json write http p r s).0
  unfolding anthropic_generate
  anthropic_generate-Checked write http p r s =
      exchange-Checked json "Anthropic" (from_anthropic_payload json r) http _ (anthropic_headers p)
        (to_anthropic_body json write r false) s (from_anthropic_payload-Checked r)
        (to_anthropic_body-Checked write r false)
