-- ===== src/Providers/Gemini/Replies.antt =====
-- The replies of Gemini: what `generate` makes of one can be built, or is a provider's error.
use ai_runtime.Prelude.{
  ℕ, ◌+◌, String, ◌≡◌, refl, true, false, ◌&&◌, Option, none, some, List, [], ◌∷◌, ◌++◌, All,
  All-append, Bool-cases, inl, inr, is_empty, arith,
}
use ai_runtime.Errors.{ok, raise_if}
use ai_runtime.Json.{
  Json, JsonCodec, null, bool, num, other_num, text, arr, obj, Items, nil, cons, Fields, get_field,
}
use ai_runtime.Generation.{
  ToolCall, Message, tool, system, is_missing, same_role, is_blank, post_init_tool_call,
  post_init_message, require_non_blank, GenerationRequest, Float,
}
use ai_runtime.Responses.Payload.Replay.{IsValidResponse}
use ai_runtime.Providers.{
  HttpClient, conversation, as_object, as_text, adapter_error, require_id, text_or_other,
}
use ai_runtime.Providers.Sound.{
  AnyValue, if-Checked, Gives, Checked, bind-Gives, bind-Checked, Gives-ok, as_malformed-Checked,
  raise_if-Checked, IsValidCall, build_response-Gives, exchange-Checked,
}
use ai_runtime.Providers.Gemini.{
  call_of, object_call, function_call, call_of_part, calls_from_parts, tool_calls_from_gemini,
  first_candidate, candidate_content, optional_text_from_parts, usage_of_payload,
  read_gemini_payload, from_gemini_payload, gemini_headers, gemini_generate, GeminiModelProvider,
}
use ai_runtime.Providers.Gemini.Body.{
  object_args, args_of, function_name, function_result, function_response, function_call_parts,
  gemini_parts, gemini_contents, to_gemini_body,
}

args_of-Checked : (j : Option Json) → Checked AnyValue (args_of j)
args_of-Checked none = (_, refl)
args_of-Checked (some j) = go (as_object (some j))
  where
    go : (o : Option Fields) → Checked AnyValue (object_args o)
    go none = (_, refl)
    go (some fs) = tt

-- A message of a tool says which call it answers.
abbrev pub IsValidMessage : Message → Type 0
IsValidMessage m = post_init_message m ≡ ok tt

answers :
    (m : Message)
    → IsValidMessage m
    → same_role m.role tool ≡ true
    → is_missing m.tool_call_id ≡ false
unfolding post_init_message require_non_blank
answers m h e = ground arith

function_response-Checked :
    (name id : Option String) (payload : Json)
    → is_missing id ≡ false
    → Checked AnyValue (function_response (function_name name id) payload)
function_response-Checked name none payload h = cc
function_response-Checked none (some id) payload h = tt
function_response-Checked (some name) (some id) payload h = elim (Bool-cases (is_blank name)) [
  | inl e ↦ rw e tt
  | inr e ↦ rw e tt
]

module _ (json : JsonCodec) where
  function_call_parts-Checked :
      (calls : List ToolCall) → Checked AnyValue (function_call_parts json calls)
  unfolding function_call_parts
  function_call_parts-Checked [] = tt
  function_call_parts-Checked (c ∷ cs) =
      bind-Checked AnyValue AnyValue (args_of (json.loads c.arguments)) _
        (args_of-Checked (json.loads c.arguments))
        (λ i u.
          bind-Checked AnyValue AnyValue (function_call_parts json cs) _
            (function_call_parts-Checked cs) (λ bs v. tt))

  gemini_parts-Checked : (m : Message) → IsValidMessage m → Checked AnyValue (gemini_parts json m)
  unfolding gemini_parts
  gemini_parts-Checked m h = elim (Bool-cases (same_role m.role tool)) [
    | inl e ↦ rw e (
        function_response-Checked m.name m.tool_call_id
          (function_result m.content (json.loads m.content)) (answers m h e))
    | inr e ↦ rw e (
        if-Checked AnyValue (is_empty m.tool_calls) _ _ tt (
          bind-Checked AnyValue AnyValue (function_call_parts json m.tool_calls) _
            (function_call_parts-Checked m.tool_calls) (λ bs u. tt)))
  ]

  gemini_contents-Checked :
      (ms : List Message) → All IsValidMessage ms → Checked AnyValue (gemini_contents json ms)
  unfolding gemini_contents
  gemini_contents-Checked [] h = tt
  gemini_contents-Checked (m ∷ ms) (v, h) =
      bind-Checked AnyValue AnyValue (gemini_parts json m) _ (gemini_parts-Checked m v) (λ i u.
        bind-Checked AnyValue AnyValue (gemini_contents json ms) _ (gemini_contents-Checked ms h)
          (λ bs w. tt))

  conversation-All :
      (ms : List Message) → All IsValidMessage ms → All IsValidMessage (conversation ms)
  unfolding conversation
  conversation-All [] h = tt
  conversation-All (m ∷ ms) (v, h) = elim (Bool-cases (same_role m.role system)) [
    | inl e ↦ rw e (conversation-All ms h)
    | inr e ↦ rw e (v, conversation-All ms h)
  ]

  pub to_gemini_body-Checked :
      (write : Float → Json) (r : GenerationRequest)
      → All IsValidMessage r.messages
      → Checked AnyValue (to_gemini_body json write r)
  unfolding to_gemini_body
  to_gemini_body-Checked write r h =
      bind-Checked AnyValue AnyValue
        (raise_if (is_empty (conversation r.messages))
          (adapter_error "messages must contain at least one non-system message"))
        _ (raise_if-Checked (is_empty (conversation r.messages)) _)
        (λ u v.
          bind-Checked AnyValue AnyValue (gemini_contents json (conversation r.messages)) _
            (gemini_contents-Checked (conversation r.messages) (conversation-All r.messages h))
            (λ bs w. tt))

  call_of-Gives :
      (index : ℕ) (name : Option String) (args : Option Fields)
      → Gives (All IsValidCall) (call_of json index name args)
  call_of-Gives index (some name) (some args) =
      bind-Gives (All IsValidCall) (post_init_tool_call _) (λ _. ok (_ ∷ []))
        (λ v valid. (valid, tt))
  call_of-Gives index none _ = tt
  call_of-Gives index (some name) none = tt

  function_call-Gives :
      (index : ℕ) (call : Option Json) → Gives (All IsValidCall) (function_call json index call)
  function_call-Gives index none = tt
  function_call-Gives index (some call) = go (as_object (some call))
    where
      go : (o : Option Fields) → Gives (All IsValidCall) (object_call json index o)
      go none = tt
      go (some fs) =
          call_of-Gives index (as_text (get_field "name" fs)) (as_object (get_field "args" fs))

  call_of_part-Gives :
      (index : ℕ) (part : Option Fields) → Gives (All IsValidCall) (call_of_part json index part)
  call_of_part-Gives index none = tt
  call_of_part-Gives index (some part) = function_call-Gives index (get_field "functionCall" part)

  calls_from_parts-Gives :
      (index : ℕ) (items : Items) → Gives (All IsValidCall) (calls_from_parts json index items)
  unfolding calls_from_parts
  calls_from_parts-Gives index nil = tt
  calls_from_parts-Gives index (cons j js) =
      bind-Gives (All IsValidCall) (call_of_part json index (as_object (some j))) _ (λ c e.
        bind-Gives (All IsValidCall) (calls_from_parts json (index + 1) js) (λ cs. ok (c ++ cs))
          (λ cs es.
            All-append IsValidCall c cs
              (Gives-ok (All IsValidCall) (call_of_part json index (as_object (some j)))
                (call_of_part-Gives index (as_object (some j))) e)
              (Gives-ok (All IsValidCall) (calls_from_parts json (index + 1) js)
                (calls_from_parts-Gives (index + 1) js) es)))

  tool_calls_from_gemini-Gives :
      (parts : Option Json) → Gives (All IsValidCall) (tool_calls_from_gemini json parts)
  unfolding tool_calls_from_gemini
  tool_calls_from_gemini-Gives none = tt
  tool_calls_from_gemini-Gives (some (arr items)) = calls_from_parts-Gives 0 items
  tool_calls_from_gemini-Gives (some null) = tt
  tool_calls_from_gemini-Gives (some (bool b)) = tt
  tool_calls_from_gemini-Gives (some (num n)) = tt
  tool_calls_from_gemini-Gives (some (other_num n)) = tt
  tool_calls_from_gemini-Gives (some (text s)) = tt
  tool_calls_from_gemini-Gives (some (obj fs)) = tt

  read_gemini_payload-Gives :
      (payload : Fields) (r : GenerationRequest)
      → Gives IsValidResponse (read_gemini_payload json payload r)
  unfolding read_gemini_payload
  read_gemini_payload-Gives payload r =
      bind-Gives IsValidResponse
        (require_id "Gemini response is missing a valid id" (get_field "responseId" payload)) _
        (λ id e1.
          bind-Gives IsValidResponse (first_candidate (get_field "candidates" payload)) _
            (λ candidate e2.
              bind-Gives IsValidResponse (candidate_content (get_field "content" candidate)) _
                (λ content e3.
                  bind-Gives IsValidResponse (optional_text_from_parts (get_field "parts" content))
                    _
                    (λ output e4.
                      bind-Gives IsValidResponse
                        (tool_calls_from_gemini json (get_field "parts" content)) _
                        (λ calls e5.
                          bind-Gives IsValidResponse
                            (raise_if (is_blank output && is_empty calls)
                              (adapter_error "Gemini response is missing text content"))
                            _
                            (λ u e6.
                              bind-Gives IsValidResponse
                                (usage_of_payload (get_field "usageMetadata" payload)) _
                                (λ usage e7.
                                  build_response-Gives id
                                    (text_or_other r.model (get_field "modelVersion" payload))
                                    output calls usage
                                    (Gives-ok (All IsValidCall)
                                      (tool_calls_from_gemini json (get_field "parts" content))
                                      (tool_calls_from_gemini-Gives (get_field "parts" content))
                                      e5))))))))

  pub gemini_generate-Checked :
      {S : Type 0} (write : Float → Json) (http : HttpClient S) (p : GeminiModelProvider)
      (r : GenerationRequest) (s : S)
      → All IsValidMessage r.messages
      → Checked IsValidResponse (gemini_generate json write http p r s).0
  unfolding gemini_generate from_gemini_payload
  gemini_generate-Checked write http p r s h =
      exchange-Checked json "Gemini" (from_gemini_payload json r) http _ (gemini_headers p)
        (to_gemini_body json write r) s
        (λ payload.
          as_malformed-Checked IsValidResponse "Gemini response payload is malformed"
            (read_gemini_payload json payload r) (read_gemini_payload-Gives payload r))
        (to_gemini_body-Checked write r h)
