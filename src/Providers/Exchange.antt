-- ===== src/Providers/Exchange.antt =====
-- One exchange with a vendor: `generate` and `stream` of the three adapters, up to what they send and
-- how they read the answer.
use ai_runtime.Prelude.{
  ℕ, String, Bool, true, false, Option, none, some, List, [], ◌∷◌, ◌+++◌, leb, is_empty_text,
  if◌then◌else◌,
}
use ai_runtime.Errors.{Error, provider_error, transient, from_http_status, Result, ok, err, ◌>>◌}
use ai_runtime.Exec.{Exec}
use ai_runtime.Json.{Json, JsonCodec, text, obj, Fields}
use ai_runtime.Generation.{
  ℤ, is_blank, TokenUsage, GenerationRequest, GenerationResponse, GenerationDelta, post_init_delta,
  GenerationStreamEvent, delta, completed,
}
use ai_runtime.Executor.{Stream, done, fail, emit}
use ai_runtime.Api.Http.{decimal}
use ai_runtime.Providers.Sse.{iter_sse_events}
use ai_runtime.Providers.{
  HttpClient, HttpReply, StreamReply, adapter_error, as_object, build_response, http_error,
  lines_reply, no_reply, reply,
}

abbrev pub status_error : String → ℕ → Error
status_error vendor status =
    provider_error
      (from_http_status (vendor +++ " HTTP request failed with status " +++ decimal status) status)

module _ (json : JsonCodec) where
  abbrev pub parse_object :
      String → (Fields → Result GenerationResponse) → Option Json → Result GenerationResponse
  parse_object vendor parse none =
      err (adapter_error (vendor +++ " response body is not valid JSON"))
  parse_object vendor parse (some (obj fs)) = parse fs
  parse_object vendor parse (some _) =
      err (adapter_error (vendor +++ " response body must be a JSON object"))

  -- What `generate` makes of the reply.
  unfoldable pub after_post :
      String → (Fields → Result GenerationResponse) → HttpReply → Result GenerationResponse
  after_post vendor parse http_error =
      err (provider_error (transient (vendor +++ " HTTP request failed")))
  after_post vendor parse (reply status body) =
      if leb 400 status
      then err (status_error vendor status)
      else parse_object vendor parse (json.loads body)

  module _ {S : Type 0} (http : HttpClient S) where
    -- `generate`: the body, the request and the reply.
    unfoldable pub exchange :
        String
        → String
        → List (String × String)
        → Result Json
        → (Fields → Result GenerationResponse)
        → Exec S GenerationResponse
    exchange vendor url headers (err e) parse s = (err e, s)
    exchange vendor url headers (ok body) parse s =
        let (r, s') = http.post url headers body s in (after_post vendor parse r, s')

-- What a stream has seen so far.
pub record Progress : Type 0 where
  pub response_id : String
  pub model : String
  pub assembled : String
  pub input_tokens : Option ℤ
  pub output_tokens : Option ℤ
  pub usage : Option TokenUsage

abbrev pub new_progress : GenerationRequest → Progress
new_progress r = record {
  response_id = "";
  model = r.model;
  assembled = "";
  input_tokens = none;
  output_tokens = none;
  usage = none;
}

-- What one event of a stream does: it ends the loop, or it raises, or it yields a delta or none and
-- then goes on or raises.
pub data Step : Type 0 where
  break : Step
  does : Result (Option GenerationDelta × Result Progress) → Step

-- `GenerationDelta(…)` for a text of the stream, once the id is known
unfoldable pub yield_delta : String → Progress → String → Result (Option GenerationDelta × Progress)
yield_delta message p content =
    if is_blank p.response_id
    then err (adapter_error message)
    else let d : GenerationDelta = record {
      id = p.response_id;
      model = p.model;
      content = content;
    } in
      post_init_delta d >> ok (some d, record p { assembled = p.assembled +++ content })

-- `if isinstance(content, str) and content: …`
unfoldable pub yield_text :
    String → Progress → Option Json → Result (Option GenerationDelta × Progress)
yield_text message p (some (text content)) =
    if is_empty_text content then ok (none, p) else yield_delta message p content
yield_text message p _ = ok (none, p)

-- What comes behind a delta that is yielded, or not.
abbrev pub and_after :
    (Progress → Result Progress)
    → Result (Option GenerationDelta × Progress)
    → Result (Option GenerationDelta × Result Progress)
and_after next (err e) = err e
and_after next (ok (d, p)) = ok (d, next p)

-- `if not response_id.strip(): raise …`, and the completed response, which is built outside the
-- `try` block.
unfoldable pub complete_stream : String → Progress → Result GenerationResponse
complete_stream message p =
    if is_blank p.response_id
    then err (adapter_error message)
    else build_response p.response_id p.model p.assembled [] p.usage

abbrev pub last_event : Result GenerationResponse → Stream GenerationStreamEvent
last_event (ok r) = emit (completed r) done
last_event (err e) = fail e

module _ (step : Progress → Option String × String → Step)
    (finish : Progress → Result GenerationResponse) where
  abbrev pub go_on :
      (Progress → Stream GenerationStreamEvent) → Result Progress → Stream GenerationStreamEvent
  go_on next (ok p) = next p
  go_on next (err e) = fail e

  abbrev pub yield_item :
      Option GenerationDelta → Stream GenerationStreamEvent → Stream GenerationStreamEvent
  yield_item none rest = rest
  yield_item (some d) rest = emit (delta d) rest

  abbrev pub after_step :
      Progress → (Progress → Stream GenerationStreamEvent) → Step → Stream GenerationStreamEvent
  after_step p next break = last_event (finish p)
  after_step p next (does (err e)) = fail e
  after_step p next (does (ok (d, r))) = yield_item d (go_on next r)

  -- The `async for` of `stream`, and what follows it; `cut_by` is the error that ends the body.
  unfoldable pub run_events :
      Option Error → Progress → List (Option String × String) → Stream GenerationStreamEvent
  run_events none p [] = last_event (finish p)
  run_events (some e) p [] = fail e
  run_events cut_by p (event ∷ events) =
      after_step p (λ p'. run_events cut_by p' events) (step p event)

  abbrev pub cut_error : String → Bool → Option Error
  cut_error vendor false = none
  cut_error vendor true = some (provider_error (transient (vendor +++ " HTTP request failed")))

  -- The body of an error is read before it is raised, and that may fail too.
  abbrev pub after_body : Error → Option Error → Stream GenerationStreamEvent
  after_body status none = fail status
  after_body status (some e) = fail e

  unfoldable pub after_stream_reply :
      String → GenerationRequest → StreamReply → Stream GenerationStreamEvent
  after_stream_reply vendor r no_reply =
      fail (provider_error (transient (vendor +++ " HTTP request failed")))
  after_stream_reply vendor r (lines_reply status lines cut) =
      if leb 400 status
      then after_body (status_error vendor status) (cut_error vendor cut)
      else run_events (cut_error vendor cut) (new_progress r) (iter_sse_events cut lines)

  -- `stream`: the body, the request and the reply.
  unfoldable pub stream_exchange :
      {S : Type 0}
      → HttpClient S
      → String
      → String
      → List (String × String)
      → Result Json
      → GenerationRequest
      → S
      → Stream GenerationStreamEvent × S
  stream_exchange http vendor url headers (err e) r s = (fail e, s)
  stream_exchange http vendor url headers (ok body) r s =
      let (answer, s') = http.stream url headers body s in (after_stream_reply vendor r answer, s')

abbrev pub object_chunk : String → Option Fields → Result Fields
object_chunk vendor none = err (adapter_error (vendor +++ " stream chunk must be a JSON object"))
object_chunk vendor (some fs) = ok fs

abbrev pub loaded_chunk : String → Option Json → Result Fields
loaded_chunk vendor none = err (adapter_error (vendor +++ " stream chunk is not valid JSON"))
loaded_chunk vendor (some j) = object_chunk vendor (as_object (some j))

-- `json.loads(data)`, which has to give an object
abbrev pub chunk_object : String → JsonCodec → String → Result Fields
chunk_object vendor json payload = loaded_chunk vendor (json.loads payload)
