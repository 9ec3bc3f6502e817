-- ===== src/Api/Streaming.antt =====
-- The server-sent events of src/ai_runtime/api/routes/responses.py.
use ai_runtime.Prelude.{ℕ, String, Bool, true, false, Option, none, some, [], ◌∷◌, ◌+++◌}
use ai_runtime.Errors.{Error, ProviderError, provider_error, provider_error_of, Result, ok, err}
use ai_runtime.Json.{Json, JsonCodec, text, obj, end, field}
use ai_runtime.Generation.{
  GenerationResponse, GenerationDelta, GenerationStreamEvent, delta, completed,
}
use ai_runtime.Executor.{Stream, done, fail, emit}
use ai_runtime.Api.Http.{HttpResponse}
use ai_runtime.Api.Errors.{Failure, respond_to_failure}
use ai_runtime.Api.Codes.{ErrorCode, code_value}
use ai_runtime.Api.Schemas.{response_schema, response_dump}

-- The body of a streamed response: its chunks, and whether it was cut off by an exception.
pub data Body : Type 0 where
  closed : Body
  aborted : Body
  chunk : String → Body → Body

module _ (json : JsonCodec) where
  -- `_sse_message`
  unfoldable pub sse_message : String → Json → String
  sse_message event payload = "event: " +++ event +++ "\ndata: " +++ json.dumps payload +++ "\n\n"

  -- The payload of a delta.
  abbrev pub delta_json : GenerationDelta → Json
  delta_json d = obj (
      field "id" (text d.id) (
        field "model" (text d.model)
          (field "delta" (obj (field "content" (text d.content) end)) end)))

  abbrev completed_message : Result GenerationResponse → Result String
  completed_message (ok r) = ok (sse_message "response.completed" (response_dump r))
  completed_message (err e) = err e

  -- `_format_stream_event`
  unfoldable pub format_stream_event : GenerationStreamEvent → Result String
  format_stream_event (delta d) = ok (sse_message "response.delta" (delta_json d))
  format_stream_event (completed r) = completed_message (response_schema r)

  -- The payload of an error.
  abbrev pub stream_error_json : ProviderError → String → Json
  stream_error_json e request_id = obj (
      field "error"
        (obj (
          field "code" (text (code_value ErrorCode.provider_error))
            (field "message" (text e.message) (field "request_id" (text request_id) end))))
        end)

  -- `_format_stream_error`
  unfoldable pub format_stream_error : ProviderError → String → String
  format_stream_error e request_id = sse_message "response.error" (stream_error_json e request_id)

  abbrev yield_chunk : Result String → Body → Body
  yield_chunk (ok s) rest = chunk s rest
  yield_chunk (err e) rest = aborted

  abbrev pub after_failure : String → Option ProviderError → Body
  after_failure request_id none = aborted
  after_failure request_id (some e) = chunk (format_stream_error e request_id) closed

  -- The loop of `events` over the pending event and those behind it: only a `ProviderError` is told
  -- to the client, another exception cuts the body off.
  unfoldable pub pending_events : String → Stream GenerationStreamEvent → Body
  pending_events request_id done = closed
  pending_events request_id (fail e) = after_failure request_id (provider_error_of e)
  pending_events request_id (emit event rest) =
      yield_chunk (format_stream_event event) (pending_events request_id rest)

  -- `events`, of the first event and the iterator behind it
  abbrev pub events : String → GenerationStreamEvent → Stream GenerationStreamEvent → Body
  events request_id first rest = pending_events request_id (emit first rest)

-- The error of a stream that ends before its first event.
abbrev pub no_response : Error
no_response = provider_error (record {
  message = "Provider stream completed without a response";
  retryable = false;
  status_code = none;
})

-- `first = await anext(iterator)`, before any of the response is sent
abbrev pub await_first :
    Stream GenerationStreamEvent → Result (GenerationStreamEvent × Stream GenerationStreamEvent)
await_first done = err no_response
await_first (fail e) = err e
await_first (emit event rest) = ok (event, rest)

-- The text of a body, and whether it broke off.
abbrev pub body_text : Body → String
body_text closed = ""
body_text aborted = ""
body_text (chunk s rest) = s +++ body_text rest

abbrev pub is_cut : Body → Bool
is_cut closed = false
is_cut aborted = true
is_cut (chunk s rest) = is_cut rest

-- The `StreamingResponse` of `post_responses`, with the request id that the middleware adds.
unfoldable pub streaming_response : String → Body → HttpResponse
streaming_response request_id body = record {
  status_code = 200;
  headers =
      ("cache-control", "no-cache")
      ∷ ("content-type", "text/event-stream; charset=utf-8")
      ∷ ("x-request-id", request_id)
      ∷ [];
  body = body_text body;
}

module _ (json : JsonCodec) (uuid_text : ℕ → String) (request_id : String) where
  -- The part of `post_responses` for a streamed request, behind `use_case.stream`: the response, and
  -- whether its body breaks off. What is raised before the first event goes to the error handlers.
  abbrev answer_stream :
      Result (GenerationStreamEvent × Stream GenerationStreamEvent) → HttpResponse × Bool
  answer_stream (err e) =
      (respond_to_failure json uuid_text (some request_id) (Failure.raised e), false)
  answer_stream (ok (first, rest)) = (
    streaming_response request_id (events json request_id first rest),
    is_cut (events json request_id first rest),
  )

  unfoldable pub post_stream : Stream GenerationStreamEvent → HttpResponse × Bool
  post_stream s = answer_stream (await_first s)
