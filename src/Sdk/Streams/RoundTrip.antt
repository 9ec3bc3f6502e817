-- ===== src/Sdk/Streams/RoundTrip.antt =====
-- From the events of a generation, through the frames of api/routes/responses.py, to what the client
-- library's `stream` yields.
use ai_runtime.Prelude.{
  All, ℕ, String, ◌≡◌, refl, Bool, true, false, Option, none, some, List, [], is_empty_text,
  if◌then◌else◌, contains, strip_prefix?,
}
use ai_runtime.Errors.{Error, ProviderError, provider_error_of}
use ai_runtime.Json.{JsonCodec, get_field}
use ai_runtime.Generation.{GenerationResponse, GenerationDelta, GenerationStreamEvent}
use ai_runtime.Generation
use ai_runtime.Executor.{Stream, done, fail, emit}
use ai_runtime.Api.Http.{get_header}
use ai_runtime.Api.Errors.{Failure, handler_of, respond_to_failure}
use ai_runtime.Sdk.Failures.{
  as_seen, reported, envelope_of, IsReadBack, raise_for_status-respond_to_failure,
}
use ai_runtime.Api.Codes.{code_value}
use ai_runtime.Api.Schemas.{response_dump}
use ai_runtime.Api.Streaming.{
  after_failure, pending_events, no_response, post_stream, is_cut, streaming_response,
  format_stream_event, delta_json, stream_error_json,
}
use ai_runtime.Sdk.Errors.{
  AiRuntimeError, raised, returned, error_from_body, raise_for_status, request_id_header,
}
use ai_runtime.Sdk.Models.{Lax, read_delta, read_delta_body, read_text}
use ai_runtime.Sdk.Models.Written.{
  as_response, response_dump-fields, read_response-dump, response_schema-valid,
}
use ai_runtime.Sdk.Sse.{delta, completed, parse_stream_frame, iter_frames, new_parser}
use ai_runtime.Sdk.Streams.{
  Received, ended, failed, yielded, connection_error, stamp_item, stamp_response, read_frames,
  stream_from, require_event_stream,
}
use ai_runtime.Sdk.Streams.Events.{
  AreValid, IsWritable, SplitsLines, AreWritable, error_payloads, error_lines, lines_of, delta_name,
  completed_name, error_name, lines_of-IsPlain, body_text-pending_events,
}
use ai_runtime.Sdk.Streams.Lines.{iter_frames-frame_lines, iter_frames-nil}

-- The exception that a failing provider becomes in the client.
abbrev pub provider_failure : String → ProviderError → AiRuntimeError
provider_failure request_id e = record {
  code = "provider_error";
  message = if is_empty_text e.message then "Stream failed." else e.message;
  status_code = 200;
  request_id = some request_id;
  retry_after = none;
}

abbrev as_failed : String → Option ProviderError → Received
as_failed request_id none = failed connection_error
as_failed request_id (some e) = failed (provider_failure request_id e)

-- What the client is to get of a stream of the server: each event with the request's id, then the
-- end, the provider's failure, or a lost connection where another exception was raised.
abbrev pub as_received : String → Stream GenerationStreamEvent → Received
as_received request_id done = ended
as_received request_id (fail e) = as_failed request_id (provider_error_of e)
as_received request_id (emit (Generation.delta d) rest) =
    yielded
      (delta
        (record { id = d.id; model = d.model; content = d.content; request_id = some request_id }))
      (as_received request_id rest)
as_received request_id (emit (Generation.completed r) rest) =
    yielded (completed (record (as_response r) { request_id = some request_id }))
      (as_received request_id rest)

module _ (json : JsonCodec) (lax : Lax) (request_id : String) where
  parse_delta :
      (d : GenerationDelta)
      → IsWritable json (delta_json json d)
      → parse_stream_frame lax json "response.delta"
          (json.dumps (delta_json json d))
          (some request_id)
        ≡ returned
            (delta (record { id = d.id; model = d.model; content = d.content; request_id = none }))
  unfolding parse_stream_frame read_delta read_delta_body read_text get_field
  parse_delta d w = rw w.round_trip refl

  parse_completed :
      (r : GenerationResponse)
      → IsWritable json (response_dump r)
      → parse_stream_frame lax json "response.completed"
          (json.dumps (response_dump r))
          (some request_id)
        ≡ returned (completed (as_response r))
  unfolding parse_stream_frame
  parse_completed r w = rw (w.round_trip, response_dump-fields r, read_response-dump lax r) refl

  parse_error :
      (e : ProviderError)
      → IsWritable json (stream_error_json json e request_id)
      → is_empty_text request_id ≡ false
      → parse_stream_frame lax json "response.error"
          (json.dumps (stream_error_json json e request_id))
          (some request_id)
        ≡ raised (provider_failure request_id e)
  unfolding parse_stream_frame error_from_body get_field code_value
  parse_error e w assigned = rw (w.round_trip, assigned) refl

  end_of : Bool → Received
  end_of cut = if cut then failed connection_error else ended

  read_frames-lines_of :
      is_empty_text request_id ≡ false
      → (s : Stream GenerationStreamEvent) → AreValid s
      → AreWritable json request_id s
      → (let cut = is_cut (pending_events json request_id s) in
          read_frames json lax
            (some request_id)
            (end_of cut)
            (iter_frames cut new_parser (lines_of json request_id s)))
        ≡ as_received request_id s
  unfolding read_frames pending_events format_stream_event stamp_item stamp_response end_of
  read_frames-lines_of assigned done v w = rw (iter_frames-nil false) refl
  read_frames-lines_of assigned (fail e) v w = go (provider_error_of e) w
    where
      go :
          (p : Option ProviderError)
          → All (IsWritable json) (error_payloads json request_id p)
          → (let cut = is_cut (after_failure json request_id p) in
              read_frames json lax
                (some request_id)
                (end_of cut)
                (iter_frames cut new_parser (error_lines json request_id p)))
            ≡ as_failed request_id p
      go none w = rw (iter_frames-nil true) refl
      go (some p) (w, _) =
          rw
            (iter_frames-frame_lines false "response.error"
              (json.dumps (stream_error_json json p request_id)) [] error_name w.plain)
            (rw (parse_error p w assigned) refl)
  read_frames-lines_of assigned (emit (Generation.delta d) rest) v (w, ws) =
      rw
        (iter_frames-frame_lines (is_cut (pending_events json request_id rest)) "response.delta"
          (json.dumps (delta_json json d)) (lines_of json request_id rest) delta_name w.plain)
        (rw (parse_delta d w) (rw (read_frames-lines_of assigned rest v ws) refl))
  read_frames-lines_of assigned (emit (Generation.completed r) rest) (valid, v) (w, ws) =
      rw (response_schema-valid r valid) (
        rw
          (iter_frames-frame_lines (is_cut (pending_events json request_id rest))
            "response.completed" (json.dumps (response_dump r)) (lines_of json request_id rest)
            completed_name w.plain)
          (rw (parse_completed r w) (rw (read_frames-lines_of assigned rest v ws) refl)))

-- A stream whose first event has come.
stream_from-events :
    (json : JsonCodec) (iter_lines : String → List String) (lax : Lax) (request_id : String)
    (s : Stream GenerationStreamEvent)
    → SplitsLines iter_lines
    → AreWritable json request_id s
    → is_empty_text request_id ≡ false
    → AreValid s
    → (let body = pending_events json request_id s in
        stream_from json lax iter_lines (is_cut body) (streaming_response request_id body))
      ≡ as_received request_id s
unfolding stream_from streaming_response raise_for_status require_event_stream request_id_header
    get_header end_of contains strip_prefix?
stream_from-events json iter_lines lax request_id s splits writable assigned valid = rw assigned (
    rw (body_text-pending_events json request_id s valid) (
      rw (splits (lines_of json request_id s) (lines_of-IsPlain json request_id s writable))
        (read_frames-lines_of json lax request_id assigned s valid writable)))

-- What the handlers make of an exception, for the caller.
abbrev pub reported_failure : (ℕ → String) → String → Error → AiRuntimeError
reported_failure uuid_text request_id e =
    as_seen (some request_id) (reported (handler_of uuid_text (Failure.raised e)))

-- What the client is to get of a streamed request: the events, or, where nothing came before the
-- end or an exception, what the handlers report.
abbrev pub as_answered : (ℕ → String) → String → Stream GenerationStreamEvent → Received
as_answered uuid_text request_id done = failed (reported_failure uuid_text request_id no_response)
as_answered uuid_text request_id (fail e) = failed (reported_failure uuid_text request_id e)
as_answered uuid_text request_id (emit event rest) = as_received request_id (emit event rest)

-- The document of an exception is read back.
abbrev pub IsReported : JsonCodec → (ℕ → String) → String → Error → Type 0
IsReported json uuid_text request_id e =
    IsReadBack json
      (envelope_of (some request_id) (reported (handler_of uuid_text (Failure.raised e))))

-- The documents that the server writes for a stream are read back, and those of events are written
-- in printable ASCII.
abbrev pub AreRead : JsonCodec → (ℕ → String) → String → Stream GenerationStreamEvent → Type 0
AreRead json uuid_text request_id done = IsReported json uuid_text request_id no_response
AreRead json uuid_text request_id (fail e) = IsReported json uuid_text request_id e
AreRead json uuid_text request_id (emit event rest) = AreWritable json request_id (emit event rest)

failed-respond_to_failure :
    (json : JsonCodec) (iter_lines : String → List String) (lax : Lax) (uuid_text : ℕ → String)
    (request_id : String) (e : Error)
    → is_empty_text request_id ≡ false
    → IsReported json uuid_text request_id e
    → stream_from json lax iter_lines false
        (respond_to_failure json uuid_text (some request_id) (Failure.raised e))
      ≡ failed (reported_failure uuid_text request_id e)
unfolding stream_from
failed-respond_to_failure json iter_lines lax uuid_text request_id e assigned read_back =
    rw
      (raise_for_status-respond_to_failure json uuid_text (some request_id) (Failure.raised e)
        assigned tt read_back)
      refl

-- What the client library's `stream` yields of a request that the server streams: every event, in
-- order and with the request's id, and then the end, the provider's failure with its message, or a
-- lost connection. If the server's iterator ends or raises before its first event, it raises what the
-- server's handlers report instead. The completed responses can be built, the request's id is not
-- empty, each document that is sent is read back, those of events are in printable ASCII, and a
-- body of lines is split into them.
pub stream_from-post_stream :
    (json : JsonCodec) (iter_lines : String → List String) (lax : Lax) (uuid_text : ℕ → String)
    (request_id : String) (s : Stream GenerationStreamEvent)
    → SplitsLines iter_lines
    → AreRead json uuid_text request_id s
    → is_empty_text request_id ≡ false
    → AreValid s
    → (let (response, cut) = post_stream json uuid_text request_id s in
        stream_from json lax iter_lines cut response)
      ≡ as_answered uuid_text request_id s
unfolding post_stream
stream_from-post_stream json iter_lines lax uuid_text request_id done splits r assigned valid =
    failed-respond_to_failure json iter_lines lax uuid_text request_id no_response assigned r
stream_from-post_stream json iter_lines lax uuid_text request_id (fail e) splits r assigned valid =
    failed-respond_to_failure json iter_lines lax uuid_text request_id e assigned r
stream_from-post_stream json iter_lines lax uuid_text request_id (emit event rest) splits r assigned
      valid =
    stream_from-events json iter_lines lax request_id (emit event rest) splits r assigned valid
