-- ===== src/Sdk/Streams.antt =====
-- `Responses.stream` and the reading of a completed response of
-- src/sdk/python/src/ai_runtime_sdk/client.py. The lines of a body, which httpx makes, are the
-- parameter `iter_lines`; httpx raises an `HTTPError` at the end of a body that is cut off.
pub mod Lines
pub mod Events
pub mod RoundTrip
use ai_runtime.Prelude.{
  ℕ, String, Bool, true, false, Option, none, some, List, [], ◌∷◌, contains, leb, if◌then◌else◌,
}
use ai_runtime.Json.{Json, JsonCodec, obj, Fields}
use ai_runtime.Api.Http.{HttpResponse, get_header}
use ai_runtime.Sdk.Errors.{
  AiRuntimeError, Outcome, raised, returned, raise_for_status, request_id_header,
}
use ai_runtime.Sdk.Models.{Lax, Response, ResponseDelta, read_response}
use ai_runtime.Sdk.Sse.{
  StreamItem, delta, completed, invalid_response, iter_frames, new_parser, parse_stream_frame,
}

-- `AIRuntimeConnectionError("Could not reach AI Runtime.")`
abbrev pub connection_error : AiRuntimeError
connection_error = record {
  code = "connection_error";
  message = "Could not reach AI Runtime.";
  status_code = 0;
  request_id = none;
  retry_after = none;
}

-- What the generator yields, and how it ends.
pub data Received : Type 0 where
  ended : Received
  failed : AiRuntimeError → Received
  yielded : StreamItem → Received → Received

-- `_stamp_request_id`
unfoldable pub stamp_response : Option String → Response → Response
stamp_response none r = r
stamp_response (some id) r = record r { request_id = some id }

unfoldable pub stamp_item : Option String → StreamItem → StreamItem
stamp_item none item = item
stamp_item (some id) (delta d) = delta (record d { request_id = some id })
stamp_item (some id) (completed r) = completed (stamp_response (some id) r)

abbrev text_or_empty : Option String → String
text_or_empty none = ""
text_or_empty (some s) = s

-- `_require_event_stream`
unfoldable pub require_event_stream : HttpResponse → Outcome (Unit {0})
require_event_stream r =
    if contains "text/event-stream" (text_or_empty (get_header "content-type" r.headers))
    then returned tt
    else raised (
        invalid_response "Expected a server-sent event stream." r.status_code (request_id_header r))

module _ (json : JsonCodec) where
  abbrev object_or_raise : HttpResponse → Option Json → Outcome Fields
  object_or_raise r none =
      raised (invalid_response "Response was not JSON." r.status_code (request_id_header r))
  object_or_raise r (some (obj fs)) = returned fs
  object_or_raise r (some _) =
      raised
        (invalid_response "Response was not a JSON object." r.status_code (request_id_header r))

  -- `_json_object`
  unfoldable pub json_object : HttpResponse → Outcome Fields
  json_object r = object_or_raise r (json.loads r.body)

  module _ (lax : Lax) where
    abbrev model_or_raise : HttpResponse → Option Response → Outcome Response
    model_or_raise r none = raised (
        invalid_response "Response did not match the API contract." r.status_code
          (request_id_header r))
    model_or_raise r (some response) = returned (stamp_response (request_id_header r) response)

    abbrev parse_fields : HttpResponse → Outcome Fields → Outcome Response
    parse_fields r (raised e) = raised e
    parse_fields r (returned fs) = model_or_raise r (read_response lax fs)

    -- `_parse_model`, for a `Response`
    unfoldable pub parse_model : HttpResponse → Outcome Response
    parse_model r = parse_fields r (json_object r)

    abbrev then_parse : HttpResponse → Outcome (Unit {0}) → Outcome Response
    then_parse r (raised e) = raised e
    then_parse r (returned u) = parse_model r

    -- `Responses.create` and `_send`, on the response that the server gave.
    unfoldable pub create_from : HttpResponse → Outcome Response
    create_from r = then_parse r (raise_for_status json r)

    abbrev yield_parsed : Option String → Outcome StreamItem → Received → Received
    yield_parsed request_id (raised e) rest = failed e
    yield_parsed request_id (returned item) rest = yielded (stamp_item request_id item) rest

    -- The loop of `Responses.stream`; `cut` tells of an `HTTPError` behind the frames.
    unfoldable pub read_frames : Option String → Received → List (String × String) → Received
    read_frames request_id end_of_body [] = end_of_body
    read_frames request_id end_of_body ((event, payload) ∷ frames) =
        yield_parsed request_id (parse_stream_frame lax json event payload request_id)
          (read_frames request_id end_of_body frames)

    abbrev after_checks :
        (String → List String) → Bool → HttpResponse → Outcome (Unit {0}) → Received
    after_checks iter_lines cut r (raised e) = failed e
    after_checks iter_lines cut r (returned u) =
        read_frames (request_id_header r) (if cut then failed connection_error else ended)
          (iter_frames cut new_parser (iter_lines r.body))

    abbrev check_event_stream :
        (String → List String) → Bool → HttpResponse → Outcome (Unit {0}) → Received
    check_event_stream iter_lines cut r (raised e) = failed e
    check_event_stream iter_lines cut r (returned u) =
        after_checks iter_lines cut r (require_event_stream r)

    -- `Responses.stream`, on the response that the server gave; `cut` tells that its body broke off.
    unfoldable pub stream_from : (String → List String) → Bool → HttpResponse → Received
    stream_from iter_lines cut r = check_event_stream iter_lines cut r (raise_for_status json r)
