-- ===== src/Sdk/Streams/Events.antt =====
-- The lines of a stream that the server sends.
use ai_runtime.Prelude.{
  ◌∷◌, String, ◌≡◌, refl, ap, sym, ◌∙◌, Option, none, some, List, [], ◌++◌, ◌+++◌, All, All-append,
}
use ai_runtime.Errors.{ProviderError, provider_error_of}
use ai_runtime.Json.{Json, JsonCodec}
use ai_runtime.Generation.{GenerationResponse, GenerationDelta, GenerationStreamEvent}
use ai_runtime.Generation
use ai_runtime.Executor.{Stream, done, fail, emit}
use ai_runtime.Responses.Payload.Replay.{IsValidResponse}
use ai_runtime.Api.Schemas.{response_dump}
use ai_runtime.Api.Streaming.{
  after_failure, Body, closed, pending_events, body_text, format_stream_event, format_stream_error,
  delta_json, stream_error_json, sse_message,
}
use ai_runtime.Sdk.Models.Written.{response_schema-valid}
use ai_runtime.Sdk.Streams.Lines.{
  IsPlain, unlines, unlines-append, frame_lines, sse_message-unlines, frame_lines-IsPlain,
}

-- The responses in a stream are ones that can be built.
abbrev pub AreValid : Stream GenerationStreamEvent → Type 0
AreValid done = Unit
AreValid (fail e) = Unit
AreValid (emit (Generation.delta d) rest) = AreValid rest
AreValid (emit (Generation.completed r) rest) = IsValidResponse r × AreValid rest

-- What is relied on in the JSON module for a payload: it is written in printable ASCII, and read back.
pub record IsWritable (json : JsonCodec) (payload : Json) : Type 0 where
  pub round_trip : json.loads (json.dumps payload) ≡ some payload
  pub plain : IsPlain (json.dumps payload)

-- What is relied on in httpx: a body of lines is split into them.
abbrev pub SplitsLines : (String → List String) → Type 0
SplitsLines iter_lines = (ls : List String) → All IsPlain ls → iter_lines (unlines ls) ≡ ls

abbrev pub error_payloads : JsonCodec → String → Option ProviderError → List Json
error_payloads json request_id none = []
error_payloads json request_id (some e) = stream_error_json json e request_id ∷ []

-- The payloads that the server writes.
abbrev pub payloads_of : JsonCodec → String → Stream GenerationStreamEvent → List Json
payloads_of json request_id done = []
payloads_of json request_id (fail e) = error_payloads json request_id (provider_error_of e)
payloads_of json request_id (emit (Generation.delta d) rest) =
    delta_json json d ∷ payloads_of json request_id rest
payloads_of json request_id (emit (Generation.completed r) rest) =
    response_dump r ∷ payloads_of json request_id rest

-- Each payload of a stream is writable.
abbrev pub AreWritable : JsonCodec → String → Stream GenerationStreamEvent → Type 0
AreWritable json request_id s = All (IsWritable json) (payloads_of json request_id s)

-- The events of a stream, with their payloads, as the server writes them.
abbrev pub error_lines : JsonCodec → String → Option ProviderError → List String
error_lines json request_id none = []
error_lines json request_id (some e) =
    frame_lines "response.error" (json.dumps (stream_error_json json e request_id))

abbrev pub lines_of : JsonCodec → String → Stream GenerationStreamEvent → List String
lines_of json request_id done = []
lines_of json request_id (fail e) = error_lines json request_id (provider_error_of e)
lines_of json request_id (emit (Generation.delta d) rest) =
    frame_lines "response.delta" (json.dumps (delta_json json d)) ++ lines_of json request_id rest
lines_of json request_id (emit (Generation.completed r) rest) =
    frame_lines "response.completed" (json.dumps (response_dump r)) ++ lines_of json request_id rest

pub delta_name : IsPlain "response.delta"
delta_name = (
  refl,
  refl,
  (
    refl,
    refl,
    (
      refl,
      refl,
      (
        refl,
        refl,
        (
          refl,
          refl,
          (
            refl,
            refl,
            (
              refl,
              refl,
              (
                refl,
                refl,
                (
                  refl,
                  refl,
                  (refl, refl, (refl, refl, (refl, refl, (refl, refl, (refl, refl, tt))))),
                ),
              ),
            ),
          ),
        ),
      ),
    ),
  ),
)

pub completed_name : IsPlain "response.completed"
completed_name = (
  refl,
  refl,
  (
    refl,
    refl,
    (
      refl,
      refl,
      (
        refl,
        refl,
        (
          refl,
          refl,
          (
            refl,
            refl,
            (
              refl,
              refl,
              (
                refl,
                refl,
                (
                  refl,
                  refl,
                  (
                    refl,
                    refl,
                    (
                      refl,
                      refl,
                      (
                        refl,
                        refl,
                        (
                          refl,
                          refl,
                          (refl, refl, (refl, refl, (refl, refl, (refl, refl, (refl, refl, tt))))),
                        ),
                      ),
                    ),
                  ),
                ),
              ),
            ),
          ),
        ),
      ),
    ),
  ),
)

pub error_name : IsPlain "response.error"
error_name = (
  refl,
  refl,
  (
    refl,
    refl,
    (
      refl,
      refl,
      (
        refl,
        refl,
        (
          refl,
          refl,
          (
            refl,
            refl,
            (
              refl,
              refl,
              (
                refl,
                refl,
                (
                  refl,
                  refl,
                  (refl, refl, (refl, refl, (refl, refl, (refl, refl, (refl, refl, tt))))),
                ),
              ),
            ),
          ),
        ),
      ),
    ),
  ),
)

module _ (json : JsonCodec) (request_id : String) where
  pub lines_of-IsPlain :
      (s : Stream GenerationStreamEvent)
      → AreWritable json request_id s
      → All IsPlain (lines_of json request_id s)
  lines_of-IsPlain done w = tt
  lines_of-IsPlain (fail e) w = go (provider_error_of e) w
    where
      go :
          (p : Option ProviderError)
          → All (IsWritable json) (error_payloads json request_id p)
          → All IsPlain (error_lines json request_id p)
      go none w = tt
      go (some p) (w, _) = frame_lines-IsPlain "response.error" _ error_name w.plain
  lines_of-IsPlain (emit (Generation.delta d) rest) (w, ws) =
      All-append IsPlain (frame_lines "response.delta" (json.dumps (delta_json json d)))
        (lines_of json request_id rest) (frame_lines-IsPlain "response.delta" _ delta_name w.plain)
        (lines_of-IsPlain rest ws)
  lines_of-IsPlain (emit (Generation.completed r) rest) (w, ws) =
      All-append IsPlain (frame_lines "response.completed" (json.dumps (response_dump r)))
        (lines_of json request_id rest)
        (frame_lines-IsPlain "response.completed" _ completed_name w.plain)
        (lines_of-IsPlain rest ws)

  -- A chunk in front of a body is its lines in front of the body's.
  chunk-unlines :
      (event : String) (payload : Json) (rest : Body) (ls : List String)
      → body_text rest ≡ unlines ls
      → sse_message json event payload +++ body_text rest
        ≡ unlines (frame_lines event (json.dumps payload) ++ ls)
  chunk-unlines event payload rest ls h =
      ap (λ t. t +++ body_text rest) (sse_message-unlines json event payload)
      ∙ ap (λ t. unlines (frame_lines event (json.dumps payload)) +++ t) h
      ∙ sym (unlines-append (frame_lines event (json.dumps payload)) ls)

  pub body_text-pending_events :
      (s : Stream GenerationStreamEvent)
      → AreValid s
      → body_text (pending_events json request_id s) ≡ unlines (lines_of json request_id s)
  unfolding pending_events format_stream_event format_stream_error
  body_text-pending_events done v = refl
  body_text-pending_events (fail e) v = go (provider_error_of e)
    where
      go :
          (p : Option ProviderError)
          → body_text (after_failure json request_id p) ≡ unlines (error_lines json request_id p)
      go none = refl
      go (some p) =
          chunk-unlines "response.error" (stream_error_json json p request_id) closed [] refl
  body_text-pending_events (emit (Generation.delta d) rest) v =
      chunk-unlines "response.delta" (delta_json json d) (pending_events json request_id rest)
        (lines_of json request_id rest) (body_text-pending_events rest v)
  body_text-pending_events (emit (Generation.completed r) rest) (valid, v) =
      rw (response_schema-valid r valid) (
        chunk-unlines "response.completed" (response_dump r) (pending_events json request_id rest)
          (lines_of json request_id rest) (body_text-pending_events rest v))
