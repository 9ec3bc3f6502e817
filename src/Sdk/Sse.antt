-- ===== src/Sdk/Sse.antt =====
-- src/sdk/python/src/ai_runtime_sdk/_sse.py, and the frames of client.py.
use Prim.Native.Char.{Char, code}
use ai_runtime.Prelude.{
  rstrip_cr, starts_with_colon, join_lines, ℕ, String, Bool, Option, none, some, List, [], ◌∷◌,
  ◌++◌, ◌==◌, ◌+++◌, is_empty_text, str_eq, if◌then◌else◌,
}
use ai_runtime.Json.{Json, JsonCodec, obj, Fields}
use ai_runtime.Sdk.Errors.{AiRuntimeError, Outcome, raised, returned, error_from_body}
use ai_runtime.Sdk.Models.{Lax, Response, ResponseDelta, read_response, read_delta}

abbrev before : Char → String × String → String × String
before c (name, value) = (String.◌∷◌ c name, value)

-- `line.partition(":")`, without the separator
unfoldable pub partition_colon : String → String × String
partition_colon String.[] = ("", "")
partition_colon (String.◌∷◌ c s) =
    let rest = partition_colon s in if code c == 58 then ("", s) else before c rest

-- `if value.startswith(" "): value = value[1:]`
unfoldable pub drop_space : String → String
drop_space String.[] = ""
drop_space (String.◌∷◌ c s) = if code c == 32 then s else String.◌∷◌ c s

pub record SseParser : Type 0 where
  pub event : String
  pub data_lines : List String

abbrev pub new_parser : SseParser
new_parser = record { event = "message"; data_lines = [] }

abbrev finish_lines : String → List String → Option (String × String) × SseParser
finish_lines event [] = (none, new_parser)
finish_lines event (l ∷ ls) = (some (event, join_lines (l ∷ ls)), new_parser)

-- `SseParser._finish`
unfoldable pub finish : SseParser → Option (String × String) × SseParser
finish p = finish_lines p.event p.data_lines

abbrev feed_field : String → String → SseParser → SseParser
feed_field name value p =
    if str_eq name "event"
    then record p { event = value }
    else if str_eq name "data"
    then record p { data_lines = p.data_lines ++ value ∷ [] }
    else p

abbrev feed_pair : String × String → SseParser → Option (String × String) × SseParser
feed_pair (name, value) p = (none, feed_field name (drop_space value) p)

abbrev pub feed_stripped : String → SseParser → Option (String × String) × SseParser
feed_stripped line p =
    if is_empty_text line
    then finish p
    else if starts_with_colon line
    then (none, p)
    else feed_pair (partition_colon line) p

-- `SseParser.feed`
unfoldable pub feed : SseParser → String → Option (String × String) × SseParser
feed p line = feed_stripped (rstrip_cr line) p

abbrev and_then : Option (String × String) → List (String × String) → List (String × String)
and_then none frames = frames
and_then (some frame) frames = frame ∷ frames

-- `_iter_frames`, from a parser's state on; where the lines were `cut` off, an exception ends it.
unfoldable pub iter_frames : Bool → SseParser → List String → List (String × String)
iter_frames cut p [] = let (trailing, p') = finish p in if cut then [] else and_then trailing []
iter_frames cut p (line ∷ lines) =
    let (frame, p') = feed p line in and_then frame (iter_frames cut p' lines)

pub data StreamItem : Type 0 where
  delta : ResponseDelta → StreamItem
  completed : Response → StreamItem

-- An `AIRuntimeError` about a response that the client could not read.
abbrev pub invalid_response : String → ℕ → Option String → AiRuntimeError
invalid_response message status request_id = record {
  code = "invalid_response";
  message = message;
  status_code = status;
  request_id = request_id;
  retry_after = none;
}

abbrev item_or_invalid : Option String → Option StreamItem → Outcome StreamItem
item_or_invalid request_id none =
    raised (invalid_response "Stream event did not match the API contract." 200 request_id)
item_or_invalid request_id (some item) = returned item

abbrev delta_item : Option ResponseDelta → Option StreamItem
delta_item none = none
delta_item (some d) = some (delta d)

abbrev completed_item : Option Response → Option StreamItem
completed_item none = none
completed_item (some r) = some (completed r)

module _ (lax : Lax) where
  abbrev parse_object : String → Option String → Fields → Outcome StreamItem
  parse_object event request_id fs =
      if str_eq event "response.delta"
      then item_or_invalid request_id (delta_item (read_delta fs))
      else if str_eq event "response.completed"
      then item_or_invalid request_id (completed_item (read_response lax fs))
      else raised (invalid_response ("Unexpected stream event '" +++ event +++ "'.") 200 request_id)

  abbrev parse_payload : String → Option String → Json → Outcome StreamItem
  parse_payload event request_id (obj fs) = parse_object event request_id fs
  parse_payload event request_id _ =
      raised (invalid_response "Stream event was not a JSON object." 200 request_id)

  abbrev parse_loaded : String → Option String → Option Json → Outcome StreamItem
  parse_loaded event request_id none =
      raised (invalid_response "Stream event was not JSON." 200 request_id)
  parse_loaded event request_id (some payload) =
      if str_eq event "response.error"
      then raised (error_from_body (some payload) 200 request_id none "Stream failed.")
      else parse_payload event request_id payload

  -- `parse_stream_frame`
  unfoldable pub parse_stream_frame :
      JsonCodec → String → String → Option String → Outcome StreamItem
  parse_stream_frame json event payload request_id =
      parse_loaded event request_id (json.loads payload)
