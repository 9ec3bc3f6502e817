-- ===== src/Providers/Sse.antt =====
-- src/ai_runtime/providers/sse.py
use ai_runtime.Prelude.{
  String, Bool, Option, none, some, List, [], ◌∷◌, ◌++◌, is_empty_text, strip, lstrip,
  strip_prefix?, if◌then◌else◌, rstrip_cr, join_lines, starts_with_colon,
}

-- `if data_lines: yield event_name, "\n".join(data_lines)`
abbrev flush : Option String → List String → List (Option String × String)
flush event_name [] = []
flush event_name (l ∷ ls) = (event_name, join_lines (l ∷ ls)) ∷ []

-- One line that is not empty: the event's name and the data lines after it.
abbrev take_data : Option String → List String → Option String → Option String × List String
take_data event_name data_lines none = (event_name, data_lines)
take_data event_name data_lines (some value) = (event_name, data_lines ++ lstrip value ∷ [])

abbrev take_event :
    Option String → List String → String → Option String → Option String × List String
take_event event_name data_lines line none =
    take_data event_name data_lines (strip_prefix? "data:" line)
take_event event_name data_lines line (some value) = (some (strip value), data_lines)

abbrev take_line : Option String → List String → String → Option String × List String
take_line event_name data_lines line =
    if starts_with_colon line
    then (event_name, data_lines)
    else take_event event_name data_lines line (strip_prefix? "event:" line)

-- The loop of `iter_sse_events`, on the lines without their "\r". A body that is `cut` off ends in an
-- exception, so nothing is yielded behind its last line.
unfoldable pub events_from :
    Bool → Option String → List String → List String → List (Option String × String)
events_from cut event_name data_lines [] = if cut then [] else flush event_name data_lines
events_from cut event_name data_lines (raw_line ∷ lines) =
    let line = rstrip_cr raw_line in
    let (name, data_after) = take_line event_name data_lines line in
    let after_blank = events_from cut none [] lines in
    let after_line = events_from cut name data_after lines in
    if is_empty_text line then flush event_name data_lines ++ after_blank else after_line

-- `iter_sse_events`
unfoldable pub iter_sse_events : Bool → List String → List (Option String × String)
iter_sse_events cut lines = events_from cut none [] lines
