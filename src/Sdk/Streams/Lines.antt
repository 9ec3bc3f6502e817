-- ===== src/Sdk/Streams/Lines.antt =====
-- Frames as lines of a body: what the server writes is read as the same frames.
use Prim.Native.Char.{code}
use ai_runtime.Prelude.{
  rstrip_cr, starts_with_colon, join_lines, String, ◌≡◌, refl, ap, sym, ◌∙◌, Bool, true, false,
  ◌==◌, leb, none, some, List, [], ◌∷◌, ◌++◌, ◌+++◌, text_assoc, All, arith, is_empty_text,
  if◌then◌else◌, ◌&&◌,
}
use ai_runtime.Json.{Json, JsonCodec}
use ai_runtime.Api.Streaming.{sse_message}
use ai_runtime.Sdk.Sse.{
  SseParser, new_parser, partition_colon, drop_space, feed, finish, iter_frames, feed_stripped,
}

-- Printable ASCII, which `json.dumps(…, ensure_ascii=True)` writes.
abbrev pub IsPlain : String → Type 0
IsPlain String.[] = Unit
IsPlain (String.◌∷◌ c s) = (leb 32 (code c) ≡ true) × (leb (code c) 126 ≡ true) × IsPlain s

-- The lines of a text, each with its line break.
abbrev pub unlines : List String → String
unlines [] = ""
unlines (l ∷ ls) = l +++ "\n" +++ unlines ls

pub unlines-append : (xs ys : List String) → unlines (xs ++ ys) ≡ unlines xs +++ unlines ys
unlines-append [] ys = refl
unlines-append (x ∷ xs) ys =
    ap (λ s. x +++ "\n" +++ s) (unlines-append xs ys)
    ∙ sym (text_assoc x ("\n" +++ unlines xs) (unlines ys))

rstrip_cr-IsPlain : (s : String) → IsPlain s → rstrip_cr s ≡ s
unfolding rstrip_cr
rstrip_cr-IsPlain String.[] h = refl
rstrip_cr-IsPlain (String.◌∷◌ c s) (low, high, h) =
    let no_cr : (code c == 13) ≡ false = ground arith in
    rw (rstrip_cr-IsPlain s h) (go (is_empty_text s) no_cr)
  where
    go :
        {b : Bool} (a : Bool) → b ≡ false → (if a && b then "" else String.◌∷◌ c s) ≡ String.◌∷◌ c s
    go true e = rw e refl
    go false e = refl

IsPlain-append : (s t : String) → IsPlain s → IsPlain t → IsPlain (s +++ t)
IsPlain-append String.[] t h k = k
IsPlain-append (String.◌∷◌ c s) t (low, high, h) k = (low, high, IsPlain-append s t h k)

event_prefix : IsPlain "event: "
event_prefix = (
  refl,
  refl,
  (refl, refl, (refl, refl, (refl, refl, (refl, refl, (refl, refl, (refl, refl, tt)))))),
)

data_prefix : IsPlain "data: "
data_prefix = (refl, refl, (refl, refl, (refl, refl, (refl, refl, (refl, refl, (refl, refl, tt))))))

-- The lines of one event.
abbrev pub frame_lines : String → String → List String
frame_lines event payload = ("event: " +++ event) ∷ ("data: " +++ payload) ∷ "" ∷ []

pub sse_message-unlines :
    (json : JsonCodec) (event : String) (payload : Json)
    → sse_message json event payload ≡ unlines (frame_lines event (json.dumps payload))
unfolding sse_message
sse_message-unlines json event payload = refl

pub frame_lines-IsPlain :
    (event payload : String)
    → IsPlain event
    → IsPlain payload
    → All IsPlain (frame_lines event payload)
frame_lines-IsPlain event payload h k = (
  IsPlain-append "event: " event event_prefix h,
  (IsPlain-append "data: " payload data_prefix k, (tt, tt)),
)

partition_event :
    (event : String) → partition_colon ("event: " +++ event) ≡ ("event", " " +++ event)
unfolding partition_colon
partition_event event = refl

partition_data :
    (payload : String) → partition_colon ("data: " +++ payload) ≡ ("data", " " +++ payload)
unfolding partition_colon
partition_data payload = refl

feed_event :
    (p : SseParser) (event : String)
    → IsPlain event
    → feed p ("event: " +++ event) ≡ (none, record p { event = event })
unfolding feed drop_space starts_with_colon
feed_event p event h =
    ap (λ l. feed_stripped l p)
      (rstrip_cr-IsPlain ("event: " +++ event) (IsPlain-append "event: " event event_prefix h))
    ∙ rw (partition_event event) refl

feed_data :
    (p : SseParser) (payload : String)
    → IsPlain payload
    → feed p ("data: " +++ payload) ≡ (none, record p { data_lines = p.data_lines ++ payload ∷ [] })
unfolding feed drop_space starts_with_colon
feed_data p payload h =
    ap (λ l. feed_stripped l p)
      (rstrip_cr-IsPlain ("data: " +++ payload) (IsPlain-append "data: " payload data_prefix h))
    ∙ rw (partition_data payload) refl

feed_end :
    (event payload : String)
    → feed (record { event = event; data_lines = payload ∷ [] }) ""
      ≡ (some (event, payload), new_parser)
unfolding feed finish rstrip_cr join_lines
feed_end event payload = refl

-- Reading the lines of one event gives its frame, and the parser is as new.
pub iter_frames-frame_lines :
    (cut : Bool) (event payload : String) (lines : List String)
    → IsPlain event
    → IsPlain payload
    → iter_frames cut new_parser (frame_lines event payload ++ lines)
      ≡ (event, payload) ∷ iter_frames cut new_parser lines
unfolding iter_frames
iter_frames-frame_lines cut event payload lines h k = rw (feed_event new_parser event h) (
    rw (feed_data (record new_parser { event = event }) payload k)
      (rw (feed_end event payload) refl))

-- No lines are left: no frame.
pub iter_frames-nil : (cut : Bool) → iter_frames cut new_parser [] ≡ []
unfolding iter_frames finish
iter_frames-nil true = refl
iter_frames-nil false = refl
