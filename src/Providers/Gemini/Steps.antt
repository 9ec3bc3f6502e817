-- ===== src/Providers/Gemini/Steps.antt =====
-- One round of Gemini's stream.
use ai_runtime.Prelude.{
  String, ◌≡◌, refl, Bool, true, false, Option, none, some, Bool-cases, inl, inr, is_empty_text,
}
use ai_runtime.Json.{
  Json, JsonCodec, Fields, Items, nil, cons, get_field, null, bool, num, other_num, text, arr, obj,
}
use ai_runtime.Errors.{Result, ok, err}
use ai_runtime.Generation.{is_blank, GenerationRequest, TokenUsage, Float}
use ai_runtime.Providers.{HttpClient, as_object, first_item, int_of}
use ai_runtime.Providers.Exchange.{Progress, complete_stream}
use ai_runtime.Providers.Sound.{AnyValue, Checked, if-Checked, bind-Checked}
use ai_runtime.Providers.Streams.{
  Counted, both_counts-Counted, Tracks, AreSound, StepsSound, DoesSound, YieldsSound,
  yield_delta-YieldsSound, and_after-DoesSound, complete_stream-EndsSound, text_or_other-not_blank,
  chunk-DoesSound, bind-DoesSound, stream_exchange-AreSound,
}
use ai_runtime.Prelude.{All}
use ai_runtime.Providers.Gemini.{
  is_thought, part_text, text_of_part, text_from_parts, optional_text_from_parts, content_text,
  candidate_text, chunk_text, after_counts, with_usage, yield_content, gemini_chunk, gemini_step,
  gemini_stream, gemini_headers, GeminiModelProvider,
}
use ai_runtime.Providers.Gemini.Body.{to_gemini_body}
use ai_runtime.Providers.Gemini.Replies.{to_gemini_body-Checked, IsValidMessage}

part_text-Checked : (o : Option Json) → Checked AnyValue (part_text o)
part_text-Checked none = tt
part_text-Checked (some null) = tt
part_text-Checked (some (text s)) = tt
part_text-Checked (some (bool b)) = (_, refl)
part_text-Checked (some (num n)) = (_, refl)
part_text-Checked (some (other_num n)) = (_, refl)
part_text-Checked (some (arr items)) = (_, refl)
part_text-Checked (some (obj fs)) = (_, refl)

text_of_part-Checked : (o : Option Fields) → Checked AnyValue (text_of_part o)
text_of_part-Checked none = (_, refl)
text_of_part-Checked (some part) =
    if-Checked AnyValue (is_thought (get_field "thought" part)) _ _ tt
      (part_text-Checked (get_field "text" part))

text_from_parts-Checked : (items : Items) → Checked AnyValue (text_from_parts items)
unfolding text_from_parts
text_from_parts-Checked nil = tt
text_from_parts-Checked (cons j js) =
    bind-Checked AnyValue AnyValue (text_of_part (as_object (some j))) _
      (text_of_part-Checked (as_object (some j)))
      (λ part u.
        bind-Checked AnyValue AnyValue (text_from_parts js) _ (text_from_parts-Checked js)
          (λ parts v. tt))

optional_text_from_parts-Checked : (o : Option Json) → Checked AnyValue (optional_text_from_parts o)
unfolding optional_text_from_parts
optional_text_from_parts-Checked none = tt
optional_text_from_parts-Checked (some (arr items)) = text_from_parts-Checked items
optional_text_from_parts-Checked (some null) = tt
optional_text_from_parts-Checked (some (text s)) = tt
optional_text_from_parts-Checked (some (bool b)) = tt
optional_text_from_parts-Checked (some (num n)) = tt
optional_text_from_parts-Checked (some (other_num n)) = tt
optional_text_from_parts-Checked (some (obj fs)) = tt

chunk_text-Checked : (o : Option Json) → Checked AnyValue (chunk_text o)
chunk_text-Checked none = tt
chunk_text-Checked (some j) = go (as_object (some j))
  where
    content : (c : Option Fields) → Checked AnyValue (content_text c)
    content none = tt
    content (some fs) = optional_text_from_parts-Checked (get_field "parts" fs)

    go : (c : Option Fields) → Checked AnyValue (candidate_text c)
    go none = (_, refl)
    go (some fs) = content (as_object (get_field "content" fs))

with_usage-Counted :
    (u : Option Fields) (seen : String) (p : Progress)
    → Tracks seen p
    → Counted (Tracks seen) (with_usage u p)
with_usage-Counted none seen p t = t
with_usage-Counted (some fs) seen p t = go _ _ (
    both_counts-Counted (int_of (get_field "promptTokenCount" fs))
      (int_of (get_field "candidatesTokenCount" fs)))
  where
    go :
        (given : Bool) (u : Result (Option TokenUsage))
        → Counted AnyValue u
        → Counted (Tracks seen) (after_counts p given u)
    go given (err e) c = c
    go given (ok (some u)) c = record { model = t.model; assembled = t.assembled }
    go true (ok none) c = inl (_, refl)
    go false (ok none) c = t

yield_content-YieldsSound :
    (seen : String) (p : Progress) (content : String)
    → Tracks seen p
    → YieldsSound seen (yield_content p content)
yield_content-YieldsSound seen p content t = elim (Bool-cases (is_empty_text content)) [
  | inl e ↦ rw e t
  | inr e ↦ rw e (yield_delta-YieldsSound "Gemini stream is missing a valid id" seen p content t e)
]

gemini_chunk-DoesSound :
    (seen : String) (p : Progress) (fs : Fields)
    → Tracks seen p
    → DoesSound seen (gemini_chunk p fs)
unfolding gemini_chunk
gemini_chunk-DoesSound seen p fs t =
    bind-DoesSound seen (chunk_text (first_item (get_field "candidates" fs))) _
      (chunk_text-Checked (first_item (get_field "candidates" fs)))
      (λ content.
        and_after-DoesSound seen _ _ (with_usage-Counted (as_object (get_field "usageMetadata" fs)))
          (yield_content-YieldsSound seen _ content (record {
            model = text_or_other-not_blank p.model (get_field "modelVersion" fs) t.model;
            assembled = t.assembled;
          })))

gemini_step-StepsSound :
    (json : JsonCodec) (seen : String) (p : Progress) (event : Option String × String)
    → Tracks seen p
    → StepsSound seen (gemini_step json p event)
unfolding gemini_step
gemini_step-StepsSound json seen p (name, payload) t =
    chunk-DoesSound "Gemini" seen (json.loads payload) (gemini_chunk p)
      (λ fs. gemini_chunk-DoesSound seen p fs t)

pub gemini_stream-AreSound :
    {S : Type 0} (json : JsonCodec) (write : Float → Json) (http : HttpClient S)
    (p : GeminiModelProvider) (r : GenerationRequest) (s : S)
    → All IsValidMessage r.messages
    → is_blank r.model ≡ false
    → AreSound "" (gemini_stream json write http p r s).0
unfolding gemini_stream
gemini_stream-AreSound json write http p r s h m =
    stream_exchange-AreSound (gemini_step json)
      (complete_stream "Gemini stream is missing a valid id") (gemini_step-StepsSound json)
      (complete_stream-EndsSound "Gemini stream is missing a valid id") http "Gemini" _
      (gemini_headers p) (to_gemini_body json write r) r s (to_gemini_body-Checked json write r h) m
