-- ===== src/Providers/OpenAi/Steps.antt =====
-- One round of OpenAI's stream.
use ai_runtime.Prelude.{
  String, ◌≡◌, refl, true, false, Option, none, some, Bool-cases, inl, inr, str_eq,
}
use ai_runtime.Errors.{ok}
use ai_runtime.Json.{Json, JsonCodec, Fields, get_field}
use ai_runtime.Generation.{is_blank, GenerationRequest, Float}
use ai_runtime.Providers.{HttpClient, as_object, first_item, int_of}
use ai_runtime.Providers.Exchange.{Progress, complete_stream}
use ai_runtime.Providers.Sound.{AnyValue, Checked}
use ai_runtime.Providers.Streams.{
  Counted, bind-Counted, both_counts-Counted, require_usage-Counted, Tracks, AreSound, StepsSound,
  DoesSound, yield_text-YieldsSound, and_after-DoesSound, complete_stream-EndsSound,
  text_or_other-not_blank, chunk-DoesSound, bind-DoesSound, stream_exchange-AreSound,
}
use ai_runtime.Providers.OpenAi.{
  counts_of, usage_from_openai_payload, choice_content, chunk_content, with_usage, openai_chunk,
  openai_step, openai_stream, openai_headers, OpenAiModelProvider,
}
use ai_runtime.Providers.OpenAi.Body.{to_openai_body}

usage_from_openai_payload-Counted :
    (u : Option Json) → Counted AnyValue (usage_from_openai_payload u)
unfolding usage_from_openai_payload
usage_from_openai_payload-Counted u = go (as_object u)
  where
    go : (o : Option Fields) → Counted AnyValue (counts_of o)
    go none = tt
    go (some fs) = require_usage-Counted "OpenAI response usage is invalid" _ (
        both_counts-Counted (int_of (get_field "prompt_tokens" fs))
          (int_of (get_field "completion_tokens" fs)))

with_usage-Counted :
    (u : Option Json) (seen : String) (p : Progress)
    → Tracks seen p
    → Counted (Tracks seen) (with_usage p u)
with_usage-Counted none seen p t = t
with_usage-Counted (some u) seen p t =
    bind-Counted AnyValue (Tracks seen) (usage_from_openai_payload (some u)) _
      (usage_from_openai_payload-Counted (some u))
      (λ usage a. record { model = t.model; assembled = t.assembled })

chunk_content-Checked : (o : Option Json) → Checked AnyValue (chunk_content o)
chunk_content-Checked none = tt
chunk_content-Checked (some j) = go (as_object (some j))
  where
    go : (c : Option Fields) → Checked AnyValue (choice_content c)
    go none = (_, refl)
    go (some fs) = tt

openai_chunk-DoesSound :
    (seen : String) (p : Progress) (fs : Fields)
    → Tracks seen p
    → DoesSound seen (openai_chunk p fs)
unfolding openai_chunk
openai_chunk-DoesSound seen p fs t =
    bind-DoesSound seen (chunk_content (first_item (get_field "choices" fs))) _
      (chunk_content-Checked (first_item (get_field "choices" fs)))
      (λ content. and_after-DoesSound seen _ _ (with_usage-Counted (get_field "usage" fs)) (
        yield_text-YieldsSound "OpenAI stream is missing a valid id" seen _ content (record {
          model = text_or_other-not_blank p.model (get_field "model" fs) t.model;
          assembled = t.assembled;
        })))

openai_step-StepsSound :
    (json : JsonCodec) (seen : String) (p : Progress) (event : Option String × String)
    → Tracks seen p
    → StepsSound seen (openai_step json p event)
unfolding openai_step
openai_step-StepsSound json seen p (name, payload) t = elim (Bool-cases (str_eq payload "[DONE]")) [
  | inl e ↦ rw e tt
  | inr e ↦ rw e (
      chunk-DoesSound "OpenAI" seen (json.loads payload) (openai_chunk p)
        (λ fs. openai_chunk-DoesSound seen p fs t))
]

pub openai_stream-AreSound :
    {S : Type 0} (json : JsonCodec) (write : Float → Json) (http : HttpClient S)
    (p : OpenAiModelProvider) (r : GenerationRequest) (s : S)
    → is_blank r.model ≡ false
    → AreSound "" (openai_stream json write http p r s).0
unfolding openai_stream
openai_stream-AreSound json write http p r s m =
    stream_exchange-AreSound (openai_step json)
      (complete_stream "OpenAI stream is missing a valid id") (openai_step-StepsSound json)
      (complete_stream-EndsSound "OpenAI stream is missing a valid id") http "OpenAI" _
      (openai_headers p) (ok (to_openai_body write r true)) r s tt m
