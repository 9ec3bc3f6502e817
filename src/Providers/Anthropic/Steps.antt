-- ===== src/Providers/Anthropic/Steps.antt =====
-- One round of Anthropic's stream.
use ai_runtime.Prelude.{
  String, ◌≡◌, refl, Bool, true, false, Option, none, some, inl, str_eq, if◌then◌else◌,
}
use ai_runtime.Errors.{Result, ok, err, ◌>>=◌, raise_if}
use ai_runtime.Json.{Json, JsonCodec, Fields, get_field}
use ai_runtime.Generation.{
  is_blank, GenerationDelta, GenerationRequest, GenerationResponse, ℤ, Float, token_usage,
}
use ai_runtime.Providers.{HttpClient, as_object, adapter_error}
use ai_runtime.Providers.Exchange.{Progress}
use ai_runtime.Providers.Sound.{AnyValue, Checked, raise_if-Checked}
use ai_runtime.Providers.Streams.{
  Counted, token_usage-Counted, some_usage-Counted, Tracks, AreSound, StepsSound, DoesSound,
  EndsSound, yield_text-YieldsSound, and_after-DoesSound, complete_stream-EndsSound,
  text_or_other-not_blank, chunk-DoesSound, stream_exchange-AreSound,
}
use ai_runtime.Providers.Anthropic.{
  message_start, delta_text, by_type, event_type_of, anthropic_step, stream_usage, anthropic_finish,
  anthropic_stream, anthropic_headers, AnthropicModelProvider,
}
use ai_runtime.Providers.Anthropic.Body.{to_anthropic_body}
use ai_runtime.Providers.Anthropic.Replies.{to_anthropic_body-Checked}

message_start-DoesSound :
    (seen : String) (p : Progress) (o : Option Fields)
    → Tracks seen p
    → DoesSound seen (message_start p o)
message_start-DoesSound seen p none t = (_, refl)
message_start-DoesSound seen p (some fs) t = record {
  model = text_or_other-not_blank p.model (get_field "model" fs) t.model;
  assembled = t.assembled;
}

if-DoesSound :
    (seen : String) (b : Bool) (m n : Result (Option GenerationDelta × Result Progress))
    → DoesSound seen m
    → DoesSound seen n
    → DoesSound seen (if b then m else n)
if-DoesSound seen true m n h k = h
if-DoesSound seen false m n h k = k

by_type-DoesSound :
    (event_type seen : String) (p : Progress) (fs : Fields)
    → Tracks seen p
    → DoesSound seen (by_type event_type p fs)
by_type-DoesSound event_type seen p fs t =
    if-DoesSound seen (str_eq event_type "message_start") _ _
      (message_start-DoesSound seen p (as_object (get_field "message" fs)) t)
      (if-DoesSound seen (str_eq event_type "content_block_delta") _ _
        (and_after-DoesSound seen ok _ (λ s q u. u)
          (yield_text-YieldsSound "Anthropic stream is missing a valid id" seen p
            (delta_text (get_field "delta" fs)) t))
        (if-DoesSound seen (str_eq event_type "message_delta") _ _
          (record { model = t.model; assembled = t.assembled }) t))

anthropic_step-StepsSound :
    (json : JsonCodec) (seen : String) (p : Progress) (event : Option String × String)
    → Tracks seen p
    → StepsSound seen (anthropic_step json p event)
unfolding anthropic_step
anthropic_step-StepsSound json seen p (name, payload) t =
    chunk-DoesSound "Anthropic" seen (json.loads payload)
      (λ fs. by_type (event_type_of name fs) p fs)
      (λ fs. by_type-DoesSound (event_type_of name fs) seen p fs t)

bind-EndsSound :
    {A : Type 0} (seen : String) (m : Result A) (f : A → Result GenerationResponse)
    → Counted AnyValue m
    → ((a : A) → EndsSound seen (f a))
    → EndsSound seen (m >>= f)
bind-EndsSound seen (ok a) f c h = h a
bind-EndsSound seen (err e) f c h = inl c

stream_usage-Counted : (i o : Option ℤ) → Counted AnyValue (stream_usage i o)
stream_usage-Counted (some i) (some o) =
    some_usage-Counted (token_usage i o) (token_usage-Counted i o)
stream_usage-Counted (some i) none = inl (_, refl)
stream_usage-Counted none (some o) = inl (_, refl)
stream_usage-Counted none none = tt

Checked-Counted : {A : Type 0} (m : Result A) → Checked AnyValue m → Counted AnyValue m
Checked-Counted (ok a) c = tt
Checked-Counted (err e) c = inl c

anthropic_finish-EndsSound :
    (seen : String) (p : Progress) → Tracks seen p → EndsSound seen (anthropic_finish p)
unfolding anthropic_finish
anthropic_finish-EndsSound seen p t =
    bind-EndsSound seen
      (raise_if (is_blank p.response_id) (adapter_error "Anthropic stream is missing a valid id")) _
      (Checked-Counted _ (raise_if-Checked (is_blank p.response_id) _))
      (λ u.
        bind-EndsSound seen (stream_usage p.input_tokens p.output_tokens) _
          (stream_usage-Counted p.input_tokens p.output_tokens)
          (λ usage.
            complete_stream-EndsSound "Anthropic stream is missing a valid id" seen
              (record p { usage = usage }) (record { model = t.model; assembled = t.assembled })))

pub anthropic_stream-AreSound :
    {S : Type 0} (json : JsonCodec) (write : Float → Json) (http : HttpClient S)
    (p : AnthropicModelProvider) (r : GenerationRequest) (s : S)
    → is_blank r.model ≡ false
    → AreSound "" (anthropic_stream json write http p r s).0
unfolding anthropic_stream
anthropic_stream-AreSound json write http p r s m =
    stream_exchange-AreSound (anthropic_step json) anthropic_finish (anthropic_step-StepsSound json)
      anthropic_finish-EndsSound http "Anthropic" _ (anthropic_headers p)
      (to_anthropic_body json write r true) r s (to_anthropic_body-Checked json write r true) m
