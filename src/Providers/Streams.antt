-- ===== src/Providers/Streams.antt =====
-- What the three adapters' `stream` yields of any body: deltas that can be built, and then one
-- completed response with the deltas' text, or a failure.
use ai_runtime.Prelude.{
  String, ◌≡◌, refl, ap, Bool, true, false, Option, none, some, List, [], ◌∷◌, ◌+++◌, Bool-cases,
  ◌⊎◌, inl, inr, leb, is_empty_text,
}
use ai_runtime.Errors.{Error, domain_validation, Result, ok, err, ◌>>=◌}
use ai_runtime.Json.{Json, Fields, text, null, bool, num, other_num, arr, obj}
use ai_runtime.Generation.{
  ℤ, pos, negsuc, TokenUsage, token_usage, is_blank, require_non_blank, GenerationDelta,
  post_init_delta, GenerationResponse, GenerationStreamEvent, delta, completed, post_init_message,
  post_init_response, GenerationRequest,
}
use ai_runtime.Executor.{Stream, done, fail, emit}
use ai_runtime.Responses.Payload.Replay.{IsValidResponse}
use ai_runtime.Providers.{
  some_usage, both_counts, require_usage, build_response, StreamReply, no_reply, lines_reply,
  HttpClient, text_or_other, as_object,
}
use ai_runtime.Providers.Exchange.{
  Progress, Step, break, does, yield_delta, yield_text, and_after, complete_stream, last_event,
  run_events, after_step, go_on, stream_exchange, after_stream_reply, status_error, new_progress,
  after_body, cut_error, loaded_chunk, object_chunk,
}
use ai_runtime.Providers.Sse.{iter_sse_events}
use ai_runtime.Providers.Sound.{IsProviderError, Checked, AnyValue}

-- The error of a response without text, which is built outside the adapters' `try` blocks.
abbrev pub no_text : Error
no_text = domain_validation "content must not be empty or blank"

-- The errors of a `TokenUsage` with a negative count, which the streams build outside of any clause
-- that catches a `ValueError`.
abbrev pub IsNegativeCount : Error → Type 0
IsNegativeCount e = (name : String) × (e ≡ domain_validation (name +++ " must not be negative"))

-- The property of a value, and of an error that it is a provider's or is raised for a count.
abbrev pub Counted : {A : Type 0} → (A → Type 0) → Result A → Type 0
Counted P (ok a) = P a
Counted P (err e) = IsProviderError e ⊎ IsNegativeCount e

module _ {A B : Type 0} where
  pub bind-Counted :
      (P : A → Type 0) (Q : B → Type 0) (m : Result A) (f : A → Result B)
      → Counted P m
      → ((a : A) → P a → Counted Q (f a))
      → Counted Q (m >>= f)
  bind-Counted P Q (ok a) f c h = h a c
  bind-Counted P Q (err e) f c h = c

pub token_usage-Counted : (i o : ℤ) → Counted AnyValue (token_usage i o)
unfolding token_usage
token_usage-Counted (pos i) (pos o) = tt
token_usage-Counted (pos i) (negsuc o) = inr ("output_tokens", refl)
token_usage-Counted (negsuc i) o = inr ("input_tokens", refl)

pub some_usage-Counted :
    (u : Result TokenUsage) → Counted AnyValue u → Counted AnyValue (some_usage u)
some_usage-Counted (ok u) c = tt
some_usage-Counted (err e) c = c

pub both_counts-Counted : (i o : Option ℤ) → Counted AnyValue (both_counts i o)
both_counts-Counted (some i) (some o) =
    some_usage-Counted (token_usage i o) (token_usage-Counted i o)
both_counts-Counted (some i) none = tt
both_counts-Counted none (some o) = tt
both_counts-Counted none none = tt

pub require_usage-Counted :
    (message : String) (u : Result (Option TokenUsage))
    → Counted AnyValue u
    → Counted AnyValue (require_usage message u)
require_usage-Counted message (ok none) c = inl (_, refl)
require_usage-Counted message (ok (some u)) c = tt
require_usage-Counted message (err e) c = c

abbrev pub MayFailWith : String → Error → Type 0
MayFailWith seen e =
    (IsProviderError e ⊎ IsNegativeCount e) ⊎ ((is_blank seen ≡ true) × (e ≡ no_text))

-- The events of a stream behind the text `seen`.
abbrev pub AreSound : String → Stream GenerationStreamEvent → Type 0
AreSound seen done = ⊥
AreSound seen (fail e) = MayFailWith seen e
AreSound seen (emit (delta d) rest) =
    (post_init_delta d ≡ ok tt) × AreSound (seen +++ d.content) rest
AreSound seen (emit (completed r) rest) =
    IsValidResponse r × (r.output.content ≡ seen) × (rest ≡ done)

-- The model is not blank, and the assembled text is what was yielded.
pub record Tracks (seen : String) (p : Progress) : Type 0 where
  pub model : is_blank p.model ≡ false
  pub assembled : p.assembled ≡ seen

abbrev pub YieldsSound : String → Result (Option GenerationDelta × Progress) → Type 0
YieldsSound seen (err e) = IsProviderError e
YieldsSound seen (ok (none, p)) = Tracks seen p
YieldsSound seen (ok (some d, p)) = (post_init_delta d ≡ ok tt) × Tracks (seen +++ d.content) p

abbrev pub DoesSound : String → Result (Option GenerationDelta × Result Progress) → Type 0
DoesSound seen (err e) = IsProviderError e
DoesSound seen (ok (none, r)) = Counted (Tracks seen) r
DoesSound seen (ok (some d, r)) =
    (post_init_delta d ≡ ok tt) × Counted (Tracks (seen +++ d.content)) r

abbrev pub StepsSound : String → Step → Type 0
StepsSound seen break = Unit
StepsSound seen (does r) = DoesSound seen r

abbrev pub EndsSound : String → Result GenerationResponse → Type 0
EndsSound seen (ok r) = IsValidResponse r × (r.output.content ≡ seen)
EndsSound seen (err e) = MayFailWith seen e

pub yield_delta-YieldsSound :
    (message seen : String) (p : Progress) (content : String)
    → Tracks seen p
    → is_empty_text content ≡ false
    → YieldsSound seen (yield_delta message p content)
unfolding yield_delta post_init_delta require_non_blank
yield_delta-YieldsSound message seen p content t h = elim (Bool-cases (is_blank p.response_id)) [
  | inl e ↦ rw e (_, refl)
  | inr e ↦
      rw (e, t.model, h)
        (
          simp (e, t.model, h),
          record { model = t.model; assembled = ap (λ s. s +++ content) t.assembled },
        )
]

pub yield_text-YieldsSound :
    (message seen : String) (p : Progress) (content : Option Json)
    → Tracks seen p
    → YieldsSound seen (yield_text message p content)
unfolding yield_text
yield_text-YieldsSound message seen p none t = t
yield_text-YieldsSound message seen p (some (text content)) t =
    elim (Bool-cases (is_empty_text content)) [
      | inl e ↦ rw e t
      | inr e ↦ rw e (yield_delta-YieldsSound message seen p content t e)
    ]
yield_text-YieldsSound message seen p (some null) t = t
yield_text-YieldsSound message seen p (some (bool b)) t = t
yield_text-YieldsSound message seen p (some (num n)) t = t
yield_text-YieldsSound message seen p (some (other_num n)) t = t
yield_text-YieldsSound message seen p (some (arr items)) t = t
yield_text-YieldsSound message seen p (some (obj fs)) t = t

pub and_after-DoesSound :
    (seen : String) (next : Progress → Result Progress)
    (r : Result (Option GenerationDelta × Progress))
    → ((s : String) (p : Progress) → Tracks s p → Counted (Tracks s) (next p))
    → YieldsSound seen r
    → DoesSound seen (and_after next r)
and_after-DoesSound seen next (err e) h y = y
and_after-DoesSound seen next (ok (none, p)) h y = h seen p y
and_after-DoesSound seen next (ok (some d, p)) h (valid, y) = (valid, h (seen +++ d.content) p y)

pub complete_stream-EndsSound :
    (message seen : String) (p : Progress)
    → Tracks seen p
    → EndsSound seen (complete_stream message p)
unfolding complete_stream build_response post_init_message post_init_response require_non_blank
complete_stream-EndsSound message seen p t = elim (Bool-cases (is_blank p.response_id)) [
  | inl e ↦ rw e (inl (inl (_, refl)))
  | inr e ↦ elim (Bool-cases (is_blank p.assembled)) [
    | inl blank ↦ rw (e, blank) (inr (rw (← t.assembled) blank, refl))
    | inr present ↦
        rw (e, present, t.model)
          (record { response = simp (e, t.model); output = simp present; calls = tt }, t.assembled)
  ]
]

pub text_or_other-not_blank :
    (other : String) (o : Option Json)
    → is_blank other ≡ false
    → is_blank (text_or_other other o) ≡ false
unfolding text_or_other
text_or_other-not_blank other (some (text s)) h = elim (Bool-cases (is_blank s)) [
  | inl e ↦ rw e h
  | inr e ↦ rw e e
]
text_or_other-not_blank other none h = h
text_or_other-not_blank other (some null) h = h
text_or_other-not_blank other (some (bool b)) h = h
text_or_other-not_blank other (some (num n)) h = h
text_or_other-not_blank other (some (other_num n)) h = h
text_or_other-not_blank other (some (arr items)) h = h
text_or_other-not_blank other (some (obj fs)) h = h

-- A chunk that is read, and then used.
pub chunk-DoesSound :
    (vendor seen : String) (j : Option Json)
    (f : Fields → Result (Option GenerationDelta × Result Progress))
    → ((fs : Fields) → DoesSound seen (f fs))
    → DoesSound seen (loaded_chunk vendor j >>= f)
chunk-DoesSound vendor seen none f h = (_, refl)
chunk-DoesSound vendor seen (some j) f h = go (as_object (some j))
  where
    go : (o : Option Fields) → DoesSound seen (object_chunk vendor o >>= f)
    go none = (_, refl)
    go (some fs) = h fs

-- A part of a step before its delta.
pub bind-DoesSound :
    {A : Type 0} (seen : String) (m : Result A)
    (f : A → Result (Option GenerationDelta × Result Progress))
    → Checked AnyValue m
    → ((a : A) → DoesSound seen (f a))
    → DoesSound seen (m >>= f)
bind-DoesSound seen (ok a) f c h = h a
bind-DoesSound seen (err e) f c h = c

module _ (step : Progress → Option String × String → Step)
    (finish : Progress → Result GenerationResponse)
    (steps : (seen : String) (p : Progress) (event : Option String × String)
      → Tracks seen p
      → StepsSound seen (step p event))
    (ends : (seen : String) (p : Progress) → Tracks seen p → EndsSound seen (finish p)) where
  last_event-AreSound :
      (seen : String) (r : Result GenerationResponse)
      → EndsSound seen r
      → AreSound seen (last_event r)
  last_event-AreSound seen (ok r) (valid, same) = (valid, same, refl)
  last_event-AreSound seen (err e) h = h

  go_on-AreSound :
      (next : Progress → Stream GenerationStreamEvent) (seen : String) (r : Result Progress)
      → ((s : String) (p : Progress) → Tracks s p → AreSound s (next p))
      → Counted (Tracks seen) r
      → AreSound seen (go_on step finish next r)
  go_on-AreSound next seen (ok p) h t = h seen p t
  go_on-AreSound next seen (err e) h t = inl t

  after_step-AreSound :
      (next : Progress → Stream GenerationStreamEvent) (seen : String) (p : Progress) (s : Step)
      → ((s : String) (p : Progress) → Tracks s p → AreSound s (next p))
      → Tracks seen p
      → StepsSound seen s
      → AreSound seen (after_step step finish p next s)
  after_step-AreSound next seen p break h t s = last_event-AreSound seen (finish p) (ends seen p t)
  after_step-AreSound next seen p (does (err e)) h t s = inl (inl s)
  after_step-AreSound next seen p (does (ok (none, r))) h t s = go_on-AreSound next seen r h s
  after_step-AreSound next seen p (does (ok (some d, r))) h t (valid, s) =
      (valid, go_on-AreSound next (seen +++ d.content) r h s)

  abbrev IsCut : Option Error → Type 0
  IsCut none = Unit
  IsCut (some e) = IsProviderError e

  run_events-AreSound :
      (cut_by : Option Error) (events : List (Option String × String))
      → IsCut cut_by
      → (seen : String) (p : Progress) → Tracks seen p
      → AreSound seen (run_events step finish cut_by p events)
  unfolding run_events
  run_events-AreSound none [] c seen p t = last_event-AreSound seen (finish p) (ends seen p t)
  run_events-AreSound (some e) [] c seen p t = inl (inl c)
  run_events-AreSound cut_by (event ∷ events) c seen p t =
      after_step-AreSound (λ p'. run_events step finish cut_by p' events) seen p (step p event)
        (run_events-AreSound cut_by events c) t (steps seen p event t)

  after_stream_reply-AreSound :
      (vendor : String) (r : GenerationRequest) (answer : StreamReply)
      → is_blank r.model ≡ false
      → AreSound "" (after_stream_reply step finish vendor r answer)
  unfolding after_stream_reply
  after_stream_reply-AreSound vendor r no_reply m = inl (inl (_, refl))
  after_stream_reply-AreSound vendor r (lines_reply status lines cut) m =
      elim (Bool-cases (leb 400 status)) [
        | inl e ↦ rw e (refused cut)
        | inr e ↦ rw e (accepted cut)
      ]
    where
      refused :
          (cut : Bool)
          → AreSound "" (
              after_body step finish
                (status_error vendor status)
                (cut_error step finish vendor cut))
      refused true = inl (inl (_, refl))
      refused false = inl (inl (_, refl))

      accepted :
          (cut : Bool)
          → AreSound "" (
              run_events step finish
                (cut_error step finish vendor cut)
                (new_progress r)
                (iter_sse_events cut lines))
      accepted true =
          run_events-AreSound _ (iter_sse_events true lines) (_, refl) "" (new_progress r)
            (record { model = m; assembled = refl })
      accepted false =
          run_events-AreSound _ (iter_sse_events false lines) tt "" (new_progress r)
            (record { model = m; assembled = refl })

  pub stream_exchange-AreSound :
      {S : Type 0} (http : HttpClient S) (vendor url : String) (headers : List (String × String))
      (body : Result Json) (r : GenerationRequest) (s : S)
      → Checked AnyValue body
      → is_blank r.model ≡ false
      → AreSound "" (stream_exchange step finish http vendor url headers body r s).0
  unfolding stream_exchange
  stream_exchange-AreSound http vendor url headers (err e) r s b m = inl (inl b)
  stream_exchange-AreSound http vendor url headers (ok body) r s b m =
      after_stream_reply-AreSound vendor r (http.stream url headers body s).0 m
