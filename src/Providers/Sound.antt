-- ===== src/Providers/Sound.antt =====
-- What holds of a result of the adapters' code: a value has a property, an error is a provider's.
use ai_runtime.Prelude.{
  String, ◌≡◌, refl, Bool, true, false, Option, none, some, List, All, Bool-cases, inl, inr, leb,
  if◌then◌else◌,
}
use ai_runtime.Errors.{
  Error, ProviderError, provider_error, provider_error_of, Result, ok, err, ◌>>=◌, raise_if,
}
use ai_runtime.Json.{Json, JsonCodec, null, bool, num, other_num, text, arr, obj, Fields}
use ai_runtime.Generation.{
  ToolCall, post_init_tool_call, post_init_message, TokenUsage, GenerationResponse,
  post_init_response,
}
use ai_runtime.Responses.Payload.Replay.{IsValidResponse}
use ai_runtime.Providers.{
  adapter_error, malformed_unless, as_malformed, build_response, assistant_message, HttpReply,
  http_error, reply, HttpClient,
}
use ai_runtime.Providers.Exchange.{parse_object, after_post, exchange}

abbrev pub IsProviderError : Error → Type 0
IsProviderError e = (p : ProviderError) × (e ≡ provider_error p)

-- A value that is returned has the property.
abbrev pub Gives : {A : Type 0} → (A → Type 0) → Result A → Type 0
Gives P (ok a) = P a
Gives P (err e) = Unit

-- The same, and an error that is raised is a provider's.
abbrev pub Checked : {A : Type 0} → (A → Type 0) → Result A → Type 0
Checked P (ok a) = P a
Checked P (err e) = IsProviderError e

module _ {A B : Type 0} where
  pub bind-Gives :
      (Q : B → Type 0) (m : Result A) (f : A → Result B)
      → ((a : A) → m ≡ ok a → Gives Q (f a))
      → Gives Q (m >>= f)
  bind-Gives Q (ok a) f h = h a refl
  bind-Gives Q (err e) f h = tt

  pub bind-Checked :
      (P : A → Type 0) (Q : B → Type 0) (m : Result A) (f : A → Result B)
      → Checked P m
      → ((a : A) → P a → Checked Q (f a))
      → Checked Q (m >>= f)
  bind-Checked P Q (ok a) f c h = h a c
  bind-Checked P Q (err e) f c h = c

-- No property of the value is claimed.
abbrev pub AnyValue : {A : Type 0} → A → Type 0
AnyValue a = Unit {0}

module _ {A : Type 0} where
  pub if-Checked :
      (P : A → Type 0) (b : Bool) (m n : Result A)
      → Checked P m
      → Checked P n
      → Checked P (if b then m else n)
  if-Checked P true m n h k = h
  if-Checked P false m n h k = k

  pub Gives-ok : (P : A → Type 0) (m : Result A) {a : A} → Gives P m → m ≡ ok a → P a
  Gives-ok P (ok b) g e = rw (← ok_injective e) g
    where
      ok_injective : {x y : A} → ok x ≡ ok y → x ≡ y
      ok_injective e = cc
  Gives-ok P (err b) g e = cc

  pub as_malformed-Checked :
      (P : A → Type 0) (message : String) (m : Result A)
      → Gives P m
      → Checked P (as_malformed message m)
  as_malformed-Checked P message (ok a) g = g
  as_malformed-Checked P message (err e) g = go (provider_error_of e)
    where
      go : (p : Option ProviderError) → IsProviderError (malformed_unless message p)
      go none = (_, refl)
      go (some p) = (p, refl)

pub raise_if-Checked :
    (b : Bool) (message : String) → Checked (λ _. Unit {0}) (raise_if b (adapter_error message))
raise_if-Checked true message = (_, refl)
raise_if-Checked false message = tt

abbrev pub IsValidCall : ToolCall → Type 0
IsValidCall c = post_init_tool_call c ≡ ok tt

pub build_response-Gives :
    (id model content : String) (calls : List ToolCall) (usage : Option TokenUsage)
    → All IsValidCall calls
    → Gives IsValidResponse (build_response id model content calls usage)
unfolding build_response
build_response-Gives id model content calls usage valid =
    bind-Gives IsValidResponse (post_init_message (assistant_message content calls)) _ (λ u message.
      let r : GenerationResponse = record {
        id = id;
        model = model;
        output = assistant_message content calls;
        usage = usage;
        cached = false;
      } in
      bind-Gives IsValidResponse (post_init_response r) (λ _. ok r)
        (λ v response. record { response = response; output = message; calls = valid }))

module _ (json : JsonCodec) (vendor : String) (parse : Fields → Result GenerationResponse) where
  parse_object-Checked :
      ((fs : Fields) → Checked IsValidResponse (parse fs))
      → (j : Option Json) → Checked IsValidResponse (parse_object json vendor parse j)
  parse_object-Checked h none = (_, refl)
  parse_object-Checked h (some (obj fs)) = h fs
  parse_object-Checked h (some null) = (_, refl)
  parse_object-Checked h (some (bool b)) = (_, refl)
  parse_object-Checked h (some (num n)) = (_, refl)
  parse_object-Checked h (some (other_num n)) = (_, refl)
  parse_object-Checked h (some (text s)) = (_, refl)
  parse_object-Checked h (some (arr items)) = (_, refl)

  after_post-Checked :
      ((fs : Fields) → Checked IsValidResponse (parse fs))
      → (r : HttpReply) → Checked IsValidResponse (after_post json vendor parse r)
  unfolding after_post
  after_post-Checked h http_error = (_, refl)
  after_post-Checked h (reply status body) = elim (Bool-cases (leb 400 status)) [
    | inl e ↦ rw e (_, refl)
    | inr e ↦ rw e (parse_object-Checked h (json.loads body))
  ]

  pub exchange-Checked :
      {S : Type 0} (http : HttpClient S) (url : String) (headers : List (String × String))
      (body : Result Json) (s : S)
      → ((fs : Fields) → Checked IsValidResponse (parse fs))
      → Checked (λ _. Unit {0}) body
      → Checked IsValidResponse (exchange json http vendor url headers body parse s).0
  unfolding exchange
  exchange-Checked http url headers (err e) s h b = b
  exchange-Checked http url headers (ok body) s h b =
      after_post-Checked h (http.post url headers body s).0
