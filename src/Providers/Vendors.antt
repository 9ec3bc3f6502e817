-- ===== src/Providers/Vendors.antt =====
-- The adapters that a deployment registers: the constructors of the three provider classes and
-- `build_model_providers` of src/ai_runtime/api/dependencies.py.
use Prim.Native.Char.{code}
use ai_runtime.Prelude.{
  String, ◌≡◌, ◌&&◌, ◌==◌, List, [], ◌∷◌, ◌++◌, All, is_empty_text, if◌then◌else◌,
}
use ai_runtime.Errors.{Result, ok, ◌>>=◌, ◌>>◌, raise_if}
use ai_runtime.Json.{Json, JsonCodec}
use ai_runtime.Generation.{Float, is_blank, GenerationRequest, post_init_request}
use ai_runtime.Executor.{ModelProvider}
use ai_runtime.Responses.Payload.Replay.{IsValidResponse}
use ai_runtime.Providers.{HttpClient, adapter_error}
use ai_runtime.Providers.OpenAi.{OpenAiModelProvider, openai_generate, openai_stream}
use ai_runtime.Providers.Anthropic.{AnthropicModelProvider, anthropic_generate, anthropic_stream}
use ai_runtime.Providers.Gemini.{GeminiModelProvider, gemini_generate, gemini_stream}
use ai_runtime.Providers.Gemini.Replies.{IsValidMessage}
use ai_runtime.Providers.Sound.{Checked}
use ai_runtime.Providers.Streams.{AreSound}

-- `base_url.rstrip("/")`
unfoldable pub rstrip_slash : String → String
rstrip_slash String.[] = ""
rstrip_slash (String.◌∷◌ c s) =
    let rest = rstrip_slash s in
    if is_empty_text rest && code c == 47 then "" else String.◌∷◌ c rest

abbrev require_texts : String → String → Result (Unit {0})
require_texts api_key base_url = do
  raise_if (is_blank api_key) (adapter_error "api_key must not be empty or blank")
  raise_if (is_blank base_url) (adapter_error "base_url must not be empty or blank")

-- `OpenAIModelProvider.__init__`
unfoldable pub new_openai : String → String → Result OpenAiModelProvider
new_openai api_key base_url = do
  require_texts api_key base_url
  ok (record { api_key = api_key; base_url = rstrip_slash base_url })

-- `AnthropicModelProvider.__init__`
unfoldable pub new_anthropic : String → String → Result AnthropicModelProvider
new_anthropic api_key base_url = do
  require_texts api_key base_url
  ok (record { api_key = api_key; base_url = rstrip_slash base_url })

-- `GeminiModelProvider.__init__`
unfoldable pub new_gemini : String → String → Result GeminiModelProvider
new_gemini api_key base_url = do
  require_texts api_key base_url
  ok (record { api_key = api_key; base_url = rstrip_slash base_url })

-- The settings that `build_model_providers` reads.
pub record Settings : Type 0 where
  pub openai_api_key : String
  pub openai_base_url : String
  pub anthropic_api_key : String
  pub anthropic_base_url : String
  pub gemini_api_key : String
  pub gemini_base_url : String

module _ {S : Type 0} (json : JsonCodec) (write : Float → Json) (http : HttpClient S) where
  abbrev pub openai_adapter : OpenAiModelProvider → ModelProvider S
  openai_adapter p = record {
    generate = openai_generate json write http p;
    stream = openai_stream json write http p;
  }

  abbrev pub anthropic_adapter : AnthropicModelProvider → ModelProvider S
  anthropic_adapter p = record {
    generate = anthropic_generate json write http p;
    stream = anthropic_stream json write http p;
  }

  abbrev pub gemini_adapter : GeminiModelProvider → ModelProvider S
  gemini_adapter p = record {
    generate = gemini_generate json write http p;
    stream = gemini_stream json write http p;
  }

  unfoldable pub anthropic_entry : Settings → Result (List (String × ModelProvider S))
  anthropic_entry c = if is_blank c.anthropic_api_key then ok [] else (do
    p ← new_anthropic c.anthropic_api_key c.anthropic_base_url
    ok (("anthropic", anthropic_adapter p) ∷ []))

  unfoldable pub gemini_entry : Settings → Result (List (String × ModelProvider S))
  gemini_entry c = if is_blank c.gemini_api_key then ok [] else (do
    p ← new_gemini c.gemini_api_key c.gemini_base_url
    ok (("gemini", gemini_adapter p) ∷ []))

  -- `build_model_providers`
  unfoldable pub build_model_providers : Settings → Result (List (String × ModelProvider S))
  build_model_providers c = do
    openai ← new_openai c.openai_api_key c.openai_base_url
    anthropic ← anthropic_entry c
    gemini ← gemini_entry c
    ok (("openai", openai_adapter openai) ∷ (anthropic ++ gemini))

-- A request that the domain accepts.
pub record IsAccepted (r : GenerationRequest) : Type 0 where
  pub request : post_init_request r ≡ ok tt
  pub messages : All IsValidMessage r.messages

-- What the executor relies on in an adapter, whatever the vendor answers.
pub record IsSoundAdapter (S : Type 0) (p : ModelProvider S) : Type 0 where
  pub generates :
      (r : GenerationRequest) (s : S) → IsAccepted r → Checked IsValidResponse (p.generate r s).0
  pub streams : (r : GenerationRequest) (s : S) → IsAccepted r → AreSound "" (p.stream r s).0

abbrev pub AreSoundAdapters : (S : Type 0) → List (String × ModelProvider S) → Type 0
AreSoundAdapters S ps = All (λ p. IsSoundAdapter S p.1) ps
