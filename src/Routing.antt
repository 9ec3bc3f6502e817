-- ===== src/Routing.antt =====
-- src/ai_runtime/domain/routing.py and application/routing/model_router.py: the catalogs of models
-- and the routes that they give. A mapping is an association list whose first entry for a key
-- counts; the provider adapters are of an abstract type.
pub mod Chain
pub mod Adapters
use ai_runtime.Prelude.{
  ℕ, String, Option, none, some, List, [], ◌∷◌, ◌++◌, str_eq, text_in, if◌then◌else◌,
}
use ai_runtime.Errors.{
  Error, unsupported_model, provider_not_registered, Result, ok, err, ◌>>=◌, ◌>>◌,
}
use ai_runtime.Generation.{require_non_blank}

-- `mapping.get(key)`
module _ {ℓ} {V : Type ℓ} where
  unfoldable pub lookup : String → List (String × V) → Option V
  lookup key [] = none
  lookup key ((k, v) ∷ entries) = if str_eq k key then some v else lookup key entries

pub record ModelRoute : Type 0 where
  pub model : String
  pub provider : String

unfoldable pub post_init_route : ModelRoute → Result (Unit {0})
post_init_route r = do require_non_blank r.model "model"; require_non_blank r.provider "provider"

abbrev pub default_model_catalog : List (String × String)
default_model_catalog =
    ("gpt-4o-mini", "openai")
    ∷ ("gpt-4o", "openai")
    ∷ ("claude-3-5-sonnet-20241022", "anthropic")
    ∷ ("gemini-2.5-flash", "gemini")
    ∷ []

abbrev pub default_failover_catalog : List (String × List String)
default_failover_catalog =
    ("gpt-4o", "claude-3-5-sonnet-20241022" ∷ "gemini-2.5-flash" ∷ [])
    ∷ ("gpt-4o-mini", "claude-3-5-sonnet-20241022" ∷ "gemini-2.5-flash" ∷ [])
    ∷ ("claude-3-5-sonnet-20241022", "gpt-4o" ∷ "gemini-2.5-flash" ∷ [])
    ∷ ("gemini-2.5-flash", "gpt-4o-mini" ∷ [])
    ∷ []

abbrev pub default_model_context_windows : List (String × ℕ)
default_model_context_windows =
    ("gpt-4o-mini", 128000)
    ∷ ("gpt-4o", 128000)
    ∷ ("claude-3-5-sonnet-20241022", 200000)
    ∷ ("gemini-2.5-flash", 1048576)
    ∷ []

-- `ModelRoute(model=…, provider=…)`, or `UnsupportedModelError` where there is no provider
abbrev pub route_of : String → Option String → Result ModelRoute
route_of model none = err (unsupported_model model)
route_of model (some provider) =
    let route : ModelRoute = record { model = model; provider = provider } in
    post_init_route route >> ok route

unfoldable pub resolve_model_route : String → List (String × String) → Result ModelRoute
resolve_model_route requested_model catalog = do
  require_non_blank requested_model "requested_model"
  route_of requested_model (lookup requested_model catalog)

-- `fallbacks.get(requested_model, ())`
abbrev pub fallbacks_of : Option (List String) → List String
fallbacks_of none = []
fallbacks_of (some models) = models

-- What the `try` in the loop of `resolve_route_chain` makes of one candidate.
abbrev extend :
    List ModelRoute
    → List String
    → String
    → Result ModelRoute
    → (List ModelRoute → List String → Result (List ModelRoute))
    → Result (List ModelRoute)
extend chain seen model (ok route) next = next (chain ++ route ∷ []) (model ∷ seen)
extend chain seen model (err (unsupported_model m)) next = next chain seen
extend chain seen model (err e) next = err e

-- The loop of `resolve_route_chain`.
unfoldable pub chain_from :
    List (String × String) → List ModelRoute → List String → List String → Result (List ModelRoute)
chain_from catalog chain seen [] = ok chain
chain_from catalog chain seen (model ∷ rest) =
    let skip = chain_from catalog chain seen rest in
    let take =
      extend chain seen model (resolve_model_route model catalog)
        (λ chain' seen'. chain_from catalog chain' seen' rest) in
    if text_in model seen then skip else take

unfoldable pub resolve_route_chain :
    String → List (String × String) → List (String × List String) → Result (List ModelRoute)
resolve_route_chain requested_model catalog fallbacks = do
  primary ← resolve_model_route requested_model catalog
  chain_from catalog (primary ∷ []) (primary.model ∷ [])
      (fallbacks_of (lookup requested_model fallbacks))

pub record ResolvedRoute {ℓ} (Provider : Type ℓ) : Type ℓ where
  pub route : ModelRoute
  pub provider : Provider

pub record ModelRouter {ℓ} (Provider : Type ℓ) : Type ℓ where
  pub providers : List (String × Provider)
  pub catalog : List (String × String)

module _ {ℓ} {Provider : Type ℓ} where
  -- The adapter of a route, or `ProviderNotRegisteredError`.
  abbrev pub bind_provider : ModelRoute → Option Provider → Result (ResolvedRoute Provider)
  bind_provider route none = err (provider_not_registered route.provider)
  bind_provider route (some adapter) = ok (record { route = route; provider = adapter })

  unfoldable pub resolve : ModelRouter Provider → String → Result (ResolvedRoute Provider)
  resolve router requested_model = do
    route ← resolve_model_route requested_model router.catalog
    bind_provider route (lookup route.provider router.providers)
