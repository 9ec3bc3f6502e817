-- ===== src/Executor.antt =====
-- src/ai_runtime/application/resilience/provider_executor.py: retries against one provider and
-- failover along the routes of a model, over any state `S` that the providers act on. A provider
-- (`ports/model_provider.py`) is what an adapter does with a request; `asyncio.sleep` is a change of
-- the state that never raises; delays are counted in milliseconds.
pub mod Retries
pub mod Failover
pub mod Healthy
pub mod Outcomes
pub mod Bounds
pub mod Started
pub mod Streams
pub mod Keeps
use ai_runtime.Prelude.{
  ℕ, zero, suc, ◌+◌, ◌*◌, String, Bool, true, false, not, ◌||◌, ◌&&◌, Option, none, some, List, [],
  ◌∷◌, ◌++◌, leb, ltb, ◌==◌, length, str_eq, if◌then◌else◌,
}
use ai_runtime.Errors.{
  ProviderError, Error, provider_error, model_not_available, provider_not_registered,
  external_error, Result, ok, err,
}
use ai_runtime.Errors
use ai_runtime.Exec.{Exec, raise, lift, ◌>>=◌, continue}
use ai_runtime.Generation.{
  GenerationRequest, GenerationResponse, GenerationStreamEvent, post_init_request,
}
use ai_runtime.Routing.{
  ModelRoute, resolve_model_route, resolve_route_chain, ResolvedRoute, ModelRouter, resolve,
}

-- What an async generator delivers, and how it ends. Its effects happen when it is first read.
pub data Stream (A : Type 0) : Type 0 where
  done : Stream A
  fail : Error → Stream A
  emit : A → Stream A → Stream A

pub record ModelProvider (S : Type 0) : Type 0 where
  pub generate : GenerationRequest → Exec S GenerationResponse
  pub stream : GenerationRequest → S → Stream GenerationStreamEvent × S

pub record ProviderExecutionResult : Type 0 where
  pub response : GenerationResponse
  pub route : ModelRoute

pub record ProviderStreamEvent : Type 0 where
  pub payload : GenerationStreamEvent
  pub route : ModelRoute

pub record ProviderExecutor (S : Type 0) : Type 0 where
  pub model_router : ModelRouter (ModelProvider S)
  pub max_retries : ℕ
  pub retry_base_delay : ℕ
  pub failover_enabled : Bool
  pub failover_catalog : List (String × List String)

-- The lists that the loop over the routes keeps.
pub record Skips : Type 0 where
  pub last_error : Option ProviderError
  pub unavailable : List String
  pub unregistered : List String

abbrev pub no_skips : Skips
no_skips = record { last_error = none; unavailable = []; unregistered = [] }

module _ {S : Type 0} (sleep : ℕ → S → S) (x : ProviderExecutor S) where
  -- `if retry_base_delay_seconds > 0: await asyncio.sleep(retry_base_delay_seconds * attempt)`
  unfoldable pub pause : ℕ → S → S
  pause attempt s = if ltb 0 x.retry_base_delay then sleep (x.retry_base_delay * attempt) s else s

  -- `not err.retryable or attempt >= self._max_retries`
  abbrev pub gives_up : ProviderError → ℕ → Bool
  gives_up e attempt = not e.retryable || leb x.max_retries attempt

  -- The `except` clause of `_generate_with_retries`.
  abbrev pub after_attempt :
      ℕ
      → (S → Option (Result GenerationResponse × S))
      → Result GenerationResponse
      → S
      → Option (Result GenerationResponse × S)
  after_attempt attempt retry (ok r) s = some (ok r, s)
  after_attempt attempt retry (err (provider_error e)) s =
      if gives_up e attempt then some (err (provider_error e), s) else retry (pause (attempt + 1) s)
  after_attempt attempt retry (err e) s = some (err e, s)

  -- The `while True` of `_generate_with_retries`; `none` means that the fuel ran out.
  unfoldable pub generate_loop :
      ModelProvider S → GenerationRequest → ℕ → ℕ → S → Option (Result GenerationResponse × S)
  generate_loop p request zero attempt s = none
  generate_loop p request (suc fuel) attempt s =
      let (r, s') = p.generate request s in
      after_attempt attempt (λ s''. generate_loop p request fuel (attempt + 1) s'') r s'

  -- What the loop gave; the fuel is never used up (Executor/Retries).
  abbrev pub given : {A : Type 0} → S → Option (Result A × S) → Result A × S
  given s none = (err external_error, s)
  given s (some r) = r

  unfoldable pub generate_with_retries :
      ModelProvider S → GenerationRequest → Exec S GenerationResponse
  generate_with_retries p request s = given s (generate_loop p request (x.max_retries + 1) 0 s)

  -- `_routes_for`
  unfoldable pub routes_for : String → Result (List ModelRoute)
  routes_for requested_model =
      if not x.failover_enabled
      then Errors.◌>>=◌ (resolve_model_route requested_model x.model_router.catalog)
          (λ r. ok (r ∷ []))
      else resolve_route_chain requested_model x.model_router.catalog x.failover_catalog

  -- `request if route.model == request.model else replace(request, model=route.model)`
  unfoldable pub request_for : ModelRoute → GenerationRequest → Result GenerationRequest
  request_for route request =
      let changed : GenerationRequest = record request { model = route.model } in
      if str_eq route.model request.model
      then ok request
      else Errors.◌>>◌ (post_init_request changed) (ok changed)

  -- What is raised when the loop over the routes ends.
  abbrev pub first_or : List String → List ModelRoute → Error
  first_or (p ∷ ps) routes = provider_not_registered p
  first_or [] (r ∷ rs) = provider_not_registered r.provider
  first_or [] [] = external_error

  abbrev pub has_refusals : List String → Bool
  has_refusals [] = false
  has_refusals (m ∷ ms) = true

  abbrev pub final_error : String → List ModelRoute → Skips → Error
  final_error requested_model routes sk = elim sk.last_error [
    | some e ↦ provider_error e
    | none ↦
        if has_refusals sk.unavailable && length sk.unavailable == length routes
        then model_not_available requested_model
        else first_or sk.unregistered routes
  ]

  abbrev pub Hook : Type 0
  Hook = Option (ModelRoute → Exec S (Unit {0}))

  abbrev pub run_hook : Hook → ModelRoute → Exec S (Unit {0})
  run_hook none route s = (ok tt, s)
  run_hook (some hook) route s = hook route s

  -- The body of the loops of `execute` and `stream`: the three ways to go on to the next route.
  module _ {O : Type 0} where
    abbrev pub after_hook :
        (Skips → S → O) → (Error → S → O) → (S → O) → ModelRoute → Skips → Result (Unit {0}) → S → O
    after_hook next fatal go route sk (ok _) s = go s
    after_hook next fatal go route sk (err (model_not_available m)) s =
        next (record sk { unavailable = sk.unavailable ++ route.model ∷ [] }) s
    after_hook next fatal go route sk (err e) s = fatal e s

    abbrev pub after_resolve :
        (Skips → S → O)
        → (Error → S → O)
        → (ResolvedRoute (ModelProvider S) → S → O)
        → Skips
        → Result (ResolvedRoute (ModelProvider S))
        → S
        → O
    after_resolve next fatal go sk (ok resolved) s = go resolved s
    after_resolve next fatal go sk (err (provider_not_registered p)) s =
        next (record sk { unregistered = sk.unregistered ++ p ∷ [] }) s
    after_resolve next fatal go sk (err e) s = fatal e s

    abbrev pub after_request :
        (Error → S → O) → (GenerationRequest → S → O) → Result GenerationRequest → S → O
    after_request fatal go (ok request) s = go request s
    after_request fatal go (err e) s = fatal e s

  abbrev pub after_generate :
      (Skips → Exec S ProviderExecutionResult)
      → ModelRoute
      → Skips
      → Result GenerationResponse
      → Exec S ProviderExecutionResult
  after_generate next route sk (ok response) s =
      (ok (record { response = response; route = route }), s)
  after_generate next route sk (err (provider_error e)) s =
      next (record sk { last_error = some e }) s
  after_generate next route sk (err e) s = (err e, s)

  -- `response = await self._generate_with_retries(…)` and its `except`
  unfoldable pub attempt_route :
      (Skips → Exec S ProviderExecutionResult)
      → Skips
      → ResolvedRoute (ModelProvider S)
      → GenerationRequest
      → Exec S ProviderExecutionResult
  attempt_route next sk resolved request s =
      let (r, s') = generate_with_retries resolved.provider request s in
      after_generate next resolved.route sk r s'

  -- One round of the loop of `execute`.
  unfoldable pub try_route :
      Hook
      → GenerationRequest
      → (Skips → Exec S ProviderExecutionResult)
      → ModelRoute
      → Skips
      → Exec S ProviderExecutionResult
  unfolding attempt_route
  try_route hook request next route sk s =
      let (h, s') = run_hook hook route s in
      after_hook next raise
        (after_resolve next raise
          (λ resolved.
            after_request raise (attempt_route next sk resolved) (request_for route request))
          sk (resolve x.model_router route.model))
        route sk h s'

  -- The loop of `execute`, with what follows it.
  unfoldable pub execute_loop :
      Hook
      → String
      → GenerationRequest
      → List ModelRoute
      → List ModelRoute
      → Skips
      → Exec S ProviderExecutionResult
  execute_loop hook requested_model request routes [] sk s =
      (err (final_error requested_model routes sk), s)
  execute_loop hook requested_model request routes (route ∷ rest) sk s =
      try_route hook request (λ sk'. execute_loop hook requested_model request routes rest sk')
        route sk s

  -- `execute`
  unfoldable pub execute : String → GenerationRequest → Hook → Exec S ProviderExecutionResult
  execute requested_model request hook = do
    routes ← lift (routes_for requested_model)
    execute_loop hook requested_model request routes routes no_skips
