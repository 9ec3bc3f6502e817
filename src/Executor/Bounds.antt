-- ===== src/Executor/Bounds.antt =====
-- How many calls of providers a request costs, whatever they answer.
use ai_runtime.Prelude.{ℕ, ◌+◌, ◌*◌, ◌≤◌, String, ◌≡◌, refl, List, [], ◌∷◌, arith, length}
use ai_runtime.Errors.{
  provider_error, model_not_available, provider_not_registered, Result, ok, err,
}
use ai_runtime.Exec.{Exec, raise}
use ai_runtime.Generation.{GenerationRequest, GenerationResponse}
use ai_runtime.Routing.{ModelRoute, ResolvedRoute, resolve}
use ai_runtime.Executor.{
  ModelProvider, ProviderExecutionResult, ProviderExecutor, Skips, no_skips, generate_with_retries,
  routes_for, request_for, Hook, run_hook, after_hook, after_resolve, after_request, after_generate,
  attempt_route, try_route, execute_loop, execute,
}
use ai_runtime.Executor.Retries.{Counts, generate_with_retries_bounds}

-- `calls` counts the calls of every registered adapter, and the hook makes none.
pub record CountsAll {S : Type 0} (calls : S → ℕ) (sleep : ℕ → S → S) (x : ProviderExecutor S)
    (hook : Hook sleep x) : Type 0 where
  pub adapters :
      (model : String) (r : ResolvedRoute (ModelProvider S)) (request : GenerationRequest)
      → resolve x.model_router model ≡ ok r
      → Counts calls sleep r.provider request
  pub hooked : (route : ModelRoute) (s : S) → calls (run_hook sleep x hook route s).1 ≡ calls s

module _ {S : Type 0} (sleep : ℕ → S → S) (x : ProviderExecutor S) (calls : S → ℕ) where
  -- The most calls that a run costs, from any state.
  abbrev Costs : ℕ → Exec S ProviderExecutionResult → Type 0
  Costs n m = (s : S) → calls (m s).1 ≤ calls s + n

  module _ (next : Skips → Exec S ProviderExecutionResult) (n : ℕ)
      (later : (sk : Skips) → Costs n (next sk)) where
    after_generate-Costs :
        (route : ModelRoute) (sk : Skips) (r : Result GenerationResponse)
        → Costs n (after_generate sleep x next route sk r)
    after_generate-Costs route sk (ok a) s = omega arith
    after_generate-Costs route sk (err (provider_error e)) s = later _ s
    after_generate-Costs route sk (err e) s = omega arith

    after_request-Costs :
        (sk : Skips) (resolved : ResolvedRoute (ModelProvider S)) (r : Result GenerationRequest)
        → ((sent : GenerationRequest) → Counts calls sleep resolved.provider sent)
        → Costs
            (x.max_retries + 1 + n)
            (after_request sleep x raise (attempt_route sleep x next sk resolved) r)
    unfolding attempt_route
    after_request-Costs sk resolved (ok sent) c s = omega (
      arith,
      (generate_with_retries_bounds sleep x calls resolved.provider sent (c sent) s).bounded,
      after_generate-Costs resolved.route sk
          (generate_with_retries sleep x resolved.provider sent s).0
          (generate_with_retries sleep x resolved.provider sent s).1,
    )
    after_request-Costs sk resolved (err e) c s = omega arith

    module _ (hook : Hook sleep x) (request : GenerationRequest) (c : CountsAll calls sleep x hook)
        (route : ModelRoute) (sk : Skips) where
      abbrev go : ResolvedRoute (ModelProvider S) → Exec S ProviderExecutionResult
      go resolved =
          after_request sleep x raise (attempt_route sleep x next sk resolved)
            (request_for sleep x route request)

      after_resolve-Costs :
          (r : Result (ResolvedRoute (ModelProvider S)))
          → resolve x.model_router route.model ≡ r
          → Costs (x.max_retries + 1 + n) (after_resolve sleep x next raise go sk r)
      after_resolve-Costs (ok resolved) found s =
          after_request-Costs sk resolved (request_for sleep x route request)
            (λ sent. c.adapters route.model resolved sent found) s
      after_resolve-Costs (err (provider_not_registered p)) found s = omega (arith, later _ s)
      after_resolve-Costs (err e) found s = omega arith

      after_hook-Costs :
          (r : Result (Unit {0}))
          → Costs (x.max_retries + 1 + n) (
              after_hook sleep x next raise
                (after_resolve sleep x next raise go sk (resolve x.model_router route.model))
                route
                sk
                r)
      after_hook-Costs (ok u) s = after_resolve-Costs (resolve x.model_router route.model) refl s
      after_hook-Costs (err (model_not_available m)) s = omega (arith, later _ s)
      after_hook-Costs (err e) s = omega arith

      try_route-Costs : Costs (x.max_retries + 1 + n) (try_route sleep x hook request next route sk)
      unfolding try_route
      try_route-Costs s = omega (
        arith,
        c.hooked route s,
        after_hook-Costs (run_hook sleep x hook route s).0 (run_hook sleep x hook route s).1,
      )

  module _ (hook : Hook sleep x) (m : String) (request : GenerationRequest)
      (c : CountsAll calls sleep x hook) where
    execute_loop-Costs :
        (routes rest : List ModelRoute) (sk : Skips)
        → Costs
            (length rest * (x.max_retries + 1))
            (execute_loop sleep x hook m request routes rest sk)
    unfolding execute_loop
    execute_loop-Costs routes [] sk s = omega arith
    execute_loop-Costs routes (route ∷ rest) sk s = omega (
      arith,
      try_route-Costs (λ sk'. execute_loop sleep x hook m request routes rest sk')
          (length rest * (x.max_retries + 1)) (λ sk' s'. execute_loop-Costs routes rest sk' s') hook
          request c route sk s,
    )

    -- A request makes at most `max_retries + 1` calls of providers for each of the model's routes.
    -- Each call of an adapter counts one, and the hook and the pauses none.
    pub execute_bounds :
        (s : S) (routes : List ModelRoute)
        → routes_for sleep x m ≡ ok routes
        → calls (execute sleep x m request hook s).1 ≤ calls s + length routes * (x.max_retries + 1)
    unfolding execute
    execute_bounds s routes known = rw known (execute_loop-Costs routes routes no_skips s)
