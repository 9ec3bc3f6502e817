-- ===== src/Executor/Keeps.antt =====
-- What the adapters, the pauses and the hook leave alone, `execute` of provider_executor.py leaves
-- alone too.
use ai_runtime.Prelude.{
  ℕ, zero, suc, ◌+◌, String, ◌≡◌, refl, Option, none, some, List, [], ◌∷◌, inl, inr, Bool-cases,
  ltb,
}
use ai_runtime.Errors.{
  provider_error, model_not_available, provider_not_registered, Result, ok, err, Result-cases,
}
use ai_runtime.Exec.{Exec, raise}
use ai_runtime.Exec.Keeps.{Keeps}
use ai_runtime.Generation.{GenerationRequest, GenerationResponse}
use ai_runtime.Routing.{ModelRoute, ResolvedRoute, resolve}
use ai_runtime.Executor.{
  ModelProvider, ProviderExecutionResult, ProviderExecutor, Skips, no_skips, pause, gives_up,
  after_attempt, generate_loop, given, generate_with_retries, routes_for, request_for, Hook,
  run_hook, after_hook, after_resolve, after_request, after_generate, attempt_route, try_route,
  execute_loop, execute,
}

module _ {S : Type 0} (P : S → Type 0) where
  pub record KeepsAll (sleep : ℕ → S → S) (x : ProviderExecutor S) (hook : Hook sleep x)
      : Type 0 where
    pub adapters :
        (model : String) (r : ResolvedRoute (ModelProvider S)) (request : GenerationRequest)
        → resolve x.model_router model ≡ ok r
        → Keeps P (r.provider.generate request)
    pub sleeping : (d : ℕ) (s : S) → P s → P (sleep d s)
    pub hooked : (route : ModelRoute) → Keeps P (run_hook sleep x hook route)

  module _ (sleep : ℕ → S → S) (x : ProviderExecutor S) (hook : Hook sleep x)
      (k : KeepsAll sleep x hook) where
    pause-Keeps : (attempt : ℕ) (s : S) → P s → P (pause sleep x attempt s)
    unfolding pause
    pause-Keeps attempt s h = elim (Bool-cases (ltb 0 x.retry_base_delay)) [
      | inl on ↦ rw on (k.sleeping _ s h)
      | inr off ↦ rw off h
    ]

    abbrev Ends : Option (Result GenerationResponse × S) → Type 0
    Ends none = Unit
    Ends (some o) = P o.1

    after_attempt-Keeps :
        (attempt : ℕ) (retry : S → Option (Result GenerationResponse × S))
        (r : Result GenerationResponse) (s : S)
        → ((s' : S) → P s' → Ends (retry s'))
        → P s
        → Ends (after_attempt sleep x attempt retry r s)
    after_attempt-Keeps attempt retry (ok a) s more h = h
    after_attempt-Keeps attempt retry (err (provider_error e)) s more h =
        elim (Bool-cases (gives_up sleep x e attempt)) [
          | inl stop ↦ rw stop h
          | inr go ↦ rw go (more (pause sleep x (attempt + 1) s) (pause-Keeps (attempt + 1) s h))
        ]
    after_attempt-Keeps attempt retry (err e) s more h = h

    module _ (p : ModelProvider S) (request : GenerationRequest)
        (kept : Keeps P (p.generate request)) where
      generate_loop-Keeps :
          (fuel attempt : ℕ) (s : S) → P s → Ends (generate_loop sleep x p request fuel attempt s)
      unfolding generate_loop
      generate_loop-Keeps zero attempt s h = tt
      generate_loop-Keeps (suc fuel) attempt s h =
          after_attempt-Keeps attempt (λ s'. generate_loop sleep x p request fuel (attempt + 1) s')
            (p.generate request s).0 (p.generate request s).1
            (λ s' h'. generate_loop-Keeps fuel (attempt + 1) s' h') (kept s h)

      given-Keeps :
          (s : S) (o : Option (Result GenerationResponse × S))
          → P s
          → Ends o
          → P (given sleep x s o).1
      given-Keeps s none h e = h
      given-Keeps s (some o) h e = e

      generate_with_retries-Keeps : Keeps P (generate_with_retries sleep x p request)
      unfolding generate_with_retries
      generate_with_retries-Keeps s h =
          given-Keeps s (generate_loop sleep x p request (x.max_retries + 1) 0 s) h
            (generate_loop-Keeps (x.max_retries + 1) 0 s h)

    module _ (next : Skips → Exec S ProviderExecutionResult)
        (later : (sk : Skips) → Keeps P (next sk)) where
      after_generate-Keeps :
          (route : ModelRoute) (sk : Skips) (r : Result GenerationResponse)
          → Keeps P (after_generate sleep x next route sk r)
      after_generate-Keeps route sk (ok a) s h = h
      after_generate-Keeps route sk (err (provider_error e)) s h = later _ s h
      after_generate-Keeps route sk (err e) s h = h

      after_request-Keeps :
          (sk : Skips) (resolved : ResolvedRoute (ModelProvider S)) (r : Result GenerationRequest)
          → ((sent : GenerationRequest) → Keeps P (resolved.provider.generate sent))
          → Keeps P (after_request sleep x raise (attempt_route sleep x next sk resolved) r)
      unfolding attempt_route
      after_request-Keeps sk resolved (ok sent) kept s h =
          after_generate-Keeps resolved.route sk
            (generate_with_retries sleep x resolved.provider sent s).0
            (generate_with_retries sleep x resolved.provider sent s).1
            (generate_with_retries-Keeps resolved.provider sent (kept sent) s h)
      after_request-Keeps sk resolved (err e) kept s h = h

      module _ (request : GenerationRequest) (route : ModelRoute) (sk : Skips) where
        abbrev go : ResolvedRoute (ModelProvider S) → Exec S ProviderExecutionResult
        go resolved =
            after_request sleep x raise (attempt_route sleep x next sk resolved)
              (request_for sleep x route request)

        after_resolve-Keeps :
            (r : Result (ResolvedRoute (ModelProvider S)))
            → resolve x.model_router route.model ≡ r
            → Keeps P (after_resolve sleep x next raise go sk r)
        after_resolve-Keeps (ok resolved) found s h =
            after_request-Keeps sk resolved (request_for sleep x route request)
              (λ sent. k.adapters route.model resolved sent found) s h
        after_resolve-Keeps (err (provider_not_registered p)) found s h = later _ s h
        after_resolve-Keeps (err e) found s h = h

        after_hook-Keeps :
            (r : Result (Unit {0}))
            → Keeps P (
                after_hook sleep x next raise
                  (after_resolve sleep x next raise go sk (resolve x.model_router route.model))
                  route
                  sk
                  r)
        after_hook-Keeps (ok u) s h =
            after_resolve-Keeps (resolve x.model_router route.model) refl s h
        after_hook-Keeps (err (model_not_available m)) s h = later _ s h
        after_hook-Keeps (err e) s h = h

        try_route-Keeps : Keeps P (try_route sleep x hook request next route sk)
        unfolding try_route
        try_route-Keeps s h =
            after_hook-Keeps (run_hook sleep x hook route s).0 (run_hook sleep x hook route s).1
              (k.hooked route s h)

    execute_loop-Keeps :
        (m : String) (request : GenerationRequest) (routes rest : List ModelRoute) (sk : Skips)
        → Keeps P (execute_loop sleep x hook m request routes rest sk)
    unfolding execute_loop
    execute_loop-Keeps m request routes [] sk s h = h
    execute_loop-Keeps m request routes (route ∷ rest) sk s h =
        try_route-Keeps (λ sk'. execute_loop sleep x hook m request routes rest sk')
          (λ sk' s' h'. execute_loop-Keeps m request routes rest sk' s' h') request route sk s h

    pub execute-Keeps :
        (m : String) (request : GenerationRequest) → Keeps P (execute sleep x m request hook)
    unfolding execute
    execute-Keeps m request s h = elim (Result-cases (routes_for sleep x m)) [
      | inl (routes, known) ↦ rw known (execute_loop-Keeps m request routes routes no_skips s h)
      | inr (e, failed) ↦ rw failed h
    ]
