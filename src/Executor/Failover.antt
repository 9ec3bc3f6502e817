-- ===== src/Executor/Failover.antt =====
-- The loop over the routes in provider_executor.py: who answered, and what is raised if nobody did.
use mathlib.Core.List.{Memᴰ}
use ai_runtime.Prelude.{ℕ, String, ◌≡◌, refl, ◌⊎◌, inl, inr, List, [], ◌∷◌, arith}
use ai_runtime.Errors.{
  provider_error, model_not_available, provider_not_registered, Result, ok, err,
}
use ai_runtime.Exec.{Exec, raise}
use ai_runtime.Generation.{GenerationRequest, GenerationResponse}
use ai_runtime.Routing.{ModelRoute, ResolvedRoute, resolve}
use ai_runtime.Executor.{
  ModelProvider, ProviderExecutionResult, ProviderExecutor, Skips, generate_with_retries,
  request_for, Hook, run_hook, after_hook, after_resolve, after_request, after_generate,
  attempt_route, try_route, execute_loop,
}

module _ {S : Type 0} (sleep : ℕ → S → S) (x : ProviderExecutor S) where
  -- The route let the request through in state `s`, and its adapter answered.
  pub record Served (hook : Hook sleep x) (request : GenerationRequest) (route : ModelRoute) (s : S)
      (res : ProviderExecutionResult) (s' : S) : Type 0 where
    pub let_through : (run_hook sleep x hook route s).0 ≡ ok tt
    pub resolved : ResolvedRoute (ModelProvider S)
    pub found : resolve x.model_router route.model ≡ ok resolved
    pub sent : GenerationRequest
    pub rewritten : request_for sleep x route request ≡ ok sent
    pub answered :
        (generate_with_retries sleep x resolved.provider sent (run_hook sleep x hook route s).1).0
        ≡ ok res.response
    pub left :
        (generate_with_retries sleep x resolved.provider sent (run_hook sleep x hook route s).1).1
        ≡ s'
    pub bound : res.route ≡ resolved.route

  module _ (next : Skips → Exec S ProviderExecutionResult) (res : ProviderExecutionResult)
      (s' : S) where
    -- The loop went on to the next route.
    abbrev Onward : Type 0
    Onward = (sk : Skips) × (s : S) × (next sk s ≡ (ok res, s'))

    after_generate_ok :
        (route : ModelRoute) (sk : Skips) (r : Result GenerationResponse) (s : S)
        → after_generate sleep x next route sk r s ≡ (ok res, s')
        → ((r ≡ ok res.response) × (s ≡ s') × (res.route ≡ route)) ⊎ Onward
    after_generate_ok route sk (ok a) s h = inl (ground arith, cc, ground arith)
    after_generate_ok route sk (err (provider_error e)) s h = inr (_, _, h)
    after_generate_ok route sk (err e) s h = cc

    after_request_ok :
        (route : ModelRoute) (sk : Skips) (resolved : ResolvedRoute (ModelProvider S))
        (r : Result GenerationRequest) (s : S)
        → after_request sleep x raise (attempt_route sleep x next sk resolved) r s ≡ (ok res, s')
        → ((sent : GenerationRequest) × (r ≡ ok sent)
            × ((generate_with_retries sleep x resolved.provider sent s).0 ≡ ok res.response)
            × ((generate_with_retries sleep x resolved.provider sent s).1 ≡ s')
            × (res.route ≡ resolved.route))
          ⊎ Onward
    unfolding attempt_route
    after_request_ok route sk resolved (ok sent) s h =
        elim (after_generate_ok resolved.route sk
          (generate_with_retries sleep x resolved.provider sent s).0
          (generate_with_retries sleep x resolved.provider sent s).1 h) [
            | inl (a, b, c) ↦ inl (sent, refl, a, b, c)
            | inr on ↦ inr on
          ]
    after_request_ok route sk resolved (err e) s h = cc

    module _ (hook : Hook sleep x) (request : GenerationRequest) where
      after_resolve_ok :
          (route : ModelRoute) (sk : Skips) (s : S) (r : Result (ResolvedRoute (ModelProvider S)))
          → resolve x.model_router route.model ≡ r
          → (run_hook sleep x hook route s).0 ≡ ok tt
          → after_resolve sleep x next raise
              (λ resolved.
                after_request sleep x raise
                  (attempt_route sleep x next sk resolved)
                  (request_for sleep x route request))
              sk
              r
              (run_hook sleep x hook route s).1
            ≡ (ok res, s')
          → Served hook request route s res s' ⊎ Onward
      after_resolve_ok route sk s (ok resolved) found through h =
          elim (after_request_ok route sk resolved (request_for sleep x route request)
            (run_hook sleep x hook route s).1 h) [
              | inl (sent, same, a, b, c) ↦ inl (record {
                let_through = through;
                resolved = resolved;
                found = found;
                sent = sent;
                rewritten = same;
                answered = a;
                left = b;
                bound = c;
              })
              | inr on ↦ inr on
            ]
      after_resolve_ok route sk s (err (provider_not_registered p)) found through h = inr (_, _, h)
      after_resolve_ok route sk s (err e) found through h = cc

      after_hook_ok :
          (route : ModelRoute) (sk : Skips) (s : S) (r : Result (Unit {0}))
          → (run_hook sleep x hook route s).0 ≡ r
          → after_hook sleep x next raise
              (after_resolve sleep x next raise
                (λ resolved.
                  after_request sleep x raise
                    (attempt_route sleep x next sk resolved)
                    (request_for sleep x route request))
                sk
                (resolve x.model_router route.model))
              route
              sk
              r
              (run_hook sleep x hook route s).1
            ≡ (ok res, s')
          → Served hook request route s res s' ⊎ Onward
      after_hook_ok route sk s (ok u) through h =
          after_resolve_ok route sk s (resolve x.model_router route.model) refl through h
      after_hook_ok route sk s (err (model_not_available m)) through h = inr (_, _, h)
      after_hook_ok route sk s (err e) through h = cc

      try_route_ok :
          (route : ModelRoute) (sk : Skips) (s : S)
          → try_route sleep x hook request next route sk s ≡ (ok res, s')
          → Served hook request route s res s' ⊎ Onward
      unfolding try_route
      try_route_ok route sk s h = after_hook_ok route sk s (run_hook sleep x hook route s).0 refl h

  module _ (hook : Hook sleep x) (requested_model : String) (request : GenerationRequest)
      (routes : List ModelRoute) where
    pub execute_loop_ok :
        (rest : List ModelRoute) (sk : Skips) (s : S) (res : ProviderExecutionResult) (s' : S)
        → execute_loop sleep x hook requested_model request routes rest sk s ≡ (ok res, s')
        → (route : ModelRoute) × Memᴰ route rest × (s₀ : S) × Served hook request route s₀ res s'
    unfolding execute_loop
    execute_loop_ok [] sk s res s' h = cc
    execute_loop_ok (route ∷ rest) sk s res s' h =
        elim (try_route_ok
          (λ sk'. execute_loop sleep x hook requested_model request routes rest sk') res s' hook
          request route sk s h) [
            | inl served ↦ (route, Memᴰ.head refl, s, served)
            | inr (sk', s₁, more) ↦
                let (r, m, s₀, served) = execute_loop_ok rest sk' s₁ res s' more in
                (r, Memᴰ.tail m, s₀, served)
          ]
