-- ===== src/Executor/Healthy.antt =====
-- Failover in provider_executor.py reaches a healthy route: a route whose adapter answers is served if
-- the routes before it only fail in the ways that the loop passes over.
use ai_runtime.Prelude.{
  ℕ, zero, suc, ◌+◌, ◌*◌, ◌<◌, ltb, String, ◌≡◌, refl, ◌⊎◌, inl, inr, Option, none, some, List, [],
  ◌∷◌, arith, Bool-cases,
}
use ai_runtime.Errors.{
  ProviderError, provider_error, model_not_available, provider_not_registered, Result, ok, err,
}
use ai_runtime.Exec.{Exec}
use ai_runtime.Generation.{GenerationRequest, GenerationResponse}
use ai_runtime.Routing.{ModelRoute, ResolvedRoute, resolve}
use ai_runtime.Executor.{
  ModelProvider, ProviderExecutionResult, ProviderExecutor, Skips, no_skips, after_attempt,
  gives_up, generate_loop, generate_with_retries, given, pause, routes_for, request_for, Hook,
  run_hook, after_generate, attempt_route, try_route, execute_loop, execute,
}
use ai_runtime.Executor.Retries.{generate_loop_total}

-- A value, or a provider's error.
abbrev pub IsAnswer : {A : Type 0} → Result A → Type 0
IsAnswer {A} r = ((a : A) × (r ≡ ok a)) ⊎ ((e : ProviderError) × (r ≡ err (provider_error e)))

abbrev pub IsReturned : {A : Type 0} → Result A → Type 0
IsReturned {A} r = (a : A) × (r ≡ ok a)

module _ {S : Type 0} (sleep : ℕ → S → S) (x : ProviderExecutor S) where
  generate_loop-IsReturned :
      (p : ModelProvider S) (request : GenerationRequest) (fuel attempt : ℕ) (s : S)
      → 0 < fuel
      → IsReturned (p.generate request s).0
      → IsReturned (given sleep x s (generate_loop sleep x p request fuel attempt s)).0
  unfolding generate_loop
  generate_loop-IsReturned p request zero attempt s h (a, e) = absurd (omega arith)
  generate_loop-IsReturned p request (suc fuel) attempt s h (a, e) =
      go (p.generate request s).0 (p.generate request s).1 e
    where
      go :
          (r : Result GenerationResponse) (s' : S)
          → r ≡ ok a
          → IsReturned
              (given sleep x s (
                after_attempt sleep x attempt
                  (λ s''. generate_loop sleep x p request fuel (attempt + 1) s'')
                  r
                  s')).0
      go r s' e = rw e (a, refl)

  generate_with_retries-IsReturned :
      (p : ModelProvider S) (request : GenerationRequest) (s : S)
      → IsReturned (p.generate request s).0
      → IsReturned (generate_with_retries sleep x p request s).0
  unfolding generate_with_retries
  generate_with_retries-IsReturned p request s h =
      generate_loop-IsReturned p request (x.max_retries + 1) 0 s (omega arith) h

  -- An invariant of the states, which pauses keep.
  module _ (Good : S → Type 0) (rests : (n : ℕ) (s : S) → Good s → Good (sleep n s)) where
    -- The adapter answers the request, or fails with a provider's error, and keeps the invariant.
    abbrev pub Responds : ModelProvider S → GenerationRequest → Type 0
    Responds p request =
        (s : S) → Good s → IsAnswer (p.generate request s).0 × Good (p.generate request s).1

    abbrev AreAnswers : Option (Result GenerationResponse × S) → Type 0
    AreAnswers none = Unit
    AreAnswers (some o) = IsAnswer o.0 × Good o.1

    pause-Good : (attempt : ℕ) (s : S) → Good s → Good (pause sleep x attempt s)
    unfolding pause
    pause-Good attempt s g = elim (Bool-cases (ltb 0 x.retry_base_delay)) [
      | inl waits ↦ rw waits (rests (x.retry_base_delay * attempt) s g)
      | inr goes_on ↦ rw goes_on g
    ]

    after_attempt-AreAnswers :
        (attempt : ℕ) (retry : S → Option (Result GenerationResponse × S))
        (r : Result GenerationResponse) (s : S)
        → IsAnswer r
        → Good s
        → ((s : S) → Good s → AreAnswers (retry s))
        → AreAnswers (after_attempt sleep x attempt retry r s)
    after_attempt-AreAnswers attempt retry r s (inl (a, e)) g h = rw e (inl (a, refl), g)
    after_attempt-AreAnswers attempt retry r s (inr (p, e)) g h =
        rw e (elim (Bool-cases (gives_up sleep x p attempt)) [
          | inl stop ↦ rw stop (inr (p, refl), g)
          | inr more ↦ rw more (h (pause sleep x (attempt + 1) s) (pause-Good (attempt + 1) s g))
        ])

    generate_loop-AreAnswers :
        (p : ModelProvider S) (request : GenerationRequest)
        → Responds p request
        → (fuel attempt : ℕ) (s : S) → Good s
        → AreAnswers (generate_loop sleep x p request fuel attempt s)
    unfolding generate_loop
    generate_loop-AreAnswers p request h zero attempt s g = tt
    generate_loop-AreAnswers p request h (suc fuel) attempt s g =
        after_attempt-AreAnswers attempt
          (λ s'. generate_loop sleep x p request fuel (attempt + 1) s') (p.generate request s).0
          (p.generate request s).1 (h s g).0 (h s g).1
          (generate_loop-AreAnswers p request h fuel (attempt + 1))

    generate_with_retries-IsAnswer :
        (p : ModelProvider S) (request : GenerationRequest) (s : S)
        → Responds p request
        → Good s
        → IsAnswer (generate_with_retries sleep x p request s).0
          × Good (generate_with_retries sleep x p request s).1
    unfolding generate_with_retries
    generate_with_retries-IsAnswer p request s h g =
        go (generate_loop sleep x p request (x.max_retries + 1) 0 s)
          (generate_loop-AreAnswers p request h (x.max_retries + 1) 0 s g)
          (generate_loop_total sleep x p request (x.max_retries + 1) 0 s (omega arith)
            (omega arith))
      where
        go :
            (o : Option (Result GenerationResponse × S))
            → AreAnswers o
            → (q : Result GenerationResponse × S) × (o ≡ some q)
            → IsAnswer (given sleep x s o).0 × Good (given sleep x s o).1
        go none a (q, e) = cc
        go (some o) a t = a

    module _ (hook : Hook sleep x) (request : GenerationRequest) where
      -- The loop passes over the route or serves it: the hook lets it through or finds the model not
      -- available, and the adapter is not registered, or answers or fails with a provider's error.
      pub record IsTolerable (route : ModelRoute) : Type 0 where
        pub hooked :
            (s : S)
            → Good s
            → (((run_hook sleep x hook route s).0 ≡ ok tt)
                ⊎ ((m : String) × ((run_hook sleep x hook route s).0
                      ≡ err (model_not_available m))))
              × Good (run_hook sleep x hook route s).1
        pub sent : GenerationRequest
        pub rewritten : request_for sleep x route request ≡ ok sent
        pub adapter :
            ((p : String) × (resolve x.model_router route.model ≡ err (provider_not_registered p)))
            ⊎ ((resolved : ResolvedRoute (ModelProvider S)) × (resolve x.model_router route.model
                  ≡ ok resolved)
                × Responds resolved.provider sent)

      -- The hook lets the route through and its adapter answers.
      pub record IsHealthy (route : ModelRoute) : Type 0 where
        pub hooked :
            (s : S)
            → Good s
            → ((run_hook sleep x hook route s).0 ≡ ok tt) × Good (run_hook sleep x hook route s).1
        pub sent : GenerationRequest
        pub rewritten : request_for sleep x route request ≡ ok sent
        pub resolved : ResolvedRoute (ModelProvider S)
        pub found : resolve x.model_router route.model ≡ ok resolved
        pub answers : (s : S) → Good s → IsReturned (resolved.provider.generate sent s).0

      -- A healthy route, and tolerable ones before it.
      pub data ReachesHealthy : List ModelRoute → Type 0 where
        here :
            {route : ModelRoute} {rest : List ModelRoute}
            → IsHealthy route
            → ReachesHealthy (route ∷ rest)
        there :
            {route : ModelRoute} {rest : List ModelRoute}
            → IsTolerable route
            → ReachesHealthy rest
            → ReachesHealthy (route ∷ rest)

      module _ (next : Skips → Exec S ProviderExecutionResult) where
        after_generate-IsReturned :
            (route : ModelRoute) (sk : Skips) (r : Result GenerationResponse) (s : S)
            → ((sk : Skips) (s : S) → Good s → IsReturned (next sk s).0)
            → IsAnswer r
            → Good s
            → IsReturned (after_generate sleep x next route sk r s).0
        after_generate-IsReturned route sk r s h (inl (a, e)) g = rw e (_, refl)
        after_generate-IsReturned route sk r s h (inr (p, e)) g = rw e (h _ s g)

        attempt_route-IsReturned :
            (sk : Skips) (resolved : ResolvedRoute (ModelProvider S)) (sent : GenerationRequest)
            (s : S)
            → ((sk : Skips) (s : S) → Good s → IsReturned (next sk s).0)
            → Responds resolved.provider sent
            → Good s
            → IsReturned (attempt_route sleep x next sk resolved sent s).0
        unfolding attempt_route
        attempt_route-IsReturned sk resolved sent s h a g =
            let (answer, kept) = generate_with_retries-IsAnswer resolved.provider sent s a g in
            after_generate-IsReturned resolved.route sk
              (generate_with_retries sleep x resolved.provider sent s).0
              (generate_with_retries sleep x resolved.provider sent s).1 h answer kept

        tolerable-IsReturned :
            (route : ModelRoute) (sk : Skips) (s : S)
            → ((sk : Skips) (s : S) → Good s → IsReturned (next sk s).0)
            → Good s
            → IsTolerable route
            → IsReturned (try_route sleep x hook request next route sk s).0
        unfolding try_route
        tolerable-IsReturned route sk s h g t =
            let kept = (t.hooked s g).1 in
            elim (t.hooked s g).0 [
              | inl through ↦ elim t.adapter [
                | inl (p, missing) ↦ rw (through, missing) (h _ _ kept)
                | inr (resolved, found, answers) ↦
                    rw (through, found, t.rewritten)
                      (attempt_route-IsReturned sk resolved t.sent _ h answers kept)
              ]
              | inr (m, refused) ↦ rw refused (h _ _ kept)
            ]

        healthy-IsReturned :
            (route : ModelRoute) (sk : Skips) (s : S)
            → Good s
            → IsHealthy route
            → IsReturned (try_route sleep x hook request next route sk s).0
        unfolding try_route attempt_route
        healthy-IsReturned route sk s g w =
            rw ((w.hooked s g).0, w.found, w.rewritten)
              (answered (run_hook sleep x hook route s).1 (w.hooked s g).1)
          where
            served :
                (r : Result GenerationResponse) (s' : S)
                → IsReturned r
                → IsReturned (after_generate sleep x next w.resolved.route sk r s').0
            served r s' (a, e) = rw e (_, refl)

            answered :
                (s' : S)
                → Good s'
                → IsReturned (attempt_route sleep x next sk w.resolved w.sent s').0
            answered s' g' =
                served (generate_with_retries sleep x w.resolved.provider w.sent s').0 _
                  (generate_with_retries-IsReturned w.resolved.provider w.sent s' (w.answers s' g'))

      execute_loop-IsReturned :
          (requested_model : String) (routes rest : List ModelRoute) (sk : Skips) (s : S)
          → Good s
          → ReachesHealthy rest
          → IsReturned (execute_loop sleep x hook requested_model request routes rest sk s).0
      unfolding execute_loop
      execute_loop-IsReturned requested_model routes [] sk s g r = elim r [ ]
      execute_loop-IsReturned requested_model routes (route ∷ rest) sk s g (here w) =
          healthy-IsReturned
            (λ sk'. execute_loop sleep x hook requested_model request routes rest sk') route sk s g
            w
      execute_loop-IsReturned requested_model routes (route ∷ rest) sk s g (there t r) =
          tolerable-IsReturned
            (λ sk'. execute_loop sleep x hook requested_model request routes rest sk') route sk s
            (λ sk' s' g'. execute_loop-IsReturned requested_model routes rest sk' s' g' r) g t

      -- Failover reaches a healthy route. In the states of an invariant, which holds at the start and
      -- which pauses keep: the hook lets one route of the chain through and the route's adapter
      -- answers; the hook lets each route before it through or finds its model not available; and the
      -- adapter of such a route is not registered, answers, or fails with a provider's error. The hook,
      -- on all of these routes, and the adapters before the healthy route keep the invariant, and the
      -- request can be rewritten for the model of each of these routes. Then the request is answered.
      pub execute-IsReturned :
          (requested_model : String) (routes : List ModelRoute) (s : S)
          → Good s
          → routes_for sleep x requested_model ≡ ok routes
          → ReachesHealthy routes
          → IsReturned (execute sleep x requested_model request hook s).0
      unfolding execute
      execute-IsReturned requested_model routes s g e r =
          rw e (execute_loop-IsReturned requested_model routes routes no_skips s g r)
