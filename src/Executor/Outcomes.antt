-- ===== src/Executor/Outcomes.antt =====
-- What `ProviderExecutor.execute` gives back: who answered, and who was never asked.
use mathlib.Core.List.{Memᴰ}
use ai_runtime.Prelude.{
  ℕ, ◌+◌, String, ◌≡◌, refl, sym, ◌∙◌, true, Option, none, some, List, [], ◌∷◌, ◌++◌, arith, length,
  length-append, All, Bool-cases, inl, inr, eq_iff, ◌≢◌, ◌&&◌, ◌==◌, ==_iff,
}
use ai_runtime.Errors.{model_not_available, Result, ok, err, Result-cases, >>=-eq-ok}
use ai_runtime.Exec.{Exec}
use ai_runtime.Generation.{GenerationRequest}
use ai_runtime.Routing.{ModelRoute, ResolvedRoute, lookup, bind_provider, resolve_model_route}
use ai_runtime.Routing.Chain.{IsListed, route-IsListed, resolve_route_chain_sound, resolve-listed}
use ai_runtime.Executor.{
  ModelProvider, ProviderExecutionResult, ProviderExecutor, Skips, no_skips, generate_with_retries,
  has_refusals, routes_for, request_for, Hook, run_hook, try_route, execute_loop, execute,
}
use ai_runtime.Executor.Failover.{execute_loop_ok}

mem_All :
    (P : ModelRoute → Type 0) {r : ModelRoute} {rs : List ModelRoute} → Memᴰ r rs → All P rs → P r
mem_All P (Memᴰ.head e) (p, h) = rw e p
mem_All P (Memᴰ.tail m) (p, h) = mem_All P m h

module _ {S : Type 0} (sleep : ℕ → S → S) (x : ProviderExecutor S) where
  only_route :
      (r : ModelRoute) (routes : List ModelRoute)
      → IsListed x.model_router.catalog r
      → ◌≡◌ {A = Result (List ModelRoute)} (ok (r ∷ [])) (ok routes)
      → All (IsListed x.model_router.catalog) routes × (routes ≢ [])
  only_route r [] l h = cc
  only_route r (r' ∷ []) l h = ((let e : r ≡ r' = cc in rw (← e) l, tt), λ p. cc)
  only_route r (r' ∷ r'' ∷ rs) l h = cc

  pub routes_for-IsListed :
      (m : String) (routes : List ModelRoute)
      → routes_for sleep x m ≡ ok routes
      → All (IsListed x.model_router.catalog) routes × (routes ≢ [])
  unfolding routes_for
  routes_for-IsListed m routes h = elim (Bool-cases x.failover_enabled) [
    | inl on ↦
        let (primary, rest, e, same, all, new) =
          resolve_route_chain_sound m x.model_router.catalog x.failover_catalog routes
            (rw on at h) in
        (all, λ p. cc)
    | inr off ↦
        let (r, found, same) =
          >>=-eq-ok (resolve_model_route m x.model_router.catalog) _ (rw off at h) in
        only_route r routes ((route-IsListed m x.model_router.catalog r found).1) same
  ]

  request_for-model :
      (route : ModelRoute) (request sent : GenerationRequest)
      → request_for sleep x route request ≡ ok sent
      → sent.model ≡ route.model
  unfolding request_for
  request_for-model route request sent h = ground (arith, eq_iff route.model request.model)

  resolved-listed :
      (route : ModelRoute) (resolved : ResolvedRoute (ModelProvider S))
      (o : Option (ModelProvider S))
      → bind_provider route o ≡ ok resolved
      → (resolved.route ≡ route) × (o ≡ some resolved.provider)
  resolved-listed route resolved none h = cc
  resolved-listed route resolved (some p) h = (cc, cc)

  -- Who gave a result: a route of the model, with the adapter registered for it, which the hook let
  -- through in some state and which was sent a request for its own model.
  abbrev pub AnsweredBy :
      String → GenerationRequest → Hook sleep x → ProviderExecutionResult → Type 0
  AnsweredBy m request hook res =
      (routes : List ModelRoute) × (routes_for sleep x m ≡ ok routes)
      × (route : ModelRoute) × Memᴰ route routes
      × (res.route ≡ route)
      × (p : ModelProvider S) × (lookup route.provider x.model_router.providers ≡ some p)
      × (s₀ : S) × ((run_hook sleep x hook route s₀).0 ≡ ok tt)
      × (sent : GenerationRequest) × (sent.model ≡ route.model)
      × ((generate_with_retries sleep x p sent (run_hook sleep x hook route s₀).1).0
          ≡ ok res.response)

  -- A result of `execute` comes from one of the model's routes. The hook let that route through, the
  -- adapter registered for its provider was asked for that route's model, and the response is what
  -- the adapter gave within its retries.
  pub execute_sound :
      (m : String) (request : GenerationRequest) (hook : Hook sleep x) (s : S)
      (res : ProviderExecutionResult) (s' : S)
      → execute sleep x m request hook s ≡ (ok res, s')
      → AnsweredBy m request hook res
  unfolding execute
  execute_sound m request hook s res s' h = elim (Result-cases (routes_for sleep x m)) [
    | inl (routes, known) ↦
        let (route, mem, s₀, v) =
          execute_loop_ok sleep x hook m request routes routes no_skips s res s' (ground arith) in
        let l =
          mem_All (IsListed x.model_router.catalog) mem (routes_for-IsListed m routes known).0 in
        let (same, adapter) =
          resolved-listed route v.resolved (lookup route.provider x.model_router.providers)
            (sym (resolve-listed x.model_router route l) ∙ v.found) in
        (
          routes,
          known,
          route,
          mem,
          v.bound ∙ same,
          v.resolved.provider,
          adapter,
          s₀,
          v.let_through,
          v.sent,
          request_for-model route request v.sent v.rewritten,
          v.answered,
        )
    | inr (e, failed) ↦ absurd (ground arith)
  ]

  -- In the state `s` the hook answers `ModelNotAvailableError` for each of the routes.
  abbrev pub RefusesAll : (ModelRoute → Exec S (Unit {0})) → S → List ModelRoute → Type 0
  RefusesAll hook s =
      All (λ route. (m : String) × (hook route s ≡ (err (model_not_available m), s)))

  all_refused :
      (unavailable : List String) (routes : List ModelRoute)
      → length unavailable ≡ length routes
      → routes ≢ []
      → (has_refusals sleep x unavailable && length unavailable == length routes) ≡ true
  all_refused unavailable [] same ne = absurd (ne refl)
  all_refused [] (r ∷ rs) same ne = absurd (omega arith)
  all_refused (m ∷ ms) (r ∷ rs) same ne = (==_iff _ _).1 same

  execute_loop_refused :
      (hook : ModelRoute → Exec S (Unit {0})) (m : String) (request : GenerationRequest)
      (routes rest : List ModelRoute) (sk : Skips) (s : S)
      → RefusesAll hook s rest
      → sk.last_error ≡ none
      → length sk.unavailable + length rest ≡ length routes
      → routes ≢ []
      → execute_loop sleep x (some hook) m request routes rest sk s
        ≡ (err (model_not_available m), s)
  unfolding execute_loop try_route
  execute_loop_refused hook m request routes [] sk s refuses e total ne =
      rw (e, all_refused sk.unavailable routes (omega arith) ne) refl
  execute_loop_refused hook m request routes (route ∷ rest) sk s ((refused, r), refuses) e total
        ne =
      rw r (
        execute_loop_refused hook m request routes rest
          (record sk { unavailable = sk.unavailable ++ route.model ∷ [] }) s refuses e
          (omega (arith, length-append sk.unavailable (route.model ∷ []))) ne)

  -- Where the hook, in the state that `execute` starts in, finds the model of each route of the chain
  -- not available and leaves the state as it is, the request ends with `ModelNotAvailableError` for the
  -- model that was asked for, not for the last route's, and no provider is called: the state is as
  -- before.
  pub execute_refused :
      (hook : ModelRoute → Exec S (Unit {0})) (m : String) (request : GenerationRequest) (s : S)
      (routes : List ModelRoute)
      → RefusesAll hook s routes
      → routes_for sleep x m ≡ ok routes
      → execute sleep x m request (some hook) s ≡ (err (model_not_available m), s)
  unfolding execute
  execute_refused hook m request s routes refuses known = rw known (
      execute_loop_refused hook m request routes routes no_skips s refuses refl (omega arith)
        (routes_for-IsListed m routes known).1)
