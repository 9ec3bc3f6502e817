-- ===== src/Executor/Started.antt =====
-- A stream that has begun is one call of one provider, to its end.
use mathlib.Core.List.{Memᴰ}
use ai_runtime.Prelude.{
  ℕ, zero, suc, ◌+◌, String, ◌≡◌, refl, sym, ◌∙◌, ◌⊎◌, inl, inr, Option, none, some, List, [], ◌∷◌,
  arith, Bool-cases,
}
use ai_runtime.Errors.{
  provider_error, model_not_available, provider_not_registered, Result, ok, err,
}
use ai_runtime.Generation.{GenerationRequest, GenerationStreamEvent}
use ai_runtime.Routing.{ModelRoute, ResolvedRoute, resolve}
use ai_runtime.Executor.{
  Stream, done, fail, emit, ModelProvider, ProviderStreamEvent, ProviderExecutor, Skips, no_skips,
  pause, gives_up, routes_for, request_for, Hook, run_hook, after_hook, after_resolve,
  after_request,
}
use ai_runtime.Executor.Streams.{
  tag, after_stream, stream_loop, streamed, stream_with_retries, Out, break, after_start,
  start_route, try_stream_route, routes_loop, stream,
}

module _ {S : Type 0} (sleep : ℕ → S → S) (x : ProviderExecutor S) where
  module _ (p : ModelProvider S) (request : GenerationRequest) (a : GenerationStreamEvent)
      (rest : Stream GenerationStreamEvent) (s' : S) where
    -- What was delivered is what one call delivered.
    abbrev OneCall : Type 0
    OneCall = (s₁ : S) × ((p.stream request s₁).0 ≡ emit a rest) × ((p.stream request s₁).1 ≡ s')

    after_stream-OneCall :
        (attempt : ℕ) (retry : S → Option (Stream GenerationStreamEvent × S)) (s₁ : S)
        (script : Stream GenerationStreamEvent) (s₂ : S)
        → (p.stream request s₁).0 ≡ script
        → (p.stream request s₁).1 ≡ s₂
        → after_stream sleep x attempt retry script s₂ ≡ some (emit a rest, s')
        → ((s : S) → retry s ≡ some (emit a rest, s') → OneCall)
        → OneCall
    after_stream-OneCall attempt retry s₁ (fail (provider_error e)) s₂ p₀ p₁ h more =
        elim (Bool-cases (gives_up sleep x e attempt)) [
          | inl stop ↦ absurd (ground arith)
          | inr go ↦ more (pause sleep x (attempt + 1) s₂) (ground arith)
        ]
    after_stream-OneCall attempt retry s₁ (fail e) s₂ p₀ p₁ h more = cc
    after_stream-OneCall attempt retry s₁ done s₂ p₀ p₁ h more = cc
    after_stream-OneCall attempt retry s₁ (emit b t) s₂ p₀ p₁ h more =
        (s₁, ground arith, ground arith)

    stream_loop-OneCall :
        (fuel attempt : ℕ) (s : S)
        → stream_loop sleep x p request fuel attempt s ≡ some (emit a rest, s')
        → OneCall
    unfolding stream_loop
    stream_loop-OneCall zero attempt s h = cc
    stream_loop-OneCall (suc fuel) attempt s h =
        after_stream-OneCall attempt (λ s₁. stream_loop sleep x p request fuel (attempt + 1) s₁) s
          (p.stream request s).0 (p.stream request s).1 refl refl h
          (λ s₁. stream_loop-OneCall fuel (attempt + 1) s₁)

    stream_with_retries-OneCall :
        (s : S)
        → (stream_with_retries sleep x p request s).0 ≡ emit a rest
        → (stream_with_retries sleep x p request s).1 ≡ s'
        → OneCall
    unfolding stream_with_retries
    stream_with_retries-OneCall s h k =
        stream_loop-OneCall (x.max_retries + 1) 0 s
          (from_streamed s (stream_loop sleep x p request (x.max_retries + 1) 0 s) h k)
      where
        from_streamed :
            (s : S) (o : Option (Stream GenerationStreamEvent × S))
            → (streamed sleep x s o).0 ≡ emit a rest
            → (streamed sleep x s o).1 ≡ s'
            → o ≡ some (emit a rest, s')
        from_streamed s none h k = cc
        from_streamed s (some (t, s₂)) h k = cc

  -- The events that were delivered are those of one call of a route's adapter, each with that route.
  pub record Began (route : ModelRoute) (first : ProviderStreamEvent)
      (more : Stream ProviderStreamEvent) (s' : S) : Type 0 where
    pub resolved : ResolvedRoute (ModelProvider S)
    pub found : resolve x.model_router route.model ≡ ok resolved
    pub sent : GenerationRequest
    pub from : S
    pub tagged : emit first more ≡ tag resolved.route (resolved.provider.stream sent from).0
    pub left : (resolved.provider.stream sent from).1 ≡ s'

  module _ (next : Skips → S → Out sleep x) (first : ProviderStreamEvent)
      (more : Stream ProviderStreamEvent) (s' : S) where
    abbrev Onward : Type 0
    Onward = (sk : Skips) × (s : S) × ((next sk s).0 ≡ emit first more) × ((next sk s).1 ≡ s')

    after_start-Began :
        (route : ModelRoute) (sk : Skips) (resolved : ResolvedRoute (ModelProvider S))
        (sent : GenerationRequest) (s : S) (script : Stream GenerationStreamEvent) (s₁ : S)
        → resolve x.model_router route.model ≡ ok resolved
        → (stream_with_retries sleep x resolved.provider sent s).0 ≡ script
        → (stream_with_retries sleep x resolved.provider sent s).1 ≡ s₁
        → (after_start sleep x next resolved.route sk script s₁).0 ≡ emit first more
        → (after_start sleep x next resolved.route sk script s₁).1 ≡ s'
        → Began route first more s' ⊎ Onward
    after_start-Began route sk resolved sent s (fail (provider_error e)) s₁ found p₀ p₁ h k =
        inr (_, _, h, k)
    after_start-Began route sk resolved sent s (fail e) s₁ found p₀ p₁ h k = cc
    after_start-Began route sk resolved sent s done s₁ found p₀ p₁ h k = cc
    after_start-Began route sk resolved sent s (emit a rest) s₁ found p₀ p₁ h k =
        let (from, q₀, q₁) = stream_with_retries-OneCall resolved.provider sent a rest s₁ s p₀ p₁ in
        inl (record {
          resolved = resolved;
          found = found;
          sent = sent;
          from = from;
          tagged = rw q₀ (sym h);
          left = q₁ ∙ k;
        })

    module _ (hook : Hook sleep x) (request : GenerationRequest) (route : ModelRoute)
        (sk : Skips) where
      abbrev go : ResolvedRoute (ModelProvider S) → S → Out sleep x
      go resolved =
          after_request sleep x (break sleep x) (start_route sleep x next sk resolved)
            (request_for sleep x route request)

      start-Began :
          (resolved : ResolvedRoute (ModelProvider S)) (r : Result GenerationRequest) (s : S)
          → resolve x.model_router route.model ≡ ok resolved
          → (after_request sleep x (break sleep x) (start_route sleep x next sk resolved) r s).0
            ≡ emit first more
          → (after_request sleep x (break sleep x) (start_route sleep x next sk resolved) r s).1
            ≡ s'
          → Began route first more s' ⊎ Onward
      unfolding start_route
      start-Began resolved (ok sent) s found h k =
          after_start-Began route sk resolved sent s
            (stream_with_retries sleep x resolved.provider sent s).0
            (stream_with_retries sleep x resolved.provider sent s).1 found refl refl h k
      start-Began resolved (err e) s found h k = cc

      resolve-Began :
          (r : Result (ResolvedRoute (ModelProvider S))) (s : S)
          → resolve x.model_router route.model ≡ r
          → (after_resolve sleep x next (break sleep x) go sk r s).0 ≡ emit first more
          → (after_resolve sleep x next (break sleep x) go sk r s).1 ≡ s'
          → Began route first more s' ⊎ Onward
      resolve-Began (ok resolved) s found h k =
          start-Began resolved (request_for sleep x route request) s found h k
      resolve-Began (err (provider_not_registered p)) s found h k = inr (_, _, h, k)
      resolve-Began (err e) s found h k = cc

      abbrev resolving : S → Out sleep x
      resolving =
          after_resolve sleep x next (break sleep x) go sk (resolve x.model_router route.model)

      hook-Began :
          (r : Result (Unit {0})) (s : S)
          → (after_hook sleep x next (break sleep x) resolving route sk r s).0 ≡ emit first more
          → (after_hook sleep x next (break sleep x) resolving route sk r s).1 ≡ s'
          → Began route first more s' ⊎ Onward
      hook-Began (ok u) s h k = resolve-Began (resolve x.model_router route.model) s refl h k
      hook-Began (err (model_not_available m)) s h k = inr (_, _, h, k)
      hook-Began (err e) s h k = cc

      try-Began :
          (s : S)
          → (try_stream_route sleep x hook request next route sk s).0 ≡ emit first more
          → (try_stream_route sleep x hook request next route sk s).1 ≡ s'
          → Began route first more s' ⊎ Onward
      unfolding try_stream_route
      try-Began s h k =
          hook-Began (run_hook sleep x hook route s).0 (run_hook sleep x hook route s).1 h k

  module _ (hook : Hook sleep x) (m : String) (request : GenerationRequest)
      (first : ProviderStreamEvent) (more : Stream ProviderStreamEvent) (s' : S) where
    routes_loop-Began :
        (routes rest : List ModelRoute) (sk : Skips) (s : S)
        → (routes_loop sleep x hook m request routes rest sk s).0 ≡ emit first more
        → (routes_loop sleep x hook m request routes rest sk s).1 ≡ s'
        → (route : ModelRoute) × Memᴰ route rest × Began route first more s'
    unfolding routes_loop
    routes_loop-Began routes [] sk s h k = cc
    routes_loop-Began routes (route ∷ rest) sk s h k =
        elim (try-Began (λ sk'. routes_loop sleep x hook m request routes rest sk') first more s'
          hook request route sk s h k) [
            | inl began ↦ (route, Memᴰ.head refl, began)
            | inr (sk', s₁, h', k') ↦
                let (r, mem, began) = routes_loop-Began routes rest sk' s₁ h' k' in
                (r, Memᴰ.tail mem, began)
          ]

    -- Once a stream has delivered an event, all that it delivers, its end or failure included, is one
    -- call of the adapter of one of the model's routes, and every event carries that adapter's route:
    -- after the first event there is no retry and no failover.
    pub stream_started :
        (s : S) (routes : List ModelRoute)
        → routes_for sleep x m ≡ ok routes
        → (stream sleep x m request hook s).0 ≡ emit first more
        → (stream sleep x m request hook s).1 ≡ s'
        → (route : ModelRoute) × Memᴰ route routes × Began route first more s'
    unfolding stream
    stream_started s routes known h k =
        routes_loop-Began routes routes no_skips s (rw known at h) (rw known at k)
