-- ===== src/Executor/Streams.antt =====
-- `stream` and `_stream_with_retries` of provider_executor.py. A stream that fails before its first
-- event is the constructor `fail`; the `started` flags of the code are the constructor `emit`.
use ai_runtime.Prelude.{ℕ, zero, suc, ◌+◌, String, Option, none, some, List, [], ◌∷◌, if◌then◌else◌}
use ai_runtime.Errors.{Error, provider_error, external_error, Result, ok, err}
use ai_runtime.Generation.{GenerationRequest, GenerationStreamEvent}
use ai_runtime.Routing.{ModelRoute, ResolvedRoute, resolve}
use ai_runtime.Executor.{
  Stream, done, fail, emit, ModelProvider, ProviderStreamEvent, ProviderExecutor, Skips, no_skips,
  pause, gives_up, routes_for, request_for, final_error, Hook, run_hook, after_hook, after_resolve,
  after_request,
}

-- Each event with the route that produced it.
unfoldable pub tag : ModelRoute → Stream GenerationStreamEvent → Stream ProviderStreamEvent
tag route done = done
tag route (fail e) = fail e
tag route (emit a rest) = emit (record { payload = a; route = route }) (tag route rest)

module _ {S : Type 0} (sleep : ℕ → S → S) (x : ProviderExecutor S) where
  -- The `except` clause of `_stream_with_retries`.
  abbrev pub after_stream :
      ℕ
      → (S → Option (Stream GenerationStreamEvent × S))
      → Stream GenerationStreamEvent
      → S
      → Option (Stream GenerationStreamEvent × S)
  after_stream attempt retry (fail (provider_error e)) s =
      if gives_up sleep x e attempt
      then some (fail (provider_error e), s)
      else retry (pause sleep x (attempt + 1) s)
  after_stream attempt retry (fail e) s = some (fail e, s)
  after_stream attempt retry done s = some (done, s)
  after_stream attempt retry (emit a rest) s = some (emit a rest, s)

  -- The `while True` of `_stream_with_retries`; `none` means that the fuel ran out.
  unfoldable pub stream_loop :
      ModelProvider S → GenerationRequest → ℕ → ℕ → S → Option (Stream GenerationStreamEvent × S)
  stream_loop p request zero attempt s = none
  stream_loop p request (suc fuel) attempt s =
      let (script, s') = p.stream request s in
      after_stream attempt (λ s''. stream_loop p request fuel (attempt + 1) s'') script s'

  abbrev pub streamed :
      S → Option (Stream GenerationStreamEvent × S) → Stream GenerationStreamEvent × S
  streamed s none = (fail external_error, s)
  streamed s (some r) = r

  unfoldable pub stream_with_retries :
      ModelProvider S → GenerationRequest → S → Stream GenerationStreamEvent × S
  stream_with_retries p request s = streamed s (stream_loop p request (x.max_retries + 1) 0 s)

  abbrev pub Out : Type 0
  Out = Stream ProviderStreamEvent × S

  abbrev pub break : Error → S → Out
  break e s = (fail e, s)

  -- The `async for` of `stream` and its `except`: failover only before the first event.
  abbrev pub after_start :
      (Skips → S → Out) → ModelRoute → Skips → Stream GenerationStreamEvent → S → Out
  after_start next route sk (fail (provider_error e)) s = next (record sk { last_error = some e }) s
  after_start next route sk (fail e) s = (fail e, s)
  after_start next route sk done s = (done, s)
  after_start next route sk (emit a rest) s = (tag route (emit a rest), s)

  unfoldable pub start_route :
      (Skips → S → Out) → Skips → ResolvedRoute (ModelProvider S) → GenerationRequest → S → Out
  start_route next sk resolved request s =
      let (script, s') = stream_with_retries resolved.provider request s in
      after_start next resolved.route sk script s'

  -- One round of the loop of `stream`.
  unfoldable pub try_stream_route :
      Hook sleep x → GenerationRequest → (Skips → S → Out) → ModelRoute → Skips → S → Out
  unfolding start_route
  try_stream_route hook request next route sk s =
      let (h, s') = run_hook sleep x hook route s in
      after_hook sleep x next break
        (after_resolve sleep x next break
          (λ resolved.
            after_request sleep x break (start_route next sk resolved)
              (request_for sleep x route request))
          sk (resolve x.model_router route.model))
        route sk h s'

  unfoldable pub routes_loop :
      Hook sleep x
      → String
      → GenerationRequest
      → List ModelRoute
      → List ModelRoute
      → Skips
      → S
      → Out
  routes_loop hook requested_model request routes [] sk s =
      (fail (final_error sleep x requested_model routes sk), s)
  routes_loop hook requested_model request routes (route ∷ rest) sk s =
      try_stream_route hook request
        (λ sk'. routes_loop hook requested_model request routes rest sk') route sk s

  abbrev pub over_routes : Result (List ModelRoute) → (List ModelRoute → S → Out) → S → Out
  over_routes (ok routes) f s = f routes s
  over_routes (err e) f s = (fail e, s)

  -- `stream`
  unfoldable pub stream : String → GenerationRequest → Hook sleep x → S → Out
  stream requested_model request hook =
      over_routes (routes_for sleep x requested_model)
        (λ routes. routes_loop hook requested_model request routes routes no_skips)
