-- ===== src/Examples/Execution.antt =====
-- The theorems on the provider executor at concrete inputs: the state counts the calls of providers.
use mathlib.Core.List.{Memᴰ}
use ai_runtime.Prelude.{
  ℕ, ◌+◌, ◌*◌, ◌≤◌, ◌≡◌, refl, true, none, some, List, [], ◌∷◌, arith, strip, text_in, ap,
}
use ai_runtime.Errors.{provider_error, transient, Result, ok, err}
use ai_runtime.Generation.{
  GenerationRequest, GenerationResponse, delta, completed, is_blank, require_non_blank,
  post_init_request,
}
use ai_runtime.Routing.{
  ModelRoute, lookup, default_model_catalog, default_failover_catalog, resolve_model_route,
  chain_from, post_init_route, resolve_route_chain, resolve,
}
use ai_runtime.Routing.Adapters.{resolve_All}
use ai_runtime.Executor
use ai_runtime.Executor.{
  Stream, done, emit, ModelProvider, ProviderExecutionResult, ProviderStreamEvent, ProviderExecutor,
  generate_with_retries, generate_loop, routes_for, request_for, execute_loop, try_route, pause,
  attempt_route,
}
use ai_runtime.Executor.Streams.{
  stream, stream_with_retries, stream_loop, routes_loop, try_stream_route, start_route, tag,
}
use ai_runtime.Executor.Retries.{Counts, Tried, generate_loop_total, generate_with_retries_bounds}
use ai_runtime.Executor.Outcomes.{AnsweredBy, execute_sound}
use ai_runtime.Executor.Bounds.{CountsAll, execute_bounds}
use ai_runtime.Executor.Started.{Began, stream_started}
use ai_runtime.Examples.{ask, reply}

-- An adapter that answers, and one whose service is down.
abbrev up : ModelProvider ℕ
up = record {
  generate = λ request n. (ok reply, n + 1);
  stream = λ request n. (
    emit (delta (record { id = "r1"; model = "m"; content = "he" })) (emit (completed reply) done),
    n + 1,
  );
}

abbrev down : ModelProvider ℕ
down = record {
  generate = λ request n. (err (provider_error (transient "down")), n + 1);
  stream = λ request n. (Executor.fail (provider_error (transient "down")), n + 1);
}

abbrev executor : ProviderExecutor ℕ
executor = record {
  model_router = record {
    catalog = default_model_catalog;
    providers = ("openai", down) ∷ ("anthropic", up) ∷ [];
  };
  max_retries = 1;
  retry_base_delay = 200;
  failover_enabled = true;
  failover_catalog = default_failover_catalog;
}

abbrev sleep : ℕ → ℕ → ℕ
sleep d n = n

abbrev claude : ModelRoute
claude = record { model = "claude-3-5-sonnet-20241022"; provider = "anthropic" }

abbrev chain : List ModelRoute
chain =
    record { model = "gpt-4o"; provider = "openai" }
    ∷ claude
    ∷ record { model = "gemini-2.5-flash"; provider = "gemini" }
    ∷ []

chain_of_gpt : routes_for sleep executor "gpt-4o" ≡ ok chain
unfolding routes_for resolve_route_chain resolve_model_route chain_from lookup post_init_route
    require_non_blank is_blank strip text_in
chain_of_gpt = refl

-- Two calls of the first provider, and the third answers.
run_gpt :
    Executor.execute sleep executor "gpt-4o" ask none 0
    ≡ (ok (record { response = reply; route = claude }), 3)
unfolding Executor.execute routes_for resolve_route_chain resolve_model_route chain_from lookup
    post_init_route require_non_blank is_blank strip text_in execute_loop try_route
    generate_with_retries generate_loop request_for post_init_request pause resolve transient
    attempt_route
run_gpt = refl

execute_sound_example :
    AnsweredBy sleep executor "gpt-4o" ask none (record { response = reply; route = claude })
execute_sound_example =
    execute_sound sleep executor "gpt-4o" ask none 0 (record { response = reply; route = claude }) 3
      run_gpt

Counts-up : (request : GenerationRequest) → Counts (λ n. n) sleep up request
Counts-up request = record { counted = λ s. refl; quiet = λ d s. refl }

Counts-down : (request : GenerationRequest) → Counts (λ n. n) sleep down request
Counts-down request = record { counted = λ s. refl; quiet = λ d s. refl }

generate_with_retries_bounds_example :
    Tried
      (λ n. n)
      4
      2
      (generate_with_retries sleep executor down ask 4).0
      (generate_with_retries sleep executor down ask 4).1
generate_with_retries_bounds_example =
    generate_with_retries_bounds sleep executor (λ n. n) down ask (Counts-down ask) 4

generate_loop_total_example :
    (o : Result GenerationResponse × ℕ) × (generate_loop sleep executor down ask 2 0 4 ≡ some o)
generate_loop_total_example =
    generate_loop_total sleep executor down ask 2 0 4 (omega arith) (omega arith)

counts_all : CountsAll (λ n. n) sleep executor none
counts_all = record {
  adapters = λ model r request h.
      resolve_All (λ p. (q : GenerationRequest) → Counts (λ n. n) sleep p q) executor.model_router
        model r (Counts-down, (Counts-up, tt)) h request;
  hooked = λ route s. refl;
}

execute_bounds_example : (Executor.execute sleep executor "gpt-4o" ask none 0).1 ≤ 0 + 3 * 2
execute_bounds_example =
    execute_bounds sleep executor (λ n. n) none "gpt-4o" ask counts_all 0 chain chain_of_gpt

abbrev first_event : ProviderStreamEvent
first_event = record {
  payload = delta (record { id = "r1"; model = "m"; content = "he" });
  route = claude;
}

abbrev other_events : Stream ProviderStreamEvent
other_events = emit (record { payload = completed reply; route = claude }) done

stream_gpt : stream sleep executor "gpt-4o" ask none 0 ≡ (emit first_event other_events, 3)
unfolding stream routes_for resolve_route_chain resolve_model_route chain_from lookup
    post_init_route require_non_blank is_blank strip text_in routes_loop try_stream_route
    start_route stream_with_retries stream_loop request_for post_init_request pause resolve
    transient tag
stream_gpt = refl

stream_started_example :
    (route : ModelRoute) × Memᴰ route chain × Began sleep executor route first_event other_events 3
stream_started_example =
    stream_started sleep executor none "gpt-4o" ask first_event other_events 3 0 chain chain_of_gpt
      (ap (λ o. o.0) stream_gpt) (ap (λ o. o.1) stream_gpt)
