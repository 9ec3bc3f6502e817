-- ===== src/Examples/Requests.antt =====
-- The theorems on `CreateResponse` at concrete inputs.
use ai_runtime.Prelude.{
  All, ℕ, String, ◌≡◌, ◌≢◌, refl, ◌⊎◌, inl, inr, true, none, some, List, [], ◌∷◌, arith, str_eq,
  strip, text_in, if◌then◌else◌,
}
use ai_runtime.Errors.{model_not_available, provider_error, transient, ok, err}
use ai_runtime.Json.{JsonCodec, null}
use ai_runtime.Generation.{
  GenerationRequest, completed, is_blank, require_non_blank, post_init_request,
}
use ai_runtime.Routing.{
  ModelRoute, default_model_catalog, default_failover_catalog, lookup, resolve_model_route,
  chain_from, post_init_route, resolve_route_chain, resolve,
}
use ai_runtime.Routing.Adapters.{resolve_All}
use ai_runtime.Database
use ai_runtime.Database.{
  Database, UsageRecord, entitled_models, limit_of, list_entitlements, get_policy,
  sum_tokens_for_organization_in_period, sum_tokens, add_usage, insert_usage, add_audit,
}
use ai_runtime.Policy.{is_model_allowed, would_exceed_monthly_quota}
use ai_runtime.Policy.Enforce.{
  IsLoadable, check_entitlements, post_init_policy, check_policy, enforce,
}
use ai_runtime.Audit.{post_init_audit_event, check_metadata}
use ai_runtime.Usage.{estimate, estimate_cost_usd, lower, post_init_usage_record}
use ai_runtime.Redis
use ai_runtime.Redis.{Redis, idem, cache_resp, live, put, put_nx, get, delete}
use ai_runtime.Redis.Limiter.{consume, token_bucket, refilled, spend, retry_after, bucket_ttl}
use ai_runtime.Redis.Idempotency.{in_progress, status_in_progress, begin, complete, release}
use ai_runtime.Redis.Idempotency.Leases.{after}
use ai_runtime.Redis.Cache.{cache_set}
use ai_runtime.Executor
use ai_runtime.Executor.{ModelProvider, Stream, done, emit, ProviderStreamEvent}
use ai_runtime.Responses.{
  World, Runtime, CreateResponseCommand, usage_record, record_usage, record_generation_success,
  record_generation_error,
}
use ai_runtime.Responses.Create.{
  execute, serialize, enforce_model, before_route, after_claim, generate, generate_or_release,
  complete_claim, release_claim,
}
use ai_runtime.Responses.Entitlements.{IsBarred, execute_barred}
use ai_runtime.Executor.Healthy.{IsReturned, ReachesHealthy, here, there, execute-IsReturned}
use ai_runtime.Responses.Deliver.{deliver}
use ai_runtime.Responses.Payload.{response_json}
use ai_runtime.Responses.Payload.Replay.{replayed}
use ai_runtime.Responses.Accounting.{Quiet, Charged}
use ai_runtime.Responses.Charges.{execute_charges, execute_charges_response}
use ai_runtime.Responses.Replays.{Replayed, execute_replays}
use ai_runtime.Responses.Leases.{Undisturbed, execute_frees}
use ai_runtime.Responses.CacheHits.{execute_keeps_lease}
use ai_runtime.Responses.Limits.{Streamed, deliver_charges}
use ai_runtime.Examples.{ask, reply}
use ai_runtime.Examples.Domain.{leap_day, tables, reply-IsValid}
use ai_runtime.Examples.Storage.{empty, limiter}

abbrev called : World → World
called w = record w { calls = "generate" ∷ w.calls }

abbrev up : ModelProvider World
up = record {
  generate = λ request w. (ok reply, called w);
  stream = λ request w. (emit (completed reply) done, called w);
}

abbrev down : ModelProvider World
down = record {
  generate = λ request w. (err (provider_error (transient "down")), called w);
  stream = λ request w. (Executor.fail (provider_error (transient "down")), called w);
}

-- `json` at the one document that the tests store.
abbrev codec : JsonCodec
codec = record {
  dumps = λ j. "{\"id\":\"r1\"}";
  loads = λ s. if str_eq s "{\"id\":\"r1\"}" then some (response_json reply) else none;
}

abbrev with_adapters : List (String × ModelProvider World) → Runtime
with_adapters providers = record {
  executor = record {
    model_router = record { catalog = default_model_catalog; providers = providers };
    max_retries = 1;
    retry_base_delay = 200;
    failover_enabled = true;
    failover_catalog = default_failover_catalog;
  };
  sleep = λ d w. w;
  limiter = limiter;
  idempotency_ttl = 60;
  cache_ttl = 60;
  codec = codec;
  digest = λ j. "digest";
  write_temperature = λ t. null;
  now = leap_day;
  clock = 5000;
}

abbrev runtime : Runtime
runtime = with_adapters (("openai", up) ∷ ("anthropic", up) ∷ [])

abbrev outage : Runtime
outage = with_adapters (("openai", down) ∷ ("anthropic", down) ∷ [])

abbrev world : World
world = record { db = tables; redis = empty; metrics = []; next_id = 1; calls = [] }

abbrev plain : CreateResponseCommand
plain = record {
  request = ask;
  request_id = "q1";
  organization_id = 1;
  api_key_id = 9;
  idempotency_key = none;
}

abbrev keyed : CreateResponseCommand
keyed = record plain { idempotency_key = some "k" }

abbrev quiet : (c : CreateResponseCommand) (us : List UsageRecord) → Quiet runtime c us
quiet c us = record {
  adapters = λ model r request h.
      resolve_All
        (λ p.
          (q : GenerationRequest) (w : World)
          → w.db.usage_records ≡ us
          → (p.generate q w).1.db.usage_records ≡ us)
        runtime.executor.model_router model r ((λ q w e. e), ((λ q w e. e), tt)) h request;
  sleeping = λ d w e. e;
}

execute_charges_example :
    ((execute runtime keyed world).1.db.usage_records ≡ [])
    ⊎ Charged runtime keyed [] (execute runtime keyed world)
execute_charges_example = execute_charges runtime keyed [] world (quiet keyed []) refl

run_plain : (execute runtime plain world).0 ≡ ok reply
unfolding execute consume Redis.run token_bucket refilled spend retry_after bucket_ttl after_claim
    generate_or_release generate Executor.execute Executor.routes_for resolve_route_chain
    resolve_model_route chain_from lookup post_init_route require_non_blank is_blank strip text_in
    Executor.execute_loop Executor.try_route Executor.attempt_route Executor.generate_with_retries
    Executor.generate_loop Executor.request_for post_init_request Executor.pause resolve
    enforce_model enforce list_entitlements Database.run entitled_models check_entitlements
    is_model_allowed check_policy get_policy limit_of post_init_policy would_exceed_monthly_quota
    sum_tokens_for_organization_in_period sum_tokens record_usage estimate estimate_cost_usd lower
    post_init_usage_record add_usage insert_usage Database.refresh complete_claim
    record_generation_success post_init_audit_event check_metadata add_audit transient begin put_nx
    live put release get delete release_claim record_generation_error
run_plain = refl

execute_charges_response_example :
    (provider : String) × (id : ℕ) × ((execute runtime plain world).1.db.usage_records
      ≡ usage_record runtime plain provider reply id ∷ [])
execute_charges_response_example =
    execute_charges_response runtime plain [] world reply (quiet plain []) refl refl refl run_plain

-- The world after the response was stored under the key, one second later.
abbrev replay_world : World
replay_world = record world {
  redis = after 1000 (complete 60 1 "k" (serialize runtime keyed reply) empty);
}

replay_allowed : (consume limiter 5000 1 replay_world.redis).0.allowed ≡ true
unfolding consume Redis.run token_bucket refilled complete put
replay_allowed = refl

execute_replays_example :
    Replayed runtime keyed (replayed reply) replay_world (execute runtime keyed replay_world)
execute_replays_example =
    execute_replays runtime keyed replay_world "k" reply empty 1000 refl refl reply-IsValid refl
      (omega arith) refl replay_allowed refl

allowed : (consume limiter 5000 1 empty).0.allowed ≡ true
unfolding consume Redis.run token_bucket refilled
allowed = refl

no_record : live empty (idem 1 "k") ≡ none
unfolding live
no_record = refl

abbrev undisturbed : Undisturbed outage keyed
undisturbed = record {
  adapters = λ model r request h.
      resolve_All
        (λ p.
          (q : GenerationRequest) (w : World)
          → w.redis.schedule ≡ []
          → (p.generate q w).1.redis.schedule ≡ [])
        outage.executor.model_router model r ((λ q w e. e), ((λ q w e. e), tt)) h request;
  sleeping = λ d w e. e;
}

run_outage : (execute outage keyed world).0 ≡ err (provider_error (transient "down"))
unfolding execute consume Redis.run token_bucket refilled spend retry_after bucket_ttl after_claim
    generate_or_release generate Executor.execute Executor.routes_for resolve_route_chain
    resolve_model_route chain_from lookup post_init_route require_non_blank is_blank strip text_in
    Executor.execute_loop Executor.try_route Executor.attempt_route Executor.generate_with_retries
    Executor.generate_loop Executor.request_for post_init_request Executor.pause resolve
    enforce_model enforce list_entitlements Database.run entitled_models check_entitlements
    is_model_allowed check_policy get_policy limit_of post_init_policy would_exceed_monthly_quota
    sum_tokens_for_organization_in_period sum_tokens record_usage estimate estimate_cost_usd lower
    post_init_usage_record add_usage insert_usage Database.refresh complete_claim
    record_generation_success post_init_audit_event check_metadata add_audit transient begin put_nx
    live put release get delete release_claim record_generation_error
run_outage = refl

execute_frees_example :
    live (execute outage keyed world).1.redis (idem 1 "k") ≢ some status_in_progress
execute_frees_example =
    execute_frees outage keyed world "k" (provider_error (transient "down")) undisturbed refl refl
      refl allowed no_record run_outage

-- A request for a model that the organization is not entitled to, with a hit in the cache.
abbrev unentitled : CreateResponseCommand
unentitled = record keyed { request = record ask { model = "gpt-4o-mini"; cache = true } }

abbrev hit_world : World
hit_world = record world { redis = cache_set 60 1 "digest" "{\"id\":\"r1\"}" empty }

hit_calm : hit_world.redis.schedule ≡ []
unfolding cache_set Redis.run put
hit_calm = refl

hit_allowed : (consume limiter 5000 1 hit_world.redis).0.allowed ≡ true
unfolding consume Redis.run token_bucket refilled cache_set put
hit_allowed = refl

hit_no_record : live hit_world.redis (idem 1 "k") ≡ none
unfolding live cache_set Redis.run put
hit_no_record = refl

hit_found : live hit_world.redis (cache_resp 1 "digest") ≡ some "{\"id\":\"r1\"}"
unfolding live cache_set Redis.run put
hit_found = refl

hit_refused :
    (enforce_model runtime unentitled "gpt-4o-mini" hit_world).0
    ≡ err (model_not_available "gpt-4o-mini")
unfolding enforce_model enforce list_entitlements Database.run entitled_models check_entitlements
    require_non_blank is_blank strip is_model_allowed text_in
hit_refused = refl

execute_keeps_lease_example :
    ((execute runtime unentitled hit_world).0 ≡ err (model_not_available "gpt-4o-mini"))
    × ((execute runtime unentitled hit_world).1.metrics ≡ [])
    × ((begin 60 1 "k" (after 59999 (execute runtime unentitled hit_world).1.redis)).0
        ≡ in_progress)
execute_keeps_lease_example =
    execute_keeps_lease runtime unentitled hit_world "k" "{\"id\":\"r1\"}"
      (model_not_available "gpt-4o-mini") 59999 refl refl hit_calm hit_allowed hit_no_record
      hit_found hit_refused (omega arith)

abbrev script : Stream ProviderStreamEvent
script =
    emit
      (record { payload = completed reply; route = record { model = "m"; provider = "anthropic" } })
      done

deliver_charges_example : Streamed runtime plain world (deliver runtime plain script world)
deliver_charges_example = deliver_charges runtime plain script world

-- The first route's adapter is down and the second one answers, behind the program's own hook.
abbrev half_up : Runtime
half_up = with_adapters (("openai", down) ∷ ("anthropic", up) ∷ [])

-- The database is as in the tests: it answers, and the organization's quota is not spent. An
-- organization that is entitled to every model.
abbrev open_tables : Database
open_tables = record tables { entitlements = [] }

abbrev IsOpen : World → Type 0
IsOpen w = w.db ≡ open_tables

abbrev gpt : ModelRoute
gpt = record { model = "gpt-4o"; provider = "openai" }

abbrev claude : ModelRoute
claude = record { model = "claude-3-5-sonnet-20241022"; provider = "anthropic" }

abbrev gpt_chain : List ModelRoute
gpt_chain = gpt ∷ claude ∷ record { model = "gemini-2.5-flash"; provider = "gemini" } ∷ []

gpt_routes : Executor.routes_for half_up.sleep half_up.executor "gpt-4o" ≡ ok gpt_chain
unfolding Executor.routes_for resolve_route_chain resolve_model_route chain_from lookup
    post_init_route require_non_blank is_blank strip text_in
gpt_routes = refl

before_route_passes :
    (route : ModelRoute) (w : World)
    → IsOpen w
    → ((before_route half_up plain route w).0 ≡ ok tt)
      × IsOpen (before_route half_up plain route w).1
unfolding enforce_model enforce list_entitlements Database.run entitled_models check_entitlements
    is_model_allowed check_policy get_policy limit_of post_init_policy would_exceed_monthly_quota
    sum_tokens_for_organization_in_period sum_tokens
before_route_passes route w g = rw g (refl, refl)

gpt_reaches :
    ReachesHealthy half_up.sleep half_up.executor IsOpen
      (λ n w g. g)
      (some (before_route half_up plain))
      ask
      gpt_chain
unfolding Executor.request_for resolve resolve_model_route lookup post_init_route require_non_blank
    is_blank strip post_init_request transient
gpt_reaches =
    there
      (record {
        hooked = λ w g. let (through, kept) = before_route_passes gpt w g in (inl through, kept);
        sent = ask;
        rewritten = refl;
        adapter = inr (_, refl, λ w g. (inr (_, refl), g));
      })
      (here (record {
        hooked = λ w g. before_route_passes claude w g;
        sent = record ask { model = "claude-3-5-sonnet-20241022" };
        rewritten = refl;
        resolved = record {
          route = record { model = "claude-3-5-sonnet-20241022"; provider = "anthropic" };
          provider = up;
        };
        found = refl;
        answers = λ w g. (reply, refl);
      }))

execute-IsReturned_example :
    IsReturned
      (Executor.execute half_up.sleep half_up.executor "gpt-4o" ask
        (some (before_route half_up plain))
        (record world { db = open_tables })).0
execute-IsReturned_example =
    execute-IsReturned half_up.sleep half_up.executor IsOpen (λ n w g. g)
      (some (before_route half_up plain)) ask "gpt-4o" gpt_chain (record world { db = open_tables })
      refl gpt_routes gpt_reaches

-- An organization that is entitled to another model only, behind the program's own hook.
abbrev barred : CreateResponseCommand
barred = record plain { organization_id = 3 }

abbrev barred_world : World
barred_world = record world { db = record tables { entitlements = (3, "o1") ∷ [] } }

barred-IsLoadable : IsLoadable barred_world.db 3
unfolding entitled_models limit_of check_entitlements post_init_policy require_non_blank is_blank
    strip
barred-IsLoadable = record { answers = refl; entitlements = refl; policy = refl }

gpt-AreBarred : All (λ route. IsBarred barred_world.db 3 route.model) gpt_chain
unfolding entitled_models text_in
gpt-AreBarred = ((λ e. cc, refl), ((λ e. cc, refl), ((λ e. cc, refl), tt)))

execute_barred_example :
    Executor.execute half_up.sleep half_up.executor "gpt-4o" ask
      (some (before_route half_up barred))
      barred_world
    ≡ (err (model_not_available "gpt-4o"), barred_world)
execute_barred_example =
    execute_barred half_up barred barred_world barred-IsLoadable "gpt-4o" gpt_chain gpt_routes
      gpt-AreBarred
