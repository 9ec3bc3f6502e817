-- ===== src/Responses/Create.antt =====
-- `CreateResponse.execute` of src/ai_runtime/application/responses/create_response.py.
use ai_runtime.Prelude.{ℕ, String, Bool, true, false, Option, none, some, max, if◌then◌else◌}
use ai_runtime.Errors
use ai_runtime.Errors.{
  Error, domain_validation, rate_limit_exceeded, idempotency_conflict, external_error, Result, ok,
  err,
}
use ai_runtime.Exec.{Exec, pure, lift, ◌>>=◌, ◌>>◌, on_error}
use ai_runtime.Json.{Json}
use ai_runtime.Generation.{GenerationResponse, post_init_response}
use ai_runtime.Routing.{ModelRoute}
use ai_runtime.Policy.Enforce.{enforce}
use ai_runtime.Redis.Limiter.{consume}
use ai_runtime.Redis.Idempotency.{BeginResult, miss, in_progress, begin, complete, release}
use ai_runtime.Redis.Idempotency
use ai_runtime.Redis.Cache.{cache_get, cache_set}
use ai_runtime.Executor
use ai_runtime.Executor.{ProviderExecutionResult}
use ai_runtime.Responses.{
  World, Runtime, CreateResponseCommand, in_db, in_redis, record_generation_error, record_usage,
  record_generation_success,
}
use ai_runtime.Responses.Payload.{response_json, read_response, fingerprint_payload}

module _ (rt : Runtime) (c : CreateResponseCommand) where
  -- `retry_after_seconds` of a denial, at least one second
  abbrev pub retry_seconds : Option ℕ → ℕ
  retry_seconds none = 1
  retry_seconds (some n) = max 1 n

  -- `_serialize_response`
  abbrev pub serialize : GenerationResponse → String
  serialize response = rt.codec.dumps (response_json response)

  abbrev read_or_raise : Option Json → Result GenerationResponse
  read_or_raise none = err external_error
  read_or_raise (some j) = read_response j

  -- `_deserialize_response`
  unfoldable pub deserialize : String → Result GenerationResponse
  deserialize payload = read_or_raise (rt.codec.loads payload)

  -- `fingerprint_generation_request(command.request)`
  abbrev pub fingerprint : String
  fingerprint = rt.digest (fingerprint_payload rt.write_temperature c.request)

  -- The policy check of one model.
  unfoldable pub enforce_model : String → Exec World (Unit {0})
  enforce_model model = in_db (
      enforce rt.now (record {
        organization_id = c.organization_id;
        requested_model = model;
        max_output_tokens = c.request.max_output_tokens;
      }))

  -- `_before_route`
  abbrev pub before_route : ModelRoute → Exec World (Unit {0})
  before_route route = enforce_model route.model

  -- `if claimed_idempotency and command.idempotency_key is not None: … .complete(…)`; the first
  -- argument is the key that was claimed.
  unfoldable pub complete_claim : Option String → GenerationResponse → World → World
  complete_claim none response w = w
  complete_claim (some key) response w = record w {
    redis = complete rt.idempotency_ttl c.organization_id key (serialize response) w.redis;
  }

  unfoldable pub release_claim : Option String → World → World
  release_claim none w = w
  release_claim (some key) w = record w { redis = release c.organization_id key w.redis }

  abbrev pub store_in_cache : Bool → GenerationResponse → World → World
  store_in_cache false response w = w
  store_in_cache true response w = record w {
    redis = cache_set rt.cache_ttl c.organization_id fingerprint (serialize response) w.redis;
  }

  -- The body of the `try`.
  unfoldable pub generate : Option String → Exec World GenerationResponse
  generate claimed = do
    execution ← Executor.execute rt.sleep rt.executor c.request.model c.request (some before_route)
    record_usage rt c execution.route.provider execution.response
    (λ w. (
      ok tt,
      complete_claim claimed execution.response
          (store_in_cache c.request.cache execution.response w),
    ))
    record_generation_success rt c execution.response "provider" execution.route.provider true
    pure execution.response

  -- The `try` with its `except Exception`.
  unfoldable pub generate_or_release : Option String → Exec World GenerationResponse
  generate_or_release claimed =
      on_error (λ w. (ok tt, record_generation_error (release_claim claimed w))) (generate claimed)

  -- `replace(_deserialize_response(cached_payload), cached=True)`
  abbrev pub mark_cached : GenerationResponse → Result GenerationResponse
  mark_cached r =
      let marked : GenerationResponse = record r { cached = true } in
      Errors.◌>>◌ (post_init_response marked) (ok marked)

  -- A hit of the response cache. This is no part of the `try`.
  unfoldable pub serve_cached : Option String → String → Exec World GenerationResponse
  serve_cached claimed payload = do
    enforce_model c.request.model
    stored ← lift (deserialize payload)
    response ← lift (mark_cached stored)
    (λ w. (ok tt, complete_claim claimed response w))
    record_generation_success rt c response "cache" "cache" false
    pure response

  abbrev pub on_cache : Option String → Option String → Exec World GenerationResponse
  on_cache claimed (some payload) = serve_cached claimed payload
  on_cache claimed none = generate_or_release claimed

  -- What follows the claim of the Idempotency-Key.
  unfoldable pub after_claim : Option String → Exec World GenerationResponse
  after_claim claimed =
      if c.request.cache
      then (in_redis (cache_get c.organization_id fingerprint) >>= on_cache claimed)
      else generate_or_release claimed

  -- `IdempotencyCompleted`: the stored response, and nothing is generated.
  unfoldable pub replay : String → Exec World GenerationResponse
  replay payload = do
    response ← lift (deserialize payload)
    record_generation_success rt c response "idempotent" "replay" false
    pure response

  abbrev pub on_begin : String → BeginResult → Exec World GenerationResponse
  on_begin key (Idempotency.completed payload) = replay payload
  on_begin key in_progress = λ w. (err idempotency_conflict, record_generation_error w)
  on_begin key miss = after_claim (some key)

  -- What follows the rate limit.
  abbrev pub admitted : Option String → Exec World GenerationResponse
  admitted none = after_claim none
  admitted (some key) = in_redis (begin rt.idempotency_ttl c.organization_id key) >>= on_begin key

  unfoldable pub execute : Exec World GenerationResponse
  execute = do
    decision ← in_redis (consume rt.limiter rt.clock c.organization_id)
    if decision.allowed then admitted c.idempotency_key else (λ w. (
      err (rate_limit_exceeded (retry_seconds decision.retry_after_seconds)),
      record_generation_error w,
    ))
