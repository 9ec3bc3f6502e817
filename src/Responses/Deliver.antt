-- ===== src/Responses/Deliver.antt =====
-- `CreateResponse.stream` of src/ai_runtime/application/responses/create_response.py. The stream that
-- the executor gives is read to its end, and each completed response is written down before it is
-- passed on.
use ai_runtime.Prelude.{String, true, Option, none, some, if◌then◌else◌}
use ai_runtime.Errors.{domain_validation, rate_limit_exceeded, Result, ok, err}
use ai_runtime.Exec.{Exec, pure, ◌>>◌}
use ai_runtime.Generation.{GenerationStreamEvent, delta, completed}
use ai_runtime.Routing.{ModelRoute}
use ai_runtime.Redis.Limiter.{RateLimitDecision, consume}
use ai_runtime.Executor.{ProviderStreamEvent, Stream, done, fail, emit}
use ai_runtime.Executor.Streams
use ai_runtime.Responses.{
  World, Runtime, CreateResponseCommand, in_redis, record_usage, record_generation_success,
}
use ai_runtime.Responses.Create.{retry_seconds, before_route}

module _ (rt : Runtime) (c : CreateResponseCommand) where
  -- `if isinstance(item.payload, GenerationResponse): …`
  unfoldable pub account : ModelRoute → GenerationStreamEvent → Exec World (Unit {0})
  account route (delta d) = pure tt
  account route (completed response) = do
    record_usage rt c route.provider response
    record_generation_success rt c response "provider" route.provider true

  -- `yield item.payload`, unless an exception was raised before it
  abbrev pub yield_item :
      GenerationStreamEvent
      → (World → Stream GenerationStreamEvent × World)
      → Result (Unit {0})
      → World
      → Stream GenerationStreamEvent × World
  yield_item payload rest (ok _) w = let (script, w') = rest w in (emit payload script, w')
  yield_item payload rest (err e) w = (fail e, w)

  -- The `async for` of `stream`.
  unfoldable pub deliver : Stream ProviderStreamEvent → World → Stream GenerationStreamEvent × World
  deliver done w = (done, w)
  deliver (fail e) w = (fail e, w)
  deliver (emit item rest) w =
      let (r, w') = account item.route item.payload w in
      yield_item item.payload (λ w''. deliver rest w'') r w'

  -- What follows the rate limit.
  unfoldable pub stream_admitted : World → Stream GenerationStreamEvent × World
  stream_admitted w =
      let (script, w') =
        Streams.stream rt.sleep rt.executor c.request.model c.request (some (before_route rt c))
          w in
      deliver script w'

  abbrev pub stream_after_limit :
      Result RateLimitDecision → World → Stream GenerationStreamEvent × World
  stream_after_limit (ok decision) w =
      if decision.allowed
      then stream_admitted w
      else (fail (rate_limit_exceeded (retry_seconds rt c decision.retry_after_seconds)), w)
  stream_after_limit (err e) w = (fail e, w)

  abbrev pub stream_for : Option String → World → Stream GenerationStreamEvent × World
  stream_for (some key) w =
      (fail (domain_validation "Idempotency-Key is not supported for streaming requests."), w)
  stream_for none w =
      let (decision, w') = in_redis (consume rt.limiter rt.clock c.organization_id) w in
      stream_after_limit decision w'

  unfoldable pub stream : World → Stream GenerationStreamEvent × World
  stream w = stream_for c.idempotency_key w
