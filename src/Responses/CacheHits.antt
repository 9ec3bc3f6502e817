-- ===== src/Responses/CacheHits.antt =====
-- A hit of the response cache under an Idempotency-Key, where the policy refuses the model.
use ai_runtime.Prelude.{
  ℕ, ◌+◌, ◌*◌, ◌<◌, String, ◌≡◌, refl, ◌∙◌, ap, true, Option, none, some, arith,
}
use ai_runtime.Errors.{Error, Result, err}
use ai_runtime.Generation.{GenerationResponse}
use ai_runtime.Redis
use ai_runtime.Redis.{Redis, idem, cache_resp, live}
use ai_runtime.Redis.Cache.{cache_get}
use ai_runtime.Redis.Limiter.{consume}
use ai_runtime.Redis.Idempotency.{in_progress, status_in_progress, begin, classify}
use ai_runtime.Redis.Idempotency.Leases.{IsCalm, after, begin-classify, live_of_Stored}
use ai_runtime.Redis.Isolation.{idempotency_isolated}
use ai_runtime.Responses.{World, Runtime, CreateResponseCommand}
use ai_runtime.Responses.Create.{
  fingerprint, enforce_model, serve_cached, on_cache, after_claim, execute,
}
use ai_runtime.Responses.Replays.{consume-IsCalm}
use ai_runtime.Responses.Leases.{claimed_world, claimed}

-- What the cache gives on a calm server.
cache_get-live :
    (o : ℕ) (f payload : String) (r : Redis)
    → IsCalm r
    → live r (cache_resp o f) ≡ some payload
    → cache_get o f r ≡ (some payload, r)
unfolding cache_get Redis.run Redis.get live
cache_get-live o f payload r calm found = rw (calm, found)

module _ (rt : Runtime) (c : CreateResponseCommand) where
  -- The rest of the world as it was, but for the database.
  abbrev denied : Error → World → Result GenerationResponse × World
  denied e w = (err e, (enforce_model rt c c.request.model w).1)

  serve_denied :
      (claim : Option String) (payload : String) (e : Error) (w : World)
      → (enforce_model rt c c.request.model w).0 ≡ err e
      → serve_cached rt c claim payload w ≡ denied e w
  unfolding serve_cached
  serve_denied claim payload e w refused = rw refused

  -- The cache still has its payload after the claim.
  hit_kept :
      (w : World) (key payload : String)
      → IsCalm w.redis
      → live w.redis (cache_resp c.organization_id (fingerprint rt c)) ≡ some payload
      → (claimed_world rt c key w).redis.now ≡ w.redis.now
      → live (claimed_world rt c key w).redis (cache_resp c.organization_id (fingerprint rt c))
        ≡ some payload
  unfolding live
  hit_kept w key payload calm hit same =
      let j = cache_resp c.organization_id (fingerprint rt c) in
      let r₁ = (consume rt.limiter rt.clock c.organization_id w.redis).1 in
      let cells =
        (idempotency_isolated rt.idempotency_ttl c.organization_id r₁ j key "" refl).0
        ∙ ap (λ f. f j) (consume-IsCalm rt c w.redis calm).0 in
      rw (same, cells) hit

  after_hit :
      (w : World) (key payload : String) (e : Error)
      → c.request.cache ≡ true
      → IsCalm w.redis
      → live w.redis (cache_resp c.organization_id (fingerprint rt c)) ≡ some payload
      → (enforce_model rt c c.request.model w).0 ≡ err e
      → after_claim rt c (some key) w ≡ denied e w
  unfolding after_claim
  after_hit w key payload e cached calm hit refused = simp cached (
      ap (λ o. on_cache rt c (some key) o.0 (record w { redis = o.1 }))
        (cache_get-live c.organization_id (fingerprint rt c) payload w.redis calm hit)
      ∙ serve_denied (some key) payload e w refused)

  -- A cache hit that the organization's policy refuses keeps the lease on the Idempotency-Key, and
  -- no error is counted: until the time to live is over, each retry with that key meets a request
  -- in progress. Redis answers, and the limiter lets the request through. There was no record of
  -- the key before.
  pub execute_keeps_lease :
      (w : World) (key payload : String) (e : Error) (wait : ℕ)
      → c.idempotency_key ≡ some key
      → c.request.cache ≡ true
      → IsCalm w.redis
      → (consume rt.limiter rt.clock c.organization_id w.redis).0.allowed ≡ true
      → live w.redis (idem c.organization_id key) ≡ none
      → live w.redis (cache_resp c.organization_id (fingerprint rt c)) ≡ some payload
      → (enforce_model rt c c.request.model w).0 ≡ err e
      → wait < rt.idempotency_ttl * 1000
      → ((execute rt c w).0 ≡ err e)
        × ((execute rt c w).1.metrics ≡ w.metrics)
        × ((begin rt.idempotency_ttl c.organization_id key (after wait (execute rt c w).1.redis)).0
            ≡ in_progress)
  unfolding enforce_model
  execute_keeps_lease w key payload e wait keyed cached calm on free hit refused h =
      let (same, s, n) = claimed rt c w key keyed calm on free in
      let v = claimed_world rt c key w in
      let r = v.redis in
      let ends =
        same
        ∙ after_hit v key payload e cached s.calm (hit_kept w key payload calm hit n) refused in
      (
        ap (λ o. o.0) ends,
        ap (λ o. o.1.metrics) ends,
        ap (λ o. (begin rt.idempotency_ttl c.organization_id key (after wait o.1.redis)).0) ends
            ∙ begin-classify rt.idempotency_ttl c.organization_id key status_in_progress
                (after wait r) s.calm
                (live_of_Stored (after wait r) (idem c.organization_id key) status_in_progress
                  (w.redis.now + rt.idempotency_ttl * 1000)
                  (record { calm = s.calm; kept = s.kept }) (rw n (omega arith)))
            ∙ (unfold classify in refl),
      )
