-- ===== src/Responses/Charges.antt =====
-- The usage records after a whole call of `CreateResponse.execute`.
use ai_runtime.Prelude.{
  ℕ, String, ◌≡◌, sym, ◌∙◌, ap, ◌⊎◌, inl, inr, Bool, true, false, Option, none, some, List, ◌∷◌,
  if◌then◌else◌, Bool-cases,
}
use ai_runtime.Errors.{Error, rate_limit_exceeded, Result, ok, err}
use ai_runtime.Exec.{Exec, pure, lift, ◌>>=◌, ◌>>◌}
use ai_runtime.Exec.Keeps.{Keeps, bind-Keeps}
use ai_runtime.Generation.{GenerationResponse}
use ai_runtime.Database.{UsageRecord}
use ai_runtime.Redis.Idempotency.{BeginResult, miss, in_progress, completed, begin}
use ai_runtime.Redis.Limiter.{consume}
use ai_runtime.Redis.Cache.{cache_get}
use ai_runtime.Responses.{
  World, Runtime, CreateResponseCommand, in_redis, record_generation_error, usage_record,
  record_generation_success,
}
use ai_runtime.Responses.Create.{
  deserialize, enforce_model, complete_claim, fingerprint, generate_or_release, mark_cached,
  serve_cached, on_cache, after_claim, replay, on_begin, admitted, execute, retry_seconds,
}
use ai_runtime.Responses.Accounting.{
  Recorded, enforce_model-Recorded, success-Recorded, Charged, Quiet, generate_or_release-Charged,
}

module _ (rt : Runtime) (c : CreateResponseCommand) (us : List UsageRecord) where
  claim-Recorded :
      (claimed : Option String) (r : GenerationResponse) (w : World)
      → Recorded us w
      → Recorded us (complete_claim rt c claimed r w)
  unfolding complete_claim
  claim-Recorded none r w h = h
  claim-Recorded (some key) r w h = h

  reported-Recorded :
      (response : GenerationResponse) (outcome provider : String)
      → Keeps
          (Recorded us)
          (record_generation_success rt c response outcome provider false >> pure response)
  reported-Recorded response outcome provider =
      bind-Keeps (Recorded us) {A = Unit {0}} {B = GenerationResponse}
        (record_generation_success rt c response outcome provider false) (λ _. pure response)
        (success-Recorded us rt c response outcome provider false) (λ _ w h. h)

  -- What serves a stored response, once it has been read.
  abbrev serve : Option String → GenerationResponse → Exec World GenerationResponse
  serve claimed response =
      (λ w. (ok tt, complete_claim rt c claimed response w))
      >> (record_generation_success rt c response "cache" "cache" false >> pure response)

  serve-Recorded :
      (claimed : Option String) (response : GenerationResponse)
      → Keeps (Recorded us) (serve claimed response)
  serve-Recorded claimed response w h =
      reported-Recorded response "cache" "cache" (complete_claim rt c claimed response w)
        (claim-Recorded claimed response w h)

  serve_cached-Recorded :
      (claimed : Option String) (payload : String)
      → Keeps (Recorded us) (serve_cached rt c claimed payload)
  unfolding serve_cached
  serve_cached-Recorded claimed payload =
      bind-Keeps (Recorded us) {A = Unit {0}} {B = GenerationResponse}
        (enforce_model rt c c.request.model)
        (λ _. lift (deserialize rt c payload) >>= λ stored.
          lift (mark_cached rt c stored) >>= λ response. serve claimed response)
        (enforce_model-Recorded us rt c c.request.model)
        (λ _.
          bind-Keeps (Recorded us) {A = GenerationResponse} {B = GenerationResponse}
            (lift (deserialize rt c payload))
            (λ stored. lift (mark_cached rt c stored) >>= λ response. serve claimed response)
            (λ w h. h)
            (λ stored.
              bind-Keeps (Recorded us) {A = GenerationResponse} {B = GenerationResponse}
                (lift (mark_cached rt c stored)) (λ response. serve claimed response) (λ w h. h)
                (λ response. serve-Recorded claimed response)))

  replay-Recorded : (payload : String) → Keeps (Recorded us) (replay rt c payload)
  unfolding replay
  replay-Recorded payload =
      bind-Keeps (Recorded us) {A = GenerationResponse} {B = GenerationResponse}
        (lift (deserialize rt c payload))
        (λ response.
          record_generation_success rt c response "idempotent" "replay" false >> pure response)
        (λ w h. h) (λ response. reported-Recorded response "idempotent" "replay")

  -- The records were left, or one was added.
  abbrev Spent : Result GenerationResponse × World → Type 0
  Spent o = Recorded us o.1 ⊎ Charged rt c us o

  generated-Spent :
      (claimed : Option String) (w : World)
      → Quiet rt c us
      → Recorded us w
      → Spent (generate_or_release rt c claimed w)
  generated-Spent claimed w q h = inr (generate_or_release-Charged rt c us claimed w q h)

  on_cache-Spent :
      (claimed hit : Option String) (w : World)
      → Quiet rt c us
      → Recorded us w
      → Spent (on_cache rt c claimed hit w)
  on_cache-Spent claimed (some payload) w q h = inl (serve_cached-Recorded claimed payload w h)
  on_cache-Spent claimed none w q h = generated-Spent claimed w q h

  after_claim-Spent :
      (claimed : Option String) (w : World)
      → Quiet rt c us
      → Recorded us w
      → Spent (after_claim rt c claimed w)
  unfolding after_claim
  after_claim-Spent claimed w q h = by_flag c.request.cache
    where
      by_flag :
          (b : Bool)
          → Spent (
              (if b
                  then (in_redis (cache_get c.organization_id (fingerprint rt c))
                      >>= on_cache rt c claimed)
                  else generate_or_release rt c claimed)
                w)
      by_flag true =
          let (hit, r) = cache_get c.organization_id (fingerprint rt c) w.redis in
          on_cache-Spent claimed hit (record w { redis = r }) q h
      by_flag false = generated-Spent claimed w q h

  on_begin-Spent :
      (key : String) (b : BeginResult) (w : World)
      → Quiet rt c us
      → Recorded us w
      → Spent (on_begin rt c key b w)
  unfolding record_generation_error
  on_begin-Spent key (completed payload) w q h = inl (replay-Recorded payload w h)
  on_begin-Spent key in_progress w q h = inl h
  on_begin-Spent key miss w q h = after_claim-Spent (some key) w q h

  admitted-Spent :
      (key : Option String) (w : World)
      → Quiet rt c us
      → Recorded us w
      → Spent (admitted rt c key w)
  admitted-Spent none w q h = after_claim-Spent none w q h
  admitted-Spent (some key) w q h =
      let (b, r) = begin rt.idempotency_ttl c.organization_id key w.redis in
      on_begin-Spent key b (record w { redis = r }) q h

  -- A request leaves the usage records as they are or adds exactly one, the record of the response
  -- that it returns if it returns one, where the adapters and the pauses write none themselves.
  pub execute_charges :
      (w : World)
      → Quiet rt c us
      → w.db.usage_records ≡ us
      → ((execute rt c w).1.db.usage_records ≡ us) ⊎ Charged rt c us (execute rt c w)
  unfolding execute record_generation_error
  execute_charges w q h =
      by_decision _ (consume rt.limiter rt.clock c.organization_id w.redis).0.allowed
    where
      w' : World
      w' = record w { redis = (consume rt.limiter rt.clock c.organization_id w.redis).1 }

      by_decision :
          (x : Error) (b : Bool)
          → Spent (
              (if b
                  then admitted rt c c.idempotency_key
                  else (λ v. (err x, record_generation_error v)))
                w')
      by_decision x true = admitted-Spent c.idempotency_key w' q h
      by_decision x false = inl h

  execute_plain :
      (w : World)
      → (consume rt.limiter rt.clock c.organization_id w.redis).0.allowed ≡ true
      → c.idempotency_key ≡ none
      → c.request.cache ≡ false
      → execute rt c w
        ≡ generate_or_release rt c none
            (record w { redis = (consume rt.limiter rt.clock c.organization_id w.redis).1 })
  unfolding execute after_claim
  execute_plain w on no_key no_cache = simp (on, no_key, no_cache)

  refused :
      (w : World)
      → (consume rt.limiter rt.clock c.organization_id w.redis).0.allowed ≡ false
      → (execute rt c w).0
        ≡ err (
            rate_limit_exceeded (
              retry_seconds rt c
                (consume rt.limiter rt.clock c.organization_id w.redis).0.retry_after_seconds))
  unfolding execute
  refused w off = simp off

  -- A request without an Idempotency-Key that does not use the cache is charged for the response that
  -- it returns: exactly one usage record, of that response, where the adapters and the pauses write
  -- none themselves.
  pub execute_charges_response :
      (w : World) (response : GenerationResponse)
      → Quiet rt c us
      → w.db.usage_records ≡ us
      → c.idempotency_key ≡ none
      → c.request.cache ≡ false
      → (execute rt c w).0 ≡ ok response
      → (provider : String) × (id : ℕ) × ((execute rt c w).1.db.usage_records
          ≡ usage_record rt c provider response id ∷ us)
  execute_charges_response w response q h no_key no_cache e =
      elim (Bool-cases (consume rt.limiter rt.clock c.organization_id w.redis).0.allowed) [
        | inl on ↦
            let plain = execute_plain w on no_key no_cache in
            let w' = record w {
              redis = (consume rt.limiter rt.clock c.organization_id w.redis).1;
            } in
            elim (generate_or_release-Charged rt c us none w' q h) [
              | inl (x, failed, kept) ↦ absurd (differ (sym failed ∙ sym (ap (λ o. o.0) plain) ∙ e))
              | inr (p, b, id, charged, same) ↦ (
                p,
                id,
                ap (λ o. o.1.db.usage_records) plain
                    ∙ charged
                    ∙ ap (λ r. usage_record rt c p r id ∷ us)
                        (sym (same response (sym (ap (λ o. o.0) plain) ∙ e))),
              )
            ]
        | inr off ↦ absurd (differ (sym (refused w off) ∙ e))
      ]
    where
      differ : {x : Error} {r : GenerationResponse} → err x ≡ ok r → ⊥
      differ h = cc
