-- ===== src/Responses/Replays.antt =====
-- What a request finds that another one with its Idempotency-Key has left.
use Prim.Native.String.{◌++◌}
use ai_runtime.Prelude.{
  ℕ, ◌*◌, ◌<◌, String, ◌≡◌, refl, ◌∙◌, ap, true, false, some, [], arith, text_in,
}
use ai_runtime.Errors.{Result, ok}
use ai_runtime.Exec.{pure, ◌>>◌}
use ai_runtime.Generation.{GenerationResponse, is_blank, require_non_blank, post_init_response}
use ai_runtime.Audit.{post_init_audit_event, check_metadata}
use ai_runtime.Usage.{lower}
use ai_runtime.Database.{add_audit, run, refresh}
use ai_runtime.Redis
use ai_runtime.Redis.{Redis, idem, live}
use ai_runtime.Redis.Limiter.{consume, token_bucket}
use ai_runtime.Redis.Idempotency.{completed_prefix, begin, complete}
use ai_runtime.Redis.Idempotency.Leases.{
  IsCalm, after, complete-Stored, begin-classify, classify-completed,
}
use ai_runtime.Responses.{
  World, Runtime, CreateResponseCommand, audit_event, record_generation_success,
}
use ai_runtime.Responses.Create.{serialize, deserialize, replay, on_begin, admitted, execute}
use ai_runtime.Responses.Payload.{response_json}
use ai_runtime.Responses.Payload.Replay.{IsValidResponse, replayed, read_response-json}

-- The limiter leaves the records alone, and no command waits on a calm server.
pub consume-IsCalm :
    (rt : Runtime) (c : CreateResponseCommand) (r : Redis)
    → IsCalm r
    → ((consume rt.limiter rt.clock c.organization_id r).1.cells ≡ r.cells)
      × ((consume rt.limiter rt.clock c.organization_id r).1.now ≡ r.now)
      × IsCalm (consume rt.limiter rt.clock c.organization_id r).1
unfolding consume Redis.run token_bucket
consume-IsCalm rt c r calm = (ground arith, ground arith, ground arith)

pub live-consume :
    (rt : Runtime) (c : CreateResponseCommand) (r : Redis) (k : Redis.RedisKey)
    → IsCalm r
    → live (consume rt.limiter rt.clock c.organization_id r).1 k ≡ live r k
unfolding live
live-consume rt c r k calm =
    let (cells, now, calm') = consume-IsCalm rt c r calm in
    rw now (ap (λ f. Redis.unless_expired r.now (f k)) cells)

module _ (rt : Runtime) (c : CreateResponseCommand) where
  deserialize-serialize :
      (r : GenerationResponse)
      → rt.codec.loads (serialize rt c r) ≡ some (response_json r)
      → IsValidResponse r
      → deserialize rt c (serialize rt c r) ≡ ok (replayed r)
  unfolding deserialize
  deserialize-serialize r reads v = simp (reads, read_response-json r v)

  -- A replay that the database answers.
  pub record Replayed (response : GenerationResponse) (w : World)
      (o : Result GenerationResponse × World) : Type 0 where
    pub answer : o.0 ≡ ok response
    pub usage : o.1.db.usage_records ≡ w.db.usage_records
    pub calls : o.1.calls ≡ w.calls

  replay-IsClean :
      (r : GenerationResponse) (id : ℕ)
      → is_blank r.model ≡ false
      → post_init_audit_event (audit_event rt c r "idempotent" "replay" id) ≡ ok tt
  unfolding post_init_audit_event check_metadata require_non_blank is_blank text_in lower
  replay-IsClean r id h = simp h

  model-IsValid : (r : GenerationResponse) → post_init_response r ≡ ok tt → is_blank r.model ≡ false
  unfolding post_init_response require_non_blank
  model-IsValid r h = ground arith

  success-Replayed :
      (r : GenerationResponse) (w : World)
      → is_blank r.model ≡ false
      → w.db.faults ≡ []
      → Replayed r w ((record_generation_success rt c r "idempotent" "replay" false >> pure r) w)
  unfolding record_generation_success add_audit run refresh
  success-Replayed r w h answers =
      rw (replay-IsClean r w.next_id h, answers)
        (record { answer = refl; usage = refl; calls = refl })

  replay-Replayed :
      (payload : String) (r : GenerationResponse) (w : World)
      → deserialize rt c payload ≡ ok r
      → is_blank r.model ≡ false
      → w.db.faults ≡ []
      → Replayed r w (replay rt c payload w)
  unfolding replay
  replay-Replayed payload r w read h answers = rw read (success-Replayed r w h answers)

  pub admitted_key :
      (w : World) (key : String)
      → (consume rt.limiter rt.clock c.organization_id w.redis).0.allowed ≡ true
      → c.idempotency_key ≡ some key
      → execute rt c w
        ≡ admitted rt c
            (some key)
            (record w { redis = (consume rt.limiter rt.clock c.organization_id w.redis).1 })
  unfolding execute
  admitted_key w key on keyed = simp (on, keyed)

  begun :
      (w : World) (key payload : String)
      → IsCalm w.redis
      → live w.redis (idem c.organization_id key) ≡ some (completed_prefix ++ payload)
      → admitted rt c (some key) w
        ≡ replay rt c payload
            (record w { redis = (begin rt.idempotency_ttl c.organization_id key w.redis).1 })
  begun w key payload calm found =
      ap
        (λ b.
          on_begin rt c key b
            (record w { redis = (begin rt.idempotency_ttl c.organization_id key w.redis).1 }))
        (begin-classify rt.idempotency_ttl c.organization_id key (completed_prefix ++ payload)
            w.redis calm found
          ∙ classify-completed payload)

  -- A response that was stored under an Idempotency-Key is what a request with that key gets while it
  -- is kept, as a replay gives it. Nothing is added to the usage records and no provider is called.
  -- Redis and the database answer, the limiter lets the request through, and `json.loads` reads back
  -- what `json.dumps` wrote for the response.
  pub execute_replays :
      (w : World) (key : String) (response : GenerationResponse) (r : Redis) (wait : ℕ)
      → rt.codec.loads (serialize rt c response) ≡ some (response_json response)
      → c.idempotency_key ≡ some key
      → IsValidResponse response
      → IsCalm r
      → wait < rt.idempotency_ttl * 1000
      → w.redis
        ≡ after wait (complete rt.idempotency_ttl c.organization_id key (serialize rt c response) r)
      → (consume rt.limiter rt.clock c.organization_id w.redis).0.allowed ≡ true
      → w.db.faults ≡ []
      → Replayed (replayed response) w (execute rt c w)
  execute_replays w key response r wait reads keyed v calm h stored on answers =
      let (calm', found) =
        complete-Stored rt.idempotency_ttl c.organization_id key (serialize rt c response) r wait
          calm h in
      let calm_w : IsCalm w.redis = rw stored calm' in
      let w₁ = record w { redis = (consume rt.limiter rt.clock c.organization_id w.redis).1 } in
      let found₁ =
        live-consume rt c w.redis (idem c.organization_id key) calm_w ∙ rw stored found in
      let calm₁ = (consume-IsCalm rt c w.redis calm_w).2 in
      let w₂ = record w₁ { redis = (begin rt.idempotency_ttl c.organization_id key w₁.redis).1 } in
      let e = admitted_key w key on keyed ∙ begun w₁ key (serialize rt c response) calm₁ found₁ in
      let done =
        replay-Replayed (serialize rt c response) (replayed response) w₂
          (deserialize-serialize response reads v) (model-IsValid response v.response) answers in
      record {
        answer = ap (λ o. o.0) e ∙ done.answer;
        usage = ap (λ o. o.1.db.usage_records) e ∙ done.usage;
        calls = ap (λ o. o.1.calls) e ∙ done.calls;
      }
