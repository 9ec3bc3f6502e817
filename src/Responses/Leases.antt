-- ===== src/Responses/Leases.antt =====
-- What a failed request leaves of the lease on its Idempotency-Key.
use ai_runtime.Prelude.{
  ℕ, ◌+◌, ◌*◌, String, ◌≡◌, ◌≢◌, sym, ◌∙◌, ap, inl, inr, Bool, true, false, Option, none, some,
  arith, str_eq, eq_iff, Bool-cases, Option-cases,
}
use ai_runtime.Errors.{Error, Result, ok, err}
use ai_runtime.Exec.{Exec, pure, raise, ◌>>◌, continue, handle}
use ai_runtime.Exec.Keeps.{Keeps, bind-Keeps}
use ai_runtime.Generation.{GenerationRequest, GenerationResponse, TokenUsage}
use ai_runtime.Routing.{ResolvedRoute, resolve}
use ai_runtime.Redis
use ai_runtime.Redis.{Redis, RedisKey, idem, cache_resp, live}
use ai_runtime.Redis.Cache.{cache_set}
use ai_runtime.Redis.Limiter.{consume}
use ai_runtime.Redis.Idempotency.{miss, status_in_progress, begin, complete, release, classify}
use ai_runtime.Redis.Idempotency.Leases.{
  IsCalm, Stored, begin-Stored, begin-live, release_lease, live_after_end,
}
use ai_runtime.Audit.{post_init_audit_event}
use ai_runtime.Usage.{post_init_usage_record}
use ai_runtime.Database.{Database}
use ai_runtime.Executor
use ai_runtime.Executor.{ModelProvider, ProviderExecutionResult}
use ai_runtime.Executor.Keeps.{execute-Keeps}
use ai_runtime.Responses.{
  World, Runtime, CreateResponseCommand, in_db, usage_record, audit_event, record_generation_error,
  record_usage, record_generation_success, count_tokens_of,
}
use ai_runtime.Responses.Create.{
  enforce_model, before_route, complete_claim, release_claim, store_in_cache, generate,
  generate_or_release, after_claim, on_begin, admitted, execute,
}
use ai_runtime.Responses.Accounting.{finish}
use ai_runtime.Responses.Replays.{consume-IsCalm, live-consume, admitted_key}

-- No command of the world's Redis is late or fails.
abbrev Calm : World → Type 0
Calm w = IsCalm w.redis

release_other :
    (o : ℕ) (k v : String) (r : Redis)
    → IsCalm r
    → live r (idem o k) ≡ some v
    → str_eq v status_in_progress ≡ false
    → live (release o k r) (idem o k) ≡ some v
unfolding release Redis.run Redis.get live
release_other o k v r calm e other = ground arith

release-none :
    (o : ℕ) (k : String) (r : Redis)
    → IsCalm r
    → live r (idem o k) ≡ none
    → live (release o k r) (idem o k) ≡ none
unfolding release Redis.run Redis.get live
release-none o k r calm e = ground arith

none-ne-some : {o : Option String} {v : String} → o ≡ none → o ≢ some v
none-ne-some h k = cc

-- A release leaves no lease.
release_frees :
    (o : ℕ) (k : String) (r : Redis)
    → IsCalm r
    → live (release o k r) (idem o k) ≢ some status_in_progress
release_frees o k r calm = elim (Option-cases (live r (idem o k))) [
  | inr (v, e) ↦ elim (Bool-cases (str_eq v status_in_progress)) [
    | inl same ↦ none-ne-some (
        live_after_end (release o k r) (idem o k)
          (release_lease o k r calm (e ∙ ap some ((eq_iff v status_in_progress).0 same))).0)
    | inr other ↦ λ h. differ v other (sym (release_other o k v r calm e other) ∙ h)
  ]
  | inl e ↦ none-ne-some (release-none o k r calm e)
]
  where
    differ :
        (v : String)
        → str_eq v status_in_progress ≡ false
        → ◌≢◌ {A = Option String} (some v) (some status_in_progress)
    differ v other h = ground (arith, eq_iff v status_in_progress)

module _ (rt : Runtime) (c : CreateResponseCommand) where
  -- A checked statement of the database.
  written :
      (r : Result (Unit {0})) (m : Exec Database (Unit {0})) (w : World)
      → Calm w
      → Calm (continue r (λ _. in_db m) w).1
  written (ok _) m w h = h
  written (err e) m w h = h

  success-Calm :
      (response : GenerationResponse) (outcome provider : String) (b : Bool)
      → Keeps Calm (record_generation_success rt c response outcome provider b)
  unfolding record_generation_success
  success-Calm response outcome provider b w h =
      written (post_init_audit_event (audit_event rt c response outcome provider w.next_id)) _ _
        (counted b response.usage _ h)
    where
      counted :
          (b : Bool) (u : Option TokenUsage) (v : World) → Calm v → Calm (count_tokens_of b u v)
      counted true none v k = k
      counted true (some u) v k = k
      counted false u v k = k

  record_usage-Calm :
      (provider : String) (response : GenerationResponse)
      → Keeps Calm (record_usage rt c provider response)
  unfolding record_usage
  record_usage-Calm provider response w h =
      written (post_init_usage_record (usage_record rt c provider response w.next_id)) _ _ h

  stored-Calm :
      (claimed : Option String) (cache : Bool) (r : GenerationResponse) (w : World)
      → Calm w
      → Calm (complete_claim rt c claimed r (store_in_cache rt c cache r w))
  unfolding complete_claim complete cache_set Redis.run Redis.put
  stored-Calm none true r w h = ground arith
  stored-Calm none false r w h = h
  stored-Calm (some key) true r w h = ground arith
  stored-Calm (some key) false r w h = ground arith

  finish-Calm :
      (claimed : Option String) (execution : ProviderExecutionResult)
      → Keeps Calm (finish rt c claimed execution)
  finish-Calm claimed execution w h =
      bind-Keeps Calm {A = Unit {0}} {B = GenerationResponse}
        (record_generation_success rt c execution.response "provider" execution.route.provider true)
        (λ _. pure execution.response)
        (success-Calm execution.response "provider" execution.route.provider true) (λ _ v k. k)
        (complete_claim rt c claimed execution.response
          (store_in_cache rt c c.request.cache execution.response w))
        (stored-Calm claimed c.request.cache execution.response w h)

  -- The adapters and the pauses leave Redis calm.
  pub record Undisturbed : Type 0 where
    pub adapters :
        (model : String) (r : ResolvedRoute (ModelProvider World)) (request : GenerationRequest)
        → resolve rt.executor.model_router model ≡ ok r
        → Keeps Calm (r.provider.generate request)
    pub sleeping : (d : ℕ) (w : World) → Calm w → Calm (rt.sleep d w)

  enforce-Calm : (model : String) → Keeps Calm (enforce_model rt c model)
  unfolding enforce_model
  enforce-Calm model w h = h

  generate-Calm : (claimed : Option String) → Undisturbed → Keeps Calm (generate rt c claimed)
  unfolding generate
  generate-Calm claimed u =
      bind-Keeps Calm {A = ProviderExecutionResult} {B = GenerationResponse}
        (Executor.execute rt.sleep rt.executor c.request.model c.request (some (before_route rt c)))
        (λ execution.
          record_usage rt c execution.route.provider execution.response
          >> finish rt c claimed execution)
        (execute-Keeps Calm rt.sleep rt.executor (some (before_route rt c))
          (record {
            adapters = u.adapters;
            sleeping = u.sleeping;
            hooked = λ route w h. enforce-Calm route.model w h;
          })
          c.request.model c.request)
        (λ execution.
          bind-Keeps Calm {A = Unit {0}} {B = GenerationResponse}
            (record_usage rt c execution.route.provider execution.response)
            (λ _. finish rt c claimed execution)
            (record_usage-Calm execution.route.provider execution.response)
            (λ _. finish-Calm claimed execution))

  generate_or_release_frees :
      (key : String) (w : World) (e : Error)
      → Undisturbed
      → Calm w
      → (generate_or_release rt c (some key) w).0 ≡ err e
      → live (generate_or_release rt c (some key) w).1.redis (idem c.organization_id key)
        ≢ some status_in_progress
  unfolding generate_or_release release_claim record_generation_error
  generate_or_release_frees key w e u h =
      handled (generate rt c (some key) w).0 (generate rt c (some key) w).1
        (generate-Calm (some key) u w h)
    where
      handled :
          (r : Result GenerationResponse) (v : World)
          → Calm v
          → (handle r
              (λ x.
                (λ v'. (ok tt, record_generation_error (release_claim rt c (some key) v')))
                >> raise x)
              v).0
            ≡ err e
          → live
              (handle r
                (λ x.
                  (λ v'. (ok tt, record_generation_error (release_claim rt c (some key) v')))
                  >> raise x)
                v).1.redis
              (idem c.organization_id key)
            ≢ some status_in_progress
      handled (ok r) v k failed = cc
      handled (err x) v k failed = release_frees c.organization_id key v.redis k

  missed :
      (w : World) (key : String)
      → IsCalm w.redis
      → live w.redis (idem c.organization_id key) ≡ none
      → admitted rt c (some key) w
        ≡ after_claim rt c
            (some key)
            (record w { redis = (begin rt.idempotency_ttl c.organization_id key w.redis).1 })
  missed w key calm free =
      ap
        (λ b.
          on_begin rt c key b
            (record w { redis = (begin rt.idempotency_ttl c.organization_id key w.redis).1 }))
        (begin-live rt.idempotency_ttl c.organization_id key w.redis calm
          ∙ ap (λ o. elim o [ none ↦ miss | some existing ↦ classify existing ]) free)

  -- The world in which the part behind the claim starts.
  abbrev pub claimed_world : String → World → World
  claimed_world key w =
      let w₁ = record w { redis = (consume rt.limiter rt.clock c.organization_id w.redis).1 } in
      record w₁ { redis = (begin rt.idempotency_ttl c.organization_id key w₁.redis).1 }

  pub claimed :
      (w : World) (key : String)
      → c.idempotency_key ≡ some key
      → IsCalm w.redis
      → (consume rt.limiter rt.clock c.organization_id w.redis).0.allowed ≡ true
      → live w.redis (idem c.organization_id key) ≡ none
      → (execute rt c w ≡ after_claim rt c (some key) (claimed_world key w))
        × Stored
            (claimed_world key w).redis
            (idem c.organization_id key)
            status_in_progress
            (w.redis.now + rt.idempotency_ttl * 1000)
        × ((claimed_world key w).redis.now ≡ w.redis.now)
  claimed w key keyed calm on free =
      let w₁ = record w { redis = (consume rt.limiter rt.clock c.organization_id w.redis).1 } in
      let (cells, now, calm₁) = consume-IsCalm rt c w.redis calm in
      let free₁ = live-consume rt c w.redis (idem c.organization_id key) calm ∙ free in
      let (s, same) = begin-Stored rt.idempotency_ttl c.organization_id key w₁.redis calm₁ free₁ in
      (
        admitted_key rt c w key on keyed ∙ missed w₁ key calm₁ free₁,
        record {
          calm = s.calm;
          kept =
              s.kept
              ∙ ap
                  (λ n. some (record {
                    value = status_in_progress;
                    expires_at = n + rt.idempotency_ttl * 1000;
                  }))
                  now;
        },
        same ∙ now,
      )

  -- A request that does not use the cache, took the lease on its Idempotency-Key and fails leaves
  -- no lease on it. There was no record of the key before, Redis answers, the adapters and the
  -- pauses leave it so, and the limiter lets the request through.
  pub execute_frees :
      (w : World) (key : String) (e : Error)
      → Undisturbed
      → c.idempotency_key ≡ some key
      → c.request.cache ≡ false
      → IsCalm w.redis
      → (consume rt.limiter rt.clock c.organization_id w.redis).0.allowed ≡ true
      → live w.redis (idem c.organization_id key) ≡ none
      → (execute rt c w).0 ≡ err e
      → live (execute rt c w).1.redis (idem c.organization_id key) ≢ some status_in_progress
  unfolding after_claim
  execute_frees w key e u keyed no_cache calm on free =
      let (same, s, n) = claimed w key keyed calm on free in
      let plain : execute rt c w ≡ generate_or_release rt c (some key) (claimed_world key w) =
        same ∙ simp no_cache in
      λ failed found.
        generate_or_release_frees key (claimed_world key w) e u s.calm
          (sym (ap (λ o. o.0) plain) ∙ failed)
          (sym (ap (λ o. live o.1.redis (idem c.organization_id key)) plain) ∙ found)
