-- ===== src/Responses/Accounting.antt =====
-- What a request to `CreateResponse.execute` does to the usage records.
use ai_runtime.Prelude.{
  ℕ, ◌+◌, String, ◌≡◌, refl, ◌∙◌, ap, ◌⊎◌, inl, inr, Bool, true, false, Option, none, some, List,
  [], ◌∷◌, Bool-cases, any, str_eq, arith,
}
use ai_runtime.Errors.{Error, Result, ok, err}
use ai_runtime.Exec.{Exec, pure, raise, continue, ◌>>◌, handle}
use ai_runtime.Exec.Keeps.{Keeps}
use ai_runtime.Generation.{GenerationRequest, GenerationResponse, TokenUsage}
use ai_runtime.Routing.{ResolvedRoute, resolve}
use ai_runtime.Database.{
  Database, UsageRecord, run, answer, by_faults, add_usage, insert_usage, add_audit, refresh,
}
use ai_runtime.Database.Reads.{Records, add_audit-Records, refresh-Records}
use ai_runtime.Policy.Reads.{enforce-Records}
use ai_runtime.Audit.{post_init_audit_event}
use ai_runtime.Usage.{post_init_usage_record}
use ai_runtime.Executor
use ai_runtime.Executor.{ModelProvider, ProviderExecutionResult}
use ai_runtime.Executor.Keeps.{KeepsAll, execute-Keeps}
use ai_runtime.Responses.{
  World, Runtime, CreateResponseCommand, in_db, record_generation_error, usage_record, record_usage,
  audit_event, record_generation_success, count_tokens_of,
}
use ai_runtime.Responses.Create.{
  enforce_model, before_route, complete_claim, release_claim, store_in_cache, generate,
  generate_or_release,
}

module _ (us : List UsageRecord) where
  -- The usage records of the world are these.
  abbrev pub Recorded : World → Type 0
  Recorded w = w.db.usage_records ≡ us

  in_db-Recorded :
      {A : Type 0} (m : Exec Database A) → Keeps (Records us) m → Keeps Recorded (in_db m)
  in_db-Recorded m k w h = k w.db h

  module _ (rt : Runtime) (c : CreateResponseCommand) where
    pub enforce_model-Recorded : (model : String) → Keeps Recorded (enforce_model rt c model)
    unfolding enforce_model
    enforce_model-Recorded model w h = enforce-Records us rt.now _ w.db h

    count_tokens_of-Recorded :
        (b : Bool) (u : Option TokenUsage) (w : World)
        → Recorded w
        → Recorded (count_tokens_of b u w)
    count_tokens_of-Recorded true none w h = h
    count_tokens_of-Recorded true (some u) w h = h
    count_tokens_of-Recorded false u w h = h

    pub success-Recorded :
        (response : GenerationResponse) (outcome provider : String) (b : Bool)
        → Keeps Recorded (record_generation_success rt c response outcome provider b)
    unfolding record_generation_success
    success-Recorded response outcome provider b w h =
        after (post_init_audit_event (audit_event rt c response outcome provider w.next_id)) _ _
          (count_tokens_of-Recorded b response.usage _ h)
      where
        after :
            (r : Result (Unit {0})) (e : _) (w' : World)
            → Recorded w'
            → Recorded (continue r (λ _. in_db (add_audit e)) w').1
        after (ok _) e w' h' = add_audit-Records us e w'.db h'
        after (err x) e w' h' = h'

-- A statement fails and leaves the records, or this record is added, whatever comes then.
abbrev pub Added : UsageRecord → Database → Result (Unit {0}) × Database → Type 0
Added u d o =
    ((e : Error) × (o.0 ≡ err e) × (o.1.usage_records ≡ d.usage_records))
    ⊎ (o.1.usage_records ≡ u ∷ d.usage_records)

-- What is left of the insert after the row was committed.
refreshed-Added :
    (u : UsageRecord) (d : Database) (r : Result (Unit {0})) (d' : Database)
    → ((e : Error) × (r ≡ err e) × (d'.usage_records ≡ d.usage_records))
      ⊎ ((r ≡ ok tt) × (d'.usage_records ≡ u ∷ d.usage_records))
    → Added u d (continue r (λ _. refresh) d')
refreshed-Added u d (ok _) d' (inl (e, failed, kept)) = absurd cc
refreshed-Added u d (ok _) d' (inr (fine, charged)) =
    inr (refresh-Records (u ∷ d.usage_records) d' charged)
refreshed-Added u d (err x) d' (inl (e, failed, kept)) = inl (x, refl, kept)
refreshed-Added u d (err x) d' (inr (fine, charged)) = absurd cc

-- The insert itself.
abbrev Inserted : UsageRecord → Database → Result (Unit {0}) × Database → Type 0
Inserted u d o =
    ((e : Error) × (o.0 ≡ err e) × (o.1.usage_records ≡ d.usage_records))
    ⊎ ((o.0 ≡ ok tt) × (o.1.usage_records ≡ u ∷ d.usage_records))

insert_usage-Inserted : (u : UsageRecord) (d : Database) → Inserted u d (insert_usage u d)
unfolding insert_usage
insert_usage-Inserted u d =
    elim (Bool-cases (any (λ v. str_eq v.request_id u.request_id) d.usage_records)) [
      | inl taken ↦ rw taken (inl (_, refl, refl))
      | inr free ↦ rw free (inr (refl, refl))
    ]

answer-Inserted :
    (f : Bool) (u : UsageRecord) (d : Database) → Inserted u d (answer f (insert_usage u) d)
answer-Inserted true u d = inl (_, refl, refl)
answer-Inserted false u d = insert_usage-Inserted u d

by_faults-Inserted :
    (fs : List Bool) (u : UsageRecord) (d : Database)
    → Inserted u d (by_faults fs (insert_usage u) d)
by_faults-Inserted [] u d = insert_usage-Inserted u d
by_faults-Inserted (f ∷ fs) u d = answer-Inserted f u (record d { faults = fs })

pub add_usage-Added : (u : UsageRecord) (d : Database) → Added u d (add_usage u d)
unfolding add_usage run
add_usage-Added u d =
    let o = by_faults d.faults (insert_usage u) d in
    refreshed-Added u d o.0 o.1 (by_faults-Inserted d.faults u d)

module _ (rt : Runtime) (c : CreateResponseCommand) where
  -- From these records: an error that left them, or one more record, of the response that the
  -- request got if it got one.
  abbrev pub Charged : List UsageRecord → Result GenerationResponse × World → Type 0
  Charged us o =
      ((e : Error) × (o.0 ≡ err e) × (o.1.db.usage_records ≡ us))
      ⊎ ((provider : String) × (response : GenerationResponse) × (id : ℕ) × (o.1.db.usage_records
            ≡ usage_record rt c provider response id ∷ us)
          × ((r : GenerationResponse) → o.0 ≡ ok r → r ≡ response))

  -- What follows `_record_usage` in the `try`.
  abbrev pub finish : Option String → ProviderExecutionResult → Exec World GenerationResponse
  finish claimed execution =
      (λ w. (
        ok tt,
        complete_claim rt c claimed execution.response
            (store_in_cache rt c c.request.cache execution.response w),
      ))
      >> (record_generation_success rt c execution.response "provider" execution.route.provider true
          >> pure execution.response)

  stored-Recorded :
      (us : List UsageRecord) (claimed : Option String) (cache : Bool) (r : GenerationResponse)
      (w : World)
      → Recorded us w
      → Recorded us (complete_claim rt c claimed r (store_in_cache rt c cache r w))
  unfolding complete_claim
  stored-Recorded us none true r w h = h
  stored-Recorded us none false r w h = h
  stored-Recorded us (some key) true r w h = h
  stored-Recorded us (some key) false r w h = h

  ends_with :
      (us : List UsageRecord) (r : Result (Unit {0})) (a b : GenerationResponse) (w : World)
      → Recorded us w
      → Recorded us (continue r (λ _. pure a) w).1 × ((continue r (λ _. pure a) w).0 ≡ ok b → b ≡ a)
  ends_with us (ok _) a b w h = (h, λ e. ground arith)
  ends_with us (err x) a b w h = (h, λ e. cc)

  finish-Recorded :
      (us : List UsageRecord) (claimed : Option String) (execution : ProviderExecutionResult)
      (b : GenerationResponse) (w : World)
      → Recorded us w
      → Recorded us (finish claimed execution w).1
        × ((finish claimed execution w).0 ≡ ok b → b ≡ execution.response)
  finish-Recorded us claimed execution b w h =
      let w' =
        complete_claim rt c claimed execution.response
          (store_in_cache rt c c.request.cache execution.response w) in
      let m =
        record_generation_success rt c execution.response "provider" execution.route.provider true
          w' in
      ends_with us m.0 execution.response b m.1 (
        success-Recorded us rt c execution.response "provider" execution.route.provider true w'
          (stored-Recorded us claimed c.request.cache execution.response w h))

  module _ (us : List UsageRecord) where
    -- The statement was run, or the record was invalid.
    add-Charged :
        (claimed : Option String) (execution : ProviderExecutionResult) (id : ℕ)
        (o : Result (Unit {0})) (w : World)
        → ((e : Error) × (o ≡ err e) × Recorded us w)
          ⊎ (w.db.usage_records
              ≡ usage_record rt c execution.route.provider execution.response id ∷ us)
        → Charged us (continue o (λ _. finish claimed execution) w)
    add-Charged claimed execution id (ok _) w (inl (e, failed, kept)) = absurd cc
    add-Charged claimed execution id (err x) w (inl (e, failed, kept)) = inl (x, refl, kept)
    add-Charged claimed execution id (err x) w (inr charged) =
        inr (execution.route.provider, execution.response, id, charged, λ r h. cc)
    add-Charged claimed execution id (ok _) w (inr charged) = inr (
      execution.route.provider,
      execution.response,
      id,
      (finish-Recorded (usage_record rt c execution.route.provider execution.response id ∷ us)
          claimed execution execution.response w charged).0,
      λ r.
          (finish-Recorded (usage_record rt c execution.route.provider execution.response id ∷ us)
            claimed execution r w charged).1,
    )

    pay-Charged :
        (claimed : Option String) (execution : ProviderExecutionResult) (w : World)
        → Recorded us w
        → Charged us (
            (record_usage rt c execution.route.provider execution.response
                >> finish claimed execution)
              w)
    unfolding record_usage
    pay-Charged claimed execution w h = by_check (post_init_usage_record u)
      where
        u : UsageRecord
        u = usage_record rt c execution.route.provider execution.response w.next_id

        w' : World
        w' = record w { next_id = w.next_id + 1 }

        by_check :
            (r : Result (Unit {0}))
            → Charged us (
                continue
                  (continue r (λ _. in_db (add_usage u)) w').0
                  (λ _. finish claimed execution)
                  (continue r (λ _. in_db (add_usage u)) w').1)
        by_check (err e) = inl (e, refl, h)
        by_check (ok _) =
            add-Charged claimed execution w.next_id (add_usage u w.db).0
              (record w' { db = (add_usage u w.db).1 })
              (elim (add_usage-Added u w.db) [
                | inl (e, failed, kept) ↦ inl (e, failed, kept ∙ h)
                | inr charged ↦ inr (charged ∙ ap (λ vs. u ∷ vs) h)
              ])

    -- The adapters and the pauses do not write usage records.
    pub record Quiet : Type 0 where
      pub adapters :
          (model : String) (r : ResolvedRoute (ModelProvider World)) (request : GenerationRequest)
          → resolve rt.executor.model_router model ≡ ok r
          → Keeps (Recorded us) (r.provider.generate request)
      pub sleeping : (d : ℕ) (w : World) → Recorded us w → Recorded us (rt.sleep d w)

    keeps_all : Quiet → KeepsAll (Recorded us) rt.sleep rt.executor (some (before_route rt c))
    keeps_all q = record {
      adapters = q.adapters;
      sleeping = q.sleeping;
      hooked = λ route. enforce_model-Recorded us rt c route.model;
    }

    executed-Charged :
        (claimed : Option String) (r : Result ProviderExecutionResult) (w : World)
        → Recorded us w
        → Charged us (
            continue r
              (λ execution.
                record_usage rt c execution.route.provider execution.response
                >> finish claimed execution)
              w)
    executed-Charged claimed (ok execution) w h = pay-Charged claimed execution w h
    executed-Charged claimed (err e) w h = inl (e, refl, h)

    generate-Charged :
        (claimed : Option String) (w : World)
        → Quiet
        → Recorded us w
        → Charged us (generate rt c claimed w)
    unfolding generate
    generate-Charged claimed w k h =
        let o =
          Executor.execute rt.sleep rt.executor c.request.model c.request (some (before_route rt c))
            w in
        executed-Charged claimed o.0 o.1 (
          execute-Keeps (Recorded us) rt.sleep rt.executor (some (before_route rt c)) (keeps_all k)
            c.request.model c.request w h)

    released_db : (claimed : Option String) (w : World) → (release_claim rt c claimed w).db ≡ w.db
    unfolding release_claim
    released_db none w = refl
    released_db (some key) w = refl

    handled-Charged :
        (claimed : Option String) (o : Result GenerationResponse) (w : World)
        → Charged us (o, w)
        → Charged us (
            handle o
              (λ e.
                (λ v. (ok tt, record_generation_error (release_claim rt c claimed v))) >> raise e)
              w)
    unfolding record_generation_error
    handled-Charged claimed (ok r) w h = h
    handled-Charged claimed (err e) w (inl (e', same, kept)) =
        inl (e, refl, ap (λ d. d.usage_records) (released_db claimed w) ∙ kept)
    handled-Charged claimed (err e) w (inr (p, r, id, charged, same)) =
        inr (p, r, id, ap (λ d. d.usage_records) (released_db claimed w) ∙ charged, λ b bad. cc)

    pub generate_or_release-Charged :
        (claimed : Option String) (w : World)
        → Quiet
        → Recorded us w
        → Charged us (generate_or_release rt c claimed w)
    unfolding generate_or_release
    generate_or_release-Charged claimed w k h =
        handled-Charged claimed (generate rt c claimed w).0 (generate rt c claimed w).1
          (generate-Charged claimed w k h)
