-- ===== src/Responses/Limits.antt =====
-- The usage records of a streamed request.
use ai_runtime.Prelude.{
  ℕ, ◌+◌, ◌≤◌, ◌≡◌, refl, ◌∙◌, ap, inl, inr, Bool, true, false, List, ◌∷◌, arith, length,
}
use ai_runtime.Errors.{Result, ok, err}
use ai_runtime.Exec.{Exec, continue}
use ai_runtime.Generation.{GenerationResponse, GenerationStreamEvent, delta, completed}
use ai_runtime.Routing.{ModelRoute}
use ai_runtime.Database.{Database, UsageRecord, add_usage}
use ai_runtime.Usage.{post_init_usage_record}
use ai_runtime.Executor.{ProviderStreamEvent, Stream, done, fail, emit}
use ai_runtime.Responses.{
  World, Runtime, CreateResponseCommand, in_db, usage_record, record_usage,
  record_generation_success,
}
use ai_runtime.Responses.Deliver.{account, deliver, yield_item}
use ai_runtime.Responses.Accounting.{Recorded, success-Recorded, Added, add_usage-Added}

-- The responses among what the client reads, and whether the stream ended without an error.
unfoldable pub completions : Stream GenerationStreamEvent → ℕ
completions done = 0
completions (fail e) = 0
completions (emit (delta d) rest) = completions rest
completions (emit (completed r) rest) = completions rest + 1

unfoldable pub finishes : Stream GenerationStreamEvent → Bool
finishes done = true
finishes (fail e) = false
finishes (emit a rest) = finishes rest

module _ (rt : Runtime) (c : CreateResponseCommand) where
  abbrev pub records : World → ℕ
  records w = length w.db.usage_records

  -- At most one record, and one where nothing was raised.
  abbrev Counted : ℕ → World → Result (Unit {0}) × World → Type 0
  Counted n w o =
      (records w ≤ records o.1)
      × (records o.1 ≤ records w + n)
      × (o.0 ≡ ok tt → records o.1 ≡ records w + n)

  reported-Counted :
      (route : ModelRoute) (r : GenerationResponse) (us : List UsageRecord) (w v : World)
      → Recorded us v
      → length us ≡ records w + 1
      → Counted 1 w (record_generation_success rt c r "provider" route.provider true v)
  reported-Counted route r us w v h n =
      let k = ap length (success-Recorded us rt c r "provider" route.provider true v h) ∙ n in
      (omega (arith, k), omega (arith, k), λ _. k)

  account-Counted :
      (route : ModelRoute) (r : GenerationResponse) (w : World)
      → Counted 1 w (account rt c route (completed r) w)
  unfolding account record_usage
  account-Counted route r w = checked (post_init_usage_record u)
    where
      u : UsageRecord
      u = usage_record rt c route.provider r w.next_id

      w' : World
      w' = record w { next_id = w.next_id + 1 }

      report : Unit {0} → Exec World (Unit {0})
      report _ = record_generation_success rt c r "provider" route.provider true

      added :
          (o : Result (Unit {0}) × Database)
          → Added u w.db o
          → Counted 1 w (continue o.0 report (record w' { db = o.1 }))
      added (o, d) (inl (e, failed, kept)) =
          rw failed (let k = ap length kept in (omega (arith, k), omega (arith, k), λ p. cc))
      added (err x, d) (inr charged) =
          let k = ap length charged in (omega (arith, k), omega (arith, k), λ p. cc)
      added (ok _, d) (inr charged) =
          reported-Counted route r (u ∷ w.db.usage_records) w (record w' { db = d }) charged
            (omega arith)

      checked :
          (k : Result (Unit {0}))
          → Counted 1 w (
              continue
                (continue k (λ _. in_db (add_usage u)) w').0
                report
                (continue k (λ _. in_db (add_usage u)) w').1)
      checked (err e) = (omega arith, omega arith, λ p. cc)
      checked (ok _) = added (add_usage u w.db) (add_usage-Added u w.db)

  -- A stream of which each response was written down, where the last one may have been written
  -- down and then failed.
  pub record Streamed (w : World) (o : Stream GenerationStreamEvent × World) : Type 0 where
    pub least : records w + completions o.0 ≤ records o.1
    pub most : records o.1 ≤ records w + completions o.0 + 1
    pub exact : finishes o.0 ≡ true → records o.1 ≡ records w + completions o.0

  yield-Streamed :
      (payload : GenerationStreamEvent) (n : ℕ) (w : World) (r : Result (Unit {0})) (v : World)
      (rest : World → Stream GenerationStreamEvent × World)
      → Counted n w (r, v)
      → ((script : Stream GenerationStreamEvent)
          → completions (emit payload script) ≡ completions script + n)
      → n ≤ 1
      → ((u : World) → Streamed u (rest u))
      → Streamed w (yield_item rt c payload rest r v)
  unfolding finishes completions
  yield-Streamed payload n w (err e) v rest k size small more = record {
    least = omega (arith, k.0);
    most = omega (arith, k.1);
    exact = λ p. cc;
  }
  yield-Streamed payload n w (ok _) v rest k size small more = record {
    least = omega (arith, k.2 refl, size (rest v).0, (more v).least);
    most = omega (arith, k.2 refl, size (rest v).0, (more v).most);
    exact = λ p. omega (arith, k.2 refl, size (rest v).0, (more v).exact p);
  }

  deliver_emit :
      (route : ModelRoute) (payload : GenerationStreamEvent)
      (rest : World → Stream GenerationStreamEvent × World) (w : World)
      → ((u : World) → Streamed u (rest u))
      → Streamed w (
          yield_item rt c payload rest
            (account rt c route payload w).0
            (account rt c route payload w).1)
  unfolding account completions
  deliver_emit route (delta d) rest w more =
      yield-Streamed (delta d) 0 w (ok tt) w rest (omega arith, omega arith, λ p. omega arith)
        (λ s. omega arith) (omega arith) more
  deliver_emit route (completed r) rest w more =
      yield-Streamed (completed r) 1 w (account rt c route (completed r) w).0
        (account rt c route (completed r) w).1 rest (account-Counted route r w) (λ s. refl)
        (omega arith) more

  -- A streamed request adds one usage record for each response that the client reads, and at most
  -- one more, when the stream ends with an error.
  pub deliver_charges :
      (script : Stream ProviderStreamEvent) (w : World) → Streamed w (deliver rt c script w)
  unfolding deliver finishes completions
  deliver_charges done w = record {
    least = omega arith;
    most = omega arith;
    exact = λ p. omega arith;
  }
  deliver_charges (fail e) w = record { least = omega arith; most = omega arith; exact = λ p. cc }
  deliver_charges (emit item rest) w =
      deliver_emit item.route item.payload (λ u. deliver rt c rest u) w
        (λ u. deliver_charges rest u)
