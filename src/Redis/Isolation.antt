-- ===== src/Redis/Isolation.antt =====
-- Operations on one key leave the records of all other keys alone, whatever fails.
use Prim.Native.String.{◌++◌}
use ai_runtime.Prelude.{
  ℕ, String, ◌≡◌, refl, ◌∙◌, Bool, true, false, Option, none, some, List, [], ◌∷◌, arith, str_eq,
  Bool-cases, inl, inr,
}
use ai_runtime.Redis.{
  Redis, RedisKey, idem, same_key, Reply, answered, refused, unanswered, Event, put, put_nx, get,
  delete, deliver, by_schedule, run,
}
use ai_runtime.Redis.Idempotency.{
  status_in_progress, completed_prefix, after_claim, begin, complete, after_current, release,
}

module _ (j : RedisKey) where
  -- A command that leaves the record of `j` alone.
  abbrev Spares : {A : Type 0} → (Redis → A × Redis) → Type 0
  Spares command = (r : Redis) → (command r).1.cells j ≡ r.cells j

  deliver-Spares :
      {A : Type 0} (command : Redis → A × Redis) (reply : Reply)
      → Spares command
      → Spares (deliver reply command)
  deliver-Spares command answered h r = h r
  deliver-Spares command refused h r = refl
  deliver-Spares command unanswered h r = h r

  by_schedule-Spares :
      {A : Type 0} (command : Redis → A × Redis) (events : List Event)
      → Spares command
      → Spares (by_schedule events command)
  by_schedule-Spares command [] h r = h r
  by_schedule-Spares command (e ∷ es) h r = deliver-Spares command e.reply h _

  run-Spares : {A : Type 0} (command : Redis → A × Redis) → Spares command → Spares (run command)
  unfolding run
  run-Spares command h r = by_schedule-Spares command r.schedule h r

  module _ (k : RedisKey) (apart : same_key k j ≡ false) where
    put-Spares : (v : String) (ttl : ℕ) → Spares (put k v ttl)
    unfolding put
    put-Spares v ttl r = rw apart

    put_nx-Spares : (v : String) (ttl : ℕ) → Spares (put_nx k v ttl)
    unfolding put_nx
    put_nx-Spares v ttl r = ground arith

    delete-Spares : Spares (delete k)
    unfolding delete
    delete-Spares r = rw apart

    get-Spares : Spares (get k)
    unfolding get
    get-Spares r = refl

    after_claim-Spares : (ttl : ℕ) (claimed : Option Bool) → Spares (after_claim ttl k claimed)
    after_claim-Spares ttl none r = refl
    after_claim-Spares ttl (some true) r = refl
    after_claim-Spares ttl (some false) r = run-Spares (get k) get-Spares r

    after_current-Spares :
        (current : Option (Option String)) (r : Redis)
        → (after_current k current r).cells j ≡ r.cells j
    after_current-Spares none r = refl
    after_current-Spares (some none) r = refl
    after_current-Spares (some (some current)) r =
        elim (Bool-cases (str_eq current status_in_progress)) [
          | inl held ↦ rw held (run-Spares (delete k) delete-Spares r)
          | inr other ↦ rw other
        ]

module _ (ttl o : ℕ) (r : Redis) (j : RedisKey) where
  -- Whatever the delays and failures of the server, the operations on one Idempotency-Key leave every
  -- other record as it was, those of other organizations and of the response cache included.
  pub idempotency_isolated :
      (k payload : String)
      → same_key (idem o k) j ≡ false
      → ((begin ttl o k r).1.cells j ≡ r.cells j)
        × ((complete ttl o k payload r).cells j ≡ r.cells j)
        × ((release o k r).cells j ≡ r.cells j)
  unfolding begin complete release
  idempotency_isolated k payload apart = (
    after_claim-Spares j (idem o k) apart ttl (run (put_nx (idem o k) status_in_progress ttl) r).0
          (run (put_nx (idem o k) status_in_progress ttl) r).1
        ∙ run-Spares j (put_nx (idem o k) status_in_progress ttl)
            (put_nx-Spares j (idem o k) apart status_in_progress ttl) r,
    run-Spares j _ (put-Spares j (idem o k) apart (completed_prefix ++ payload) ttl) r,
    after_current-Spares j (idem o k) apart (run (get (idem o k)) r).0 (run (get (idem o k)) r).1
        ∙ run-Spares j (get (idem o k)) (get-Spares j (idem o k) apart) r,
  )
