-- ===== src/Redis/Idempotency.antt =====
-- src/ai_runtime/infrastructure/redis/idempotency_store.py and ports/idempotency_store.py: leases
-- and completed payloads under an organization's Idempotency-Key.
pub mod Leases
use Prim.Native.String.{◌++◌}
use ai_runtime.Prelude.{
  ℕ, String, Bool, true, false, Option, none, some, str_eq, strip_prefix?, if◌then◌else◌,
}
use ai_runtime.Redis.{Redis, RedisKey, idem, put, put_nx, get, delete, run}

pub data BeginResult : Type 0 where
  miss in_progress : BeginResult
  completed : String → BeginResult

abbrev pub status_in_progress : String
status_in_progress = "in_progress"

-- The start of a completed record, f"{_STATUS_COMPLETED}:"
abbrev pub completed_prefix : String
completed_prefix = "completed:"

abbrev pub payload_or_in_progress : Option String → BeginResult
payload_or_in_progress none = in_progress
payload_or_in_progress (some payload) = completed payload

-- How `begin` reads a record.
unfoldable pub classify : String → BeginResult
classify existing =
    if str_eq existing status_in_progress
    then in_progress
    else payload_or_in_progress (strip_prefix? completed_prefix existing)

abbrev pub after_get : Option (Option String) → BeginResult
after_get none = miss
after_get (some none) = miss
after_get (some (some existing)) = classify existing

module _ (ttl_seconds : ℕ) where
  abbrev pub after_claim : RedisKey → Option Bool → Redis → BeginResult × Redis
  after_claim k none r = (miss, r)
  after_claim k (some true) r = (miss, r)
  after_claim k (some false) r = let (raw, r') = run (get k) r in (after_get raw, r')

  unfoldable pub begin : ℕ → String → Redis → BeginResult × Redis
  begin organization_id key r =
      let (claimed, r') =
        run (put_nx (idem organization_id key) status_in_progress ttl_seconds) r in
      after_claim (idem organization_id key) claimed r'

  unfoldable pub complete : ℕ → String → String → Redis → Redis
  complete organization_id key payload r =
      (run (put (idem organization_id key) (completed_prefix ++ payload) ttl_seconds) r).1

-- `if current_value == _STATUS_IN_PROGRESS: await self._redis.delete(redis_key)`
abbrev pub after_current : RedisKey → Option (Option String) → Redis → Redis
after_current k (some (some current)) r =
    if str_eq current status_in_progress then (run (delete k) r).1 else r
after_current k _ r = r

unfoldable pub release : ℕ → String → Redis → Redis
release organization_id key r =
    let (current, r') = run (get (idem organization_id key)) r in
    after_current (idem organization_id key) current r'
