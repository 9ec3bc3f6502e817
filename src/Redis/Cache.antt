-- ===== src/Redis/Cache.antt =====
-- src/ai_runtime/infrastructure/redis/response_cache.py: payloads under an organization's request
-- fingerprints.
use ai_runtime.Prelude.{ℕ, String, Option, none, some}
use ai_runtime.Redis.{Redis, cache_resp, put, get, run}

abbrev pub or_miss : Option (Option String) → Option String
or_miss none = none
or_miss (some raw) = raw

-- `get`
unfoldable pub cache_get : ℕ → String → Redis → Option String × Redis
cache_get organization_id fingerprint r =
    let (raw, r') = run (get (cache_resp organization_id fingerprint)) r in (or_miss raw, r')

-- `set`
unfoldable pub cache_set : ℕ → ℕ → String → String → Redis → Redis
cache_set ttl_seconds organization_id fingerprint payload r =
    (run (put (cache_resp organization_id fingerprint) payload ttl_seconds) r).1
