-- ===== src/Redis/Limiter/Bounds.antt =====
-- The token bucket of rate_limiter.py: how many requests an organization can make in a period.
use ai_runtime.Prelude.{ℕ, ◌+◌, ◌*◌, ◌≤◌, List, [], ◌∷◌, sum, length, if◌then◌else◌}
use ai_runtime.Redis.{Redis, Bucket}
use ai_runtime.Redis.Limiter.{RateLimiter, capacity, bucket_ttl, token_bucket}

-- What is relied on in the script's arithmetic: a token is refilled at `rate` grains a millisecond, a
-- bucket that expires could have been full, and each sum and product is too large by at most `slack`
-- grains.
pub record IsAccurate (l : RateLimiter) (rate slack : ℕ) : Type 0 where
  pub refilling : (now wait : ℕ) → l.lua.refill (now + wait) now ≤ wait * rate + slack
  pub adding : (a b : ℕ) → l.lua.plus a b ≤ a + b + slack
  pub filling : capacity l ≤ (l.lua.full_seconds + 1) * 1000 * rate + slack

-- The requests that an organization makes, each some milliseconds after the one before, by a clock
-- that the server shares: how many are allowed.
pub grants : RateLimiter → ℕ → ℕ → Redis → List ℕ → ℕ
grants l organization_id now r [] = 0
grants l organization_id now r (wait ∷ waits) =
    let (result, r') =
      token_bucket l organization_id (now + wait) (record r { now = now + wait }) in
    (if result.0 then 1 else 0) + grants l organization_id (now + wait) r' waits

module _ (l : RateLimiter) (rate slack : ℕ) (accurate : IsAccurate l rate slack) where
  -- The bucket that a request at `now` leaves.
  abbrev left_at : ℕ → ℕ → Bucket
  left_at tokens now = record {
    tokens = tokens;
    timestamp = now;
    expires_at = now + bucket_ttl l * 1000;
  }

  -- What is granted in some periods, with the grains that roundings may add.
  abbrev refills : List ℕ → ℕ
  refills waits = sum waits * rate + length waits * (2 * slack)
