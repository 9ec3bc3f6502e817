-- ===== src/Redis/Limiter.antt =====
-- src/ai_runtime/infrastructure/redis/rate_limiter.py with its Lua script: a token bucket for each
-- organization. The floating-point arithmetic of Redis's Lua is a parameter, `Arithmetic`: times are in
-- milliseconds, and a number of tokens is counted in grains so fine that each double is a whole
-- number of them. `tokens - requested` is exact in doubles, where `tokens` is at least `requested`.
pub mod Bounds
use ai_runtime.Prelude.{
  ℕ, ◌+◌, ◌-◌, ◌*◌, ◌/◌, Bool, true, false, Option, none, some, leb, ◌==◌, min, if◌then◌else◌,
}
use ai_runtime.Redis.{Redis, Bucket, run}

-- What the script computes with a limiter's capacity and rate.
pub record Arithmetic : Type 0 where
  -- one token, in grains
  pub unit : ℕ
  -- `elapsed * refill_per_second`, with `elapsed = math.max(0, now - timestamp)`
  pub refill : ℕ → ℕ → ℕ
  -- `tokens + …`
  pub plus : ℕ → ℕ → ℕ
  -- `math.ceil((requested - tokens) / refill_per_second)`
  pub missing_seconds : ℕ → ℕ
  -- `math.ceil(capacity / refill_per_second)`
  pub full_seconds : ℕ

pub record RateLimiter : Type 0 where
  pub burst : ℕ
  pub lua : Arithmetic

-- `capacity`, in grains
abbrev pub capacity : RateLimiter → ℕ
capacity l = l.burst * l.lua.unit

pub record RateLimitDecision : Type 0 where
  pub allowed : Bool
  pub retry_after_seconds : Option ℕ

module _ (l : RateLimiter) where
  -- `tokens` when the request comes: full where the key is missing or has expired.
  unfoldable pub refilled : ℕ → Option Bucket → ℕ
  refilled now none = capacity l
  refilled now (some b) = min (capacity l) (l.lua.plus b.tokens (l.lua.refill now b.timestamp))

  -- `tokens` after the request, for one requested token
  unfoldable pub spend : ℕ → ℕ
  spend tokens = if leb l.lua.unit tokens then tokens - l.lua.unit else tokens

  unfoldable pub retry_after : ℕ → ℕ
  retry_after tokens = l.lua.missing_seconds tokens

  -- The seconds that `EXPIRE` gives the bucket.
  unfoldable pub bucket_ttl : ℕ
  bucket_ttl = l.lua.full_seconds + 1

  abbrev pub unless_gone : ℕ → Option Bucket → Option Bucket
  unless_gone server_now none = none
  unless_gone server_now (some b) = if leb b.expires_at server_now then none else some b

  -- The script, which Redis runs as one step: `now` is the caller's clock, and the keys expire by
  -- the server's.
  unfoldable pub token_bucket : ℕ → ℕ → Redis → (Bool × ℕ) × Redis
  token_bucket organization_id now r =
      let tokens = refilled now (unless_gone r.now (r.buckets organization_id)) in
      let b : Bucket = record {
        tokens = spend tokens;
        timestamp = now;
        expires_at = r.now + bucket_ttl * 1000;
      } in
      let buckets : ℕ → Option Bucket = λ o. if organization_id == o then some b else r.buckets o in
      let result : Bool × ℕ =
        if leb l.lua.unit tokens then (true, 0) else (false, retry_after tokens) in
      (result, record r { buckets = buckets })

  abbrev pub decide : Option (Bool × ℕ) → RateLimitDecision
  decide none = record { allowed = true; retry_after_seconds = none }
  decide (some (true, n)) = record { allowed = true; retry_after_seconds = none }
  decide (some (false, n)) = record { allowed = false; retry_after_seconds = some n }

  unfoldable pub consume : ℕ → ℕ → Redis → RateLimitDecision × Redis
  consume clock organization_id r =
      let (result, r') = run (token_bucket organization_id clock) r in (decide result, r')
