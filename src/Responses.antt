-- ===== src/Responses.antt =====
-- src/ai_runtime/application/responses/create_response.py: what one request reads and writes, and
-- the two records that it makes, usage and audit. `CreateResponse` is in Responses/Create.
pub mod Payload
pub mod Create
pub mod Deliver
pub mod Accounting
pub mod Charges
pub mod Replays
pub mod Leases
pub mod CacheHits
pub mod Limits
pub mod Entitlements
use ai_runtime.Prelude.{
  ℕ, ◌+◌, String, Bool, true, false, Option, none, some, List, [], ◌∷◌, if◌then◌else◌,
}
use ai_runtime.Errors.{Result, ok, err}
use ai_runtime.Exec.{Exec, lift, continue, ◌>>=◌, ◌>>◌}
use ai_runtime.Json.{Json, JsonCodec}
use ai_runtime.Generation.{ℤ, Float, GenerationRequest, GenerationResponse, TokenUsage}
use ai_runtime.Calendar.{DateTime, micros}
use ai_runtime.Database.{Database, UsageRecord, AuditEvent, add_usage, add_audit}
use ai_runtime.Usage.{estimate, post_init_usage_record}
use ai_runtime.Audit.{post_init_audit_event}
use ai_runtime.Redis.{Redis}
use ai_runtime.Redis.Limiter.{RateLimiter}
use ai_runtime.Executor.{ProviderExecutor}

-- One `metrics.increment`.
pub record Metric : Type 0 where
  pub name : String
  pub labels : List (String × String)
  pub amount : ℕ

-- All that a request can change, but for what the providers hold.
pub record World : Type 0 where
  pub db : Database
  pub redis : Redis
  pub metrics : List Metric
  -- The ids that `uuid4` gives.
  pub next_id : ℕ
  -- What the outer world has seen of the calls of providers.
  pub calls : List String

-- The collaborators of `CreateResponse`, and the times at which the request runs. `digest` is
-- `json.dumps` with sorted keys behind SHA-256, `write_temperature` how a number is written.
pub record Runtime : Type 0 where
  pub executor : ProviderExecutor World
  pub sleep : ℕ → World → World
  pub limiter : RateLimiter
  pub idempotency_ttl : ℕ
  pub cache_ttl : ℕ
  pub codec : JsonCodec
  pub digest : Json → String
  pub write_temperature : Float → Json
  pub now : DateTime
  pub clock : ℕ

pub record CreateResponseCommand : Type 0 where
  pub request : GenerationRequest
  pub request_id : String
  pub organization_id : ℕ
  pub api_key_id : ℕ
  pub idempotency_key : Option String

module _ {A : Type 0} where
  -- A statement of the database.
  abbrev pub in_db : Exec Database A → Exec World A
  in_db m w = let (r, d) = m w.db in (r, record w { db = d })

  -- An operation of a Redis adapter.
  abbrev pub in_redis : (Redis → A × Redis) → Exec World A
  in_redis m w = let (a, r) = m w.redis in (ok a, record w { redis = r })

abbrev pub increment : String → List (String × String) → ℕ → World → World
increment name labels amount w = record w {
  metrics = record { name = name; labels = labels; amount = amount } ∷ w.metrics;
}

-- `_record_generation_error`
unfoldable pub record_generation_error : World → World
record_generation_error w = increment "generation_requests_total" (("result", "error") ∷ []) 1 w

abbrev input_tokens : Option TokenUsage → Option ℕ
input_tokens none = none
input_tokens (some u) = some u.input_tokens

abbrev output_tokens : Option TokenUsage → Option ℕ
output_tokens none = none
output_tokens (some u) = some u.output_tokens

-- The record that `_record_usage` writes.
abbrev pub usage_record :
    Runtime → CreateResponseCommand → String → GenerationResponse → ℕ → UsageRecord
usage_record rt c provider response id = record {
  id = id;
  request_id = c.request_id;
  organization_id = c.organization_id;
  api_key_id = c.api_key_id;
  provider = provider;
  model = response.model;
  input_tokens = input_tokens response.usage;
  output_tokens = output_tokens response.usage;
  estimated_cost_usd = estimate provider response.model response.usage;
  created_at = micros rt.now;
}

-- `_record_usage`
unfoldable pub record_usage :
    Runtime → CreateResponseCommand → String → GenerationResponse → Exec World (Unit {0})
record_usage rt c provider response w =
    let u = usage_record rt c provider response w.next_id in
    continue (post_init_usage_record u) (λ _. in_db (add_usage u))
      (record w { next_id = w.next_id + 1 })

abbrev pub count_tokens_of : Bool → Option TokenUsage → World → World
count_tokens_of true (some u) w =
    increment "generation_tokens_total" (("direction", "output") ∷ []) u.output_tokens
      (increment "generation_tokens_total" (("direction", "input") ∷ []) u.input_tokens w)
count_tokens_of _ _ w = w

-- The audit event of a successful generation.
abbrev pub audit_event :
    Runtime → CreateResponseCommand → GenerationResponse → String → String → ℕ → AuditEvent
audit_event rt c response outcome provider id = record {
  id = id;
  action = "response.created";
  occurred_at = micros rt.now;
  organization_id = some c.organization_id;
  actor_api_key_id = some c.api_key_id;
  request_id = some c.request_id;
  resource_type = "response";
  resource_id = some response.id;
  metadata = ("model", response.model) ∷ ("outcome", outcome) ∷ ("provider", provider) ∷ [];
}

-- `_record_generation_success`; the log line is left out.
unfoldable pub record_generation_success :
    Runtime
    → CreateResponseCommand
    → GenerationResponse
    → String
    → String
    → Bool
    → Exec World (Unit {0})
record_generation_success rt c response outcome provider count_tokens w =
    let e = audit_event rt c response outcome provider w.next_id in
    let w₁ =
      increment "generation_requests_total" (("result", "success") ∷ ("outcome", outcome) ∷ []) 1
        w in
    let w₂ = count_tokens_of count_tokens response.usage w₁ in
    continue (post_init_audit_event e) (λ _. in_db (add_audit e))
      (record w₂ { next_id = w₂.next_id + 1 })
