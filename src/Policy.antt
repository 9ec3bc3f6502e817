-- ===== src/Policy.antt =====
-- src/ai_runtime/domain/organization_policy.py: entitlements, the monthly quota, and the month that
-- it counts.
pub mod Month
pub mod Enforce
pub mod Reads
use ai_runtime.Prelude.{
  ℕ, ◌+◌, ◌-◌, ◌/◌, String, Bool, true, Option, none, some, List, [], ◌∷◌, ◌==◌, leb, max, is_empty,
  text_in, if◌then◌else◌,
}
use ai_runtime.Errors.{Error, domain_validation, Result, ok, err, ◌>>=◌, ◌>>◌, raise_if}
use ai_runtime.Generation.{ℤ, pos, negsuc}
use ai_runtime.Calendar.{DateTime, micros}

unfoldable pub is_model_allowed : String → List String → Bool
is_model_allowed requested_model entitlements =
    if is_empty entitlements then true else text_in requested_model entitlements

-- The sum of recorded tokens is a natural number, the estimate any `int`.
abbrev exceeds : ℕ → ℕ → ℤ → Result Bool
exceeds current_tokens limit (pos n) = ok (leb limit (current_tokens + n))
exceeds current_tokens limit (negsuc n) =
    err (domain_validation "token counts must not be negative")

unfoldable pub would_exceed_monthly_quota : ℕ → ℕ → ℤ → Result Bool
would_exceed_monthly_quota current_tokens limit estimated_additional =
    raise_if (limit == 0) (domain_validation "limit must be greater than zero")
    >> exceeds current_tokens limit estimated_additional

-- For times before December 9999: Python's years end there, and `replace` raises a `ValueError`.
unfoldable pub current_month_utc_bounds : DateTime → DateTime × DateTime
current_month_utc_bounds instant =
    let start : DateTime = record instant {
      day = 1;
      hour = 0;
      minute = 0;
      second = 0;
      microsecond = 0;
    } in
    let end : DateTime =
      if start.month == 12
      then record start { year = start.year + 1; month = 1 }
      else record start { month = start.month + 1 } in
    (start, end)

-- `max(1, int((end - instant).total_seconds()))`
unfoldable pub seconds_until_end_of_month_utc : DateTime → ℕ
unfolding current_month_utc_bounds
seconds_until_end_of_month_utc instant =
    max 1 ((micros (current_month_utc_bounds instant).1 - micros instant) / 1000000)
