-- ===== src/Usage.antt =====
-- src/ai_runtime/domain/usage.py and infrastructure/pricing/static_cost_estimator.py. Every listed
-- price is a whole number of US cents for a million tokens, so a cost is a whole number of units of
-- 0.00000001 USD, the precision that the code rounds to, and nothing is lost.
pub mod Costs
use Prim.Native.Char.{Char, code}
use ai_runtime.Prelude.{
  ℕ, zero, suc, ◌+◌, ◌-◌, ◌*◌, String, Bool, true, false, not, ◌&&◌, ◌||◌, Option, none, some, List,
  [], ◌∷◌, ◌==◌, ◌+++◌, leb, strip, if◌then◌else◌,
}
use ai_runtime.Errors.{Error, domain_validation, Result, ok, err, ◌>>=◌, ◌>>◌, raise_if}
use ai_runtime.Generation.{TokenUsage, require_non_blank, is_some}
use ai_runtime.Routing.{lookup}
use ai_runtime.Database.{UsageRecord}

-- USD cents for a million tokens
pub record ModelPricing : Type 0 where
  pub input_cents_per_1m_tokens : ℕ
  pub output_cents_per_1m_tokens : ℕ

unfoldable pub estimate_cost_usd : TokenUsage → ModelPricing → ℕ
estimate_cost_usd usage pricing =
    usage.input_tokens * pricing.input_cents_per_1m_tokens
    + usage.output_tokens * pricing.output_cents_per_1m_tokens

-- `UsageRecord.__post_init__`; times are aware and token counts not negative by their types.
unfoldable pub post_init_usage_record : UsageRecord → Result (Unit {0})
post_init_usage_record u = do
  require_non_blank u.request_id "request_id"
  require_non_blank u.provider "provider"
  require_non_blank u.model "model"
  raise_if
      ((is_some u.input_tokens && not (is_some u.output_tokens))
        || (not (is_some u.input_tokens) && is_some u.output_tokens))
      (domain_validation "input_tokens and output_tokens must both be set or both be None")

abbrev price : ℕ → ℕ → ModelPricing
price input output = record {
  input_cents_per_1m_tokens = input;
  output_cents_per_1m_tokens = output;
}

abbrev pub provider_pricing : List (String × List (String × ModelPricing))
provider_pricing =
    ("openai", ("gpt-4o-mini", price 15 60) ∷ ("gpt-4o", price 250 1000) ∷ [])
    ∷ ("anthropic", ("claude-3-5-sonnet-20241022", price 300 1500) ∷ [])
    ∷ ("gemini", ("gemini-2.5-flash", price 30 250) ∷ [])
    ∷ []

abbrev char_or : String → ℕ → Char → Char
char_or String.[] n c = c
char_or (String.◌∷◌ d s) zero c = d
char_or (String.◌∷◌ d s) (suc n) c = char_or s n c

-- `str.lower()` of one character, exact where the result is compared with ASCII texts: the letters A to
-- Z, and the two others that Python maps to an ASCII letter, the Kelvin sign U+212A, and U+0130, whose
-- image is an i and U+0307. Further letters, whose images are not ASCII either, stay as they are.
abbrev lower_char : Char → String
lower_char c =
    if leb 65 (code c) && leb (code c) 90
    then String.◌∷◌ (char_or "abcdefghijklmnopqrstuvwxyz" (code c - 65) c) ""
    else if code c == 8490
    then "k"
    else if code c == 304
    then "i̇"
    else String.◌∷◌ c ""

unfoldable pub lower : String → String
lower String.[] = ""
lower (String.◌∷◌ c s) = lower_char c +++ lower s

abbrev cost_of : TokenUsage → Option ModelPricing → Option ℕ
cost_of usage none = none
cost_of usage (some pricing) = some (estimate_cost_usd usage pricing)

abbrev with_prices : TokenUsage → String → Option (List (String × ModelPricing)) → Option ℕ
with_prices usage model none = none
with_prices usage model (some prices) = cost_of usage (lookup (strip model) prices)

-- `StaticCostEstimator.estimate`
unfoldable pub estimate : String → String → Option TokenUsage → Option ℕ
estimate provider model none = none
estimate provider model (some usage) =
    with_prices usage model (lookup (lower (strip provider)) provider_pricing)
