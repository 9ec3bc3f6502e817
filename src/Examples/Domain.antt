-- ===== src/Examples/Domain.antt =====
-- The theorems on domain objects, routes, prices and policies at concrete inputs.
use ai_runtime.Prelude.{
  ◌+◌, ◌*◌, ◌≤◌, ◌<◌, String, ◌≡◌, refl, ◌↔◌, ◌⊎◌, inl, inr, none, some, List, [], ◌∷◌, arith, All,
  strip, text_in, str_eq, Bool-cases,
}
use ai_runtime.Errors.{ok, err, unsupported_model}
use ai_runtime.Generation.{
  pos, user, post_init_message, post_init_request, post_init_response, is_blank, require_non_blank,
}
use ai_runtime.Generation.Validity.{
  HasContent, IsValidMessage, IsValidRequest, post_init_message_iff, post_init_request_iff,
}
use ai_runtime.Routing.{
  ModelRoute, lookup, default_model_catalog, default_failover_catalog, resolve_model_route,
  chain_from, post_init_route, resolve_route_chain, fallbacks_of,
}
use ai_runtime.Routing.Chain.{
  IsListed, AreNew, HasNames, resolve_route_chain_sound, resolve_route_chain_total,
}
use ai_runtime.Calendar.{DateTime, IsDateTime, micros, days_in_month, is_leap}
use ai_runtime.Database.{Database, entitled_models, limit_of}
use ai_runtime.Policy.{current_month_utc_bounds, seconds_until_end_of_month_utc}
use ai_runtime.Policy.Month.{month_bounds, seconds_until_end_bounds}
use ai_runtime.Policy.Enforce.{
  EnforceOrganizationPolicyCommand, enforce, IsEntitled, FitsLimit, used_in_month, IsLoadable,
  check_entitlements, post_init_policy, enforce_iff,
}
use ai_runtime.Responses.Payload.{response_json, read_response}
use ai_runtime.Responses.Payload.Replay.{IsValidResponse, replayed, read_response-json}
use ai_runtime.Examples.{hello, ask, reply}

post_init_message_iff_example : (post_init_message hello ≡ ok tt) ↔ IsValidMessage user "hi" none []
post_init_message_iff_example = post_init_message_iff hello

post_init_request_iff_example : (post_init_request ask ≡ ok tt) ↔ IsValidRequest ask
post_init_request_iff_example = post_init_request_iff ask

pub reply-IsValid : IsValidResponse reply
unfolding post_init_response post_init_message require_non_blank is_blank strip
reply-IsValid = record { response = refl; output = refl; calls = tt }

read_response-json_example : read_response (response_json reply) ≡ ok (replayed reply)
read_response-json_example = read_response-json reply reply-IsValid

abbrev chain : List ModelRoute
chain =
    record { model = "gpt-4o"; provider = "openai" }
    ∷ record { model = "claude-3-5-sonnet-20241022"; provider = "anthropic" }
    ∷ record { model = "gemini-2.5-flash"; provider = "gemini" }
    ∷ []

chain_of_gpt :
    resolve_route_chain "gpt-4o" default_model_catalog default_failover_catalog ≡ ok chain
unfolding resolve_route_chain resolve_model_route chain_from lookup post_init_route
    require_non_blank is_blank strip text_in
chain_of_gpt = refl

resolve_route_chain_sound_example :
    (primary : ModelRoute) × (rest : List ModelRoute) × (chain ≡ primary ∷ rest)
    × (primary.model ≡ "gpt-4o")
    × All (IsListed default_model_catalog) chain
    × AreNew [] chain
resolve_route_chain_sound_example =
    resolve_route_chain_sound "gpt-4o" default_model_catalog default_failover_catalog chain
      chain_of_gpt

abbrev tiny_catalog : List (String × String)
tiny_catalog = ("a", "p") ∷ []

abbrev tiny_fallbacks : List (String × List String)
tiny_fallbacks = ("a", "b" ∷ []) ∷ []

tiny_provider : (m p : String) → lookup m tiny_catalog ≡ some p → HasContent p
unfolding lookup is_blank strip
tiny_provider m p h = elim (Bool-cases (str_eq "a" m)) [
  | inl same ↦ let e : p ≡ "p" = ground arith in rw e
  | inr other ↦ absurd (ground arith)
]

tiny_names : HasNames tiny_catalog (fallbacks_of (lookup "a" tiny_fallbacks))
unfolding lookup is_blank strip
tiny_names = record { candidates = (refl, tt); providers = tiny_provider }

a_content : HasContent "a"
unfolding is_blank strip
a_content = refl

resolve_route_chain_total_example :
    ((out : List ModelRoute) × (resolve_route_chain "a" tiny_catalog tiny_fallbacks ≡ ok out)
      × (p : String) × (lookup "a" tiny_catalog ≡ some p))
    ⊎ ((resolve_route_chain "a" tiny_catalog tiny_fallbacks ≡ err (unsupported_model "a"))
        × (lookup "a" tiny_catalog ≡ none))
resolve_route_chain_total_example =
    resolve_route_chain_total "a" tiny_catalog tiny_fallbacks a_content tiny_names

-- A leap day, half a second before midnight.
abbrev pub leap_day : DateTime
leap_day = record {
  year = 2024;
  month = 2;
  day = 29;
  hour = 23;
  minute = 59;
  second = 59;
  microsecond = 500000;
}

pub leap_day-IsDateTime : IsDateTime leap_day
unfolding days_in_month is_leap
leap_day-IsDateTime = record {
  before_last = omega arith;
  year = omega arith;
  january = omega arith;
  december = omega arith;
  first = omega arith;
  last = omega arith;
  hour = omega arith;
  minute = omega arith;
  second = omega arith;
  microsecond = omega arith;
}

month_bounds_example :
    (micros (current_month_utc_bounds leap_day).0 ≤ micros leap_day)
    × (micros leap_day < micros (current_month_utc_bounds leap_day).1)
month_bounds_example = month_bounds leap_day leap_day-IsDateTime

seconds_until_end_bounds_example :
    (1 ≤ seconds_until_end_of_month_utc leap_day)
    × (seconds_until_end_of_month_utc leap_day ≤ 31 * 86400)
    × ((seconds_until_end_of_month_utc leap_day ≡ 1)
        ⊎ (micros leap_day + seconds_until_end_of_month_utc leap_day * 1000000
            ≤ micros (current_month_utc_bounds leap_day).1))
    × (micros (current_month_utc_bounds leap_day).1
        < micros leap_day + (seconds_until_end_of_month_utc leap_day + 1) * 1000000)
seconds_until_end_bounds_example = seconds_until_end_bounds leap_day leap_day-IsDateTime

-- An organization with one entitlement and a limit.
abbrev pub tables : Database
tables = record {
  usage_records = [];
  audit_events = [];
  entitlements = (1, "gpt-4o") ∷ (2, "gemini-2.5-flash") ∷ [];
  policies = (1, some 1000) ∷ [];
  organizations = [];
  api_keys = [];
  faults = [];
}

abbrev command : EnforceOrganizationPolicyCommand
command = record {
  organization_id = 1;
  requested_model = "gpt-4o";
  max_output_tokens = some (pos 100);
}

tables-IsLoadable : IsLoadable tables 1
unfolding entitled_models limit_of check_entitlements post_init_policy require_non_blank is_blank
    strip
tables-IsLoadable = record { answers = refl; entitlements = refl; policy = refl }

enforce_iff_example : ((enforce leap_day command tables).0 ≡ ok tt) ↔ (
    IsEntitled tables command
    × FitsLimit (limit_of 1 tables.policies) (used_in_month tables leap_day 1) (pos 100))
enforce_iff_example = enforce_iff leap_day command tables tables-IsLoadable
