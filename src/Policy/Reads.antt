-- ===== src/Policy/Reads.antt =====
-- Enforcing a policy only reads: the usage records stay as they are.
use ai_runtime.Prelude.{ℕ, String, Bool, true, false, Option, none, some, List, if◌then◌else◌}
use ai_runtime.Errors.{Error, model_not_available}
use ai_runtime.Exec.{Exec, raise, lift, ◌>>◌}
use ai_runtime.Exec.Keeps.{Keeps, bind-Keeps}
use ai_runtime.Calendar.{DateTime, micros}
use ai_runtime.Database.{
  Database, UsageRecord, list_entitlements, get_policy, sum_tokens_for_organization_in_period,
}
use ai_runtime.Database.Reads.{
  Records, list_entitlements-Records, get_policy-Records, sum_tokens-Records,
}
use ai_runtime.Policy.{
  is_model_allowed, current_month_utc_bounds, would_exceed_monthly_quota,
  seconds_until_end_of_month_utc,
}
use ai_runtime.Policy.Enforce.{
  EnforceOrganizationPolicyCommand, enforce, check_policy, check_quota, quota_verdict, estimated,
  check_entitlements, post_init_policy,
}

module _ (us : List UsageRecord) where
  check_quota-Records :
      (now : DateTime) (c : EnforceOrganizationPolicyCommand) (limit : Option ℕ)
      → Keeps (Records us) (check_quota now c limit)
  check_quota-Records now c none d h = h
  check_quota-Records now c (some limit) d h =
      bind-Keeps (Records us) {A = ℕ} {B = Unit {0}}
        (sum_tokens_for_organization_in_period c.organization_id
          (micros (current_month_utc_bounds now).0) (micros (current_month_utc_bounds now).1))
        (λ n. lift (
          quota_verdict (seconds_until_end_of_month_utc now)
            (would_exceed_monthly_quota n limit (estimated c.max_output_tokens))))
        (sum_tokens-Records us c.organization_id (micros (current_month_utc_bounds now).0)
          (micros (current_month_utc_bounds now).1))
        (λ n d' h'. h') d h

  check_policy-Records :
      (now : DateTime) (c : EnforceOrganizationPolicyCommand)
      → Keeps (Records us) (check_policy now c)
  unfolding check_policy
  check_policy-Records now c =
      bind-Keeps (Records us) {A = Option ℕ} {B = Unit {0}} (get_policy c.organization_id)
        (λ limit. lift (post_init_policy limit) >> check_quota now c limit)
        (get_policy-Records us c.organization_id)
        (λ limit.
          bind-Keeps (Records us) {A = Unit {0}} {B = Unit {0}} (lift (post_init_policy limit))
            (λ _. check_quota now c limit) (λ d h. h) (λ _. check_quota-Records now c limit))

  guarded-Records :
      (e : Error) (b : Bool) (m : Exec Database (Unit {0}))
      → Keeps (Records us) m
      → Keeps (Records us) (if b then m else raise e)
  guarded-Records e true m k d h = k d h
  guarded-Records e false m k d h = h

  pub enforce-Records :
      (now : DateTime) (c : EnforceOrganizationPolicyCommand) → Keeps (Records us) (enforce now c)
  unfolding enforce
  enforce-Records now c =
      bind-Keeps (Records us) {A = List String} {B = Unit {0}} (list_entitlements c.organization_id)
        (λ models.
          lift (check_entitlements models)
          >> (if is_model_allowed c.requested_model models
              then check_policy now c
              else raise (model_not_available c.requested_model)))
        (list_entitlements-Records us c.organization_id)
        (λ models.
          bind-Keeps (Records us) {A = Unit {0}} {B = Unit {0}} (lift (check_entitlements models))
            (λ _.
              if is_model_allowed c.requested_model models
              then check_policy now c
              else raise (model_not_available c.requested_model))
            (λ d h. h)
            (λ _.
              guarded-Records (model_not_available c.requested_model)
                (is_model_allowed c.requested_model models) (check_policy now c)
                (check_policy-Records now c)))
