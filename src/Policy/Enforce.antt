-- ===== src/Policy/Enforce.antt =====
-- src/ai_runtime/application/policy/enforce_organization_policy.py, with the checks that loading a
-- policy and an entitlement makes (`__post_init__` of domain/organization_policy.py).
use ai_runtime.Prelude.{
  ℕ, ◌+◌, ◌<◌, String, ◌≡◌, refl, ◌↔◌, ◌⊎◌, inl, inr, Bool, true, false, Option, none, some, List,
  [], ◌∷◌, arith, text_in, Bool-cases, if◌then◌else◌,
}
use ai_runtime.Errors
use ai_runtime.Errors.{
  Error, domain_validation, model_not_available, quota_exceeded, Result, ok, err, raise_if,
}
use ai_runtime.Exec.{Exec, raise, lift, continue, ◌>>=◌, ◌>>◌}
use ai_runtime.Generation.{require_non_blank, is_zero, ℤ, pos, negsuc}
use ai_runtime.Calendar.{DateTime, micros}
use ai_runtime.Database.{
  Database, run_calm, entitled_models, list_entitlements, limit_of, get_policy, sum_tokens,
  sum_tokens_for_organization_in_period,
}
use ai_runtime.Policy.{
  is_model_allowed, would_exceed_monthly_quota, current_month_utc_bounds,
  seconds_until_end_of_month_utc,
}

pub record EnforceOrganizationPolicyCommand : Type 0 where
  pub organization_id : ℕ
  pub requested_model : String
  pub max_output_tokens : Option ℤ

-- `ModelEntitlement.__post_init__`, row by row
unfoldable pub check_entitlements : List String → Result (Unit {0})
check_entitlements [] = ok tt
check_entitlements (m ∷ ms) = Errors.◌>>◌ (require_non_blank m "model") (check_entitlements ms)

-- `OrganizationPolicy.__post_init__`
unfoldable pub post_init_policy : Option ℕ → Result (Unit {0})
post_init_policy limit =
    raise_if (is_zero limit)
      (domain_validation "monthly_token_limit must be greater than zero when set")

-- `command.max_output_tokens or 0`
abbrev pub estimated : Option ℤ → ℤ
estimated none = pos 0
estimated (some n) = n

-- `if would_exceed_monthly_quota(…): raise QuotaExceededError(…)`
abbrev pub quota_verdict : ℕ → Result Bool → Result (Unit {0})
quota_verdict seconds (ok exceeded) = raise_if exceeded (quota_exceeded seconds)
quota_verdict seconds (err e) = err e

-- The part behind `if policy.monthly_token_limit is None: return`.
abbrev pub check_quota :
    DateTime → EnforceOrganizationPolicyCommand → Option ℕ → Exec Database (Unit {0})
check_quota now command none d = (ok tt, d)
check_quota now command (some limit) d =
    let (start, end) = current_month_utc_bounds now in
    let (used, d') =
      sum_tokens_for_organization_in_period command.organization_id (micros start) (micros end) d in
    continue used
      (λ n. lift (
        quota_verdict (seconds_until_end_of_month_utc now)
          (would_exceed_monthly_quota n limit (estimated command.max_output_tokens))))
      d'

-- The part behind the test of the model.
unfoldable pub check_policy : DateTime → EnforceOrganizationPolicyCommand → Exec Database (Unit {0})
check_policy now command = do
  limit ← get_policy command.organization_id
  lift (post_init_policy limit)
  check_quota now command limit

-- `execute`, at the time `now` of its clock
unfoldable pub enforce : DateTime → EnforceOrganizationPolicyCommand → Exec Database (Unit {0})
unfolding check_policy
enforce now command = do
  models ← list_entitlements command.organization_id
  lift (check_entitlements models)
  if is_model_allowed command.requested_model models
      then check_policy now command
      else raise (model_not_available command.requested_model)

-- The organization may use the model: it has no entitlements at all, or one for it.
abbrev pub IsEntitled : Database → EnforceOrganizationPolicyCommand → Type 0
IsEntitled d c =
    (entitled_models c.organization_id d.entitlements ≡ [])
    ⊎ (text_in c.requested_model (entitled_models c.organization_id d.entitlements) ≡ true)

-- The tokens that the organization has used in the month of `now`.
abbrev pub used_in_month : Database → DateTime → ℕ → ℕ
used_in_month d now organization_id =
    sum_tokens organization_id (micros (current_month_utc_bounds now).0)
      (micros (current_month_utc_bounds now).1) d.usage_records

-- The request's tokens are not negative and still fit below the limit, if there is one.
abbrev pub FitsLimit : Option ℕ → ℕ → ℤ → Type 0
FitsLimit none used more = Unit
FitsLimit (some limit) used (pos more) = used + more < limit
FitsLimit (some limit) used (negsuc more) = ⊥

-- The rows that an organization's policy is loaded from can be loaded, and the database answers.
pub record IsLoadable (d : Database) (organization_id : ℕ) : Type 0 where
  pub answers : d.faults ≡ []
  pub entitlements : check_entitlements (entitled_models organization_id d.entitlements) ≡ ok tt
  pub policy : post_init_policy (limit_of organization_id d.policies) ≡ ok tt

module _ (now : DateTime) (c : EnforceOrganizationPolicyCommand) (d : Database)
    (l : IsLoadable d c.organization_id) where
  pub enforce_loaded : enforce now c d ≡ (
      if is_model_allowed c.requested_model (entitled_models c.organization_id d.entitlements)
      then check_quota now c (limit_of c.organization_id d.policies) d
      else (err (model_not_available c.requested_model), d))
  unfolding enforce list_entitlements get_policy
  enforce_loaded =
      elim (Bool-cases
        (is_model_allowed c.requested_model (entitled_models c.organization_id d.entitlements))) [
          | inl listed ↦ simp (
            run_calm (λ e. (ok (entitled_models c.organization_id e.entitlements), e)) d l.answers,
            l.entitlements,
            listed,
            run_calm (λ e. (ok (limit_of c.organization_id e.policies), e)) d l.answers,
            l.policy,
          )
          | inr unlisted ↦ simp (
            run_calm (λ e. (ok (entitled_models c.organization_id e.entitlements), e)) d l.answers,
            l.entitlements,
            unlisted,
          )
        ]

  allowed_iff :
      (is_model_allowed c.requested_model (entitled_models c.organization_id d.entitlements) ≡ true)
      ↔ IsEntitled d c
  unfolding is_model_allowed
  allowed_iff = ground arith

  quota_iff :
      (limit : Option ℕ)
      → post_init_policy limit ≡ ok tt
      → ((check_quota now c limit d).0 ≡ ok tt)
        ↔ FitsLimit limit (used_in_month d now c.organization_id) (estimated c.max_output_tokens)
  unfolding post_init_policy would_exceed_monthly_quota sum_tokens_for_organization_in_period
  quota_iff none h = (λ e. tt, λ f. refl)
  quota_iff (some limit) h =
      rw
        (run_calm
          (λ e. (
            ok (
                sum_tokens c.organization_id (micros (current_month_utc_bounds now).0)
                  (micros (current_month_utc_bounds now).1) e.usage_records),
            e,
          ))
          d l.answers)
        (ground arith)

  -- A request is let through exactly when the organization is entitled to the model and the tokens
  -- used this month and those that the request may produce stay below the monthly limit. The
  -- organization's rows can be loaded, and the database answers.
  pub enforce_iff : ((enforce now c d).0 ≡ ok tt) ↔ (
      IsEntitled d c
      × FitsLimit
          (limit_of c.organization_id d.policies)
          (used_in_month d now c.organization_id)
          (estimated c.max_output_tokens))
  enforce_iff =
      let (allow, allowed) = allowed_iff in
      let (fit, fits) = quota_iff (limit_of c.organization_id d.policies) l.policy in
      elim (Bool-cases
        (is_model_allowed c.requested_model (entitled_models c.organization_id d.entitlements))) [
          | inl listed ↦ rw (enforce_loaded, listed) (λ e. (allow listed, fit e), λ e. fits e.1)
          | inr unlisted ↦
              rw (enforce_loaded, unlisted) (λ e. cc, λ e. absurd (apart unlisted (allowed e.0)))
        ]
    where
      apart : {b : Bool} → b ≡ false → b ≡ true → ⊥
      apart p q = cc
