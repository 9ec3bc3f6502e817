-- ===== src/Database/Reads.antt =====
-- The statements that only read: they leave the usage records and the audit events as they are.
use ai_runtime.Prelude.{ℕ, ◌≡◌, refl, Bool, true, false, List, [], ◌∷◌}
use ai_runtime.Tenants.{Organization, ApiKey}
use ai_runtime.Errors.{Result, ok}
use ai_runtime.Exec.{Exec}
use ai_runtime.Exec.Keeps.{Keeps, bind-Keeps}
use ai_runtime.Database.{
  Database, UsageRecord, AuditEvent, run, answer, by_faults, list_entitlements, get_policy,
  sum_tokens_for_organization_in_period, add_audit, refresh,
}

module _ (us : List UsageRecord) where
  -- The usage records are these.
  abbrev pub Records : Database → Type 0
  Records d = d.usage_records ≡ us

  module _ {A : Type 0} (statement : Exec Database A) (k : Keeps Records statement) where
    answer-Records : (f : Bool) → Keeps Records (answer f statement)
    answer-Records true d h = h
    answer-Records false d h = k d h

    by_faults-Records : (fs : List Bool) → Keeps Records (by_faults fs statement)
    by_faults-Records [] d h = k d h
    by_faults-Records (f ∷ fs) d h = answer-Records f (record d { faults = fs }) h

    pub run-Records : Keeps Records (run statement)
    unfolding run
    run-Records d h = by_faults-Records d.faults d h

  pub list_entitlements-Records : (o : ℕ) → Keeps Records (list_entitlements o)
  unfolding list_entitlements
  list_entitlements-Records o = run-Records _ (λ d h. h)

  pub get_policy-Records : (o : ℕ) → Keeps Records (get_policy o)
  unfolding get_policy
  get_policy-Records o = run-Records _ (λ d h. h)

  pub sum_tokens-Records :
      (o start end : ℕ) → Keeps Records (sum_tokens_for_organization_in_period o start end)
  unfolding sum_tokens_for_organization_in_period
  sum_tokens-Records o start end = run-Records _ (λ d h. h)

  pub refresh-Records : Keeps Records refresh
  unfolding refresh
  refresh-Records = run-Records _ (λ d h. h)

  pub add_audit-Records : (e : AuditEvent) → Keeps Records (add_audit e)
  unfolding add_audit
  add_audit-Records e =
      bind-Keeps Records {A = Unit {0}} {B = Unit {0}}
        (run (λ d. (ok tt, record d { audit_events = e ∷ d.audit_events }))) (λ _. refresh)
        (run-Records _ (λ d h. h)) (λ _. refresh-Records)

-- A read of the tenants' tables: what it gives, and that it leaves them.
module _ {A : Type 0} (g : List ApiKey → List Organization → A) where
  abbrev query : Exec Database A
  query d = (ok (g d.api_keys d.organizations), d)

  abbrev Reads : Database → Result A × Database → Type 0
  Reads d o =
      (o.1.api_keys ≡ d.api_keys)
      × (o.1.organizations ≡ d.organizations)
      × ((a : A) → o.0 ≡ ok a → a ≡ g d.api_keys d.organizations)

  answer-Reads : (f : Bool) (d : Database) → Reads d (answer f query d)
  answer-Reads true d = (refl, refl, λ a h. cc)
  answer-Reads false d = (refl, refl, λ a h. cc)

  by_faults-Reads : (fs : List Bool) (d : Database) → Reads d (by_faults fs query d)
  by_faults-Reads [] d = (refl, refl, λ a h. cc)
  by_faults-Reads (f ∷ fs) d = answer-Reads f (record d { faults = fs })

  pub run-Reads :
      (d : Database)
      → ((run query d).1.api_keys ≡ d.api_keys)
        × ((run query d).1.organizations ≡ d.organizations)
        × ((a : A) → (run query d).0 ≡ ok a → a ≡ g d.api_keys d.organizations)
  unfolding run
  run-Reads d = by_faults-Reads d.faults d
