-- ===== src/Database.antt =====
-- The tables that src/ai_runtime/infrastructure/db/repositories/*.py read and write for a response,
-- and how their statements fail. The list of faults says for each statement whether the database
-- answers; a failed statement changes nothing. Ids are numbers, and a stored time is its
-- microseconds.
pub mod Reads
use ai_runtime.Prelude.{
  ℕ, zero, ◌≡◌, ◌+◌, String, Bool, true, false, ◌&&◌, Option, none, some, List, [], ◌∷◌, leb, ltb,
  ◌==◌, str_eq, map, any, if◌then◌else◌,
}
use ai_runtime.Tenants.{Organization, ApiKey}
use ai_runtime.Errors.{Error, external_error, Result, ok, err}
use ai_runtime.Exec.{Exec, ◌>>=◌, ◌>>◌}

-- domain/usage.py; costs are counted in units of 0.00000001 USD.
pub record UsageRecord : Type 0 where
  pub id : ℕ
  pub request_id : String
  pub organization_id : ℕ
  pub api_key_id : ℕ
  pub provider : String
  pub model : String
  pub input_tokens : Option ℕ
  pub output_tokens : Option ℕ
  pub estimated_cost_usd : Option ℕ
  pub created_at : ℕ

-- domain/audit.py
pub record AuditEvent : Type 0 where
  pub id : ℕ
  pub action : String
  pub occurred_at : ℕ
  pub organization_id : Option ℕ
  pub actor_api_key_id : Option ℕ
  pub request_id : Option String
  pub resource_type : String
  pub resource_id : Option String
  pub metadata : List (String × String)

-- A row of `organization_model_entitlements` is an organization and a model, one of
-- `organization_policies` an organization and its `monthly_token_limit`.
pub record Database : Type 0 where
  pub usage_records : List UsageRecord
  pub audit_events : List AuditEvent
  pub entitlements : List (ℕ × String)
  pub policies : List (ℕ × Option ℕ)
  pub organizations : List Organization
  pub api_keys : List ApiKey
  pub faults : List Bool

module _ {A : Type 0} where
  abbrev pub answer : Bool → Exec Database A → Exec Database A
  answer true statement d = (err external_error, d)
  answer false statement d = statement d

  abbrev pub by_faults : List Bool → Exec Database A → Exec Database A
  by_faults [] statement d = statement d
  by_faults (f ∷ fs) statement d = answer f statement (record d { faults = fs })

  -- One statement.
  unfoldable pub run : Exec Database A → Exec Database A
  run statement d = by_faults d.faults statement d

  pub run_calm :
      (statement : Exec Database A) (d : Database) → d.faults ≡ [] → run statement d ≡ statement d
  unfolding run
  run_calm statement d calm = rw (calm, by_faults)

-- `list_entitlements`: the models of the organization's rows
unfoldable pub entitled_models : ℕ → List (ℕ × String) → List String
entitled_models organization_id [] = []
entitled_models organization_id ((o, model) ∷ rows) =
    let rest = entitled_models organization_id rows in
    if o == organization_id then model ∷ rest else rest

unfoldable pub list_entitlements : ℕ → Exec Database (List String)
list_entitlements organization_id =
    run (λ d. (ok (entitled_models organization_id d.entitlements), d))

-- `get_policy`: the limit of the organization's row, and no limit where it has none
unfoldable pub limit_of : ℕ → List (ℕ × Option ℕ) → Option ℕ
limit_of organization_id [] = none
limit_of organization_id ((o, limit) ∷ rows) =
    if o == organization_id then limit else limit_of organization_id rows

unfoldable pub get_policy : ℕ → Exec Database (Option ℕ)
get_policy organization_id = run (λ d. (ok (limit_of organization_id d.policies), d))

-- `func.coalesce(tokens, 0)`
abbrev pub or_zero : Option ℕ → ℕ
or_zero none = 0
or_zero (some n) = n

-- The `WHERE` of `sum_tokens_for_organization_in_period`.
abbrev pub counts_in : ℕ → ℕ → ℕ → UsageRecord → Bool
counts_in organization_id start end u =
    u.organization_id == organization_id && leb start u.created_at && ltb u.created_at end

unfoldable pub sum_tokens : ℕ → ℕ → ℕ → List UsageRecord → ℕ
sum_tokens organization_id start end [] = 0
sum_tokens organization_id start end (u ∷ us) =
    (if counts_in organization_id start end u
      then or_zero u.input_tokens + or_zero u.output_tokens
      else 0)
    + sum_tokens organization_id start end us

unfoldable pub sum_tokens_for_organization_in_period : ℕ → ℕ → ℕ → Exec Database ℕ
sum_tokens_for_organization_in_period organization_id start end =
    run (λ d. (ok (sum_tokens organization_id start end d.usage_records), d))

-- The insert of a usage record; its `request_id` is unique.
unfoldable pub insert_usage : UsageRecord → Exec Database (Unit {0})
insert_usage u d =
    if any (λ v. str_eq v.request_id u.request_id) d.usage_records
    then (err external_error, d)
    else (ok tt, record d { usage_records = u ∷ d.usage_records })

-- `session.refresh`, which can fail when the row is already committed
unfoldable pub refresh : Exec Database (Unit {0})
refresh = run (λ d. (ok tt, d))

-- `SqlAlchemyUsageRepository.add`
unfoldable pub add_usage : UsageRecord → Exec Database (Unit {0})
add_usage u = run (insert_usage u) >> refresh

-- `SqlAlchemyAuditRepository.add`
unfoldable pub add_audit : AuditEvent → Exec Database (Unit {0})
add_audit e = run (λ d. (ok tt, record d { audit_events = e ∷ d.audit_events })) >> refresh
