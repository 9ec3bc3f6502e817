-- ===== src/Tenants/Repositories.antt =====
-- src/ai_runtime/infrastructure/db/repositories/api_key_repository.py and organization_repository.py.
-- A row that cannot be built as a domain object makes the load raise.
use ai_runtime.Prelude.{
  ℕ, String, Bool, Option, none, some, List, [], ◌∷◌, ◌==◌, str_eq, any, if◌then◌else◌,
}
use ai_runtime.Errors.{Error, lookup_error, external_error, Result, ok, err}
use ai_runtime.Errors
use ai_runtime.Exec.{Exec, pure, raise, lift, ◌>>=◌, ◌>>◌}
use ai_runtime.Tenants.{Organization, ApiKey, post_init_organization, post_init_api_key}
use ai_runtime.Database.{Database, run, refresh}

-- `session.get(ApiKeyRow, api_key_id)`
unfoldable pub key_of : ℕ → List ApiKey → Option ApiKey
key_of id [] = none
key_of id (k ∷ ks) = if k.id == id then some k else key_of id ks

unfoldable pub organization_of : ℕ → List Organization → Option Organization
organization_of id [] = none
organization_of id (o ∷ os) = if o.id == id then some o else organization_of id os

-- `_to_domain`
abbrev pub key_to_domain : ApiKey → Result ApiKey
key_to_domain k = Errors.◌>>◌ (post_init_api_key k) (ok k)

abbrev pub organization_to_domain : Organization → Result Organization
organization_to_domain o = Errors.◌>>◌ (post_init_organization o) (ok o)

-- The row, if there is one.
abbrev pub key_or_none : Option ApiKey → Result (Option ApiKey)
key_or_none none = ok none
key_or_none (some k) = Errors.◌>>=◌ (key_to_domain k) (λ k'. ok (some k'))

abbrev pub organization_or_none : Option Organization → Result (Option Organization)
organization_or_none none = ok none
organization_or_none (some o) = Errors.◌>>=◌ (organization_to_domain o) (λ o'. ok (some o'))

-- `[_to_domain(row) for row in …]`
unfoldable pub keys_to_domain : List ApiKey → Result (List ApiKey)
keys_to_domain [] = ok []
keys_to_domain (k ∷ ks) =
    Errors.◌>>=◌ (key_to_domain k) (λ k'. Errors.◌>>=◌ (keys_to_domain ks) (λ rest. ok (k' ∷ rest)))

-- The rows of a `WHERE`, in the order of the table.
unfoldable pub where_ : (ApiKey → Bool) → List ApiKey → List ApiKey
where_ test [] = []
where_ test (k ∷ ks) = let rest = where_ test ks in if test k then k ∷ rest else rest

-- `SqlAlchemyApiKeyRepository.get_by_id`
unfoldable pub get_key_by_id : ℕ → Exec Database (Option ApiKey)
get_key_by_id id = run (λ d. (ok (key_of id d.api_keys), d)) >>= λ o. lift (key_or_none o)

-- `SqlAlchemyApiKeyRepository.find_by_prefix`
unfoldable pub find_by_prefix : String → Exec Database (List ApiKey)
find_by_prefix prefix =
    run (λ d. (ok (where_ (λ k. str_eq k.prefix prefix) d.api_keys), d)) >>= λ rows.
    lift (keys_to_domain rows)

-- `SqlAlchemyOrganizationRepository.get_by_id`
unfoldable pub get_organization_by_id : ℕ → Exec Database (Option Organization)
get_organization_by_id id =
    run (λ d. (ok (organization_of id d.organizations), d)) >>= λ o. lift (organization_or_none o)

-- The insert of a key: its id is the primary key, its organization exists.
unfoldable pub insert_key : ApiKey → Exec Database (Unit {0})
insert_key k d =
    if any (λ j. j.id == k.id) d.api_keys
    then (err external_error, d)
    else if any (λ o. o.id == k.organization_id) d.organizations
    then (ok tt, record d { api_keys = k ∷ d.api_keys })
    else (err external_error, d)

-- `SqlAlchemyApiKeyRepository.add`
unfoldable pub add_key : ApiKey → Exec Database ApiKey
add_key k = run (insert_key k) >> (refresh >> lift (key_to_domain k))

-- The row of `k`, overwritten.
unfoldable pub replace_key : ApiKey → List ApiKey → List ApiKey
replace_key k [] = []
replace_key k (j ∷ js) = let rest = replace_key k js in if j.id == k.id then k ∷ rest else j ∷ rest

-- `row = await self._session.get(ApiKeyRow, …)` with the error for a missing row
abbrev pub require_row : Option ApiKey → Exec Database (Unit {0})
require_row none = raise lookup_error
require_row (some row) = pure tt

unfoldable pub load_row : ApiKey → Exec Database (Unit {0})
load_row k = run (λ d. (ok (key_of k.id d.api_keys), d)) >>= require_row

-- `SqlAlchemyApiKeyRepository.save`
unfoldable pub save_key : ApiKey → Exec Database ApiKey
save_key k =
    load_row k
    >> (run (λ d. (ok tt, record d { api_keys = replace_key k d.api_keys }))
        >> (refresh >> lift (key_to_domain k)))

-- One commit with both changes: neither is done where the insert fails.
unfoldable pub swap_keys : ApiKey → ApiKey → Exec Database (Unit {0})
swap_keys old new d =
    if any (λ j. j.id == new.id) d.api_keys
    then (err external_error, d)
    else if any (λ o. o.id == new.organization_id) d.organizations
    then (ok tt, record d { api_keys = new ∷ replace_key old d.api_keys })
    else (err external_error, d)

-- `SqlAlchemyApiKeyRepository.revoke_and_add`
unfoldable pub revoke_and_add : ApiKey → ApiKey → Exec Database ApiKey
revoke_and_add old new =
    load_row old >> (run (swap_keys old new) >> (refresh >> lift (key_to_domain new)))
