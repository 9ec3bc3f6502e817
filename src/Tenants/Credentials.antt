-- ===== src/Tenants/Credentials.antt =====
-- The use cases of src/ai_runtime/application/api_keys/, and infrastructure/security/api_key_crypto.py
-- with argon2 and the random source as parameters.
use Prim.Native.String.{◌++◌}
use ai_runtime.Prelude.{ℕ, zero, suc, String, Bool, Option, none, some, List, [], ◌∷◌}
use ai_runtime.Errors.{api_key_not_found, organization_not_found}
use ai_runtime.Exec.{Exec, pure, lift, or_raise, ◌>>=◌, ◌>>◌}
use ai_runtime.Audit.{post_init_audit_event}
use ai_runtime.Tenants.{
  ApiKey, ApiKeyStatus, ApiKeyMetadata, post_init_api_key, to_metadata, revoke,
}
use ai_runtime.Database.{Database, AuditEvent, add_audit}
use ai_runtime.Tenants.Repositories.{
  get_organization_by_id, get_key_by_id, add_key, save_key, revoke_and_add,
}

-- `text[:n]`
unfoldable pub take_text : ℕ → String → String
take_text zero s = ""
take_text (suc n) String.[] = ""
take_text (suc n) (String.◌∷◌ c s) = String.◌∷◌ c (take_text n s)

-- `derive_lookup_prefix`: "airt_" and eight characters
abbrev pub derive_lookup_prefix : String → String
derive_lookup_prefix secret = take_text 13 secret

-- What a use case takes from outside: the token that `secrets.token_urlsafe` gives, argon2, the
-- clock, the ids that `uuid4` gives and how an id is written.
pub record Services : Type 0 where
  pub token : String
  pub hash : String → String
  pub verify : String → String → Bool
  pub now : ℕ
  pub key_id : ℕ
  pub event_id : ℕ
  pub show_id : ℕ → String

pub record CreateApiKeyCommand : Type 0 where
  pub organization_id : ℕ
  pub name : Option String

pub record CreateApiKeyResult : Type 0 where
  pub api_key : ApiKeyMetadata
  pub secret : String

module _ (sv : Services) where
  -- `generate_secret`
  abbrev pub secret : String
  secret = "airt_" ++ sv.token

  -- The key that a secret is kept as.
  abbrev pub fresh_key : ℕ → Option String → ApiKey
  fresh_key organization_id name = record {
    id = sv.key_id;
    organization_id = organization_id;
    name = name;
    prefix = derive_lookup_prefix secret;
    secret_hash = sv.hash secret;
    status = ApiKeyStatus.active;
    created_at = sv.now;
    revoked_at = none;
    updated_at = sv.now;
  }

  abbrev pub key_event : String → ApiKey → List (String × String) → AuditEvent
  key_event action stored metadata = record {
    id = sv.event_id;
    action = action;
    occurred_at = sv.now;
    organization_id = some stored.organization_id;
    actor_api_key_id = none;
    request_id = none;
    resource_type = "api_key";
    resource_id = some (sv.show_id stored.id);
    metadata = metadata;
  }

  -- `await self._audit_events.add(AuditEvent(…))`
  unfoldable pub audited : String → ApiKey → List (String × String) → Exec Database (Unit {0})
  audited action stored metadata =
      lift (post_init_audit_event (key_event action stored metadata))
      >> add_audit (key_event action stored metadata)

  -- `CreateApiKey.execute`
  unfoldable pub create_api_key : CreateApiKeyCommand → Exec Database CreateApiKeyResult
  create_api_key command = do
    found ← get_organization_by_id command.organization_id
    organization ← or_raise found organization_not_found
    lift (post_init_api_key (fresh_key command.organization_id command.name))
    stored ← add_key (fresh_key command.organization_id command.name)
    audited "api_key.created" stored (("prefix", stored.prefix) ∷ [])
    pure (record { api_key = to_metadata stored; secret = secret })

  -- `RevokeApiKey.execute`
  unfoldable pub revoke_api_key : ℕ → Exec Database ApiKeyMetadata
  revoke_api_key api_key_id = do
    found ← get_key_by_id api_key_id
    api_key ← or_raise found api_key_not_found
    changed ← lift (revoke api_key sv.now)
    stored ← save_key changed
    audited "api_key.revoked" stored (("prefix", stored.prefix) ∷ [])
    pure (to_metadata stored)

  -- `RotateApiKey.execute`
  unfoldable pub rotate_api_key : ℕ → Exec Database CreateApiKeyResult
  rotate_api_key api_key_id = do
    found ← get_key_by_id api_key_id
    api_key ← or_raise found api_key_not_found
    changed ← lift (revoke api_key sv.now)
    lift (post_init_api_key (fresh_key api_key.organization_id api_key.name))
    stored ← revoke_and_add changed (fresh_key api_key.organization_id api_key.name)
    audited "api_key.rotated" stored
        (("previous_key_id", sv.show_id api_key_id) ∷ ("prefix", stored.prefix) ∷ [])
    pure (record { api_key = to_metadata stored; secret = secret })
