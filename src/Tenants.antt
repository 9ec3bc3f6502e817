-- ===== src/Tenants.antt =====
-- src/ai_runtime/domain/organization.py and domain/api_key.py: the tenants and their credentials. A
-- stored time is its microseconds, aware by its type.
pub mod Repositories
pub mod Credentials
pub mod Authentication
pub mod Organizations
use Prim.Native.Char.{Char, code}
use ai_runtime.Prelude.{
  ℕ, String, Bool, true, false, not, ◌&&◌, ◌||◌, Option, none, some, leb, ◌==◌, if◌then◌else◌,
}
use ai_runtime.Errors.{
  Error, domain_validation, api_key_already_revoked, Result, ok, err, ◌>>=◌, ◌>>◌, raise_if,
}
use ai_runtime.Generation.{require_non_blank, is_some}

-- `OrganizationStatus` and `ApiKeyStatus`, with ACTIVE in common.
pub data OrganizationStatus : Type 0 where
  active suspended : OrganizationStatus

pub data ApiKeyStatus : Type 0 where
  active revoked : ApiKeyStatus

pub record Organization : Type 0 where
  pub id : ℕ
  pub name : String
  pub slug : String
  pub status : OrganizationStatus
  pub created_at : ℕ
  pub updated_at : ℕ

-- A character of `[a-z0-9-]`.
unfoldable pub is_slug_char : ℕ → Bool
is_slug_char c = (leb 97 c && leb c 122) || (leb 48 c && leb c 57) || c == 45

-- `_SLUG_PATTERN.fullmatch(slug)`, but for the length
unfoldable pub all_slug_chars : String → Bool
all_slug_chars String.[] = true
all_slug_chars (String.◌∷◌ c s) = is_slug_char (code c) && all_slug_chars s

-- `_require_valid_slug`; a blank slug is rejected first.
unfoldable pub require_valid_slug : String → Result (Unit {0})
require_valid_slug slug = do
  require_non_blank slug "slug"
  raise_if (not (all_slug_chars slug))
      (domain_validation "slug must contain only lowercase letters, digits, and hyphens")

unfoldable pub post_init_organization : Organization → Result (Unit {0})
post_init_organization o = do require_non_blank o.name "name"; require_valid_slug o.slug

pub record ApiKey : Type 0 where
  pub id : ℕ
  pub organization_id : ℕ
  pub name : Option String
  pub prefix : String
  pub secret_hash : String
  pub status : ApiKeyStatus
  pub created_at : ℕ
  pub revoked_at : Option ℕ
  pub updated_at : ℕ

abbrev pub is_active : ApiKeyStatus → Bool
is_active ApiKeyStatus.active = true
is_active revoked = false

abbrev name_or_ok : Option String → Result (Unit {0})
name_or_ok none = ok tt
name_or_ok (some name) = require_non_blank name "name"

unfoldable pub post_init_api_key : ApiKey → Result (Unit {0})
post_init_api_key k = do
  name_or_ok k.name
  require_non_blank k.prefix "prefix"
  require_non_blank k.secret_hash "secret_hash"
  raise_if (not (is_active k.status) && not (is_some k.revoked_at))
      (domain_validation "revoked keys must have revoked_at set")
  raise_if (is_active k.status && is_some k.revoked_at)
      (domain_validation "active keys must not have revoked_at set")

-- `ApiKeyMetadata`
pub record ApiKeyMetadata : Type 0 where
  pub id : ℕ
  pub organization_id : ℕ
  pub name : Option String
  pub prefix : String
  pub status : ApiKeyStatus
  pub created_at : ℕ
  pub revoked_at : Option ℕ
  pub updated_at : ℕ

-- `ApiKey.to_metadata`
abbrev pub to_metadata : ApiKey → ApiKeyMetadata
to_metadata k = record {
  id = k.id;
  organization_id = k.organization_id;
  name = k.name;
  prefix = k.prefix;
  status = k.status;
  created_at = k.created_at;
  revoked_at = k.revoked_at;
  updated_at = k.updated_at;
}

abbrev pub revoke_if : Bool → ApiKey → ℕ → Result ApiKey
revoke_if false k at = err (api_key_already_revoked k.id)
revoke_if true k at =
    let changed : ApiKey = record k { status = revoked; revoked_at = some at; updated_at = at } in
    post_init_api_key changed >> ok changed

-- `ApiKey.revoke`
unfoldable pub revoke : ApiKey → ℕ → Result ApiKey
revoke k at = revoke_if (is_active k.status) k at
