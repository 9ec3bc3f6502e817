-- ===== src/Examples/Tenants.antt =====
-- The theorem on authentication at a concrete input.
use Prim.Native.String.{◌++◌}
use ai_runtime.Prelude.{◌≡◌, refl, none, [], ◌∷◌, str_eq, strip, strip_prefix?, ◌↔◌, some}
use ai_runtime.Errors.{ok}
use ai_runtime.Generation.{is_blank, require_non_blank}
use ai_runtime.Tenants.{
  Organization, OrganizationStatus, ApiKey, ApiKeyStatus, post_init_api_key, post_init_organization,
  require_valid_slug, all_slug_chars, is_slug_char,
}
use ai_runtime.Database.{Database, run}
use ai_runtime.Tenants.Repositories.{
  find_by_prefix, where_, keys_to_domain, get_organization_by_id, organization_of,
}
use ai_runtime.Api.Access.{granted, require_operator, IsOperator, require_operator_iff}
use ai_runtime.Tenants.Credentials.{Services, take_text}
use ai_runtime.Tenants.Authentication.{
  AuthenticatedPrincipal, authenticate, look_up, is_malformed, first_match, LetIn,
  authenticate_sound,
}
use ai_runtime.Examples.Domain.{tables}

abbrev acme : Organization
acme = record {
  id = 1;
  name = "Acme";
  slug = "acme-1";
  status = OrganizationStatus.active;
  created_at = 10;
  updated_at = 10;
}

abbrev key : ApiKey
key = record {
  id = 9;
  organization_id = 1;
  name = none;
  prefix = "airt_abcdefgh";
  secret_hash = "#airt_abcdefghij";
  status = ApiKeyStatus.active;
  created_at = 20;
  revoked_at = none;
  updated_at = 20;
}

abbrev services : Services
services = record {
  token = "abcdefghij";
  hash = λ s. "#" ++ s;
  verify = λ s h. str_eq ("#" ++ s) h;
  now = 30;
  key_id = 11;
  event_id = 12;
  show_id = λ n. "id";
}

abbrev principal : AuthenticatedPrincipal
principal = record {
  api_key_id = 9;
  organization_id = 1;
  organization_slug = "acme-1";
  api_key_prefix = "airt_abcdefgh";
}

abbrev stocked : Database
stocked = record tables { organizations = acme ∷ []; api_keys = key ∷ [] }

let_in : (authenticate services "airt_abcdefghij" stocked).0 ≡ ok principal
unfolding authenticate look_up is_malformed first_match find_by_prefix where_ keys_to_domain
    get_organization_by_id organization_of run take_text post_init_api_key post_init_organization
    require_valid_slug all_slug_chars is_slug_char require_non_blank is_blank strip strip_prefix?
let_in = refl

authenticate_sound_example : LetIn services "airt_abcdefghij" stocked principal
authenticate_sound_example = authenticate_sound services "airt_abcdefghij" stocked principal let_in

require_operator_iff_example :
    ((require_operator services " op " (some "Bearer op") stocked).0 ≡ granted tt)
    ↔ IsOperator " op " (some "Bearer op")
require_operator_iff_example = require_operator_iff services " op " (some "Bearer op") stocked
