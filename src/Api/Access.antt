-- ===== src/Api/Access.antt =====
-- The access checks of src/ai_runtime/api/dependencies.py: the bearer token of a request, the
-- authenticated principal, and the operator of the platform.
use Prim.Native.Char.{Char, code}
use ai_runtime.Prelude.{
  ℕ, ◌≢◌, String, ◌≡◌, refl, ap, ◌↔◌, Bool, true, false, not, ◌&&◌, ◌||◌, ◌==◌, Option, none, some,
  [], ltb, strip, str_eq, eq_iff, eq_refl, Bool-cases, inl, inr, if◌then◌else◌,
}
use ai_runtime.Errors.{
  Error, invalid_api_key_credentials, organization_suspended, external_error, Result, ok, err,
}
use ai_runtime.Generation.{is_blank}
use ai_runtime.Usage.{lower}
use ai_runtime.Database.{Database}
use ai_runtime.Tenants.Credentials.{Services}
use ai_runtime.Tenants.Authentication.{AuthenticatedPrincipal, authenticate}
use ai_runtime.Api.Codes.{ErrorCode}
use ai_runtime.Api.Errors.{ApiError, Failure, api}

-- What a dependency returns, or raises.
pub data Access (Value : Type 0) : Type 0 where
  granted : Value → Access Value
  refused : Failure → Access Value

abbrev pub denied : ErrorCode → String → ℕ → ApiError
denied code message status_code = record {
  code = code;
  message = message;
  status_code = status_code;
  headers = [];
}

abbrev pub unauthorized_error : String → ApiError
unauthorized_error message = denied ErrorCode.unauthorized message 401

abbrev before : Char → String × String → String × String
before c (scheme, credentials) = (String.◌∷◌ c scheme, credentials)

-- `authorization.partition(" ")`, without the separator
unfoldable pub partition_space : String → String × String
partition_space String.[] = ("", "")
partition_space (String.◌∷◌ c s) =
    let rest = partition_space s in if code c == 32 then ("", s) else before c rest

abbrev from_parts : String → String × String → Access String
from_parts unauthorized_message (scheme, credentials) =
    if not (str_eq (lower scheme) "bearer") || is_blank credentials
    then refused (api (unauthorized_error unauthorized_message))
    else granted (strip credentials)

-- `_extract_bearer_credentials`
unfoldable pub extract_bearer_credentials : Option String → String → Access String
extract_bearer_credentials none unauthorized_message =
    refused (api (unauthorized_error unauthorized_message))
extract_bearer_credentials (some authorization) unauthorized_message =
    if is_blank authorization
    then refused (api (unauthorized_error unauthorized_message))
    else from_parts unauthorized_message (partition_space authorization)

-- `extract_bearer_token`
unfoldable pub extract_bearer_token : Option String → Access String
extract_bearer_token authorization =
    extract_bearer_credentials authorization "Invalid or missing API key."

-- `extract_operator_bearer_token`
unfoldable pub extract_operator_bearer_token : Option String → Access String
extract_operator_bearer_token authorization =
    extract_bearer_credentials authorization "Invalid or missing operator credentials."

-- The `except` clauses of `get_authenticated_principal`.
abbrev principal_or_refusal : Result AuthenticatedPrincipal → Access AuthenticatedPrincipal
principal_or_refusal (ok principal) = granted principal
principal_or_refusal (err invalid_api_key_credentials) =
    refused (api (unauthorized_error "Invalid or missing API key."))
principal_or_refusal (err organization_suspended) =
    refused (api (denied ErrorCode.forbidden "Organization is suspended." 403))
principal_or_refusal (err e) = refused (Failure.raised e)

abbrev authenticated :
    Services → Access String → Database → Access AuthenticatedPrincipal × Database
authenticated sv (refused f) d = (refused f, d)
authenticated sv (granted secret) d =
    let (r, d') = authenticate sv secret d in (principal_or_refusal r, d')

-- `get_authenticated_principal`
unfoldable pub get_authenticated_principal :
    Services → Option String → Database → Access AuthenticatedPrincipal × Database
get_authenticated_principal sv authorization d =
    authenticated sv (extract_bearer_token authorization) d

-- `text.isascii()`
unfoldable pub is_ascii : String → Bool
is_ascii String.[] = true
is_ascii (String.◌∷◌ c s) = ltb (code c) 128 && is_ascii s

-- `secrets.compare_digest(a, b)`, which raises a `TypeError` for a text that is not ASCII
unfoldable pub compare_digest : String → String → Result Bool
compare_digest a b = if is_ascii a && is_ascii b then ok (str_eq a b) else err external_error

abbrev restricted : ApiError
restricted = denied ErrorCode.forbidden "This endpoint is restricted to platform operators." 403

abbrev operator_refusal : Error → Failure
operator_refusal organization_suspended = api restricted
operator_refusal invalid_api_key_credentials =
    api (unauthorized_error "Invalid or missing operator credentials.")
operator_refusal e = Failure.raised e

-- Whoever is not the operator: the outcome of the authentication decides between 401 and 403.
abbrev not_operator : Result AuthenticatedPrincipal → Access (Unit {0})
not_operator (ok principal) = refused (api restricted)
not_operator (err e) = refused (operator_refusal e)

module _ (sv : Services) where
  abbrev after_compare : String → Result Bool → Database → Access (Unit {0}) × Database
  after_compare secret (err e) d = (refused (Failure.raised e), d)
  after_compare secret (ok true) d = (granted tt, d)
  after_compare secret (ok false) d = let (r, d') = authenticate sv secret d in (not_operator r, d')

  abbrev check_secret : String → Access String → Database → Access (Unit {0}) × Database
  check_secret configured (refused f) d = (refused f, d)
  check_secret configured (granted secret) d =
      after_compare secret (compare_digest secret configured) d

  -- `require_operator`
  unfoldable pub require_operator : String → Option String → Database → Access (Unit {0}) × Database
  require_operator operator_token authorization d =
      if is_blank operator_token
      then (
        refused (api (denied ErrorCode.provider_error "Operator API is not configured." 503)),
        d,
      )
      else check_secret (strip operator_token) (extract_operator_bearer_token authorization) d

-- The request carries the operator's token, and one is configured.
pub record IsOperator (operator_token : String) (authorization : Option String) : Type 0 where
  pub configured : is_blank operator_token ≡ false
  pub carried : extract_operator_bearer_token authorization ≡ granted (strip operator_token)
  pub ascii : is_ascii (strip operator_token) ≡ true

module _ (sv : Services) where
  compare_digest-same : (t : String) → is_ascii t ≡ true → compare_digest t t ≡ ok true
  unfolding compare_digest
  compare_digest-same t h = rw (h, eq_refl t) refl

  not_operator-refuses : (r : Result AuthenticatedPrincipal) → not_operator r ≢ granted tt
  not_operator-refuses (ok p) e = cc
  not_operator-refuses (err error) e = cc

  after_compare-granted :
      (secret configured : String) (d : Database)
      → (after_compare sv secret (compare_digest secret configured) d).0 ≡ granted tt
      → (secret ≡ configured) × (is_ascii configured ≡ true)
  unfolding compare_digest
  after_compare-granted secret configured d =
      go (is_ascii secret) (is_ascii configured) (str_eq secret configured) refl refl
    where
      go :
          (a b same : Bool)
          → is_ascii configured ≡ b
          → str_eq secret configured ≡ same
          → (after_compare sv secret (if a && b then ok same else err external_error) d).0
            ≡ granted tt
          → (secret ≡ configured) × (is_ascii configured ≡ true)
      go true true true b s h = ((eq_iff secret configured).0 s, b)
      go true true false b s h = absurd (not_operator-refuses (authenticate sv secret d).0 h)
      go true false same b s h = cc
      go false b' same b s h = cc

  check_secret-granted :
      (configured : String) (a : Access String) (d : Database)
      → (check_secret sv configured a d).0 ≡ granted tt
      → (a ≡ granted configured) × (is_ascii configured ≡ true)
  check_secret-granted configured (refused f) d h = cc
  check_secret-granted configured (granted secret) d h =
      let (same, ascii) = after_compare-granted secret configured d h in (ap granted same, ascii)

  -- The operator's routes are open to exactly the requests whose bearer token is the configured
  -- operator token, without the blanks around it, where one is configured and it is ASCII.
  pub require_operator_iff :
      (operator_token : String) (authorization : Option String) (d : Database)
      → ((require_operator sv operator_token authorization d).0 ≡ granted tt)
        ↔ IsOperator operator_token authorization
  unfolding require_operator
  require_operator_iff operator_token authorization d = (enters, admitted)
    where
      enters :
          (require_operator sv operator_token authorization d).0 ≡ granted tt
          → IsOperator operator_token authorization
      enters = elim (Bool-cases (is_blank operator_token)) [
        | inl none_set ↦ rw none_set (λ h. cc)
        | inr set ↦ rw set (λ h.
            let (carried, ascii) =
              check_secret-granted (strip operator_token)
                (extract_operator_bearer_token authorization) d h in
            record { configured = set; carried = carried; ascii = ascii })
      ]

      admitted :
          IsOperator operator_token authorization
          → (require_operator sv operator_token authorization d).0 ≡ granted tt
      admitted o =
          rw (o.configured, o.carried, compare_digest-same (strip operator_token) o.ascii) refl
