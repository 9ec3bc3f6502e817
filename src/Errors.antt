-- ===== src/Errors.antt =====
-- The exceptions of src/ai_runtime/domain/*.py, application/routing/model_router.py and
-- providers/errors.py as one type, and the result of code that may raise them.
use ai_runtime.Prelude.{
  ℕ, String, ◌≡◌, refl, Bool, true, false, Option, none, some, ◌||◌, ◌==◌, ◌⊎◌, inl, inr,
}

-- `ProviderError`: `str(err)`, `err.retryable`, `err.status_code`.
pub record ProviderError : Type 0 where
  pub message : String
  pub retryable : Bool
  pub status_code : Option ℕ

-- `is_retryable_http_status`, the members of `RETRYABLE_HTTP_STATUS_CODES` tested one by one
pub is_retryable_http_status : ℕ → Bool
is_retryable_http_status c = c == 429 || c == 500 || c == 502 || c == 503 || c == 504

-- `ProviderError.from_http_status`
pub from_http_status : String → ℕ → ProviderError
from_http_status message c = record {
  message = message;
  retryable = is_retryable_http_status c;
  status_code = some c;
}

-- `ProviderError.transient`
unfoldable pub transient : String → ProviderError
transient message = record { message = message; retryable = true; status_code = none }

pub data Error : Type 0 where
  domain_validation : String → Error
  unsupported_model : String → Error
  provider_not_registered : String → Error
  provider_error : ProviderError → Error
  model_not_available : String → Error
  quota_exceeded : ℕ → Error
  rate_limit_exceeded : ℕ → Error
  idempotency_conflict : Error
  context_limit_exceeded : Error
  organization_not_found : Error
  organization_slug_conflict : String → Error
  organization_suspended : Error
  api_key_not_found : Error
  api_key_already_revoked : ℕ → Error
  invalid_api_key_credentials : Error
  prompt_not_found : String → Option ℕ → Error
  prompt_version_conflict : Error
  mcp_server_not_found : String → Error
  mcp_server_name_conflict : String → Error
  mcp_error : String → Error
  lookup_error : Error
  -- What the database driver, the JSON decoder or another library raises.
  external_error : Error

-- `except ProviderError as err`
abbrev pub provider_error_of : Error → Option ProviderError
provider_error_of (provider_error e) = some e
provider_error_of _ = none

pub data Result {ℓ} (Value : Type ℓ) : Type ℓ where
  -- `raise error`
  err : Error → Result Value
  -- `return value`
  ok : Value → Result Value

-- `if test: raise error`
abbrev pub raise_if : Bool → Error → Result (Unit {0})
raise_if false error = ok tt
raise_if true error = err error

module _ {ℓ κ} {V : Type ℓ} {W : Type κ} where
  infixl 5 ◌>>=◌
  -- What comes after a call that may raise.
  abbrev pub ◌>>=◌ : Result V → (V → Result W) → Result W
  err error >>= next = err error
  ok value >>= next = next value

  -- A chain that returned, taken apart.
  pub >>=-eq-ok :
      (call : Result V) (next : V → Result W) {w : W}
      → (call >>= next) ≡ ok w
      → (v : V) × (call ≡ ok v) × (next v ≡ ok w)
  >>=-eq-ok (err error) next h = cc
  >>=-eq-ok (ok value) next h = (value, refl, h)

infixl 5 ◌>>◌
abbrev pub ◌>>◌ {κ} : {W : Type κ} → Result (Unit {0}) → Result W → Result W
check >> rest = check >>= λ _. rest

-- A result is a value or an error.
pub Result-cases {ℓ} :
    {V : Type ℓ} (r : Result V)
    → ((value : V) × (r ≡ ok value)) ⊎ ((error : Error) × (r ≡ err error))
Result-cases (err error) = inr (error, refl)
Result-cases (ok value) = inl (value, refl)
