-- ===== src/Audit.antt =====
-- src/ai_runtime/domain/audit.py: what an audit event may carry.
use ai_runtime.Prelude.{String, List, [], ◌∷◌, text_in}
use ai_runtime.Errors.{domain_validation, Result, ok, ◌>>◌, raise_if}
use ai_runtime.Generation.{is_blank, require_non_blank}
use ai_runtime.Usage.{lower}
use ai_runtime.Database.{AuditEvent}

-- `_FORBIDDEN_METADATA_KEYS`
abbrev pub forbidden_metadata_keys : List String
forbidden_metadata_keys =
    "authorization" ∷ "content" ∷ "messages" ∷ "password" ∷ "prompt" ∷ "secret" ∷ "token" ∷ []

-- The loop over the metadata; every value is a text.
unfoldable pub check_metadata : List (String × String) → Result (Unit {0})
check_metadata [] = ok tt
check_metadata ((key, value) ∷ rest) = do
  require_non_blank key "metadata key"
  raise_if (text_in (lower key) forbidden_metadata_keys)
      (domain_validation "metadata key is not allowed")
  raise_if (is_blank value) (domain_validation "metadata values must not be blank")
  check_metadata rest

-- `AuditEvent.__post_init__`; times are aware by their type.
unfoldable pub post_init_audit_event : AuditEvent → Result (Unit {0})
post_init_audit_event e = do
  require_non_blank e.action "action"
  require_non_blank e.resource_type "resource_type"
  check_metadata e.metadata
