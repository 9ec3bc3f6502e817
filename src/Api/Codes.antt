-- ===== src/Api/Codes.antt =====
-- `ErrorCode` of src/ai_runtime/api/errors.py.
use ai_runtime.Prelude.{String}

pub data ErrorCode : Type 0 where
  invalid_request unauthorized forbidden rate_limited quota_exceeded model_not_available : ErrorCode
  unsupported_model conflict prompt_not_found mcp_server_not_found mcp_error : ErrorCode
  organization_not_found api_key_not_found context_length_exceeded provider_error : ErrorCode
  internal_error : ErrorCode

-- `code.value`
unfoldable pub code_value : ErrorCode → String
code_value ErrorCode.invalid_request = "invalid_request"
code_value ErrorCode.unauthorized = "unauthorized"
code_value ErrorCode.forbidden = "forbidden"
code_value ErrorCode.rate_limited = "rate_limited"
code_value ErrorCode.quota_exceeded = "quota_exceeded"
code_value ErrorCode.model_not_available = "model_not_available"
code_value ErrorCode.unsupported_model = "unsupported_model"
code_value ErrorCode.conflict = "conflict"
code_value ErrorCode.prompt_not_found = "prompt_not_found"
code_value ErrorCode.mcp_server_not_found = "mcp_server_not_found"
code_value ErrorCode.mcp_error = "mcp_error"
code_value ErrorCode.organization_not_found = "organization_not_found"
code_value ErrorCode.api_key_not_found = "api_key_not_found"
code_value ErrorCode.context_length_exceeded = "context_length_exceeded"
code_value ErrorCode.provider_error = "provider_error"
code_value ErrorCode.internal_error = "internal_error"
