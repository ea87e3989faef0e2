-- ===== src/Gateway/Errors.antt =====
-- services/mcp-gateway/src/mcp_ops_mcp_gateway/errors.py. An exception is its class and its
-- message. Python's own exceptions, which no handler of the gateway catches, are `value_error` and
-- `key_error`.
use mcp_ai.Prelude.{String}

pub data ErrorClass : Type 0 where
  gateway_error authentication_failed unknown_tool disabled_tool non_executable_tool : ErrorClass
  permission_denied malformed_arguments service_unavailable approval_required : ErrorClass
  approval_not_found expired_approval duplicate_operation rate_limit_exceeded : ErrorClass
  approval_denied tool_timeout : ErrorClass

abbrev pub error_code : ErrorClass → String
error_code gateway_error = "gateway_error"
error_code authentication_failed = "unauthorized_user"
error_code unknown_tool = "unknown_tool"
error_code disabled_tool = "tool_disabled"
error_code non_executable_tool = "tool_not_executable"
error_code permission_denied = "permission_denied"
error_code malformed_arguments = "malformed_arguments"
error_code service_unavailable = "service_unavailable"
error_code approval_required = "approval_required"
error_code approval_not_found = "approval_not_found"
error_code expired_approval = "expired_approval"
error_code duplicate_operation = "duplicate_operation"
error_code rate_limit_exceeded = "rate_limit_exceeded"
error_code approval_denied = "approval_denied"
error_code tool_timeout = "timeout"

pub data Raised : Type 0 where
  raised : ErrorClass → String → Raised
  value_error : Raised
  key_error : Raised
