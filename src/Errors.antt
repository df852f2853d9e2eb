-- ===== src/Errors.antt =====
-- `HttpxErrorCode` and `DEFAULT_HTTP_EQUIVALENT` of src/errors.ts.
pub mod Conditions
pub mod Mapping
mod Tests
use xmpp_httpx.Prelude.{ℕ}

pub data ErrorCode : Type 0 where
  forbidden not_found unavailable timeout protocol_error : ErrorCode
  payload_too_large not_implemented aborted stream_error : ErrorCode

unfoldable pub default_http_equivalent : ErrorCode → ℕ
default_http_equivalent ErrorCode.forbidden = 403
default_http_equivalent ErrorCode.not_found = 404
default_http_equivalent ErrorCode.unavailable = 502
default_http_equivalent ErrorCode.timeout = 504
default_http_equivalent ErrorCode.protocol_error = 400
default_http_equivalent ErrorCode.payload_too_large = 413
default_http_equivalent ErrorCode.not_implemented = 501
default_http_equivalent ErrorCode.aborted = 499
default_http_equivalent ErrorCode.stream_error = 502
