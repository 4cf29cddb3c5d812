-- ===== src/Errors.antt =====
-- provider/errors.go: the error taxonomy and Retry. (RetryBudget is in RateLimit/Retry.)
pub mod Codes
pub mod Classify
pub mod Retry
mod Tests
use switch.Prelude.{ℕ, String, Bool, true, false}

pub data ErrorKind : Type 0 where
  unknown auth rate_limit timeout server_error bad_request network : ErrorKind
  circuit_open no_providers provider_not_found : ErrorKind
  context_window content_policy permission model_not_found : ErrorKind

unfoldable pub code : ErrorKind → String
code auth = "AUTH_FAILED"
code rate_limit = "RATE_LIMITED"
code timeout = "UPSTREAM_TIMEOUT"
code server_error = "UPSTREAM_5XX"
code bad_request = "BAD_REQUEST"
code network = "NETWORK_ERROR"
code circuit_open = "CIRCUIT_OPEN"
code no_providers = "NO_PROVIDER"
code provider_not_found = "PROVIDER_NOT_FOUND"
code context_window = "CONTEXT_WINDOW_EXCEEDED"
code content_policy = "CONTENT_POLICY_VIOLATION"
code permission = "PERMISSION_DENIED"
code model_not_found = "MODEL_NOT_FOUND"
code unknown = "UNKNOWN_ERROR"

unfoldable pub retryable : ErrorKind → Bool
retryable server_error = true
retryable network = true
retryable timeout = true
retryable rate_limit = true
retryable unknown = false
retryable auth = false
retryable bad_request = false
retryable circuit_open = false
retryable no_providers = false
retryable provider_not_found = false
retryable context_window = false
retryable content_policy = false
retryable permission = false
retryable model_not_found = false

unfoldable pub http_status : ErrorKind → ℕ
http_status auth = 401
http_status rate_limit = 429
http_status timeout = 504
http_status server_error = 502
http_status bad_request = 400
http_status network = 503
http_status circuit_open = 503
http_status no_providers = 404
http_status provider_not_found = 404
http_status context_window = 413
http_status content_policy = 422
http_status permission = 403
http_status model_not_found = 404
http_status unknown = 500
