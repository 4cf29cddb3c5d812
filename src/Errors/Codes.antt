-- ===== src/Errors/Codes.antt =====
-- provider/errors.go: the stable codes, by which a client looks an error up.
use switch.Prelude.{String, ◌≡◌, refl, sym, ap, ◌∙◌, str_eq, if◌then◌else◌}
use switch.Errors.{
  ErrorKind, code, unknown, auth, rate_limit, timeout, server_error, bad_request, network,
  circuit_open, no_providers, provider_not_found, context_window, content_policy, permission,
  model_not_found,
}

-- The kind that a code stands for.
kind_of_code : String → ErrorKind
kind_of_code s =
    if str_eq s "AUTH_FAILED"
    then auth
    else if str_eq s "RATE_LIMITED"
    then rate_limit
    else if str_eq s "UPSTREAM_TIMEOUT"
    then timeout
    else if str_eq s "UPSTREAM_5XX"
    then server_error
    else if str_eq s "BAD_REQUEST"
    then bad_request
    else if str_eq s "NETWORK_ERROR"
    then network
    else if str_eq s "CIRCUIT_OPEN"
    then circuit_open
    else if str_eq s "NO_PROVIDER"
    then no_providers
    else if str_eq s "PROVIDER_NOT_FOUND"
    then provider_not_found
    else if str_eq s "CONTEXT_WINDOW_EXCEEDED"
    then context_window
    else if str_eq s "CONTENT_POLICY_VIOLATION"
    then content_policy
    else if str_eq s "PERMISSION_DENIED"
    then permission
    else if str_eq s "MODEL_NOT_FOUND"
    then model_not_found
    else unknown

kind_of_code-code : (k : ErrorKind) → kind_of_code (code k) ≡ k
unfolding kind_of_code code
kind_of_code-code auth = refl
kind_of_code-code rate_limit = refl
kind_of_code-code timeout = refl
kind_of_code-code server_error = refl
kind_of_code-code bad_request = refl
kind_of_code-code network = refl
kind_of_code-code circuit_open = refl
kind_of_code-code no_providers = refl
kind_of_code-code provider_not_found = refl
kind_of_code-code context_window = refl
kind_of_code-code content_policy = refl
kind_of_code-code permission = refl
kind_of_code-code model_not_found = refl
kind_of_code-code unknown = refl

-- Two kinds of error never share a code.
pub code-injective : (j k : ErrorKind) → code j ≡ code k → j ≡ k
code-injective j k same = sym (kind_of_code-code j) ∙ ap kind_of_code same ∙ kind_of_code-code k
