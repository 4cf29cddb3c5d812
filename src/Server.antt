-- ===== src/Server.antt =====
-- server/auth.go: the check of API keys and of the admin token. Headers, paths and tokens are lists
-- of bytes; a header that is missing is empty.
pub mod Bearer
pub mod Admission
mod Tests
use switch.Prelude.Bytes.{ascii, bytes_eq, has_prefix}
use switch.Prelude.{
  ℕ, ◌+◌, Bool, false, ◌||◌, ◌&&◌, not, List, [], ◌∷◌, map, if◌then◌else◌, leb, length, ◌==◌,
  Option, none, some,
}

pub record AuthConfig : Type 0 where
  pub enabled : Bool
  pub api_keys : List (List ℕ)
  pub admin_token : List ℕ

pub record HttpRequest : Type 0 where
  pub method : List ℕ
  pub path : List ℕ
  pub authorization : List ℕ

-- Whether the next handler is called, and otherwise what is answered.
pub data Answer : Type 0 where
  served valid_key_required admin_token_required : Answer

unfoldable pub is_public : List ℕ → Bool
is_public path =
    has_prefix path (ascii "/v1/health")
    || (has_prefix path (ascii "/v1/metrics")
        || (has_prefix path (ascii "/v1/stats")
            || (has_prefix path (ascii "/v1/providers")
                || has_prefix path (ascii "/v1/diagnostics"))))

abbrev pub is_admin : List ℕ → Bool
is_admin path = has_prefix path (ascii "/v1/admin")

abbrev pub is_polling : HttpRequest → Bool
is_polling r = bytes_eq r.path (ascii "/v1/admin/routing") && bytes_eq r.method (ascii "GET")

abbrev pub lower : ℕ → ℕ
lower c = if leb 65 c && leb c 90 then c + 32 else c

-- EqualFold with "bearer", none of whose letters has a form outside ASCII.
abbrev pub is_bearer : List ℕ → Bool
is_bearer scheme = bytes_eq (map lower scheme) (ascii "bearer")

abbrev pub add_first : ℕ → Option (List ℕ × List ℕ) → Option (List ℕ × List ℕ)
add_first c none = none
add_first c (some (before, after)) = some (c ∷ before, after)

-- SplitN by a space into two parts, if there are two.
unfoldable pub split_space : List ℕ → Option (List ℕ × List ℕ)
split_space [] = none
split_space (c ∷ rest) =
    let later = split_space rest in if c == 32 then some ([], rest) else add_first c later

abbrev pub token_of : Option (List ℕ × List ℕ) → List ℕ
token_of none = []
token_of (some (scheme, token)) = if is_bearer scheme then token else []

unfoldable pub extract_bearer : List ℕ → List ℕ
extract_bearer auth = token_of (split_space auth)

unfoldable pub in_key_set : List ℕ → List (List ℕ) → Bool
in_key_set token [] = false
in_key_set token (k ∷ ks) = bytes_eq token k || in_key_set token ks

unfoldable pub check_key : AuthConfig → List ℕ → Answer
check_key cfg token =
    if bytes_eq token [] || not (in_key_set token cfg.api_keys) then valid_key_required else served

unfoldable pub check_admin : AuthConfig → List ℕ → Answer
check_admin cfg token =
    if bytes_eq cfg.admin_token [] || not (bytes_eq token cfg.admin_token)
    then admin_token_required
    else served

unfoldable pub auth_middleware : AuthConfig → HttpRequest → Answer
auth_middleware cfg r =
    if not cfg.enabled || (length cfg.api_keys == 0)
    then served
    else if is_public r.path
    then served
    else if is_admin r.path
    then (if is_polling r
        then check_key cfg (extract_bearer r.authorization)
        else check_admin cfg (extract_bearer r.authorization))
    else check_key cfg (extract_bearer r.authorization)
