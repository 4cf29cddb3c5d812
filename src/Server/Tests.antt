-- ===== src/Server/Tests.antt =====
-- server/auth.go: requests with and without tokens.
use switch.Prelude.Bytes.{ascii, has_prefix, bytes_eq}
use switch.Prelude.{ℕ, true, List, [], ◌∷◌, ◌++◌, ◌≡◌, ◌≢◌, ◌↔◌, refl, inl}
use mathlib.Core.List.{Memᴰ}
use switch.Server.{
  AuthConfig, HttpRequest, served, admin_token_required, auth_middleware, is_public, check_key,
  extract_bearer, split_space, in_key_set, check_admin,
}
use switch.Server.Bearer.{Carries}
use switch.Server.Admission.{auth_middleware-admin, auth_middleware-key}

abbrev config : AuthConfig
config = record { enabled = true; api_keys = (7 ∷ []) ∷ (8 ∷ []) ∷ []; admin_token = 9 ∷ [] }

abbrev reload : List ℕ → HttpRequest
reload auth = record {
  method = ascii "POST";
  path = ascii "/v1/admin/reload";
  authorization = auth;
}

abbrev generate : HttpRequest
generate = record {
  method = ascii "POST";
  path = ascii "/v1/generate";
  authorization = ascii "bEARER " ++ 8 ∷ [];
}

serves_key : auth_middleware config generate ≡ served
unfolding auth_middleware is_public has_prefix ascii check_key bytes_eq extract_bearer split_space
    in_key_set
serves_key = refl

refuses_key : auth_middleware config (reload (ascii "Bearer " ++ 8 ∷ [])) ≡ admin_token_required
unfolding auth_middleware is_public has_prefix ascii bytes_eq check_admin extract_bearer split_space
refuses_key = refl

-- Without API keys the admin endpoints are open, too.
serves_without_keys : auth_middleware (record config { api_keys = [] }) (reload []) ≡ served
unfolding auth_middleware
serves_without_keys = refl

auth_middleware-admin_example :
    auth_middleware config (reload (ascii "Bearer " ++ 9 ∷ [])) ≡ served
    ↔ Carries config.admin_token (ascii "Bearer " ++ 9 ∷ []) × (config.admin_token ≢ [])
unfolding is_public has_prefix ascii bytes_eq
auth_middleware-admin_example =
    auth_middleware-admin config (reload (ascii "Bearer " ++ 9 ∷ [])) (refl, refl, refl) refl refl

auth_middleware-key_example :
    auth_middleware config generate ≡ served
    ↔ ((key : List ℕ) × Memᴰ key config.api_keys × (key ≢ []) × Carries key generate.authorization)
unfolding is_public has_prefix ascii
auth_middleware-key_example = auth_middleware-key config generate (refl, refl, refl) (inl refl)
