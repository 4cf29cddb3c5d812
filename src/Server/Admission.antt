-- ===== src/Server/Admission.antt =====
-- server/auth.go: which requests AuthMiddleware passes on.
use mathlib.Core.List.{Memᴰ}
use mathlib.Core.List.Memᴰ.{head, tail}
use switch.Prelude.Bytes.{bytes_eq, bytes_eq→≡, bytes_eq→≢}
use switch.Prelude.{
  ℕ, true, false, List, [], ◌∷◌, ◌≡◌, ◌≢◌, ◌↔◌, ◌⊎◌, arith, length, ◌==◌, refl, sym, ◌∙◌, subst,
  inl, inr, Bool-cases,
}
use switch.Server.{
  AuthConfig, HttpRequest, Answer, served, is_public, is_admin, is_polling, in_key_set, check_key,
  check_admin, auth_middleware, extract_bearer,
}
use switch.Server.Bearer.{Carries, extract_bearer-Carries, Carries-extract_bearer}

abbrev IsServed : Answer → Type 0
IsServed a = a ≡ served

-- Authentication is on, and the path is not a public one.
abbrev pub IsGuarded : AuthConfig → HttpRequest → Type 0
IsGuarded cfg r =
    (cfg.enabled ≡ true) × ((length cfg.api_keys == 0) ≡ false) × (is_public r.path ≡ false)

check_admin-served :
    (cfg : AuthConfig) (token : List ℕ)
    → check_admin cfg token ≡ served ↔ (token ≡ cfg.admin_token) × (cfg.admin_token ≢ [])
unfolding check_admin
check_admin-served cfg token = elim (Bool-cases (bytes_eq cfg.admin_token [])) [
  | inl empty ↦
      rw empty
        ((λ h. cc), (λ (same, set_token). absurd (set_token (bytes_eq→≡ cfg.admin_token [] empty))))
  | inr set_token ↦ elim (Bool-cases (bytes_eq token cfg.admin_token)) [
    | inl same ↦
        rw (set_token, same)
          (
            (λ h. (bytes_eq→≡ token cfg.admin_token same, bytes_eq→≢ cfg.admin_token [] set_token)),
            (λ h. refl),
          )
    | inr other ↦
        rw (set_token, other)
          ((λ h. cc), (λ (same, _). absurd (bytes_eq→≢ token cfg.admin_token other same)))
  ]
]

in_key_set-Memᴰ :
    (token : List ℕ) (keys : List (List ℕ)) → in_key_set token keys ≡ true ↔ Memᴰ token keys
unfolding in_key_set
in_key_set-Memᴰ token [] = ((λ h. ground arith), (λ m. elim m [ ]))
in_key_set-Memᴰ token (k ∷ ks) = elim (Bool-cases (bytes_eq token k)) [
  | inl same ↦ rw same ((λ h. head (bytes_eq→≡ token k same)), (λ m. refl))
  | inr other ↦ rw other (
    (λ h. tail ((in_key_set-Memᴰ token ks).0 h)),
    (λ m. elim m [
      | head e ↦ absurd (bytes_eq→≢ token k other e)
      | tail m' ↦ (in_key_set-Memᴰ token ks).1 m'
    ]),
  )
]

check_key-served :
    (cfg : AuthConfig) (token : List ℕ)
    → check_key cfg token ≡ served ↔ Memᴰ token cfg.api_keys × (token ≢ [])
unfolding check_key
check_key-served cfg token = elim (Bool-cases (bytes_eq token [])) [
  | inl empty ↦
      rw empty ((λ h. cc), (λ (m, set_token). absurd (set_token (bytes_eq→≡ token [] empty))))
  | inr set_token ↦ elim (Bool-cases (in_key_set token cfg.api_keys)) [
    | inl known ↦
        rw (set_token, known)
          (
            (λ h. ((in_key_set-Memᴰ token cfg.api_keys).0 known, bytes_eq→≢ token [] set_token)),
            (λ h. refl),
          )
    | inr unknown ↦
        rw (set_token, unknown)
          (
            (λ h. cc),
            (λ (m, _). absurd (ground (arith, (in_key_set-Memᴰ token cfg.api_keys).1 m, unknown))),
          )
  ]
]

by_admin :
    (cfg : AuthConfig) (r : HttpRequest)
    → IsGuarded cfg r
    → is_admin r.path ≡ true
    → is_polling r ≡ false
    → auth_middleware cfg r ≡ check_admin cfg (extract_bearer r.authorization)
unfolding auth_middleware
by_admin cfg r (on, keys, private) admin polling = rw (on, keys, private, admin, polling) refl

by_key :
    (cfg : AuthConfig) (r : HttpRequest)
    → IsGuarded cfg r
    → (is_admin r.path ≡ false) ⊎ (is_polling r ≡ true)
    → auth_middleware cfg r ≡ check_key cfg (extract_bearer r.authorization)
unfolding auth_middleware
by_key cfg r (on, keys, private) (inl other) = rw (on, keys, private, other) refl
by_key cfg r (on, keys, private) (inr polling) = elim (Bool-cases (is_admin r.path)) [
  | inl admin ↦ rw (on, keys, private, admin, polling) refl
  | inr other ↦ rw (on, keys, private, other) refl
]

-- With authentication on, a request to an admin endpoint, other than to read the routing pool, is
-- passed on exactly when there is an admin token and the header carries it as a bearer token.
pub auth_middleware-admin :
    (cfg : AuthConfig) (r : HttpRequest)
    → IsGuarded cfg r
    → is_admin r.path ≡ true
    → is_polling r ≡ false
    → auth_middleware cfg r ≡ served
      ↔ Carries cfg.admin_token r.authorization × (cfg.admin_token ≢ [])
auth_middleware-admin cfg r guarded admin polling = rw (by_admin cfg r guarded admin polling) (
  (λ h.
      let (same, set_token) = (check_admin-served cfg (extract_bearer r.authorization)).0 h in
      (
        subst (λ t. Carries t r.authorization) same
            (Carries-extract_bearer r.authorization (λ e. set_token (sym same ∙ e))),
        set_token,
      )),
  (λ (carried, set_token).
      (check_admin-served cfg (extract_bearer r.authorization)).1
        (extract_bearer-Carries cfg.admin_token r.authorization carried, set_token)),
)

-- With authentication on, a request that is not to an admin endpoint, or that reads the routing
-- pool, is passed on exactly when the header carries one of the API keys, not empty, as a bearer
-- token.
pub auth_middleware-key :
    (cfg : AuthConfig) (r : HttpRequest)
    → IsGuarded cfg r
    → (is_admin r.path ≡ false) ⊎ (is_polling r ≡ true)
    → auth_middleware cfg r ≡ served
      ↔ ((key : List ℕ) × Memᴰ key cfg.api_keys × (key ≢ []) × Carries key r.authorization)
auth_middleware-key cfg r guarded h = rw (by_key cfg r guarded h) (
  (λ h.
      let (m, set_token) = (check_key-served cfg (extract_bearer r.authorization)).0 h in
      (
        extract_bearer r.authorization,
        m,
        set_token,
        Carries-extract_bearer r.authorization set_token,
      )),
  (λ (key, m, set_token, carried). (check_key-served cfg (extract_bearer r.authorization)).1 (
      subst (λ t. Memᴰ t cfg.api_keys × (t ≢ []))
        (sym (extract_bearer-Carries key r.authorization carried)) (m, set_token))),
)
