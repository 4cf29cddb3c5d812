-- ===== src/Tenants/Check.antt =====
-- provider/tenant.go: exactly which requests Check has no objection to.
use mathlib.Core.Option.{some-injective}
use switch.Prelude.Dict.{lookup}
use switch.Prelude.{
  ◌+◌, ◌≤◌, ◌<◌, String, ◌≡◌, ◌↔◌, ◌⊎◌, inl, inr, true, false, none, some, List, [], arith,
  Option-cases, refl, ◌&&◌, not, Option, ◌∷◌, ltb, Bool-cases, length, sym, ap, ◌∙◌, subst,
}
use switch.Costs.{TenantUsage}
use switch.Tenants.{
  TenantConfig, TenantManager, Pricing, estimate_cost, Warning, is_model_allowed, Request,
  check_tokens, check_cost, check_quotas, Time, check_tenant, check,
}

-- The request fits the quotas, those that there are, on top of the usage.
pub record IsWithin (t : TenantConfig) (u : TenantUsage) (r : Request) : Type 0 where
  pub tokens :
      0 < t.monthly_tokens
      → u.usage.prompt_tokens + r.prompt + u.usage.completion_tokens + r.comp ≤ t.monthly_tokens
  pub cost :
      (p : Pricing)
      → r.pricing ≡ some p
      → 0 < t.cost_limit
      → u.usage.cost_usd + estimate_cost p r.prompt r.comp ≤ t.cost_limit

abbrev pub IsAllowed : TenantConfig → Request → Type 0
IsAllowed t r = (t.allowed_models ≡ []) ⊎ (is_model_allowed r.model t.allowed_models ≡ true)

pub record IsAdmitted (key : String) (r : Request) (tm : TenantManager) : Type 0 where
  pub tenant : TenantConfig
  pub found : lookup key tm.tenants ≡ some tenant
  pub enabled : tenant.enabled ≡ true
  pub allowed : IsAllowed tenant r
  pub within : (u : TenantUsage) → lookup key tm.usage ≡ some u → IsWithin tenant u r

check_tokens-fits :
    (t : TenantConfig) (u : TenantUsage) (r : Request) (ws : List Warning)
    → check_tokens t u r ≡ some ws
    → 0 < t.monthly_tokens
    → u.usage.prompt_tokens + r.prompt + u.usage.completion_tokens + r.comp ≤ t.monthly_tokens
unfolding check_tokens
check_tokens-fits t u r ws e h = ground (arith, e, h)

check_tokens-over :
    (t : TenantConfig) (u : TenantUsage) (r : Request)
    → check_tokens t u r ≡ none
    → (0 < t.monthly_tokens)
      × (t.monthly_tokens < u.usage.prompt_tokens + r.prompt + u.usage.completion_tokens + r.comp)
unfolding check_tokens
check_tokens-over t u r e = ground (arith, e)

check_cost-fits :
    (t : TenantConfig) (u : TenantUsage) (r : Request) (ws : List Warning) (p : Pricing)
    → check_cost t u r ≡ some ws
    → r.pricing ≡ some p
    → 0 < t.cost_limit
    → u.usage.cost_usd + estimate_cost p r.prompt r.comp ≤ t.cost_limit
unfolding check_cost
check_cost-fits t u r ws p e priced h = ground (arith, e, priced, h)

check_cost-over :
    (t : TenantConfig) (u : TenantUsage) (r : Request)
    → check_cost t u r ≡ none
    → (p : Pricing) × (r.pricing ≡ some p)
      × (0 < t.cost_limit)
      × (t.cost_limit < u.usage.cost_usd + estimate_cost p r.prompt r.comp)
unfolding check_cost
check_cost-over t u r e = elim (Option-cases r.pricing) [
  | inl free ↦ absurd (ground (arith, e, free))
  | inr (p, priced) ↦ (p, priced, ground (arith, e, priced), ground (arith, e, priced))
]

pub check_quotas-IsWithin :
    (t : TenantConfig) (u : TenantUsage) (r : Request)
    → (check_quotas t (some u) r).over_quota ≡ none ↔ IsWithin t u r
unfolding check_quotas
check_quotas-IsWithin t u r = elim (Option-cases (check_tokens t u r)) [
  | inl over ↦
      let (some_quota, beyond) = check_tokens-over t u r over in
      rw (over, check_quotas)
        ((λ h. cc), (λ w. absurd (omega (arith, w.tokens some_quota, beyond))))
  | inr (ws, e) ↦ elim (Option-cases (check_cost t u r)) [
    | inl over ↦
        let (p, priced, some_limit, beyond) = check_cost-over t u r over in
        rw (e, check_quotas, over)
          ((λ h. cc), (λ w. absurd (omega (arith, w.cost p priced some_limit, beyond))))
    | inr (ws', e') ↦
        rw (e, check_quotas, e')
          (
            (λ h. record {
              tokens = check_tokens-fits t u r ws e;
              cost = λ p. check_cost-fits t u r ws' p e';
            }),
            (λ w. refl),
          )
  ]
]

unlisted-IsAllowed :
    (t : TenantConfig) (r : Request)
    → (ltb 0 (length t.allowed_models) && not (is_model_allowed r.model t.allowed_models)) ≡ false
    → IsAllowed t r
unlisted-IsAllowed t r h = by_list t.allowed_models h
  where
    by_list :
        (models : List String)
        → (ltb 0 (length models) && not (is_model_allowed r.model models)) ≡ false
        → (models ≡ []) ⊎ (is_model_allowed r.model models ≡ true)
    by_list [] e = inl refl
    by_list (m ∷ ms) e = inr (ground (arith, e))

quotas_by :
    (t : TenantConfig) (u : Option TenantUsage) (r : Request)
    → (check_quotas t u r).over_quota ≡ none
    → (v : TenantUsage) → u ≡ some v
    → IsWithin t v r
quotas_by t none r h v e = cc
quotas_by t (some w) r h v e =
    let same : w ≡ v = some-injective w v e in rw⁻¹ same ((check_quotas-IsWithin t w r).0 h)

fits_by :
    (t : TenantConfig) (u : Option TenantUsage) (r : Request)
    → ((v : TenantUsage) → u ≡ some v → IsWithin t v r)
    → (check_quotas t u r).over_quota ≡ none
unfolding check_quotas
fits_by t none r w = refl
fits_by t (some v) r w = (check_quotas-IsWithin t v r).1 (w v refl)

check_tenant-IsWithin :
    (t : TenantConfig) (u : Option TenantUsage) (r : Request)
    → (check_tenant t u r).over_quota ≡ none
      ↔ IsAllowed t r × ((v : TenantUsage) → u ≡ some v → IsWithin t v r)
unfolding check_tenant
check_tenant-IsWithin t u r =
    elim (Bool-cases
      (ltb 0 (length t.allowed_models) && not (is_model_allowed r.model t.allowed_models))) [
        | inl unlisted ↦ rw unlisted (
          (λ h. cc),
          (λ w. absurd (elim w.0 [
            | inl all ↦ ground (arith, unlisted, all)
            | inr listed ↦ ground (arith, unlisted, listed)
          ])),
        )
        | inr listed ↦
            rw listed
              ((λ h. (unlisted-IsAllowed t r listed, quotas_by t u r h)), (λ w. fits_by t u r w.1))
      ]

-- Check has no objection exactly to a request of a registered and enabled key for a model on its list
-- (or with no list), which fits the quotas on top of the usage that the key has.
pub check-IsAdmitted :
    (now : Time) (key : String) (r : Request) (tm : TenantManager)
    → (check now key r tm).1.over_quota ≡ none ↔ IsAdmitted key r tm
unfolding check check_tenant check_quotas check_cost check_tokens
check-IsAdmitted now key r tm = elim (Option-cases (lookup key tm.tenants)) [
  | inl missing ↦ rw (missing, check) ((λ h. cc), (λ a. absurd (ground (arith, missing, a.found))))
  | inr (t, e) ↦ elim (Bool-cases t.enabled) [
    | inr off ↦
        rw (e, check, off)
          (
            (λ h. cc),
            (λ a. absurd (
                ground (
                  arith,
                  e,
                  off,
                  a.found,
                  ap (λ c. c.enabled) (some-injective t a.tenant (sym e ∙ a.found)),
                  a.enabled,
                ))),
          )
    | inl on ↦
        rw (e, check, on)
          (
            (λ h.
                let (allowed, within) = (check_tenant-IsWithin t (lookup key tm.usage) r).0 h in
                record { tenant = t; found = e; enabled = on; allowed = allowed; within = within }),
            (λ a.
                let same : a.tenant ≡ t = some-injective a.tenant t (sym a.found ∙ e) in
                (check_tenant-IsWithin t (lookup key tm.usage) r).1 (
                  subst (λ c. IsAllowed c r) same a.allowed,
                  λ v h. subst (λ c. IsWithin c v r) same (a.within v h),
                )),
          )
  ]
]
