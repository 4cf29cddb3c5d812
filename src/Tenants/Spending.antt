-- ===== src/Tenants/Spending.antt =====
-- provider/tenant.go: what a tenant can spend when each request is checked and then recorded.
use switch.Prelude.Dict.{Dict, lookup}
use switch.Prelude.{
  ℕ, ◌+◌, ◌≤◌, ◌<◌, String, ◌≡◌, refl, ◌⊎◌, none, some, List, [], ◌∷◌, arith, ap, ◌∙◌, inl, inr,
  Bool-cases, Option-cases,
}
use switch.Costs.{TenantUsage, new_tenant}
use switch.Tenants.Check.{IsWithin}
use switch.Tenants.{
  check, Time, TenantConfig, TenantManager, estimate_cost, reset_all, try_monthly_reset, Request,
  spend, record_spending,
}

abbrev pub cost_of_request : Request → ℕ
cost_of_request r = elim r.pricing [ none ↦ 0 | some p ↦ estimate_cost p r.prompt r.comp ]

-- A request of a key: served only when the check has no objection.
unfoldable pub serve : Time → String → Request → TenantManager → TenantManager
serve now key r tm =
    let (tm', status) = check now key r tm in
    elim status.over_quota [
      | some reason ↦ tm'
      | none ↦ record_spending now key r.prompt r.comp (cost_of_request r) tm'
    ]

pub record Call : Type 0 where
  pub now : Time
  pub key : String
  pub request : Request

unfoldable pub serve_all : List Call → TenantManager → TenantManager
serve_all [] tm = tm
serve_all (c ∷ cs) tm = serve_all cs (serve c.now c.key c.request tm)

-- The usage is within the monthly quotas, those that there are.
pub record Fits (t : TenantConfig) (u : TenantUsage) : Type 0 where
  pub tokens :
      0 < t.monthly_tokens → u.usage.prompt_tokens + u.usage.completion_tokens ≤ t.monthly_tokens
  pub cost : 0 < t.cost_limit → u.usage.cost_usd ≤ t.cost_limit

pub record Inv (key : String) (t : TenantConfig) (tm : TenantManager) : Type 0 where
  pub config : lookup key tm.tenants ≡ some t
  pub usage : TenantUsage
  pub there : lookup key tm.usage ≡ some usage
  pub fits : Fits t usage

pub new_tenant-Fits : (t : TenantConfig) → Fits t new_tenant
new_tenant-Fits t = record { tokens = λ h. omega arith; cost = λ h. omega arith }

pub lookup-reset_all :
    (key : String) (usage : Dict TenantUsage)
    → lookup key (reset_all usage)
      ≡ (elim (lookup key usage) [ none ↦ none | some u ↦ some new_tenant ])
unfolding lookup reset_all
lookup-reset_all key [] = refl
lookup-reset_all key ((k, u) ∷ rest) = ground (arith, lookup-reset_all key rest)

-- After the reset of a month the usage is the old one, or none of it.
try_monthly_reset-cases :
    (now : Time) (key : String) (tm : TenantManager) (u : TenantUsage)
    → lookup key tm.usage ≡ some u
    → (lookup key (try_monthly_reset now tm).usage ≡ some u)
      ⊎ (lookup key (try_monthly_reset now tm).usage ≡ some new_tenant)
unfolding try_monthly_reset
try_monthly_reset-cases now key tm u there = ground (arith, there, lookup-reset_all key tm.usage)

try_monthly_reset-tenants :
    (now : Time) (tm : TenantManager) → (try_monthly_reset now tm).tenants ≡ tm.tenants
unfolding try_monthly_reset
try_monthly_reset-tenants now tm = ground arith

-- What an accepted request adds fits, on the usage that was checked and on a new one.
pub accepted-Fits :
    (now : Time) (t : TenantConfig) (u : TenantUsage) (r : Request)
    → IsWithin t u r
    → Fits t u
    → Fits t (spend now r.prompt r.comp (cost_of_request r) u)
      × Fits t (spend now r.prompt r.comp (cost_of_request r) new_tenant)
accepted-Fits now t u r w fits =
    let cost : 0 < t.cost_limit → u.usage.cost_usd + cost_of_request r ≤ t.cost_limit = λ h.
      elim (Option-cases r.pricing) [
        | inl free ↦ rw free (omega (arith, fits.cost h))
        | inr (p, priced) ↦ rw priced (w.cost p priced h)
      ] in
    (
      record { tokens = λ h. omega (arith, w.tokens h); cost = λ h. omega (arith, cost h) },
      record { tokens = λ h. omega (arith, w.tokens h); cost = λ h. omega (arith, cost h) },
    )

-- A call of another key, or a refused one: the usage is the old one or a new one.
reset-Inv :
    (now : Time) (key : String) (t : TenantConfig) (tm : TenantManager)
    → Inv key t tm
    → Inv key t (try_monthly_reset now tm)
reset-Inv now key t tm v =
    let config = ap (λ d. lookup key d) (try_monthly_reset-tenants now tm) ∙ v.config in
    elim (try_monthly_reset-cases now key tm v.usage v.there) [
      | inl kept ↦ record { config = config; usage = v.usage; there = kept; fits = v.fits }
      | inr renewed ↦ record {
        config = config;
        usage = new_tenant;
        there = renewed;
        fits = new_tenant-Fits t;
      }
    ]

check-manager :
    (now : Time) (key : String) (r : Request) (tm : TenantManager)
    → ((check now key r tm).0 ≡ tm) ⊎ ((check now key r tm).0 ≡ try_monthly_reset now tm)
unfolding check
check-manager now key r tm = elim (Option-cases (lookup key tm.tenants)) [
  | inl missing ↦ inl (ground (arith, missing))
  | inr (t, e) ↦ elim (Bool-cases t.enabled) [
    | inl on ↦ inr (ground (arith, e, on))
    | inr off ↦ inl (ground (arith, e, off))
  ]
]

pub check-Inv :
    (now : Time) (key other : String) (r : Request) (t : TenantConfig) (tm : TenantManager)
    → Inv key t tm
    → Inv key t (check now other r tm).0
check-Inv now key other r t tm v = elim (check-manager now other r tm) [
  | inl kept ↦ rw kept v
  | inr renewed ↦ rw renewed (reset-Inv now key t tm v)
]

-- The usage that the check left: that which it has checked, or a new one.
pub check-usage :
    (now : Time) (key : String) (r : Request) (t : TenantConfig) (tm : TenantManager)
    (v : Inv key t tm)
    → (lookup key (check now key r tm).0.usage ≡ some v.usage)
      ⊎ (lookup key (check now key r tm).0.usage ≡ some new_tenant)
check-usage now key r t tm v = elim (check-manager now key r tm) [
  | inl kept ↦ rw kept (inl v.there)
  | inr renewed ↦ rw renewed (try_monthly_reset-cases now key tm v.usage v.there)
]
