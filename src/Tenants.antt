-- ===== src/Tenants.antt =====
-- provider/tenant.go: the tenants with their monthly quotas, the checks of costs and the audit log.
-- Costs are whole numbers of a small unit and prices whole numbers of it for one token; a float
-- threshold is a ratio. A time is its month, and its second where the code keeps it. The calls of
-- onOverQuota are those whose status has a reason of a quota. Check takes a read lock, a lock for the
-- reset and none for the rest; `check` is one step.
pub mod Check
pub mod Spending
pub mod Quotas
pub mod Validator
pub mod Audit
mod Tests
use switch.Prelude.Dict.{Dict, lookup, insert, update}
use switch.Prelude.{
  ℕ, ◌+◌, ◌*◌, String, Bool, true, false, ◌&&◌, not, Option, none, some, List, [], ◌∷◌, ◌++◌,
  str_eq, ltb, ◌==◌, if◌then◌else◌, length,
}
use switch.Circuit.{Ratio}
use switch.Costs.{TenantUsage, new_tenant}

pub record Time : Type 0 where
  pub year : ℕ
  pub month : ℕ
  pub unix : ℕ

pub record TenantConfig : Type 0 where
  pub key : String
  pub allowed_models : List String
  pub monthly_tokens : ℕ
  pub cost_limit : ℕ
  pub soft_limit_pct : Ratio
  pub enabled : Bool
  pub created_at : ℕ

pub record TenantManager : Type 0 where
  pub tenants : Dict TenantConfig
  pub usage : Dict TenantUsage
  pub last_reset : Time

pub record Pricing : Type 0 where
  pub input_price : ℕ
  pub output_price : ℕ

unfoldable pub estimate_cost : Pricing → ℕ → ℕ → ℕ
estimate_cost p prompt comp = prompt * p.input_price + comp * p.output_price

unfoldable pub new_tenant_manager : Time → TenantManager
new_tenant_manager now = record { tenants = []; usage = []; last_reset = now }

abbrev pub with_defaults : Time → TenantConfig → TenantConfig
with_defaults now cfg = record cfg {
  soft_limit_pct =
      if cfg.soft_limit_pct.num == 0 then record { num = 8; den = 10 } else cfg.soft_limit_pct;
  created_at = if cfg.created_at == 0 then now.unix else cfg.created_at;
}

unfoldable pub register : Time → TenantConfig → TenantManager → TenantManager
register now cfg tm = record tm {
  tenants = insert cfg.key (with_defaults now cfg) tm.tenants;
  usage = elim (lookup cfg.key tm.usage) [
    | none ↦ insert cfg.key new_tenant tm.usage
    | some u ↦ tm.usage
  ];
}

unfoldable pub revoke : String → TenantManager → TenantManager
revoke key tm = elim (lookup key tm.tenants) [
  | none ↦ tm
  | some t ↦ record tm { tenants = insert key (record t { enabled = false }) tm.tenants }
]

unfoldable pub reset_all : Dict TenantUsage → Dict TenantUsage
reset_all [] = []
reset_all ((key, u) ∷ rest) = (key, new_tenant) ∷ reset_all rest

abbrev pub is_month : Time → Time → Bool
is_month now t = now.month == t.month && now.year == t.year

unfoldable pub try_monthly_reset : Time → TenantManager → TenantManager
try_monthly_reset now tm =
    if is_month now tm.last_reset
    then tm
    else record tm { usage = reset_all tm.usage; last_reset = now }

pub data Reason : Type 0 where
  unknown_key model_not_allowed token_quota_exceeded cost_limit_exceeded : Reason

pub data Warning : Type 0 where
  approaching_token_quota approaching_cost_limit : Warning

pub record TenantStatus : Type 0 where
  pub usage : Option TenantUsage
  pub warnings : List Warning
  pub over_quota : Option Reason

unfoldable pub is_model_allowed : String → List String → Bool
is_model_allowed model [] = false
is_model_allowed model (m ∷ ms) =
    let later = is_model_allowed model ms in if str_eq m model then true else later

abbrev pub is_above : Ratio → ℕ → ℕ → Bool
is_above r n limit = ltb (r.num * limit) (n * r.den)

-- A request: its model, tokens and prices.
pub record Request : Type 0 where
  pub model : String
  pub prompt : ℕ
  pub comp : ℕ
  pub pricing : Option Pricing

-- The quota of tokens: the refusal, or the warnings.
unfoldable pub check_tokens : TenantConfig → TenantUsage → Request → Option (List Warning)
check_tokens t u r =
    let projected = u.usage.prompt_tokens + r.prompt + u.usage.completion_tokens + r.comp in
    if t.monthly_tokens == 0
    then some []
    else if ltb t.monthly_tokens projected
    then none
    else if is_above t.soft_limit_pct projected t.monthly_tokens
    then some (approaching_token_quota ∷ [])
    else some []

unfoldable pub check_cost : TenantConfig → TenantUsage → Request → Option (List Warning)
check_cost t u r = elim r.pricing [
  | none ↦ some []
  | some p ↦
      let projected = u.usage.cost_usd + estimate_cost p r.prompt r.comp in
      if t.cost_limit == 0
      then some []
      else if ltb t.cost_limit projected
      then none
      else if is_above t.soft_limit_pct projected t.cost_limit
      then some (approaching_cost_limit ∷ [])
      else some []
]

abbrev pub status_of : Option TenantUsage → List Warning → Option Reason → TenantStatus
status_of u ws reason = record { usage = u; warnings = ws; over_quota = reason }

-- Both quotas; a tenant without a usage has none.
unfoldable pub check_quotas : TenantConfig → Option TenantUsage → Request → TenantStatus
check_quotas t none r = status_of none [] none
check_quotas t (some u) r = elim (check_tokens t u r) [
  | none ↦ status_of (some u) [] (some token_quota_exceeded)
  | some ws ↦ elim (check_cost t u r) [
    | none ↦ status_of (some u) ws (some cost_limit_exceeded)
    | some ws' ↦ status_of (some u) (ws ++ ws') none
  ]
]

unfoldable pub check_tenant : TenantConfig → Option TenantUsage → Request → TenantStatus
check_tenant t u r =
    if ltb 0 (length t.allowed_models) && not (is_model_allowed r.model t.allowed_models)
    then status_of u [] (some model_not_allowed)
    else check_quotas t u r

abbrev pub refused : TenantStatus
refused = status_of none [] (some unknown_key)

-- The usage is read before the reset, which gives each tenant a new one.
unfoldable pub check : Time → String → Request → TenantManager → TenantManager × TenantStatus
check now key r tm = elim (lookup key tm.tenants) [
  | none ↦ (tm, refused)
  | some t ↦
      if t.enabled
      then (try_monthly_reset now tm, check_tenant t (lookup key tm.usage) r)
      else (tm, refused)
]

abbrev pub spend : Time → ℕ → ℕ → ℕ → TenantUsage → TenantUsage
spend now prompt comp cost u = record u {
  usage = record u.usage {
    prompt_tokens = u.usage.prompt_tokens + prompt;
    completion_tokens = u.usage.completion_tokens + comp;
    cost_usd = u.usage.cost_usd + cost;
  };
  last_request = now.unix;
}

unfoldable pub record_spending : Time → String → ℕ → ℕ → ℕ → TenantManager → TenantManager
record_spending now key prompt comp cost tm = record tm {
  usage = update new_tenant key (spend now prompt comp cost) tm.usage;
}
