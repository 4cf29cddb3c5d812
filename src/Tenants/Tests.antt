-- ===== src/Tenants/Tests.antt =====
-- provider/tenant.go: tenants, checks and the audit log at concrete values.
use switch.Prelude.Dict.{lookup, insert, update}
use switch.Prelude.{◌≡◌, refl, ◌↔◌, true, none, some, List, [], ◌∷◌, arith, ℕ}
use switch.Costs.{new_tenant, TenantUsage}
use switch.Tenants.{
  check, Time, TenantConfig, TenantManager, new_tenant_manager, register, Request, status_of,
  token_quota_exceeded, approaching_token_quota, check_tenant, check_quotas, check_tokens,
  check_cost, estimate_cost, record_spending, try_monthly_reset,
}
use switch.Tenants.Check.{check-IsAdmitted, IsAdmitted}
use switch.Tenants.Spending.{Inv, serve, Call, serve_all}
use switch.Tenants.Quotas.{first_check_refuses, serve_all_registered-Inv}
use switch.Tenants.Audit.{list_last-record_all, new_audit_log, list_last, record_all}

abbrev august : Time
august = record { year = 2026; month = 8; unix = 1000 }

abbrev september : Time
september = record { year = 2026; month = 9; unix = 2000 }

abbrev small_tenant : TenantConfig
small_tenant = record {
  key = "k";
  allowed_models = [];
  monthly_tokens = 100;
  cost_limit = 1000;
  soft_limit_pct = record { num = 8; den = 10 };
  enabled = true;
  created_at = 5;
}

abbrev request : Request
request = record {
  model = "m";
  prompt = 60;
  comp = 30;
  pricing = some (record { input_price = 2; output_price = 4 });
}

abbrev at_start : TenantManager
at_start = register august small_tenant (new_tenant_manager august)

abbrev spent : TenantManager
spent = serve august "k" request at_start

abbrev spent_usage : TenantUsage
spent_usage = record {
  usage = record { prompt_tokens = 60; completion_tokens = 30; requests = 0; cost_usd = 240 };
  last_request = 1000;
  models = [];
}

first_is_admitted :
    (check august "k" request at_start).1
    ≡ status_of (some new_tenant) (approaching_token_quota ∷ []) none
unfolding check register new_tenant_manager lookup insert check_tenant check_quotas check_tokens
    check_cost estimate_cost
first_is_admitted = refl

check-IsAdmitted_example :
    (check august "k" request spent).1.over_quota ≡ none ↔ IsAdmitted "k" request spent
check-IsAdmitted_example = check-IsAdmitted august "k" request spent

abbrev calls : List Call
calls =
    record { now = august; key = "k"; request = request }
    ∷ record { now = august; key = "j"; request = request }
    ∷ record { now = september; key = "k"; request = request }
    ∷ record { now = september; key = "k"; request = request }
    ∷ []

serve_all_registered-Inv_example : Inv "k" small_tenant (serve_all calls at_start)
unfolding lookup new_tenant_manager
serve_all_registered-Inv_example =
    serve_all_registered-Inv august small_tenant calls (new_tenant_manager august) refl

first_check_refuses_example :
    ((check september "k" request spent).1.over_quota ≡ some token_quota_exceeded)
    × (lookup "k" (check september "k" request spent).0.usage ≡ some new_tenant)
unfolding serve check register new_tenant_manager lookup insert check_tenant check_quotas
    check_tokens check_cost estimate_cost record_spending try_monthly_reset update
first_check_refuses_example =
    first_check_refuses september "k" request small_tenant spent_usage spent refl refl refl refl
      (omega arith) (omega arith) refl

abbrev three : List ℕ
three = 1 ∷ 2 ∷ 3 ∷ []

list_last-record_all_example :
    let a = record_all three (new_audit_log 2) in
    (a.entries ≡ 2 ∷ 3 ∷ []) × (list_last 1 a ≡ 3 ∷ [])
list_last-record_all_example = list_last-record_all 2 1 three
