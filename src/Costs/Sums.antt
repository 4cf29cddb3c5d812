-- ===== src/Costs/Sums.antt =====
-- provider/cost.go: the tracker as a ledger. What it keeps of a key, a model, a day and in all is the
-- sum over the entries of the history that belong to it.
use switch.Prelude.Dict.{lookup_or, lookup_or-update}
use switch.Prelude.{
  ℕ, ◌+◌, ◌/◌, String, ◌≡◌, Bool, true, ◌&&◌, List, [], ◌∷◌, arith, str_eq, if◌then◌else◌, suc,
  refl, ◌∙◌, false, sym,
}
use switch.Costs.{
  Usage, second, TenantUsage, UsageRecord, CostTracker, no_usage, add_usage, add_tenant, day_key,
  record_locked, new_tenant,
}

-- The sum over the entries that pass the test.
unfoldable pub sum_of : (UsageRecord → Bool) → List UsageRecord → Usage
sum_of test [] = no_usage
sum_of test (e ∷ es) =
    let rest = sum_of test es in
    if test e then add_usage e.prompt e.complete e.cost_usd rest else rest

unfoldable pub plus : Usage → Usage → Usage
plus u v = record {
  prompt_tokens = u.prompt_tokens + v.prompt_tokens;
  completion_tokens = u.completion_tokens + v.completion_tokens;
  requests = u.requests + v.requests;
  cost_usd = u.cost_usd + v.cost_usd;
}

abbrev pub tokens : Usage → ℕ
tokens u = u.prompt_tokens + u.completion_tokens

abbrev pub tenant_of : String → CostTracker → TenantUsage
tenant_of key ct = lookup_or new_tenant key ct.by_key

abbrev pub model_usage : String → CostTracker → Usage
model_usage model ct = lookup_or no_usage model ct.by_model

abbrev pub model_requests : String → TenantUsage → ℕ
model_requests model u = lookup_or 0 model u.models

abbrev pub tokens_on : String → CostTracker → ℕ
tokens_on day ct = lookup_or 0 day ct.daily_tokens

plus-no_usage : (u : Usage) → plus u no_usage ≡ u
unfolding plus
plus-no_usage u = ground arith

pub no_usage-plus : (u : Usage) → plus no_usage u ≡ u
unfolding plus
no_usage-plus u = ground arith

plus-add_usage : (p c x : ℕ) (u v : Usage) → plus (add_usage p c x u) v ≡ plus u (add_usage p c x v)
unfolding plus add_usage
plus-add_usage p c x u v = ground arith

plus_if :
    (b : Bool) (p c x : ℕ) (u v : Usage)
    → plus (if b then add_usage p c x u else u) v ≡ plus u (if b then add_usage p c x v else v)
plus_if true p c x u v = plus-add_usage p c x u v
plus_if false p c x u v = refl

pub if_plus :
    (b : Bool) (p c x : ℕ) (u v : Usage)
    → (if b then add_usage p c x (plus u v) else plus u v)
      ≡ plus (if b then add_usage p c x u else u) v
unfolding plus add_usage
if_plus true p c x u v = ground arith
if_plus false p c x u v = refl

if_requests :
    (b : Bool) (p c x n : ℕ) (v : Usage)
    → n + (if b then 1 else 0) + v.requests ≡ n + (if b then add_usage p c x v else v).requests
unfolding add_usage
if_requests true p c x n v = omega arith
if_requests false p c x n v = omega arith

if_tokens :
    (b : Bool) (p c x n : ℕ) (v : Usage)
    → (if b then n + (p + c) else n) + tokens v ≡ n + tokens (if b then add_usage p c x v else v)
unfolding add_usage
if_tokens true p c x n v = omega arith
if_tokens false p c x n v = omega arith

if_tenant :
    (b : Bool) (model : String) (p c x ts : ℕ) (u : TenantUsage)
    → (if b then add_tenant model p c x ts u else u).usage
      ≡ (if b then add_usage p c x u.usage else u.usage)
unfolding add_tenant
if_tenant true model p c x ts u = refl
if_tenant false model p c x ts u = refl

abbrev pub of_key : String → UsageRecord → Bool
of_key key e = str_eq e.key key

abbrev pub of_model : String → UsageRecord → Bool
of_model model e = str_eq e.model model

abbrev pub any : UsageRecord → Bool
any e = true

module _ (date : ℕ → String) where
  unfoldable pub record_entry : UsageRecord → CostTracker → CostTracker
  record_entry e ct = record_locked date e.key e.model e.prompt e.complete e.cost_usd e.ts ct

  unfoldable pub record_entries : List UsageRecord → CostTracker → CostTracker
  record_entries [] ct = ct
  record_entries (e ∷ es) ct = record_entries es (record_entry e ct)

  abbrev pub of_day : String → UsageRecord → Bool
  of_day day e = str_eq (day_key e.key (date (e.ts / second))) day

  -- The tracker has what `before` had and the entries.
  pub record Adds (es : List UsageRecord) (before ct : CostTracker) : Type 0 where
    pub tenant :
        (key : String)
        → (tenant_of key ct).usage ≡ plus (tenant_of key before).usage (sum_of (of_key key) es)
    pub models :
        (key model : String)
        → model_requests model (tenant_of key ct)
          ≡ model_requests model (tenant_of key before)
            + (sum_of (λ e. of_key key e && of_model model e) es).requests
    pub model :
        (model : String)
        → model_usage model ct ≡ plus (model_usage model before) (sum_of (of_model model) es)
    pub total : ct.total ≡ plus before.total (sum_of any es)
    pub daily :
        (day : String) → tokens_on day ct ≡ tokens_on day before + tokens (sum_of (of_day day) es)

  -- One entry more of a tenant.
  record_entry-tenant :
      (key : String) (e : UsageRecord) (ct : CostTracker)
      → tenant_of key (record_entry e ct) ≡ (
          if of_key key e
          then add_tenant e.model e.prompt e.complete e.cost_usd e.ts (tenant_of key ct)
          else tenant_of key ct)
  unfolding record_entry record_locked
  record_entry-tenant key e ct = lookup_or-update new_tenant e.key key _ ct.by_key

  record_entry-usage :
      (key : String) (e : UsageRecord) (ct : CostTracker)
      → (tenant_of key (record_entry e ct)).usage ≡ (
          if of_key key e
          then add_usage e.prompt e.complete e.cost_usd (tenant_of key ct).usage
          else (tenant_of key ct).usage)
  record_entry-usage key e ct =
      rw (record_entry-tenant key e ct) (if_tenant (of_key key e) e.model _ _ _ e.ts _)

  record_entry-models :
      (key model : String) (e : UsageRecord) (ct : CostTracker)
      → model_requests model (tenant_of key (record_entry e ct))
        ≡ model_requests model (tenant_of key ct)
          + (if of_key key e && of_model model e then 1 else 0)
  unfolding add_tenant
  record_entry-models key model e ct =
      let u = tenant_of key ct in
      rw (record_entry-tenant key e ct)
        (ground (arith, lookup_or-update 0 e.model model (λ n. suc n) u.models))

  record_entry-model :
      (model : String) (e : UsageRecord) (ct : CostTracker)
      → model_usage model (record_entry e ct) ≡ (
          if of_model model e
          then add_usage e.prompt e.complete e.cost_usd (model_usage model ct)
          else model_usage model ct)
  unfolding record_entry record_locked
  record_entry-model model e ct = lookup_or-update no_usage e.model model _ ct.by_model

  record_entry-daily :
      (day : String) (e : UsageRecord) (ct : CostTracker)
      → tokens_on day (record_entry e ct)
        ≡ (if of_day day e then tokens_on day ct + (e.prompt + e.complete) else tokens_on day ct)
  unfolding record_entry record_locked
  record_entry-daily day e ct = lookup_or-update 0 _ day _ ct.daily_tokens

  pub record_entries-Adds :
      (es : List UsageRecord) (ct : CostTracker) → Adds es ct (record_entries es ct)
  unfolding record_entries sum_of record_entry record_locked
  record_entries-Adds [] ct = record {
    tenant = λ key. sym (plus-no_usage _);
    models = λ key model. omega arith;
    model = λ model. sym (plus-no_usage _);
    total = sym (plus-no_usage _);
    daily = λ day. omega arith;
  }
  record_entries-Adds (e ∷ es) ct =
      let later = record_entries-Adds es (record_entry e ct) in
      record {
        tenant = λ key.
            later.tenant key
            ∙ rw (record_entry-usage key e ct)
                (plus_if (of_key key e) e.prompt e.complete e.cost_usd _ _);
        models = λ key model.
            later.models key model
            ∙ rw (record_entry-models key model e ct)
                (if_requests (of_key key e && of_model model e) e.prompt e.complete e.cost_usd _ _);
        model = λ model.
            later.model model
            ∙ rw (record_entry-model model e ct)
                (plus_if (of_model model e) e.prompt e.complete e.cost_usd _ _);
        total = later.total ∙ plus-add_usage e.prompt e.complete e.cost_usd ct.total _;
        daily = λ day.
            later.daily day
            ∙ rw (record_entry-daily day e ct)
                (if_tokens (of_day day e) e.prompt e.complete e.cost_usd _ _);
      }
