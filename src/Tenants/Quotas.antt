-- ===== src/Tenants/Quotas.antt =====
-- provider/tenant.go: the monthly quotas hold over any checked requests.
use mathlib.Core.Option.{some-injective}
use switch.Prelude.Dict.{lookup, lookup-insert, lookup-insert_self, update}
use switch.Prelude.{
  ℕ, ◌+◌, ◌<◌, String, ◌≡◌, refl, none, some, List, [], ◌∷◌, arith, ap, ◌∙◌, inl, inr, false,
  eq_iff, str_eq, Bool-cases, Option-cases, sym, subst, true,
}
use switch.Costs.{TenantUsage, new_tenant}
use switch.Tenants.Check.{IsWithin, check-IsAdmitted}
use switch.Tenants.{
  check, Time, TenantConfig, TenantManager, try_monthly_reset, Request, spend, record_spending,
  with_defaults, register, is_month, check_tokens, check_quotas, check_tenant, token_quota_exceeded,
}
use switch.Tenants.Spending.{
  Inv, cost_of_request, serve, Call, serve_all, Fits, new_tenant-Fits, lookup-reset_all,
  accepted-Fits, check-Inv, check-usage,
}

record-other :
    (now : Time) (key other : String) (prompt comp cost : ℕ) (t : TenantConfig) (tm : TenantManager)
    → str_eq other key ≡ false
    → Inv key t tm
    → Inv key t (record_spending now other prompt comp cost tm)
unfolding record_spending update
record-other now key other prompt comp cost t tm apart v = record {
  config = v.config;
  usage = v.usage;
  there = lookup-insert other key _ tm.usage ∙ ground (arith, apart, v.there);
  fits = v.fits;
}

record-own :
    (now : Time) (key : String) (prompt comp cost : ℕ) (t : TenantConfig) (u : TenantUsage)
    (tm : TenantManager)
    → lookup key tm.tenants ≡ some t
    → lookup key tm.usage ≡ some u
    → Fits t (spend now prompt comp cost u)
    → Inv key t (record_spending now key prompt comp cost tm)
unfolding record_spending update
record-own now key prompt comp cost t u tm config there fits = record {
  config = config;
  usage = spend now prompt comp cost u;
  there = lookup-insert_self key _ tm.usage ∙ ap some (rw there refl);
  fits = fits;
}

accept-Inv :
    (now : Time) (key : String) (r : Request) (t : TenantConfig) (tm : TenantManager)
    → Inv key t tm
    → (check now key r tm).1.over_quota ≡ none
    → Inv key t (record_spending now key r.prompt r.comp (cost_of_request r) (check now key r tm).0)
accept-Inv now key r t tm v accepted =
    let a = (check-IsAdmitted now key r tm).0 accepted in
    let same : a.tenant ≡ t = some-injective a.tenant t (sym a.found ∙ v.config) in
    let w : IsWithin t v.usage r =
      subst (λ c. IsWithin c v.usage r) same (a.within v.usage v.there) in
    let (on_old, on_new) = accepted-Fits now t v.usage r w v.fits in
    let config = (check-Inv now key key r t tm v).config in
    elim (check-usage now key r t tm v) [
      | inl kept ↦ record-own now key _ _ _ t v.usage _ config kept on_old
      | inr renewed ↦ record-own now key _ _ _ t new_tenant _ config renewed on_new
    ]

serve-Inv :
    (now : Time) (key other : String) (r : Request) (t : TenantConfig) (tm : TenantManager)
    → Inv key t tm
    → Inv key t (serve now other r tm)
unfolding serve
serve-Inv now key other r t tm v =
    let tm' = (check now other r tm).0 in
    let v' = check-Inv now key other r t tm v in
    elim (Option-cases (check now other r tm).1.over_quota) [
      | inr (reason, refused_) ↦ rw (refused_, serve) v'
      | inl accepted ↦ elim (Bool-cases (str_eq other key)) [
        | inr apart ↦ rw (accepted, serve) (record-other now key other _ _ _ t tm' apart v')
        | inl mine ↦
            let same : other ≡ key = ground (arith, mine, eq_iff other key) in
            rw (accepted, serve)
              (rw same (
                accept-Inv now key r t tm v
                  (subst (λ k. (check now k r tm).1.over_quota ≡ none) same accepted)))
      ]
    ]

serve_all-Inv :
    (cs : List Call) (key : String) (t : TenantConfig) (tm : TenantManager)
    → Inv key t tm
    → Inv key t (serve_all cs tm)
unfolding serve_all
serve_all-Inv [] key t tm v = v
serve_all-Inv (c ∷ cs) key t tm v =
    serve_all-Inv cs key t _ (serve-Inv c.now key c.key c.request t tm v)

-- Where each request is recorded once its check has no objection, the tokens and the costs of a
-- tenant with quotas stay within them, whatever the requests of all tenants, in whatever months.
pub serve_all_registered-Inv :
    (now : Time) (cfg : TenantConfig) (cs : List Call) (tm : TenantManager)
    → lookup cfg.key tm.usage ≡ none
    → Inv cfg.key (with_defaults now cfg) (serve_all cs (register now cfg tm))
unfolding register
serve_all_registered-Inv now cfg cs tm new_key = serve_all-Inv cs cfg.key _ _ (record {
  config = lookup-insert_self cfg.key _ tm.tenants;
  usage = new_tenant;
  there = rw (new_key, register) (lookup-insert_self cfg.key new_tenant tm.usage);
  fits = new_tenant-Fits _;
})

-- The first check of a month is made against the usage of the month before: a tenant that had used
-- its tokens up is refused, although its usage is a new one from then on.
pub first_check_refuses :
    (now : Time) (key : String) (r : Request) (t : TenantConfig) (u : TenantUsage)
    (tm : TenantManager)
    → lookup key tm.tenants ≡ some t
    → lookup key tm.usage ≡ some u
    → t.enabled ≡ true
    → t.allowed_models ≡ []
    → 0 < t.monthly_tokens
    → t.monthly_tokens < u.usage.prompt_tokens + r.prompt + u.usage.completion_tokens + r.comp
    → is_month now tm.last_reset ≡ false
    → let (tm', status) = check now key r tm in
      (status.over_quota ≡ some token_quota_exceeded) × (lookup key tm'.usage ≡ some new_tenant)
unfolding check check_tenant check_quotas check_tokens try_monthly_reset
first_check_refuses now key r t u tm found there on any_model quota beyond over =
    let e = lookup-reset_all key tm.usage in
    (
      ground (arith, found, there, on, any_model, quota, beyond),
      ground (arith, found, on, over, e, there),
    )
