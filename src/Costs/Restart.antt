-- ===== src/Costs/Restart.antt =====
-- provider/cost.go: the tracker that a restart makes of the log.
use switch.Prelude.{
  ℕ, ◌*◌, ◌/◌, String, ◌≡◌, refl, sym, ap, ◌∙◌, Bool, ◌&&◌, some, List, [], ◌∷◌, ◌++◌, map, arith,
}
use switch.Costs.{UsageRecord, second, CostTracker, record_locked, replay_log, new_cost_tracker}
use switch.Costs.Sums.{
  sum_of, plus, tokens, tenant_of, model_usage, model_requests, tokens_on, no_usage-plus, if_plus,
  of_key, of_model, any, of_day,
}
use switch.Costs.Replay.{
  run, Request, entry_of, logged, replayed, extend, run-log, IsLedger, entries-IsLedger,
  new-entries, run-IsLedger,
}

truncated : (n : ℕ) → n / second * second / second ≡ n / second
truncated n = omega arith

sum_of-append :
    (test : UsageRecord → Bool) (xs ys : List UsageRecord)
    → sum_of test (xs ++ ys) ≡ plus (sum_of test xs) (sum_of test ys)
unfolding sum_of
sum_of-append test [] ys = sym (no_usage-plus _)
sum_of-append test (x ∷ xs) ys =
    rw (sum_of-append test xs ys) (if_plus (test x) x.prompt x.complete x.cost_usd _ _)

-- A test that does not see fractions of a second gives the same sums of the log.
sum_of-logged :
    (test : UsageRecord → Bool) (rs : List Request)
    → ((e : UsageRecord) → test (replayed (logged e)) ≡ test e)
    → sum_of test (map replayed (map (λ r. logged (entry_of r)) rs)) ≡ sum_of test (map entry_of rs)
unfolding sum_of
sum_of-logged test [] blind = refl
sum_of-logged test (r ∷ rs) blind = rw (blind (entry_of r), sum_of-logged test rs blind) refl

map-append :
    (xs ys : List UsageRecord) → map replayed (xs ++ ys) ≡ map replayed xs ++ map replayed ys
map-append [] ys = refl
map-append (x ∷ xs) ys = ap (λ t. replayed x ∷ t) (map-append xs ys)

sum_of-restart :
    (test : UsageRecord → Bool) (recs : List UsageRecord) (rs : List Request)
    → ((e : UsageRecord) → test (replayed (logged e)) ≡ test e)
    → sum_of test (map replayed (recs ++ map (λ r. logged (entry_of r)) rs))
      ≡ sum_of test (map replayed recs ++ map entry_of rs)
sum_of-restart test recs rs blind =
    rw
      (
        map-append recs (map (λ r. logged (entry_of r)) rs),
        sum_of-append test (map replayed recs) (map replayed (map (λ r. logged (entry_of r)) rs)),
        sum_of-append test (map replayed recs) (map entry_of rs),
        sum_of-logged test rs blind,
      )
      refl

module _ (date : ℕ → String) where
  replay-log : (recs : List UsageRecord) (ct : CostTracker) → (replay_log date recs ct).log ≡ ct.log
  unfolding replay_log record_locked
  replay-log [] ct = refl
  replay-log (rec ∷ recs) ct = replay-log recs _

  new-log : (recs : List UsageRecord) → (new_cost_tracker date (some recs)).log ≡ some recs
  unfolding new_cost_tracker
  new-log recs = replay-log recs _

  -- What the tracker answers about every key, model and day.
  pub record Agree (ct ct' : CostTracker) : Type 0 where
    pub tenant : (key : String) → (tenant_of key ct).usage ≡ (tenant_of key ct').usage
    pub models :
        (key model : String)
        → model_requests model (tenant_of key ct) ≡ model_requests model (tenant_of key ct')
    pub model : (model : String) → model_usage model ct ≡ model_usage model ct'
    pub total : ct.total ≡ ct'.total
    pub daily : (day : String) → tokens_on day ct ≡ tokens_on day ct'

  -- A tracker with a log that is started again from the log it has written, after any calls, answers
  -- as it did before: the usage of every key and model, the total and the tokens of every day.
  pub restart-Agree :
      (recs : List UsageRecord) (rs : List Request)
      → let ct = run date rs (new_cost_tracker date (some recs)) in
        Agree (new_cost_tracker date ct.log) ct
  restart-Agree recs rs =
      let ct = run date rs (new_cost_tracker date (some recs)) in
      let now_ = run-IsLedger date (some recs) rs in
      let written = recs ++ map (λ r. logged (entry_of r)) rs in
      let log : ct.log ≡ some written =
        run-log date rs _ ∙ ap (extend (map (λ r. logged (entry_of r)) rs)) (new-log recs) in
      let again : IsLedger date (map replayed written) (new_cost_tracker date ct.log) =
        rw log (entries-IsLedger date _ _ (new-entries date (some written))) in
      let same =
        λ (test : UsageRecord → Bool)
            (blind : (e : UsageRecord) → test (replayed (logged e)) ≡ test e).
          sum_of-restart test recs rs blind in
      record {
        tenant = λ key. again.tenant key ∙ same (of_key key) (λ e. refl) ∙ sym (now_.tenant key);
        models = λ key model.
            again.models key model
            ∙ ap (λ u. u.requests) (same (λ e. of_key key e && of_model model e) (λ e. refl))
            ∙ sym (now_.models key model);
        model =
            λ model. again.model model ∙ same (of_model model) (λ e. refl) ∙ sym (now_.model model);
        total = again.total ∙ same any (λ e. refl) ∙ sym now_.total;
        daily = λ day.
            again.daily day
            ∙ ap tokens (same (of_day date day) (λ e. rw (truncated e.ts) refl))
            ∙ sym (now_.daily day);
      }
