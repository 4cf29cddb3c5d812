-- ===== src/Costs/Replay.antt =====
-- provider/cost.go: the tracker over a log and a history of requests.
use mathlib.Core.List.{append-nil}
use switch.Prelude.Dict.{lookup}
use switch.Prelude.{
  ℕ, ◌*◌, ◌/◌, String, ◌≡◌, refl, ap, ◌∙◌, inl, inr, Option, none, some, List, [], ◌∷◌, ◌++◌, map,
  arith, Option-cases, sym, ◌&&◌, snoc-append,
}
use switch.Costs.{
  UsageRecord, second, TokenPricing, cost_of, CostTracker, no_usage, record_locked, append_log,
  record_usage, replay_log, new_cost_tracker,
}
use switch.Costs.Sums.{
  record_entry, record_entries, sum_of, tokens, tenant_of, model_usage, model_requests, tokens_on,
  no_usage-plus, of_key, of_model, of_day, any, Adds, record_entries-Adds,
}

-- A call of Record.
pub record Request : Type 0 where
  pub key : String
  pub provider : String
  pub model : String
  pub prompt : ℕ
  pub completion : ℕ
  pub pricing : Option TokenPricing
  pub ts : ℕ

-- What a request adds, at its time in nanoseconds.
abbrev pub entry_of : Request → UsageRecord
entry_of r = record {
  ts = r.ts;
  key = r.key;
  provider = r.provider;
  model = r.model;
  prompt = r.prompt;
  complete = r.completion;
  cost_usd = cost_of r.pricing r.prompt r.completion;
}

abbrev pub logged : UsageRecord → UsageRecord
logged e = record e { ts = e.ts / second }

abbrev pub replayed : UsageRecord → UsageRecord
replayed e = record e { ts = e.ts * second }

abbrev pub empty_tracker : CostTracker
empty_tracker = record {
  by_key = [];
  by_model = [];
  total = no_usage;
  daily_tokens = [];
  log = none;
}

abbrev without_log : CostTracker → CostTracker
without_log ct = record ct { log = none }

abbrev pub extend : List UsageRecord → Option (List UsageRecord) → Option (List UsageRecord)
extend more none = none
extend more (some recs) = some (recs ++ more)

module _ (date : ℕ → String) where
  unfoldable pub run : List Request → CostTracker → CostTracker
  run [] ct = ct
  run (r ∷ rs) ct =
      run rs (record_usage date r.key r.provider r.model r.prompt r.completion r.pricing r.ts ct)

  run-entries :
      (rs : List Request) (ct : CostTracker)
      → without_log (run rs ct) ≡ record_entries date (map entry_of rs) (without_log ct)
  unfolding run record_entries record_entry record_usage append_log record_locked
  run-entries [] ct = refl
  run-entries (r ∷ rs) ct =
      run-entries rs
        (record_usage date r.key r.provider r.model r.prompt r.completion r.pricing r.ts ct)

  pub run-log :
      (rs : List Request) (ct : CostTracker)
      → (run rs ct).log ≡ extend (map (λ r. logged (entry_of r)) rs) ct.log
  unfolding run record_usage append_log record_locked
  run-log [] ct = elim (Option-cases ct.log) [
    | inl unlogged ↦ rw unlogged refl
    | inr (recs, e) ↦ rw e (ap some (sym (append-nil recs)))
  ]
  run-log (r ∷ rs) ct = elim (Option-cases ct.log) [
    | inl unlogged ↦ run-log rs _ ∙ rw unlogged refl
    | inr (recs, e) ↦ run-log rs _ ∙ rw e (ap some (snoc-append recs _ _))
  ]

  replay-entries :
      (recs : List UsageRecord) (ct : CostTracker)
      → without_log (replay_log date recs ct)
        ≡ record_entries date (map replayed recs) (without_log ct)
  unfolding replay_log record_entries record_entry record_locked
  replay-entries [] ct = refl
  replay-entries (rec ∷ recs) ct = replay-entries recs (
      record_locked date rec.key rec.model rec.prompt rec.complete rec.cost_usd (rec.ts * second)
        ct)

  record_entries-append :
      (xs ys : List UsageRecord) (ct : CostTracker)
      → record_entries date (xs ++ ys) ct ≡ record_entries date ys (record_entries date xs ct)
  unfolding record_entries
  record_entries-append [] ys ct = refl
  record_entries-append (x ∷ xs) ys ct = record_entries-append xs ys (record_entry date x ct)

  -- The tracker keeps the sums over these entries and nothing else.
  pub record IsLedger (es : List UsageRecord) (ct : CostTracker) : Type 0 where
    pub tenant : (key : String) → (tenant_of key ct).usage ≡ sum_of (of_key key) es
    pub models :
        (key model : String)
        → model_requests model (tenant_of key ct)
          ≡ (sum_of (λ e. of_key key e && of_model model e) es).requests
    pub model : (model : String) → model_usage model ct ≡ sum_of (of_model model) es
    pub total : ct.total ≡ sum_of (any) es
    pub daily : (day : String) → tokens_on day ct ≡ tokens (sum_of (of_day date day) es)

  pub entries-IsLedger :
      (es : List UsageRecord) (ct : CostTracker)
      → without_log ct ≡ record_entries date es empty_tracker
      → IsLedger es ct
  unfolding lookup
  entries-IsLedger es ct e =
      let a : Adds date es empty_tracker (without_log ct) =
        rw e (record_entries-Adds date es empty_tracker) in
      record {
        tenant = λ key. a.tenant key ∙ no_usage-plus _;
        models = λ key model. a.models key model ∙ omega arith;
        model = λ model. a.model model ∙ no_usage-plus _;
        total = a.total ∙ no_usage-plus _;
        daily = λ day. a.daily day ∙ omega arith;
      }

  -- The entries that a log holds.
  abbrev pub entries_in : Option (List UsageRecord) → List UsageRecord
  entries_in none = []
  entries_in (some recs) = map replayed recs

  pub new-entries :
      (log : Option (List UsageRecord))
      → without_log (new_cost_tracker date log) ≡ record_entries date (entries_in log) empty_tracker
  unfolding new_cost_tracker record_entries
  new-entries none = refl
  new-entries (some recs) = replay-entries recs _

  -- Whatever log the tracker starts with and whatever calls follow: the usage of every key and of
  -- every model, the requests of a key for a model, the total and the tokens of a day are the sums
  -- over the entries of the log and of the calls that belong to them.
  pub run-IsLedger :
      (log : Option (List UsageRecord)) (rs : List Request)
      → IsLedger (entries_in log ++ map entry_of rs) (run rs (new_cost_tracker date log))
  run-IsLedger log rs = entries-IsLedger _ _ (
      run-entries rs (new_cost_tracker date log)
      ∙ ap (record_entries date (map entry_of rs)) (new-entries log)
      ∙ sym (record_entries-append (entries_in log) (map entry_of rs) empty_tracker))
