-- ===== src/Costs.antt =====
-- provider/cost.go and TokenPricing of provider/models.go: the cost tracker with its log, and the
-- whitelist of models. A price is a whole number of a small unit for one token, so that costs add up
-- exactly. Time is nanoseconds in ℕ, in the log seconds; `date` gives the day of a second as a text.
-- The log is the list of its records, newest last; a tracker without a log has none.
pub mod Sums
pub mod Replay
pub mod Restart
pub mod Whitelist
mod Tests
use Prim.Native.String.{◌++◌}
use switch.Prelude.Dict.{Dict, lookup, insert, lookup_or, update}
use switch.Prelude.{
  ℕ, suc, ◌+◌, ◌*◌, ◌/◌, String, Bool, true, false, Option, none, some, List, [], ◌∷◌, ◌==◌,
  if◌then◌else◌, length, set, snoc,
}

abbrev pub second : ℕ
second = 1_000_000_000

pub record TokenPricing : Type 0 where
  pub input_price : ℕ
  pub output_price : ℕ

unfoldable pub cost_of : Option TokenPricing → ℕ → ℕ → ℕ
cost_of none prompt completion = 0
cost_of (some p) prompt completion = prompt * p.input_price + completion * p.output_price

-- TotalUsage, and ModelUsage without the name that is its key.
pub record Usage : Type 0 where
  pub prompt_tokens : ℕ
  pub completion_tokens : ℕ
  pub requests : ℕ
  pub cost_usd : ℕ

pub record TenantUsage : Type 0 where
  pub usage : Usage
  pub last_request : ℕ
  pub models : Dict ℕ

pub record UsageRecord : Type 0 where
  pub ts : ℕ
  pub key : String
  pub provider : String
  pub model : String
  pub prompt : ℕ
  pub complete : ℕ
  pub cost_usd : ℕ

pub record CostTracker : Type 0 where
  pub by_key : Dict TenantUsage
  pub by_model : Dict Usage
  pub total : Usage
  pub daily_tokens : Dict ℕ
  pub log : Option (List UsageRecord)

abbrev pub no_usage : Usage
no_usage = record { prompt_tokens = 0; completion_tokens = 0; requests = 0; cost_usd = 0 }

unfoldable pub add_usage : ℕ → ℕ → ℕ → Usage → Usage
add_usage prompt completion cost u = record {
  prompt_tokens = u.prompt_tokens + prompt;
  completion_tokens = u.completion_tokens + completion;
  requests = suc u.requests;
  cost_usd = u.cost_usd + cost;
}

abbrev pub new_tenant : TenantUsage
new_tenant = record { usage = no_usage; last_request = 0; models = [] }

unfoldable pub add_tenant : String → ℕ → ℕ → ℕ → ℕ → TenantUsage → TenantUsage
add_tenant model prompt completion cost ts u = record {
  usage = add_usage prompt completion cost u.usage;
  last_request = ts;
  models = update 0 model (λ n. suc n) u.models;
}

abbrev pub day_key : String → String → String
day_key key date = key ++ "|" ++ date

module _ (date : ℕ → String) where
  unfoldable pub record_locked : String → String → ℕ → ℕ → ℕ → ℕ → CostTracker → CostTracker
  record_locked key model prompt completion cost ts ct =
      let day = day_key key (date (ts / second)) in
      record ct {
        by_key = update new_tenant key (add_tenant model prompt completion cost ts) ct.by_key;
        by_model = update no_usage model (add_usage prompt completion cost) ct.by_model;
        total = add_usage prompt completion cost ct.total;
        daily_tokens = update 0 day (λ n. n + (prompt + completion)) ct.daily_tokens;
      }

  unfoldable pub append_log : UsageRecord → CostTracker → CostTracker
  append_log rec ct = record ct {
    log = elim ct.log [ none ↦ none | some recs ↦ some (snoc recs rec) ];
  }

  unfoldable pub record_usage :
      String → String → String → ℕ → ℕ → Option TokenPricing → ℕ → CostTracker → CostTracker
  record_usage key provider model prompt completion pricing ts ct =
      let cost = cost_of pricing prompt completion in
      append_log
        (record {
          ts = ts / second;
          key = key;
          provider = provider;
          model = model;
          prompt = prompt;
          complete = completion;
          cost_usd = cost;
        })
        (record_locked key model prompt completion cost ts ct)

  unfoldable pub replay_log : List UsageRecord → CostTracker → CostTracker
  replay_log [] ct = ct
  replay_log (rec ∷ recs) ct =
      replay_log recs
        (record_locked rec.key rec.model rec.prompt rec.complete rec.cost_usd (rec.ts * second) ct)

  -- The tracker of a log, which is empty where there is none.
  unfoldable pub new_cost_tracker : Option (List UsageRecord) → CostTracker
  new_cost_tracker none = record {
    by_key = [];
    by_model = [];
    total = no_usage;
    daily_tokens = [];
    log = none;
  }
  new_cost_tracker (some recs) =
      replay_log recs (record {
        by_key = [];
        by_model = [];
        total = no_usage;
        daily_tokens = [];
        log = some recs;
      })

  unfoldable pub daily_tokens_of : String → ℕ → CostTracker → ℕ
  daily_tokens_of key now ct = lookup_or 0 (day_key key (date (now / second))) ct.daily_tokens

abbrev pub ModelWhitelist : Type 0
ModelWhitelist = Dict (Dict Bool)

unfoldable pub set_of : List String → Dict Bool → Dict Bool
set_of [] set = set
set_of (model ∷ models) set = set_of models (insert model true set)

unfoldable pub set_whitelist : String → List String → ModelWhitelist → ModelWhitelist
set_whitelist key models mw = insert key (set_of models []) mw

abbrev pub allows : Dict Bool → String → Bool
allows set model =
    if length set == 0 then true else (elim (lookup model set) [ none ↦ false | some b ↦ b ])

unfoldable pub is_allowed : String → String → ModelWhitelist → Bool
is_allowed key model mw = elim (lookup key mw) [ none ↦ true | some set ↦ allows set model ]
