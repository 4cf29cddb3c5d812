-- ===== src/Costs/Tests.antt =====
-- provider/cost.go: the tracker and the whitelist at concrete values.
use switch.Prelude.Dict.{lookup, insert, update}
use switch.Prelude.{ℕ, String, ◌≡◌, refl, none, some, List, [], ◌∷◌, ◌++◌, map, ltb, if◌then◌else◌}
use switch.Costs.{
  UsageRecord, cost_of, CostTracker, add_usage, record_locked, append_log, record_usage, replay_log,
  new_cost_tracker, daily_tokens_of, ModelWhitelist, set_whitelist,
}
use switch.Costs.Replay.{run, Request, entry_of, IsLedger, entries_in, run-IsLedger}
use switch.Costs.Restart.{Agree, restart-Agree}

abbrev one_day : ℕ → String
one_day s = if ltb s 86400 then "1970-01-01" else "1970-01-02"

abbrev old_record : UsageRecord
old_record = record {
  ts = 5;
  key = "a";
  provider = "p";
  model = "m";
  prompt = 10;
  complete = 2;
  cost_usd = 30;
}

abbrev requests : List Request
requests =
    record {
      key = "a";
      provider = "p";
      model = "m";
      prompt = 100;
      completion = 50;
      pricing = some (record { input_price = 2; output_price = 3 });
      ts = 7_500_000_000;
    }
    ∷ record {
      key = "b";
      provider = "p";
      model = "m";
      prompt = 1;
      completion = 1;
      pricing = none;
      ts = 90_000_000_000_000;
    }
    ∷ []

abbrev tracker : CostTracker
tracker = run one_day requests (new_cost_tracker one_day (some (old_record ∷ [])))

total_cost :
    tracker.total
    ≡ record { prompt_tokens = 111; completion_tokens = 53; requests = 3; cost_usd = 380 }
unfolding run record_usage record_locked append_log new_cost_tracker replay_log add_usage cost_of
total_cost = refl

tokens_of_a_day : daily_tokens_of one_day "a" 10_000_000_000 tracker ≡ 162
unfolding run record_usage record_locked append_log new_cost_tracker replay_log add_usage cost_of
    daily_tokens_of lookup insert update
tokens_of_a_day = refl

run-IsLedger_example :
    IsLedger one_day (entries_in one_day (some (old_record ∷ [])) ++ map entry_of requests) tracker
run-IsLedger_example = run-IsLedger one_day (some (old_record ∷ [])) requests

restart-Agree_example : Agree one_day (new_cost_tracker one_day tracker.log) tracker
restart-Agree_example = restart-Agree one_day (old_record ∷ []) requests

abbrev whitelists : ModelWhitelist
whitelists = set_whitelist "a" ("m" ∷ []) []
