-- ===== src/Prefix/Warmup.antt =====
-- prefix/warmup.go: WarmScheduler. The upstream call, the choice by affinity and the site's number of
-- input tokens are functions of the candidate's place in the tick, so that they may answer
-- differently each time. The cap is a ratio. A nil scheduler and nil functions, for which Tick does
-- nothing, are no values here.
pub mod Limits
pub mod Ticks
pub mod Cap
use Prim.Native.String.{◌++◌}
use switch.Prelude.{
  ℕ, suc, ◌+◌, ◌-◌, ◌*◌, String, Bool, true, ◌&&◌, ◌||◌, not, Option, none, some, List, [], ◌∷◌,
  str_eq, ltb, leb, ◌==◌, if◌then◌else◌, length,
}
use switch.Circuit.{Ratio}
use switch.Quota.{QuotaCoordinator, warm_allowed}
use switch.Prefix.{Message, PrefixRecord}
use switch.Prefix.Profiler.{Profiler, top}

pub record WarmupConfig : Type 0 where
  pub enabled : Bool
  pub trigger_req : ℕ
  pub trigger_hit_tokens : ℕ
  pub idle_after : ℕ
  pub tail_token : List ℕ
  pub global_cap_ratio : Ratio
  pub max_warm_per_tick : ℕ

unfoldable pub with_defaults : WarmupConfig → WarmupConfig
with_defaults cfg = record cfg {
  tail_token = if length cfg.tail_token == 0 then 46 ∷ [] else cfg.tail_token;
  max_warm_per_tick = if cfg.max_warm_per_tick == 0 then 20 else cfg.max_warm_per_tick;
  global_cap_ratio =
      if cfg.global_cap_ratio.num == 0 then record { num = 2; den = 100 } else cfg.global_cap_ratio;
}

pub record WarmScheduler : Type 0 where
  pub cfg : WarmupConfig
  pub quota : Option QuotaCoordinator
  pub warm_requests : ℕ
  pub warm_late : ℕ
  pub warm_input_tokens : ℕ

unfoldable pub new_warm_scheduler : WarmupConfig → Option QuotaCoordinator → WarmScheduler
new_warm_scheduler cfg quota = record {
  cfg = with_defaults cfg;
  quota = quota;
  warm_requests = 0;
  warm_late = 0;
  warm_input_tokens = 0;
}

pub record Tokens : Type 0 where
  pub prompt : ℕ
  pub cached : ℕ

-- The answer of the upstream, with its usage if it has one.
pub data Answer : Type 0 where
  failed : Answer
  answered : Option Tokens → Answer

-- One warm-up request, as it is sent.
pub record Sent : Type 0 where
  pub provider : String
  pub messages : List Message
  pub max_tokens : ℕ

unfoldable pub hot_enough : WarmupConfig → PrefixRecord → Bool
hot_enough cfg r =
    leb cfg.trigger_req r.req_count
    || (ltb 0 cfg.trigger_hit_tokens && leb cfg.trigger_hit_tokens r.hit_tokens)

unfoldable pub within_global_cap : ℕ → WarmScheduler → Bool
within_global_cap total w =
    if total == 0
    then true
    else leb (w.warm_input_tokens * w.cfg.global_cap_ratio.den) (w.cfg.global_cap_ratio.num * total)

-- The last message has the fixed tail for its content.
unfoldable pub with_tail : List ℕ → List Message → List Message
with_tail tail [] = []
with_tail tail (m ∷ []) = record m { content = tail } ∷ []
with_tail tail (m ∷ n ∷ ms) = m ∷ with_tail tail (n ∷ ms)

unfoldable pub count_answer : Option Tokens → WarmScheduler → WarmScheduler
count_answer none w = record w { warm_requests = suc w.warm_requests }
count_answer (some t) w = record w {
  warm_requests = suc w.warm_requests;
  warm_input_tokens = w.warm_input_tokens + t.prompt;
  warm_late = if t.cached == 0 then suc w.warm_late else w.warm_late;
}

unfoldable pub ask_quota : ℕ → String → String → WarmScheduler → WarmScheduler × Bool
ask_quota now provider fp w = elim w.quota [
  | none ↦ (w, true)
  | some q ↦
      let (q', allowed) = warm_allowed now (provider ++ "|" ++ fp) q in
      (record w { quota = some q' }, allowed)
]

-- What Tick makes of a candidate before it asks the quota.
pub data Verdict : Type 0 where
  stop skip : Verdict
  warm : String → Verdict

unfoldable pub judge : ℕ → ℕ → (String → String → String) → WarmScheduler → PrefixRecord → Verdict
judge now total affinity_of w r =
    let provider = affinity_of r.fp r.tenant in
    if not (hot_enough w.cfg r)
    then skip
    else if ltb (now - r.last_access) w.cfg.idle_after
    then skip
    else if length r.last_messages == 0
    then skip
    else if not (within_global_cap total w)
    then stop
    else if str_eq provider ""
    then skip
    else warm provider

abbrev pub request_for : String → WarmScheduler → PrefixRecord → Sent
request_for provider w r = record {
  provider = provider;
  messages = with_tail w.cfg.tail_token r.last_messages;
  max_tokens = 1;
}

module _ (now : ℕ) (total_input_of : ℕ → ℕ) (affinity_of : ℕ → String → String → String)
    (generate : ℕ → Sent → Answer) where
  -- The loop over the candidates from place i on, with those warmed so far; what it has sent.
  unfoldable pub tick_from : ℕ → ℕ → List PrefixRecord → WarmScheduler → WarmScheduler × List Sent
  tick_from i warmed [] w = (w, [])
  tick_from i warmed (r ∷ rs) w =
      if leb w.cfg.max_warm_per_tick warmed
      then (w, [])
      else elim (judge now (total_input_of i) (affinity_of i) w r) [
        | stop ↦ (w, [])
        | skip ↦ tick_from (suc i) warmed rs w
        | warm provider ↦
            let (w', allowed) = ask_quota now provider r.fp w in
            let skipped = tick_from (suc i) warmed rs w' in
            if not allowed then skipped else elim (generate i (request_for provider w' r)) [
              | failed ↦
                  let (w'', sent) = tick_from (suc i) warmed rs w' in
                  (w'', request_for provider w' r ∷ sent)
              | answered usage ↦
                  let (w'', sent) = tick_from (suc i) (suc warmed) rs (count_answer usage w') in
                  (w'', request_for provider w' r ∷ sent)
            ]
      ]

  unfoldable pub tick : Profiler → WarmScheduler → WarmScheduler × List Sent
  tick p w =
      if w.cfg.enabled then tick_from 0 0 (top (w.cfg.max_warm_per_tick * 10) p) w else (w, [])
