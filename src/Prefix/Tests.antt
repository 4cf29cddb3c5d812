-- ===== src/Prefix/Tests.antt =====
-- prefix/profiler.go, prefix/warmup.go and prefix/fingerprint.go: a small profiler, a tick and a request.
use mathlib.Core.List.{Permᴰ}
use mathlib.Core.List.Memᴰ.{head, tail}
use switch.Prelude.Dict.{IsMap, lookup, remove}
use switch.Prelude.Sort.{sort_by, insert_by}
use switch.Prelude.{
  ℕ, String, List, if◌then◌else◌, ◌==◌, snoc, take, ◌++◌, ◌*◌, ◌≤◌, ◌≡◌, refl, true, none, some, [],
  ◌∷◌, arith, length, All,
}
use switch.Prefix.{PrefixRecord}
use switch.Prefix.{Message}
use switch.Prefix.Fingerprint.{
  fingerprint_request, sort_strings, sort_from, sink, reverse_strings, bytes_lt,
}
use switch.Prefix.Fingerprint.Order.{fingerprint_request-Permᴰ}
use switch.Prefix.Fingerprint.Stable.{fingerprint_request-snoc}
use switch.Prefix.Profiler.{
  Profiler, hit_block_layer, evict_if_needed, new_record, top, layer_from, remove_each,
}
use switch.Prefix.Profiler.Bounds.{bytes}
use switch.Prefix.Profiler.Evicted.{evict_if_needed-oldest}
use switch.Prefix.Warmup.{
  WarmScheduler, WarmupConfig, new_warm_scheduler, Tokens, Answer, Sent, tick, answered,
  with_defaults, tick_from, judge, hot_enough, within_global_cap, ask_quota, count_answer,
}
use switch.Prefix.Warmup.Ticks.{tick-IsWarming, IsWarming}

abbrev seen_at : String → ℕ → PrefixRecord
seen_at fp now = record (new_record fp) {
  req_count = 4;
  hit_tokens = 10;
  last_access = now;
  last_messages = record { role = "user"; content = 104 ∷ 105 ∷ [] } ∷ [];
}

-- Three records where two may stay.
abbrev crowded : Profiler
crowded = record {
  records = ("a", seen_at "a" 30) ∷ ("b", seen_at "b" 10) ∷ ("c", seen_at "c" 20) ∷ [];
  window = 900;
  max_records = 2;
}

evict_if_needed-oldest_example : (length (evict_if_needed crowded).records ≤ 2) × (10 ≤ 20)
unfolding IsMap lookup evict_if_needed remove_each sort_by insert_by remove
evict_if_needed-oldest_example =
    evict_if_needed-oldest crowded ("b", seen_at "b" 10) ("c", seen_at "c" 20)
      (refl, (refl, (refl, tt))) (tail (head refl)) refl (tail (head refl))

second_layer :
    hit_block_layer (record { segments = []; token_len = 5 ∷ 6 ∷ 7 ∷ []; fp = "f" }) 9 ≡ 1
unfolding hit_block_layer layer_from
second_layer = refl

abbrev warm_config : WarmupConfig
warm_config = record {
  enabled = true;
  trigger_req = 3;
  trigger_hit_tokens = 0;
  idle_after = 50;
  tail_token = [];
  global_cap_ratio = record { num = 0; den = 1 };
  max_warm_per_tick = 0;
}

abbrev scheduler : WarmScheduler
scheduler = new_warm_scheduler warm_config none

abbrev to_p : ℕ → String → String → String
to_p i fp tenant = "p"

abbrev answer : ℕ → Sent → Answer
answer i s = answered (some (record { prompt = 7; cached = 0 }))

warms_three : (tick 100 (λ i. 1000) to_p answer crowded scheduler).0.warm_requests ≡ 3
unfolding tick new_warm_scheduler with_defaults tick_from top sort_by insert_by judge hot_enough
    within_global_cap ask_quota count_answer
warms_three = refl

tick-IsWarming_example :
    let t = tick 100 (λ i. 1000) to_p answer crowded scheduler in
    All (IsWarming 100 scheduler.cfg to_p (top (scheduler.cfg.max_warm_per_tick * 10) crowded)) t.1
    × (t.0.warm_requests ≤ 20)
unfolding new_warm_scheduler with_defaults
tick-IsWarming_example = tick-IsWarming 100 (λ i. 1000) to_p answer crowded scheduler

answer-bounded : (i : ℕ) (s : Sent) (t : Tokens) → answer i s ≡ answered (some t) → t.prompt ≤ 7
answer-bounded i s t e = ground (arith, e)

-- Names each text by its first byte.
abbrev first_byte : List ℕ → String
first_byte [] = "empty"
first_byte (x ∷ xs) = if x == 1 then "one" else "other"

abbrev said : String → List ℕ → Message
said role bytes = record { role = role; content = bytes }

sorts_tools :
    sort_strings ((3 ∷ 1 ∷ []) ∷ (2 ∷ []) ∷ (3 ∷ []) ∷ []) ≡ (2 ∷ []) ∷ (3 ∷ []) ∷ (3 ∷ 1 ∷ []) ∷ []
unfolding sort_strings sort_from sink reverse_strings bytes_lt
sorts_tools = refl

abbrev chat : List Message
chat = said "system" (1 ∷ []) ∷ said "user" (2 ∷ []) ∷ []

fingerprint_request-Permᴰ_example :
    fingerprint_request first_byte chat ((3 ∷ []) ∷ (2 ∷ []) ∷ [])
    ≡ fingerprint_request first_byte chat ((2 ∷ []) ∷ (3 ∷ []) ∷ [])
fingerprint_request-Permᴰ_example = fingerprint_request-Permᴰ first_byte chat (Permᴰ.swap refl refl)

fingerprint_request-snoc_example :
    let t = fingerprint_request first_byte (snoc chat (said "user" (1 ∷ 4 ∷ []))) ((2 ∷ []) ∷ []) in
    let t' = fingerprint_request first_byte (snoc chat (said "tool" (5 ∷ []))) ((2 ∷ []) ∷ []) in
    (t.segments ≡ take 2 t'.segments ++ "one" ∷ []) × (t.token_len ≡ take 2 t'.token_len ++ 0 ∷ [])
fingerprint_request-snoc_example =
    fingerprint_request-snoc first_byte chat (said "user" (1 ∷ 4 ∷ [])) (said "tool" (5 ∷ []))
      ((2 ∷ []) ∷ []) refl refl
