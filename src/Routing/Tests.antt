-- ===== src/Routing/Tests.antt =====
-- server/routing.go: a pool of three providers and two rules, and the theorems at concrete inputs.
use mathlib.Core.List.{Permᴰ}
use switch.Prelude.Sort.{keep, insert_by, sort_by, IsOrdered}
use switch.Prelude.{ℕ, String, ◌≡◌, refl, ◌⊎◌, true, none, some, List, [], ◌∷◌, map, arith, length}
use switch.Circuit
use switch.Routing.Pool.{
  ProviderSnapshot, is_eligible, pool_eligible, by_priority, preferred, top_tier, RoutingCandidate,
  total_score, pick_from, weighted_pick, select_from_pool, by_preference, routing_candidates,
}
use switch.Routing.Pool.Weighted.{weighted_pick-share, score_before}
use switch.Routing.Pool.Choice.{select_from_pool-IsChoice, IsChoice}
use switch.Routing.Pool.Chain.{routing_candidates-IsOrdered, Precedes}
use switch.Routing.Rules.{
  Text, RoutingRule, same_text, trim_front, reverse_onto, trim_space, normal, split_comma, any_part,
  match_list, rule_matches, match_rule,
}
use switch.Routing.Request.{RoutingState, route_request}
use switch.Routing.Request.Usable.{route_request-IsUsable, IsUsable}

abbrev provider : String → Circuit.State → ℕ → ProviderSnapshot
provider name circuit priority = record {
  name = name;
  active = true;
  key_configured = true;
  circuit = circuit;
  priority = priority;
}

abbrev providers : List ProviderSnapshot
providers =
    provider "a" Circuit.closed 1
    ∷ provider "b" Circuit.opened 9
    ∷ provider "c" Circuit.half_open 4
    ∷ []

abbrev even_score : List ProviderSnapshot → ProviderSnapshot → ℕ
even_score ps p = 1

-- "b" has the highest priority and an open circuit: "c" is chosen.
skips_open : select_from_pool even_score 7 5 [] providers ≡ "c"
unfolding select_from_pool pool_eligible is_eligible preferred top_tier sort_by insert_by keep
    by_priority weighted_pick total_score pick_from
skips_open = refl

chain_of_three : routing_candidates even_score [] providers ≡ "c" ∷ "a" ∷ "b" ∷ []
unfolding routing_candidates pool_eligible is_eligible sort_by insert_by keep by_preference
chain_of_three = refl

select_from_pool-IsChoice_example :
    let chosen = select_from_pool even_score 7 5 [] providers in
    ((p : ProviderSnapshot) × IsChoice [] providers p × (chosen ≡ p.name))
    ⊎ ((length (pool_eligible [] providers) ≡ 0) × (chosen ≡ ""))
select_from_pool-IsChoice_example = select_from_pool-IsChoice even_score 7 5 [] providers

routing_candidates-IsOrdered_example :
    let eligible = pool_eligible [] providers in
    (chain : List ProviderSnapshot) × (routing_candidates even_score [] providers
      ≡ map (λ p. p.name) chain)
    × Permᴰ chain eligible
    × IsOrdered (Precedes even_score eligible) chain
routing_candidates-IsOrdered_example = routing_candidates-IsOrdered even_score [] providers

abbrev two_to_one : List RoutingCandidate
two_to_one = record { name = "a"; score = 2 } ∷ record { name = "c"; score = 1 } ∷ []

weighted_pick-share_example : weighted_pick 0 2 two_to_one ≡ "c"
unfolding score_before
weighted_pick-share_example =
    weighted_pick-share 0 2 1 two_to_one (omega arith) (omega arith) (omega arith)

-- Two rules: "code, Chat" goes to "b"; everything goes to "z", which is not there.
abbrev rules : List (RoutingRule ℕ)
rules =
    record {
      name = "talk";
      match_on = record { intent = codes_talk; complexity = []; model = "" };
      route = record { provider = "b"; model = "m"; thinking = none };
    }
    ∷ record {
      name = "rest";
      match_on = record { intent = []; complexity = []; model = "" };
      route = record { provider = "z"; model = "n"; thinking = some 0 };
    }
    ∷ []
  where
    codes_talk : Text
    codes_talk = b'c' ∷ b'o' ∷ b'd' ∷ b'e' ∷ b',' ∷ b' ' ∷ b'C' ∷ b'h' ∷ b'a' ∷ b't' ∷ []

abbrev chat : Text
chat = b' ' ∷ b'C' ∷ b'H' ∷ b'A' ∷ b'T' ∷ []

abbrev talk_rule : RoutingRule ℕ
talk_rule = elim rules [
  | [] ↦ record {
    name = "";
    match_on = record { intent = []; complexity = []; model = "" };
    route = record { provider = ""; model = ""; thinking = none };
  }
  | r ∷ rs ↦ r
]

finds_talk : match_rule chat [] "gpt" rules ≡ some talk_rule
unfolding match_rule rule_matches match_list any_part split_comma normal trim_space trim_front
    reverse_onto same_text
finds_talk = refl

abbrev routing : RoutingState ℕ
routing = record { rules = rules; pool = []; affinity = none; affinity_sig = [] }

abbrev no_hash : String → ℕ
no_hash key = 0

abbrev index_hash : String → ℕ → ℕ
index_hash name i = i

route_request-IsUsable_example :
    let d =
      (route_request no_hash index_hash no_hash even_score 0 7 5 chat [] "gpt" "k" providers
        routing).1 in
    (d.provider ≡ "") ⊎ IsUsable providers d.provider
route_request-IsUsable_example =
    route_request-IsUsable no_hash index_hash no_hash even_score 0 7 5 chat [] "gpt" "k" providers
      routing
