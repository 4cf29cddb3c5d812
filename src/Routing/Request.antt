-- ===== src/Routing/Request.antt =====
-- server/routing.go: routeRequest, which joins the rules, affinity and the pool. The intent and the
-- complexity are the headers' values; `key` is the fingerprint and tenant that affinityPick makes;
-- `weight` is the configured weight of a name, 0 when there is none.
pub mod Usable
use Prim.Native.String.{compare}
use text.Mathlib.Text.{is_lt}
use switch.Prelude.Dict.{Dict}
use switch.Prelude.Sort.{sort_by}
use switch.Prelude.{
  ℕ, String, Bool, true, false, ◌&&◌, not, Option, none, some, List, [], ◌∷◌, map, str_eq, ◌==◌,
  if◌then◌else◌,
}
use switch.Affinity.Ring.{AffinityNode}
use switch.Affinity.Router.{AffinityRouter, Reason, set_ring, affinity_pick}
use switch.Routing.Pool.{
  ProviderSnapshot, is_open, provider_snapshot, pool_eligible, select_from_pool,
}
use switch.Routing.Rules.{Text, RoutingRule, By, RouteDecision, match_rule, apply_rule}

-- What routing keeps. The signature of the ring is the list of its nodes.
pub record RoutingState (T : Type 0) : Type 0 where
  pub rules : List (RoutingRule T)
  pub pool : Dict Bool
  pub affinity : Option AffinityRouter
  pub affinity_sig : List AffinityNode

pub data DecidedBy : Type 0 where
  by_rule : By → DecidedBy
  by_affinity : Reason → DecidedBy
  by_weight : DecidedBy

pub record Routed (T : Type 0) : Type 0 where
  pub provider : String
  pub model : String
  pub thinking : Option T
  pub decided_by : DecidedBy

unfoldable pub affinity_healthy : List ProviderSnapshot → String → Bool
affinity_healthy ps name = elim (provider_snapshot name ps) [
  | none ↦ false
  | some p ↦ p.active && p.key_configured && not (is_open p)
]

abbrev pub by_name : AffinityNode → AffinityNode → Bool
by_name m n = is_lt (compare m.name n.name)

unfoldable pub ring_nodes : (String → ℕ) → List ProviderSnapshot → List AffinityNode
ring_nodes weight eligible = sort_by by_name (
    map (λ p. record { name = p.name; weight = if weight p.name == 0 then 1 else weight p.name })
      eligible)

unfoldable pub same_nodes : List AffinityNode → List AffinityNode → Bool
same_nodes [] [] = true
same_nodes [] (n ∷ ns) = false
same_nodes (m ∷ ms) [] = false
same_nodes (m ∷ ms) (n ∷ ns) = str_eq m.name n.name && m.weight == n.weight && same_nodes ms ns

module _ {T : Type 0} (score : List ProviderSnapshot → ProviderSnapshot → ℕ) where
  abbrev pub from_pool : ℕ → ℕ → List ProviderSnapshot → RoutingState T → Routed T
  from_pool index x ps s = record {
    provider = select_from_pool score index x s.pool ps;
    model = "";
    thinking = none;
    decided_by = by_weight;
  }

module _ {T : Type 0} where
  abbrev pub ruled : RouteDecision T → Routed T
  ruled d = record {
    provider = d.provider;
    model = d.model;
    thinking = d.thinking;
    decided_by = by_rule d.by;
  }

module _ {T : Type 0} (hash_key : String → ℕ) (vnode_hash : String → ℕ → ℕ)
    (weight : String → ℕ) where
  unfoldable pub rebuild_affinity_ring :
      List ProviderSnapshot → AffinityRouter → RoutingState T → AffinityRouter × RoutingState T
  rebuild_affinity_ring ps a s =
      let nodes = ring_nodes weight (pool_eligible s.pool ps) in
      if same_nodes nodes s.affinity_sig
      then (a, s)
      else (set_ring hash_key vnode_hash nodes a, record s { affinity_sig = nodes })

module _ {T : Type 0} (hash_key : String → ℕ) (vnode_hash : String → ℕ → ℕ) (weight : String → ℕ)
    (score : List ProviderSnapshot → ProviderSnapshot → ℕ) where
  -- What follows when no rule matches.
  unfoldable pub route_unruled :
      ℕ
      → ℕ
      → ℕ
      → String
      → List ProviderSnapshot
      → Option AffinityRouter
      → RoutingState T
      → RoutingState T × Routed T
  route_unruled now index x key ps none s = (s, from_pool score index x ps s)
  route_unruled now index x key ps (some a) s =
      let (b, s') = rebuild_affinity_ring hash_key vnode_hash weight ps a s in
      let (c, (p, reason)) = affinity_pick hash_key now key (some (affinity_healthy ps)) b in
      let s'' = record s' { affinity = some c } in
      if str_eq p "" then (s'', from_pool score index x ps s) else (
        s'',
        record { provider = p; model = ""; thinking = none; decided_by = by_affinity reason },
      )

  unfoldable pub route_request :
      ℕ
      → ℕ
      → ℕ
      → Text
      → Text
      → String
      → String
      → List ProviderSnapshot
      → RoutingState T
      → RoutingState T × Routed T
  route_request now index x intent complexity model key ps s =
      elim (match_rule intent complexity model s.rules) [
        | some r ↦ (s, ruled (apply_rule ps r))
        | none ↦ route_unruled now index x key ps s.affinity s
      ]
