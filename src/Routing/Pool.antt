-- ===== src/Routing/Pool.antt =====
-- server/routing.go and server/routing_pool.go: the routing pool and the weighted choice from it.
-- A priority is a number in ℕ. `score ps p` is effectiveWeight of p, with the lowest price among
-- ps, in a unit that makes the scores whole numbers; what is proved holds for every score. The random
-- numbers are arguments, of which IntN takes the remainder by its bound, and Float64() * total the
-- remainder by the total.
pub mod Weighted
pub mod Choice
pub mod Chain
pub mod Toggle
use Prim.Native.String.{compare}
use text.Mathlib.Text.{is_lt}
use switch.Prelude.Dict.{Dict, lookup, insert, remove}
use switch.Prelude.Sort.{keep, sort_by}
use switch.Prelude.{
  ℕ, ◌+◌, ◌-◌, String, Bool, true, false, ◌&&◌, ◌||◌, not, Option, none, some, List, [], ◌∷◌, map,
  str_eq, ltb, ◌==◌, if◌then◌else◌, length, get_or, ◌%◌,
}
use switch.Circuit

-- What routing reads of a provider's snapshot.
pub record ProviderSnapshot : Type 0 where
  pub name : String
  pub active : Bool
  pub key_configured : Bool
  pub circuit : Circuit.State
  pub priority : ℕ

abbrev pub is_open : ProviderSnapshot → Bool
is_open p = elim p.circuit [
  | Circuit.closed ↦ false
  | Circuit.opened ↦ true
  | Circuit.half_open ↦ false
]

unfoldable pub provider_snapshot : String → List ProviderSnapshot → Option ProviderSnapshot
provider_snapshot name [] = none
provider_snapshot name (p ∷ ps) =
    let later = provider_snapshot name ps in if str_eq p.name name then some p else later

unfoldable pub in_pool : String → Dict Bool → Bool
in_pool name pool = elim (lookup name pool) [ none ↦ false | some b ↦ b ]

unfoldable pub is_eligible : Dict Bool → ProviderSnapshot → Bool
is_eligible pool p = p.active && p.key_configured && (length pool == 0 || in_pool p.name pool)

unfoldable pub pool_eligible : Dict Bool → List ProviderSnapshot → List ProviderSnapshot
pool_eligible pool ps = keep (is_eligible pool) ps

-- Higher priority first, then by name.
unfoldable pub by_priority : ProviderSnapshot → ProviderSnapshot → Bool
by_priority p q =
    if p.priority == q.priority then is_lt (compare p.name q.name) else ltb q.priority p.priority

-- Those whose circuit is not open, or all if there is none.
unfoldable pub preferred : List ProviderSnapshot → List ProviderSnapshot
preferred eligible =
    let healthy = keep (λ p. not (is_open p)) eligible in
    if length healthy == 0 then eligible else healthy

-- The first ones of a sorted list that share the first one's priority, and all later such ones.
unfoldable pub top_tier : List ProviderSnapshot → List ProviderSnapshot
top_tier [] = []
top_tier (p ∷ ps) = keep (λ q. q.priority == p.priority) (p ∷ ps)

pub record RoutingCandidate : Type 0 where
  pub name : String
  pub score : ℕ

unfoldable pub total_score : List RoutingCandidate → ℕ
total_score [] = 0
total_score (c ∷ cs) = c.score + total_score cs

-- The loop over the candidates; `last` is the name to return at the end.
unfoldable pub pick_from : ℕ → String → List RoutingCandidate → String
pick_from x last [] = last
pick_from x last (c ∷ cs) =
    let later = pick_from (x - c.score) c.name cs in if ltb x c.score then c.name else later

abbrev pub no_candidate : RoutingCandidate
no_candidate = record { name = ""; score = 0 }

unfoldable pub weighted_pick : ℕ → ℕ → List RoutingCandidate → String
weighted_pick index x cands =
    if length cands == 0
    then ""
    else if total_score cands == 0
    then (get_or cands (index % length cands) no_candidate).name
    else pick_from (x % total_score cands) "" cands

module _ (score : List ProviderSnapshot → ProviderSnapshot → ℕ) where
  abbrev pub candidate : List ProviderSnapshot → ProviderSnapshot → RoutingCandidate
  candidate tier p = record { name = p.name; score = score tier p }

  unfoldable pub select_from_pool : ℕ → ℕ → Dict Bool → List ProviderSnapshot → String
  select_from_pool index x pool ps =
      let tier = top_tier (sort_by by_priority (preferred (pool_eligible pool ps))) in
      weighted_pick index x (map (candidate tier) tier)

  -- Open circuits last, then higher priority, then higher score, then by name.
  unfoldable pub by_preference : List ProviderSnapshot → ProviderSnapshot → ProviderSnapshot → Bool
  by_preference all p q =
      if is_open p
      then (if is_open q then by_rank all p q else false)
      else (if is_open q then true else by_rank all p q)
    where
      by_rank : List ProviderSnapshot → ProviderSnapshot → ProviderSnapshot → Bool
      by_rank all p q =
          if p.priority == q.priority
          then (if score all p == score all q
              then is_lt (compare p.name q.name)
              else ltb (score all q) (score all p))
          else ltb q.priority p.priority

  unfoldable pub routing_candidates : Dict Bool → List ProviderSnapshot → List String
  routing_candidates pool ps =
      let eligible = pool_eligible pool ps in
      map (λ p. p.name) (sort_by (by_preference eligible) eligible)

-- What toggleRoutingPool answers.
pub data ToggleResult : Type 0 where
  added removed provider_required not_usable not_found bad_action : ToggleResult

unfoldable pub add_found : Option ProviderSnapshot → Dict Bool → Dict Bool × ToggleResult
add_found none pool = (pool, not_found)
add_found (some p) pool =
    if p.active && p.key_configured then (insert p.name true pool, added) else (pool, not_usable)

unfoldable pub toggle :
    String → String → List ProviderSnapshot → Dict Bool → Dict Bool × ToggleResult
toggle provider action ps pool =
    if str_eq provider ""
    then (pool, provider_required)
    else if str_eq action "add"
    then add_found (provider_snapshot provider ps) pool
    else if str_eq action "remove"
    then (remove provider pool, removed)
    else (pool, bad_action)
