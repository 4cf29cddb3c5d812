-- ===== src/Routing/Rules.antt =====
-- server/routing.go: the rule layer. The values of headers and the lists in a rule are lists of
-- ASCII codes; T is the type of the thinking field, which routing hands on.
pub mod Match
use switch.Prelude.{
  ℕ, ◌+◌, String, Bool, true, false, ◌&&◌, ◌||◌, Option, none, some, List, [], ◌∷◌, map, str_eq,
  leb, ◌==◌, if◌then◌else◌,
}
use switch.Routing.Pool.{ProviderSnapshot, provider_snapshot}

abbrev pub Text : Type 0
Text = List ℕ

pub record RoutingMatch : Type 0 where
  pub intent : Text
  pub complexity : Text
  pub model : String

pub record RoutingAction (T : Type 0) : Type 0 where
  pub provider : String
  pub model : String
  pub thinking : Option T

pub record RoutingRule (T : Type 0) : Type 0 where
  pub name : String
  pub match_on : RoutingMatch
  pub route : RoutingAction T

-- What decided: a rule, or a rule whose provider could not be used.
pub data By : Type 0 where
  rule unavailable : String → By

pub record RouteDecision (T : Type 0) : Type 0 where
  pub provider : String
  pub model : String
  pub thinking : Option T
  pub by : By

unfoldable pub same_text : Text → Text → Bool
same_text [] [] = true
same_text [] (d ∷ t) = false
same_text (c ∷ s) [] = false
same_text (c ∷ s) (d ∷ t) = c == d && same_text s t

-- strings.TrimSpace and strings.ToLower on ASCII.
abbrev pub is_space : ℕ → Bool
is_space c = c == 32 || (leb 9 c && leb c 13)

unfoldable pub trim_front : Text → Text
trim_front [] = []
trim_front (c ∷ s) = let rest = trim_front s in if is_space c then rest else c ∷ s

unfoldable pub reverse_onto : Text → Text → Text
reverse_onto done [] = done
reverse_onto done (c ∷ s) = reverse_onto (c ∷ done) s

unfoldable pub trim_space : Text → Text
trim_space s = reverse_onto [] (trim_front (reverse_onto [] (trim_front s)))

abbrev pub lower_code : ℕ → ℕ
lower_code c = if leb 65 c && leb c 90 then c + 32 else c

unfoldable pub normal : Text → Text
normal s = map lower_code (trim_space s)

abbrev pub attach : ℕ → List Text → List Text
attach c [] = (c ∷ []) ∷ []
attach c (part ∷ parts) = (c ∷ part) ∷ parts

-- strings.Split by a comma.
unfoldable pub split_comma : Text → List Text
split_comma [] = [] ∷ []
split_comma (c ∷ s) = let rest = split_comma s in if c == 44 then [] ∷ rest else attach c rest

unfoldable pub any_part : Text → List Text → Bool
any_part r [] = false
any_part r (part ∷ parts) = same_text (normal part) r || any_part r parts

unfoldable pub match_list : Text → Text → Bool
match_list rule_val request_val =
    if same_text rule_val [] then true else any_part (normal request_val) (split_comma rule_val)

abbrev pub is_usable : Option ProviderSnapshot → Bool
is_usable none = false
is_usable (some p) = p.active && p.key_configured

module _ {T : Type 0} where
  -- The three tests of the loop's body.
  unfoldable pub rule_matches : Text → Text → String → RoutingRule T → Bool
  rule_matches intent complexity model r =
      match_list r.match_on.intent intent
      && match_list r.match_on.complexity complexity
      && (str_eq r.match_on.model "" || str_eq r.match_on.model model)

  unfoldable pub match_rule : Text → Text → String → List (RoutingRule T) → Option (RoutingRule T)
  match_rule intent complexity model [] = none
  match_rule intent complexity model (r ∷ rs) =
      let later = match_rule intent complexity model rs in
      if rule_matches intent complexity model r then some r else later

  unfoldable pub apply_rule : List ProviderSnapshot → RoutingRule T → RouteDecision T
  apply_rule ps r =
      let d : RouteDecision T = record {
        provider = "";
        model = r.route.model;
        thinking = r.route.thinking;
        by = rule r.name;
      } in
      if str_eq r.route.provider ""
      then d
      else if is_usable (provider_snapshot r.route.provider ps)
      then record d { provider = r.route.provider }
      else record d { by = unavailable r.name }
