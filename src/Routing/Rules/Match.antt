-- ===== src/Routing/Rules/Match.antt =====
-- server/routing.go: which rule is taken, and which provider it may set.
use mathlib.Core.List.{Memᴰ}
use mathlib.Core.List.Memᴰ.{head, tail}
use switch.Prelude.{
  String, ◌≡◌, refl, ap, ◌⊎◌, inl, inr, true, false, ◌&&◌, none, some, List, [], ◌∷◌, ◌++◌, arith,
  eq_iff, str_eq, Bool-cases, Option-cases, All,
}
use switch.Routing.Pool.{ProviderSnapshot, provider_snapshot}
use switch.Routing.Rules.{Text, RoutingRule, rule_matches, match_rule, apply_rule}

module _ {T : Type 0} where
  -- A list is cut at the first rule that matches.
  pub record IsFirstMatch (intent complexity : Text) (model : String) (rs : List (RoutingRule T))
      (r : RoutingRule T) : Type 0 where
    pub earlier : List (RoutingRule T)
    pub later : List (RoutingRule T)
    pub cut : rs ≡ earlier ++ (r ∷ later)
    pub matches : rule_matches intent complexity model r ≡ true
    pub passed : All (λ (q : RoutingRule T). rule_matches intent complexity model q ≡ false) earlier

  -- The rule that is taken matches the request, and no rule before it in the list does.
  pub match_rule-first :
      (intent complexity : Text) (model : String) (rs : List (RoutingRule T)) (r : RoutingRule T)
      → match_rule intent complexity model rs ≡ some r
      → IsFirstMatch intent complexity model rs r
  unfolding match_rule
  match_rule-first intent complexity model [] r h = cc
  match_rule-first intent complexity model (q ∷ rs) r h =
      elim (Bool-cases (rule_matches intent complexity model q)) [
        | inl hit ↦
            let same : q ≡ r = ground (arith, hit) in
            record {
              earlier = [];
              later = rs;
              cut = rw same refl;
              matches = rw same at hit;
              passed = tt;
            }
        | inr miss ↦
            let rest = match_rule-first intent complexity model rs r (ground (arith, miss)) in
            record {
              earlier = q ∷ rest.earlier;
              later = rest.later;
              cut = ap (λ (l : List (RoutingRule T)). q ∷ l) rest.cut;
              matches = rest.matches;
              passed = (miss, rest.passed);
            }
      ]

  pub match_rule-none :
      (intent complexity : Text) (model : String) (rs : List (RoutingRule T))
      → match_rule intent complexity model rs ≡ none
      → All (λ (q : RoutingRule T). rule_matches intent complexity model q ≡ false) rs
  unfolding match_rule
  match_rule-none intent complexity model [] h = tt
  match_rule-none intent complexity model (q ∷ rs) h =
      elim (Bool-cases (rule_matches intent complexity model q)) [
        | inl hit ↦ absurd (ground (arith, hit))
        | inr miss ↦ (miss, match_rule-none intent complexity model rs (ground (arith, miss)))
      ]

pub provider_snapshot-Memᴰ :
    (name : String) (ps : List ProviderSnapshot) (p : ProviderSnapshot)
    → provider_snapshot name ps ≡ some p
    → Memᴰ p ps × (p.name ≡ name)
unfolding provider_snapshot
provider_snapshot-Memᴰ name [] p h = cc
provider_snapshot-Memᴰ name (q ∷ qs) p h = elim (Bool-cases (str_eq q.name name)) [
  | inl hit ↦
      let same : p ≡ q = ground (arith, hit) in (head same, ground (arith, eq_iff q.name name))
  | inr miss ↦ let (m, e) = provider_snapshot-Memᴰ name qs p (ground (arith, miss)) in (tail m, e)
]

-- A rule sends a request to a provider only when that is listed, active and has a key; whatever
-- becomes of the provider, the rule's model and thinking are applied.
pub apply_rule-usable :
    {T : Type 0} (ps : List ProviderSnapshot) (r : RoutingRule T)
    → let d = apply_rule ps r in
      (((d.provider ≡ "")
          ⊎ ((p : ProviderSnapshot) × Memᴰ p ps
              × (p.name ≡ d.provider)
              × (d.provider ≡ r.route.provider)
              × (p.active ≡ true)
              × (p.key_configured ≡ true)))
        × (d.model ≡ r.route.model)
        × (d.thinking ≡ r.route.thinking))
unfolding apply_rule
apply_rule-usable ps r = elim (Bool-cases (str_eq r.route.provider "")) [
  | inl unset ↦ rw unset (inl refl, refl, refl)
  | inr given ↦ elim (Option-cases (provider_snapshot r.route.provider ps)) [
    | inl missing ↦ rw (given, missing) (inl refl, refl, refl)
    | inr (p, e) ↦ elim (Bool-cases (p.active && p.key_configured)) [
      | inr unfit ↦ rw (given, e, unfit) (inl refl, refl, refl)
      | inl fit ↦
          let (m, named) = provider_snapshot-Memᴰ r.route.provider ps p e in
          rw (given, e, fit)
            (inr (p, m, named, refl, ground (arith, fit), ground (arith, fit)), refl, refl)
    ]
  ]
]
