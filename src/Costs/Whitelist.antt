-- ===== src/Costs/Whitelist.antt =====
-- provider/cost.go: ModelWhitelist.
use switch.Prelude.Dict.{Dict, lookup, insert, lookup-insert}
use switch.Prelude.{
  String, ◌≡◌, refl, ◌∙◌, Bool, true, false, ◌&&◌, ◌||◌, none, some, List, [], ◌∷◌, arith, str_eq,
  ◌==◌, length, set, if◌then◌else◌,
}
use switch.Costs.{ModelWhitelist, set_of, set_whitelist, is_allowed}

-- The list names the model.
unfoldable pub names : List String → String → Bool
names [] model = false
names (m ∷ ms) model = let later = names ms model in str_eq m model || later

abbrev holds : Dict Bool → String → Bool
holds set model = elim (lookup model set) [ none ↦ false | some b ↦ b ]

set_of-holds :
    (models : List String) (set : Dict Bool) (model : String)
    → holds (set_of models set) model ≡ (names models model || holds set model)
unfolding set_of names
set_of-holds [] allowed model = refl
set_of-holds (m ∷ ms) allowed model =
    set_of-holds ms (insert m true allowed) model
    ∙ ground (arith, lookup-insert m model true allowed)

insert-filled : (m : String) (allowed : Dict Bool) → (length (insert m true allowed) == 0) ≡ false
unfolding insert
insert-filled m [] = refl
insert-filled m (e ∷ rest) = ground arith

set_of-empty :
    (models : List String) (allowed : Dict Bool)
    → (length (set_of models allowed) == 0) ≡ (length models == 0 && length allowed == 0)
unfolding set_of
set_of-empty [] allowed = ground arith
set_of-empty (m ∷ ms) allowed =
    set_of-empty ms (insert m true allowed) ∙ ground (arith, insert-filled m allowed)

-- After a whitelist is set, it decides for its key: an empty list allows every model, another one
-- exactly the models that it names. The other keys keep theirs, and all models where they have none.
pub is_allowed-set_whitelist :
    (key other model : String) (models : List String) (mw : ModelWhitelist)
    → is_allowed other model (set_whitelist key models mw) ≡ (
        if str_eq key other
        then length models == 0 || names models model
        else is_allowed other model mw)
unfolding is_allowed set_whitelist
is_allowed-set_whitelist key other model models mw =
    let e = set_of-empty models [] in
    let h : holds (set_of models []) model ≡ names models model =
      unfold lookup in (ground (arith, set_of-holds models [] model)) in
    ground (arith, lookup-insert key other (set_of models []) mw, e, h)
