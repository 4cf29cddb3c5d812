-- ===== src/Affinity/Router/Load.antt =====
-- prefix/affinity.go: the load that Inc and Dec count.
use switch.Prelude.Dict.{lookup, lookup-insert}
use switch.Prelude.{
  ℕ, suc, ◌-◌, String, ◌≡◌, refl, ap, ◌∙◌, inl, inr, none, some, List, [], ◌∷◌, arith, eq_iff,
  str_eq, if◌then◌else◌, Option-cases,
}
use switch.Affinity.Router.{AffinityRouter, inc, dec, inflight_of}

inflight_of-inc :
    (name other : String) (a : AffinityRouter)
    → inflight_of other (inc name a)
      ≡ (if str_eq name other then suc (inflight_of other a) else inflight_of other a)
unfolding inflight_of inc
inflight_of-inc name other a = ground (
  arith,
  eq_iff name other,
  lookup-insert name other (suc (elim (lookup name a.inflight) [ none ↦ 0 | some inf ↦ inf ]))
      a.inflight,
)

inflight_of-dec :
    (name other : String) (a : AffinityRouter)
    → inflight_of other (dec name a)
      ≡ (if str_eq name other then inflight_of other a - 1 else inflight_of other a)
unfolding inflight_of dec
inflight_of-dec name other a = elim (Option-cases (lookup name a.inflight)) [
  | inl e ↦ ground (arith, eq_iff name other)
  | inr (inf, e) ↦ ground (arith, eq_iff name other, lookup-insert name other (inf - 1) a.inflight)
]

-- The requests under way: names that come and go.
pub data Traffic : Type 0 where
  starts ends : String → Traffic

unfoldable pub carry : AffinityRouter → List Traffic → AffinityRouter
carry a [] = a
carry a (starts name ∷ ts) = carry (inc name a) ts
carry a (ends name ∷ ts) = carry (dec name a) ts

-- What is under way for a name; nothing when an end has no start.
unfoldable pub under_way : String → ℕ → List Traffic → ℕ
under_way name n [] = n
under_way name n (starts m ∷ ts) = under_way name (if str_eq m name then suc n else n) ts
under_way name n (ends m ∷ ts) = under_way name (if str_eq m name then n - 1 else n) ts

-- The count of a provider is, after any starts and ends of requests to any providers, that of its
-- own requests under way; those of the others do not touch it.
pub inflight_of-carry :
    (name : String) (a : AffinityRouter) (ts : List Traffic)
    → inflight_of name (carry a ts) ≡ under_way name (inflight_of name a) ts
unfolding carry under_way
inflight_of-carry name a [] = refl
inflight_of-carry name a (starts m ∷ ts) =
    inflight_of-carry name (inc m a) ts
    ∙ ap (λ (n : ℕ). under_way name n ts) (inflight_of-inc m name a)
inflight_of-carry name a (ends m ∷ ts) =
    inflight_of-carry name (dec m a) ts
    ∙ ap (λ (n : ℕ). under_way name n ts) (inflight_of-dec m name a)
