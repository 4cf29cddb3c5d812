-- ===== src/Routing/Pool/Choice.antt =====
-- server/routing.go: what selectFromPool may choose.
use native.Mathlib.Nat.{le_refl}
use mathlib.Core.List.{Memᴰ}
use mathlib.Core.List.Memᴰ.{head, tail}
use switch.Prelude.Dict.{Dict}
use switch.Prelude.Sort.{
  keep, sort_by, keep-Memᴰ, IsOrdered, sort_by-IsOrdered, Memᴰ-keep, All-Memᴰ, sort_by-Memᴰ,
  Memᴰ-sort_by, length-sort_by,
}
use switch.Prelude.{
  ◌≤◌, ◌<◌, ◌≡◌, refl, true, false, List, [], ◌∷◌, map, arith, ◌==◌, length, All, ℕ, ◌⊎◌, inl, inr,
  Bool, not, Bool-cases, suc, ap, ◌∙◌,
}
use switch.Routing.Pool.{
  ProviderSnapshot, by_priority, top_tier, is_open, is_eligible, pool_eligible, preferred,
  candidate, select_from_pool, RoutingCandidate, weighted_pick,
}
use switch.Routing.Pool.Weighted.{weighted_pick-Memᴰ}

-- The first of the two has at least the priority of the second.
abbrev pub NotBelow : ProviderSnapshot → ProviderSnapshot → Type 0
NotBelow p q = q.priority ≤ p.priority

by_priority-true : (p q : ProviderSnapshot) → by_priority p q ≡ true → NotBelow p q
unfolding by_priority
by_priority-true p q h = ground arith

by_priority-false : (p q : ProviderSnapshot) → by_priority p q ≡ false → NotBelow q p
unfolding by_priority
by_priority-false p q h = ground arith

sorted-IsOrdered : (ps : List ProviderSnapshot) → IsOrdered NotBelow (sort_by by_priority ps)
sorted-IsOrdered ps =
    sort_by-IsOrdered by_priority NotBelow by_priority-true by_priority-false
      (λ a b c r r'. omega arith) ps

map-Memᴰ {ℓ κ} :
    {A : Type ℓ} {B : Type κ} (f : A → B) (b : B) (xs : List A)
    → Memᴰ b (map f xs)
    → (a : A) × Memᴰ a xs × (b ≡ f a)
map-Memᴰ f b [] m = elim m [ ]
map-Memᴰ f b (x ∷ xs) (head e) = (x, head refl, e)
map-Memᴰ f b (x ∷ xs) (tail m) = let (a, m', e) = map-Memᴰ f b xs m in (a, tail m', e)

-- The top tier of an ordered list: its members are of the list, and none of the list is above them.
top_tier-Memᴰ :
    (p : ProviderSnapshot) (ps : List ProviderSnapshot)
    → IsOrdered NotBelow ps
    → Memᴰ p (top_tier ps)
    → Memᴰ p ps × All (NotBelow p) ps
unfolding top_tier
top_tier-Memᴰ p [] o m = elim m [ ]
top_tier-Memᴰ p (q ∷ qs) o m =
    let (m', same) = keep-Memᴰ (λ r. r.priority == q.priority) p (q ∷ qs) m in
    let equal : p.priority ≡ q.priority = ground (arith, same) in
    (m', All-mono (q ∷ qs) equal (le_refl _, o.0))
  where
    All-mono :
        (rs : List ProviderSnapshot)
        → p.priority ≡ q.priority
        → All (NotBelow q) rs
        → All (NotBelow p) rs
    All-mono [] e h = tt
    All-mono (r ∷ rs) e h = (omega (arith, h.0), All-mono rs e h.1)

top_tier-nonempty : (ps : List ProviderSnapshot) → 0 < length ps → 0 < length (top_tier ps)
unfolding top_tier keep
top_tier-nonempty [] h = h
top_tier-nonempty (p ∷ ps) h = ground arith

-- The provider that is chosen stands above another that could be: no open circuit is chosen where
-- there is one that is not open, and among those that come into question the priority is highest.
pub record Outranks (p q : ProviderSnapshot) : Type 0 where
  pub healthier : is_open q ≡ false → (is_open p ≡ false) × NotBelow p q
  pub among_open : is_open p ≡ true → NotBelow p q

preferred-Memᴰ :
    (p : ProviderSnapshot) (eligible : List ProviderSnapshot)
    → Memᴰ p (preferred eligible)
    → Memᴰ p eligible
unfolding preferred
preferred-Memᴰ p eligible m =
    elim (Bool-cases (length (keep (λ q. not (is_open q)) eligible) == 0)) [
      | inl unhealthy ↦ rw unhealthy at m
      | inr some_healthy ↦ (keep-Memᴰ (λ q. not (is_open q)) p eligible (rw some_healthy at m)).0
    ]

Memᴰ-nonempty {ℓ} : {A : Type ℓ} (a : A) (xs : List A) → Memᴰ a xs → 0 < length xs
Memᴰ-nonempty a [] m = elim m [ ]
Memᴰ-nonempty a (x ∷ xs) m = omega arith

preferred-Outranks :
    (p q : ProviderSnapshot) (eligible : List ProviderSnapshot)
    → Memᴰ p (preferred eligible)
    → ((r : ProviderSnapshot) → Memᴰ r (preferred eligible) → NotBelow p r)
    → Memᴰ q eligible
    → Outranks p q
unfolding preferred
preferred-Outranks p q eligible m above mq =
    let test : ProviderSnapshot → Bool = λ r. not (is_open r) in
    elim (Bool-cases (length (keep test eligible) == 0)) [
      | inl unhealthy ↦ record {
        healthier = λ fine.
            let in_keep = Memᴰ-keep test q eligible mq (rw fine refl) in
            absurd (ground (arith, Memᴰ-nonempty q (keep test eligible) in_keep));
        among_open = λ o. above q (rw unhealthy mq);
      }
      | inr some_healthy ↦
          let fine_p = (keep-Memᴰ test p eligible (rw some_healthy at m)).1 in
          record {
            healthier = λ fine. (
              ground (arith, fine_p),
              above q (rw some_healthy (Memᴰ-keep test q eligible mq (rw fine refl))),
            );
            among_open = λ o. absurd (ground (arith, fine_p));
          }
    ]

preferred-nonempty :
    (eligible : List ProviderSnapshot) → 0 < length eligible → 0 < length (preferred eligible)
unfolding preferred
preferred-nonempty eligible h = ground arith

-- The provider with this name is eligible and outranks every eligible provider.
pub record IsChoice (pool : Dict Bool) (ps : List ProviderSnapshot) (p : ProviderSnapshot)
    : Type 0 where
  pub listed : Memᴰ p ps
  pub eligible : is_eligible pool p ≡ true
  pub best : (q : ProviderSnapshot) → Memᴰ q ps → is_eligible pool q ≡ true → Outranks p q

tier_of : Dict Bool → List ProviderSnapshot → List ProviderSnapshot
tier_of pool ps = top_tier (sort_by by_priority (preferred (pool_eligible pool ps)))

tier_of-IsChoice :
    (pool : Dict Bool) (ps : List ProviderSnapshot) (p : ProviderSnapshot)
    → Memᴰ p (tier_of pool ps)
    → IsChoice pool ps p
unfolding tier_of pool_eligible
tier_of-IsChoice pool ps p m =
    let eligible = keep (is_eligible pool) ps in
    let (in_sorted, above) =
      top_tier-Memᴰ p (sort_by by_priority (preferred eligible))
        (sorted-IsOrdered (preferred eligible)) m in
    let in_preferred = sort_by-Memᴰ by_priority p (preferred eligible) in_sorted in
    let (m', fits) = keep-Memᴰ (is_eligible pool) p ps (preferred-Memᴰ p eligible in_preferred) in
    record {
      listed = m';
      eligible = fits;
      best = λ q mq fq.
          preferred-Outranks p q eligible in_preferred
            (λ r mr.
              All-Memᴰ (NotBelow p) r _ above (Memᴰ-sort_by by_priority r (preferred eligible) mr))
            (Memᴰ-keep (is_eligible pool) q ps mq fq);
    }

length-map {ℓ κ} :
    {A : Type ℓ} {B : Type κ} (f : A → B) (xs : List A) → length (map f xs) ≡ length xs
length-map f [] = refl
length-map f (x ∷ xs) = ap suc (length-map f xs)

no_entries {ℓ} : {A : Type ℓ} (xs : List A) → length xs ≡ 0 → xs ≡ []
no_entries [] h = refl
no_entries (x ∷ xs) h = absurd (omega (arith, h))

tier_of-nonempty :
    (pool : Dict Bool) (ps : List ProviderSnapshot)
    → 0 < length (pool_eligible pool ps)
    → 0 < length (tier_of pool ps)
unfolding tier_of
tier_of-nonempty pool ps h =
    let some_preferred = preferred-nonempty (pool_eligible pool ps) h in
    top_tier-nonempty _ (
      omega (arith, some_preferred, length-sort_by by_priority (preferred (pool_eligible pool ps))))

module _ (score : List ProviderSnapshot → ProviderSnapshot → ℕ) where
  -- Whatever the scores and the random numbers: if some provider is eligible, the choice from the
  -- pool is an eligible provider of the highest priority, with an open circuit only when all that
  -- are eligible have one; if none is eligible, no provider is chosen.
  pub select_from_pool-IsChoice :
      (index x : ℕ) (pool : Dict Bool) (ps : List ProviderSnapshot)
      → let chosen = select_from_pool score index x pool ps in
        ((p : ProviderSnapshot) × IsChoice pool ps p × (chosen ≡ p.name))
        ⊎ ((length (pool_eligible pool ps) ≡ 0) × (chosen ≡ ""))
  unfolding select_from_pool tier_of preferred top_tier weighted_pick sort_by keep
  select_from_pool-IsChoice index x pool ps =
      elim (Bool-cases (length (pool_eligible pool ps) == 0)) [
        | inl empty ↦
            let none_left = no_entries (pool_eligible pool ps) (ground (arith, empty)) in
            inr (ground (arith, empty), rw none_left refl)
        | inr some_one ↦
            let eligible = pool_eligible pool ps in
            let tier = tier_of pool ps in
            let cands = map (candidate score tier) tier in
            let (c, m, chosen) = weighted_pick-Memᴰ index x cands (
              omega (
                arith,
                tier_of-nonempty pool ps (ground (arith, some_one)),
                length-map (candidate score tier) tier,
              )) in
            let (p, mp, e) = map-Memᴰ (candidate score tier) c tier m in
            inl (p, tier_of-IsChoice pool ps p mp, chosen ∙ ap (λ (d : RoutingCandidate). d.name) e)
      ]
