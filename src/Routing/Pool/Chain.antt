-- ===== src/Routing/Pool/Chain.antt =====
-- server/routing.go: the order of the fallback chain, routingCandidates.
use mathlib.Core.List.{Permᴰ}
use switch.Prelude.Dict.{Dict}
use switch.Prelude.Sort.{sort_by, IsOrdered, sort_by-Permᴰ, sort_by-IsOrdered}
use switch.Prelude.{ℕ, ◌≤◌, ◌≡◌, refl, Bool, true, false, List, map, arith, if◌then◌else◌}
use switch.Routing.Pool.{
  ProviderSnapshot, is_open, pool_eligible, by_preference, routing_candidates,
}

abbrev pub open_rank : ProviderSnapshot → ℕ
open_rank p = if is_open p then 1 else 0

module _ (score : List ProviderSnapshot → ProviderSnapshot → ℕ) (all : List ProviderSnapshot) where
  -- An open circuit comes after one that is not; among equals the higher priority comes first, and
  -- among those the higher score.
  pub record Precedes (p q : ProviderSnapshot) : Type 0 where
    pub by_circuit : open_rank p ≤ open_rank q
    pub by_level : open_rank p ≡ open_rank q → q.priority ≤ p.priority
    pub by_score : open_rank p ≡ open_rank q → q.priority ≡ p.priority → score all q ≤ score all p

  by_preference-true : (p q : ProviderSnapshot) → by_preference score all p q ≡ true → Precedes p q
  unfolding by_preference
  by_preference-true p q h = record {
    by_circuit = ground arith;
    by_level = λ e. ground arith;
    by_score = λ e f. ground arith;
  }

  by_preference-false :
      (p q : ProviderSnapshot) → by_preference score all p q ≡ false → Precedes q p
  unfolding by_preference
  by_preference-false p q h = record {
    by_circuit = ground arith;
    by_level = λ e. ground arith;
    by_score = λ e f. ground arith;
  }

  Precedes-trans : (p q r : ProviderSnapshot) → Precedes p q → Precedes q r → Precedes p r
  Precedes-trans p q r a b = record {
    by_circuit = omega (arith, a.by_circuit, b.by_circuit);
    by_level = λ e.
        let one : open_rank p ≡ open_rank q = omega (arith, e, a.by_circuit, b.by_circuit) in
        let two : open_rank q ≡ open_rank r = omega (arith, e, a.by_circuit, b.by_circuit) in
        omega (arith, a.by_level one, b.by_level two);
    by_score = λ e f.
        let one : open_rank p ≡ open_rank q = omega (arith, e, a.by_circuit, b.by_circuit) in
        let two : open_rank q ≡ open_rank r = omega (arith, e, a.by_circuit, b.by_circuit) in
        let three : q.priority ≡ p.priority = omega (arith, f, a.by_level one, b.by_level two) in
        let four : r.priority ≡ q.priority = omega (arith, f, a.by_level one, b.by_level two) in
        omega (arith, a.by_score one three, b.by_score two four);
  }

-- The fallback chain is the eligible providers, each as often as it is listed, and no others. Those
-- with an open circuit come last; among two that do not differ in that, the higher priority comes
-- first, and among two of one priority the higher score.
pub routing_candidates-IsOrdered :
    (score : List ProviderSnapshot → ProviderSnapshot → ℕ) (pool : Dict Bool)
    (ps : List ProviderSnapshot)
    → let eligible = pool_eligible pool ps in
      (chain : List ProviderSnapshot) × (routing_candidates score pool ps ≡ map (λ p. p.name) chain)
      × Permᴰ chain eligible
      × IsOrdered (Precedes score eligible) chain
unfolding routing_candidates
routing_candidates-IsOrdered score pool ps =
    let eligible = pool_eligible pool ps in
    let less = by_preference score eligible in
    (
      sort_by less eligible,
      refl,
      sort_by-Permᴰ less eligible,
      sort_by-IsOrdered less (Precedes score eligible) (by_preference-true score eligible)
          (by_preference-false score eligible) (Precedes-trans score eligible) eligible,
    )
