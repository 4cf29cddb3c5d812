-- ===== src/Routing/Pool/Weighted.antt =====
-- server/routing.go: weightedPick.
use native.Mathlib.Nat.{mod-lt, mod-eq_of_lt}
use mathlib.Core.List.{Memᴰ}
use mathlib.Core.List.Memᴰ.{head, tail}
use switch.Prelude.{
  ℕ, zero, suc, ◌+◌, ◌-◌, ◌%◌, ◌≤◌, ◌<◌, String, ◌≡◌, refl, inl, inr, false, List, [], ◌∷◌, arith,
  ltb, ◌==◌, Bool-cases, length, get_or,
}
use switch.Routing.Pool.{RoutingCandidate, total_score, pick_from, no_candidate, weighted_pick}

pub pick_from-Memᴰ :
    (x : ℕ) (last : String) (cs : List RoutingCandidate)
    → 0 < length cs
    → (c : RoutingCandidate) × Memᴰ c cs × (pick_from x last cs ≡ c.name)
unfolding pick_from
pick_from-Memᴰ x last [] some_one = absurd (omega arith)
pick_from-Memᴰ x last (c ∷ []) some_one = (c, head refl, ground arith)
pick_from-Memᴰ x last (c ∷ (d ∷ cs)) some_one = elim (Bool-cases (ltb x c.score)) [
  | inl here ↦ (c, head refl, rw here refl)
  | inr later ↦
      let (e, m, found) = pick_from-Memᴰ (x - c.score) c.name (d ∷ cs) (omega arith) in
      (e, tail m, rw later found)
]

get_or-Memᴰ {ℓ} :
    {A : Type ℓ} (xs : List A) (i : ℕ) (d : A) → i < length xs → Memᴰ (get_or xs i d) xs
get_or-Memᴰ [] i d h = absurd (omega arith)
get_or-Memᴰ (x ∷ xs) zero d h = head refl
get_or-Memᴰ (x ∷ xs) (suc i) d h = tail (get_or-Memᴰ xs i d (omega arith))

pub weighted_pick-Memᴰ :
    (index x : ℕ) (cs : List RoutingCandidate)
    → 0 < length cs
    → (c : RoutingCandidate) × Memᴰ c cs × (weighted_pick index x cs ≡ c.name)
unfolding weighted_pick
weighted_pick-Memᴰ index x cs some_one =
    let nonempty : (length cs == 0) ≡ false = ground arith in
    elim (Bool-cases (total_score cs == 0)) [
      | inl unscored ↦ (
        get_or cs (index % length cs) no_candidate,
        get_or-Memᴰ cs (index % length cs) no_candidate (mod-lt index some_one),
        rw (nonempty, unscored) refl,
      )
      | inr scored ↦
          let (c, m, found) = pick_from-Memᴰ (x % total_score cs) "" cs some_one in
          (c, m, rw (nonempty, scored) found)
    ]

-- The scores of the candidates before the i-th.
unfoldable pub score_before : ℕ → List RoutingCandidate → ℕ
score_before i [] = 0
score_before zero (c ∷ cs) = 0
score_before (suc i) (c ∷ cs) = c.score + score_before i cs

pick_from-share :
    (x i : ℕ) (last : String) (cs : List RoutingCandidate)
    → i < length cs
    → score_before i cs ≤ x
    → x < score_before i cs + (get_or cs i no_candidate).score
    → pick_from x last cs ≡ (get_or cs i no_candidate).name
unfolding pick_from score_before
pick_from-share x i last [] bound low high = absurd (omega arith)
pick_from-share x zero last (c ∷ cs) bound low high = ground arith
pick_from-share x (suc i) last (c ∷ cs) bound low high =
    let passed : ltb x c.score ≡ false = ground arith in
    rw passed (pick_from-share (x - c.score) i c.name cs (omega arith) (omega arith) (omega arith))

share-le-total :
    (i : ℕ) (cs : List RoutingCandidate)
    → i < length cs
    → score_before i cs + (get_or cs i no_candidate).score ≤ total_score cs
unfolding score_before total_score
share-le-total i [] bound = absurd (omega arith)
share-le-total zero (c ∷ cs) bound = omega arith
share-le-total (suc i) (c ∷ cs) bound = omega (arith, share-le-total i cs (omega arith))

-- Of the draws below the total each candidate has as many as its score: those from the sum of the
-- scores before it on, and no others.
pub weighted_pick-share :
    (index x i : ℕ) (cs : List RoutingCandidate)
    → i < length cs
    → score_before i cs ≤ x
    → x < score_before i cs + (get_or cs i no_candidate).score
    → weighted_pick index x cs ≡ (get_or cs i no_candidate).name
unfolding weighted_pick
weighted_pick-share index x i cs bound low high =
    let le = share-le-total i cs bound in
    let nonempty : (length cs == 0) ≡ false = ground arith in
    let scored : (total_score cs == 0) ≡ false = ground (arith, le) in
    let whole : x % total_score cs ≡ x = mod-eq_of_lt (omega (arith, le)) in
    rw (nonempty, scored, whole) (pick_from-share x i "" cs bound low high)
