-- ===== src/Affinity/Ring/Order.antt =====
-- prefix/affinity.go: the vnodes of a ring are sorted, and the search finds the first one clockwise.
use native.Mathlib.Nat.{le_refl}
use switch.Prelude.Search.{sort_search, sort_search-IsFirst}
use switch.Prelude.{
  ℕ, zero, suc, ◌≤◌, ◌<◌, ◌≡◌, inl, inr, Bool, true, false, List, [], ◌∷◌, arith, leb,
  if◌then◌else◌, leb→le, Bool-cases, length, get_or, All,
}
use switch.Affinity.Ring.{RingVNode, no_vnode, insert_vnode, sort_vnodes, position}

abbrev pub AllFrom : ℕ → List RingVNode → Type 0
AllFrom h vs = All (λ (v : RingVNode). h ≤ v.hash) vs

abbrev pub IsSorted : List RingVNode → Type 0
IsSorted [] = Unit
IsSorted (v ∷ vs) = AllFrom v.hash vs × IsSorted vs

AllFrom-mono : {g h : ℕ} (vs : List RingVNode) → g ≤ h → AllFrom h vs → AllFrom g vs
AllFrom-mono [] le a = tt
AllFrom-mono (v ∷ vs) le a = (omega (arith, a.0), AllFrom-mono vs le a.1)

insert_vnode-AllFrom :
    (h : ℕ) (v : RingVNode) (vs : List RingVNode)
    → h ≤ v.hash
    → AllFrom h vs
    → AllFrom h (insert_vnode v vs)
unfolding insert_vnode
insert_vnode-AllFrom h v [] le a = (le, tt)
insert_vnode-AllFrom h v (w ∷ ws) le a = elim (Bool-cases (leb v.hash w.hash)) [
  | inl first ↦ rw first (le, a)
  | inr later ↦ rw later (a.0, insert_vnode-AllFrom h v ws le a.1)
]

insert_vnode-IsSorted :
    (v : RingVNode) (vs : List RingVNode) → IsSorted vs → IsSorted (insert_vnode v vs)
unfolding insert_vnode
insert_vnode-IsSorted v [] s = (tt, tt)
insert_vnode-IsSorted v (w ∷ ws) s = elim (Bool-cases (leb v.hash w.hash)) [
  | inl first ↦ let le = leb→le _ _ first in rw first ((le, AllFrom-mono ws le s.0), s)
  | inr later ↦
      rw later (insert_vnode-AllFrom w.hash v ws (ground arith) s.0, insert_vnode-IsSorted v ws s.1)
]

pub sort_vnodes-IsSorted : (vs : List RingVNode) → IsSorted (sort_vnodes vs)
unfolding sort_vnodes
sort_vnodes-IsSorted [] = tt
sort_vnodes-IsSorted (v ∷ vs) = insert_vnode-IsSorted v (sort_vnodes vs) (sort_vnodes-IsSorted vs)

-- The first vnode at or after a hash, looked for in order.
unfoldable pub first_from : ℕ → List RingVNode → ℕ
first_from h [] = 0
first_from h (v ∷ vs) = if leb h v.hash then 0 else suc (first_from h vs)

get_or-AllFrom :
    (h : ℕ) (vs : List RingVNode) (i : ℕ)
    → AllFrom h vs
    → i < length vs
    → h ≤ (get_or vs i no_vnode).hash
get_or-AllFrom h [] i a lt = absurd (omega arith)
get_or-AllFrom h (v ∷ vs) zero a lt = a.0
get_or-AllFrom h (v ∷ vs) (suc i) a lt = get_or-AllFrom h vs i a.1 (omega arith)

get_or-IsSorted :
    (vs : List RingVNode) (i j : ℕ)
    → IsSorted vs
    → i ≤ j
    → j < length vs
    → (get_or vs i no_vnode).hash ≤ (get_or vs j no_vnode).hash
get_or-IsSorted [] i j s le lt = absurd (omega arith)
get_or-IsSorted (v ∷ vs) zero zero s le lt = le_refl _
get_or-IsSorted (v ∷ vs) zero (suc j) s le lt = get_or-AllFrom v.hash vs j s.0 (omega arith)
get_or-IsSorted (v ∷ vs) (suc i) zero s le lt = absurd (omega arith)
get_or-IsSorted (v ∷ vs) (suc i) (suc j) s le lt =
    get_or-IsSorted vs i j s.1 (omega arith) (omega arith)

first_from-before :
    (h : ℕ) (vs : List RingVNode) (k : ℕ)
    → k < first_from h vs
    → leb h (get_or vs k no_vnode).hash ≡ false
unfolding first_from
first_from-before h [] k lt = absurd (omega arith)
first_from-before h (v ∷ vs) zero lt = ground arith
first_from-before h (v ∷ vs) (suc k) lt = first_from-before h vs k (ground arith)

first_from-at :
    (h : ℕ) (vs : List RingVNode)
    → first_from h vs < length vs
    → leb h (get_or vs (first_from h vs) no_vnode).hash ≡ true
unfolding first_from
first_from-at h [] lt = absurd (omega arith)
first_from-at h (v ∷ vs) lt = elim (Bool-cases (leb h v.hash)) [
  | inl here ↦ rw here here
  | inr there ↦ rw there (first_from-at h vs (ground arith))
]

first_from-le : (h : ℕ) (vs : List RingVNode) → first_from h vs ≤ length vs
unfolding first_from
first_from-le h [] = omega arith
first_from-le h (v ∷ vs) = ground (arith, first_from-le h vs)

-- The binary search over a sorted ring finds what the search in order finds.
pub position-first_from :
    (h : ℕ) (vs : List RingVNode) → IsSorted vs → position h vs ≡ first_from h vs
unfolding position
position-first_from h vs s =
    let test : ℕ → Bool = λ i. leb h (get_or vs i no_vnode).hash in
    let found =
      sort_search-IsFirst (length vs) test
        (λ k l le lt pass. ground (arith, get_or-IsSorted vs k l s le lt)) in
    let i = sort_search (length vs) test in
    let j = first_from h vs in
    ground (
      arith,
      found.bound,
      found.before j,
      found.at,
      first_from-before h vs i,
      first_from-at h vs,
      first_from-le h vs,
    )
