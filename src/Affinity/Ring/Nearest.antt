-- ===== src/Affinity/Ring/Nearest.antt =====
-- prefix/affinity.go: the vnode nearest to a hash, and what new vnodes change of it.
use switch.Prelude.{
  ℕ, ◌≤◌, String, ◌≡◌, refl, ap, ◌⊎◌, inl, inr, true, false, ◌&&◌, Option, none, some, List, [],
  ◌∷◌, ◌++◌, arith, leb, if◌then◌else◌, leb→le, Bool-cases, All,
}
use switch.Affinity.Ring.{RingVNode}

-- The nearer one of two vnodes at or after a hash; the first of two that are as near.
abbrev pub nearer : ℕ → RingVNode → Option RingVNode → Option RingVNode
nearer h v none = if leb h v.hash then some v else none
nearer h v (some w) = if leb h v.hash && leb v.hash w.hash then some v else some w

unfoldable pub nearest : ℕ → List RingVNode → Option RingVNode
nearest h [] = none
nearest h (v ∷ vs) = nearer h v (nearest h vs)

-- A choice from more vnodes is the same, or one of the name that was added, and no less near.
unfoldable pub NotAfter : RingVNode → Option RingVNode → Type 0
NotAfter u none = Unit
NotAfter u (some w) = u.hash ≤ w.hash

unfoldable pub Moved : String → Option RingVNode → Option RingVNode → Type 0
Moved n a b = (a ≡ b) ⊎ ((u : RingVNode) × (a ≡ some u) × (u.name ≡ n) × NotAfter u b)

NotAfter-trans :
    (v u : RingVNode) (b : Option RingVNode) → v.hash ≤ u.hash → NotAfter u b → NotAfter v b
unfolding NotAfter
NotAfter-trans v u none le near = tt
NotAfter-trans v u (some w) le near = omega (arith, near)

module _ (h : ℕ) (n : String) where
  nearer-NotAfter :
      (x u : RingVNode) (b : Option RingVNode)
      → u.hash ≤ x.hash
      → NotAfter u b
      → NotAfter u (nearer h x b)
  unfolding NotAfter
  nearer-NotAfter x u none le near = ground arith
  nearer-NotAfter x u (some w) le near = ground arith

  -- A nearer vnode that is taken over the added one is taken over the one before, too.
  nearer-taken :
      (x u : RingVNode) (b : Option RingVNode)
      → leb h x.hash ≡ true
      → x.hash ≤ u.hash
      → NotAfter u b
      → nearer h x b ≡ some x
  unfolding NotAfter
  nearer-taken x u none reach le near = ground arith
  nearer-taken x u (some w) reach le near = ground arith

  nearer-passed : (x : RingVNode) (b : Option RingVNode) → leb h x.hash ≡ false → nearer h x b ≡ b
  nearer-passed x none reach = ground arith
  nearer-passed x (some w) reach = ground arith

  nearer-Moved :
      (x : RingVNode) (a b : Option RingVNode) → Moved n a b → Moved n (nearer h x a) (nearer h x b)
  unfolding Moved
  nearer-Moved x a b (inl e) = inl (ap (nearer h x) e)
  nearer-Moved x a b (inr (u, e, named, near)) = elim (Bool-cases (leb h x.hash)) [
    | inr passed ↦ rw (nearer-passed x a passed, nearer-passed x b passed) (inr (u, e, named, near))
    | inl reach ↦ elim (Bool-cases (leb x.hash u.hash)) [
      | inl taken ↦ inl (ground (arith, nearer-taken x u b reach (leb→le _ _ taken) near))
      | inr later ↦ inr (u, ground arith, named, nearer-NotAfter x u b (ground arith) near)
    ]
  ]

  added_one-Moved :
      (v : RingVNode) (a b : Option RingVNode) → v.name ≡ n → Moved n a b → Moved n (nearer h v a) b
  unfolding Moved NotAfter
  added_one-Moved v a b named (inr (u, e, u_named, near)) =
      elim (Bool-cases (leb h v.hash && leb v.hash u.hash)) [
        | inl taken ↦ inr (v, ground arith, named, NotAfter-trans v u b (ground arith) near)
        | inr passed ↦ inr (u, ground arith, u_named, near)
      ]
  added_one-Moved v a none named (inl e) = elim (Bool-cases (leb h v.hash)) [
    | inl taken ↦ inr (v, ground arith, named, tt)
    | inr passed ↦ inl (ground arith)
  ]
  added_one-Moved v a (some w) named (inl e) =
      elim (Bool-cases (leb h v.hash && leb v.hash w.hash)) [
        | inl taken ↦ inr (v, ground arith, named, ground arith)
        | inr passed ↦ inl (ground arith)
      ]

  added-Moved :
      (new ys : List RingVNode)
      → All (λ (v : RingVNode). v.name ≡ n) new
      → Moved n (nearest h (new ++ ys)) (nearest h ys)
  unfolding Moved nearest
  added-Moved [] ys named = inl refl
  added-Moved (v ∷ new) ys named = added_one-Moved v _ _ named.0 (added-Moved new ys named.1)

  pub nearest-Moved :
      (xs new ys : List RingVNode)
      → All (λ (v : RingVNode). v.name ≡ n) new
      → Moved n (nearest h (xs ++ (new ++ ys))) (nearest h (xs ++ ys))
  unfolding nearest
  nearest-Moved [] new ys named = added-Moved new ys named
  nearest-Moved (x ∷ xs) new ys named = nearer-Moved x _ _ (nearest-Moved xs new ys named)
