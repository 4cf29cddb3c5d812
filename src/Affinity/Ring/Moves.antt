-- ===== src/Affinity/Ring/Moves.antt =====
-- prefix/affinity.go: which keys move when a provider joins or leaves the ring.
use mathlib.Core.List.{append_assoc}
use switch.Prelude.{
  ℕ, ◌≤◌, ◌<◌, String, ◌≡◌, refl, ap, ◌∙◌, inl, inr, Option, none, some, List, [], ◌∷◌, arith, leb,
  if◌then◌else◌, Option-cases, length, get_or, ◌⊎◌, ◌++◌, All, zero, suc, ◌*◌, sym,
}
use switch.Affinity.Ring.{
  AffinityNode, RingVNode, no_vnode, insert_vnode, sort_vnodes, all_vnodes, new_ring, ring_lookup,
  owner, vnodes_per_weight, node_weight, vnodes_from,
}
use switch.Affinity.Ring.Nearest.{Moved, nearer, nearest, nearest-Moved}
use switch.Affinity.Ring.Order.{
  IsSorted, AllFrom, sort_vnodes-IsSorted, first_from, position-first_from,
}

-- The first vnode at or after a hash.
unfoldable found : ℕ → List RingVNode → Option RingVNode
found h [] = none
found h (v ∷ vs) = if leb h v.hash then some v else found h vs

found-above :
    (h g : ℕ) (v : RingVNode) (vs : List RingVNode)
    → AllFrom g vs
    → found h vs ≡ some v
    → g ≤ v.hash
unfolding found
found-above h g v [] a e = cc
found-above h g v (w ∷ ws) a e = ground (arith, a.0, found-above h g v ws a.1)

found-insert_vnode :
    (h : ℕ) (v : RingVNode) (vs : List RingVNode)
    → IsSorted vs
    → found h (insert_vnode v vs) ≡ nearer h v (found h vs)
unfolding found insert_vnode
found-insert_vnode h v [] s = refl
found-insert_vnode h v (w ∷ ws) s = elim (Option-cases (found h ws)) [
  | inl none_found ↦ ground (arith, found-insert_vnode h v ws s.1)
  | inr (u, e) ↦ ground (arith, found-insert_vnode h v ws s.1, found-above h w.hash u ws s.0 e)
]

found-sort_vnodes : (h : ℕ) (vs : List RingVNode) → found h (sort_vnodes vs) ≡ nearest h vs
unfolding found nearest sort_vnodes
found-sort_vnodes h [] = refl
found-sort_vnodes h (v ∷ vs) =
    found-insert_vnode h v (sort_vnodes vs) (sort_vnodes-IsSorted vs)
    ∙ ap (nearer h v) (found-sort_vnodes h vs)

-- The vnode that serves a hash: the first at or after it, or else the first of all.
abbrev served : Option RingVNode → Option RingVNode → String
served (some v) first = v.name
served none none = ""
served none (some v) = v.name

abbrev found_or : ℕ → List RingVNode → RingVNode → RingVNode
found_or h vs d = elim (found h vs) [ none ↦ d | some v ↦ v ]

get_or-first_from :
    (h : ℕ) (vs : List RingVNode) → get_or vs (first_from h vs) no_vnode ≡ found_or h vs no_vnode
unfolding first_from found
get_or-first_from h [] = refl
get_or-first_from h (v ∷ vs) = ground (arith, get_or-first_from h vs)

first_from-none : (h : ℕ) (vs : List RingVNode) → found h vs ≡ none → first_from h vs ≡ length vs
unfolding first_from found
first_from-none h [] e = refl
first_from-none h (v ∷ vs) e = ground (arith, first_from-none h vs)

first_from-some :
    (h : ℕ) (v : RingVNode) (vs : List RingVNode)
    → found h vs ≡ some v
    → first_from h vs < length vs
unfolding first_from found
first_from-some h v [] e = cc
first_from-some h v (w ∷ vs) e = ground (arith, first_from-some h v vs)

owner-served :
    (h : ℕ) (vs : List RingVNode) → IsSorted vs → owner h vs ≡ served (found h vs) (found 0 vs)
unfolding owner found
owner-served h [] s = refl
owner-served h (v ∷ vs) s = elim (Option-cases (found h (v ∷ vs))) [
  | inl e ↦ ground (arith, position-first_from h (v ∷ vs) s, first_from-none h (v ∷ vs) e)
  | inr (w, e) ↦ ground (
    arith,
    position-first_from h (v ∷ vs) s,
    first_from-some h w (v ∷ vs) e,
    get_or-first_from h (v ∷ vs),
  )
]

served-Moved :
    (n : String) (a b c d : Option RingVNode)
    → Moved n a b
    → Moved n c d
    → (served a c ≡ served b d) ⊎ (served a c ≡ n)
unfolding Moved
served-Moved n a b c d (inr (u, e, named, near)) q = inr (rw e named)
served-Moved n a none c d (inl e) (inl f) = inl (rw (e, f) refl)
served-Moved n a none c d (inl e) (inr (u, f, named, near)) = inr (rw (e, f) named)
served-Moved n a (some w) c d (inl e) q = inl (rw e refl)

module _ (hash_key : String → ℕ) (vnode_hash : String → ℕ → ℕ) where
  -- The search on the ring as the nearest vnode of the nodes' unsorted vnodes.
  ring_lookup-nearest :
      (key : String) (nodes : List AffinityNode)
      → let vs = all_vnodes hash_key vnode_hash nodes in
        ring_lookup hash_key vnode_hash key (new_ring hash_key vnode_hash nodes)
        ≡ served (nearest (hash_key key) vs) (nearest 0 vs)
  unfolding ring_lookup new_ring
  ring_lookup-nearest key nodes =
      let h = hash_key key in
      let vs = all_vnodes hash_key vnode_hash nodes in
      rw
        (
          owner-served h (sort_vnodes vs) (sort_vnodes-IsSorted vs),
          found-sort_vnodes h vs,
          found-sort_vnodes 0 vs,
        )
        refl

  vnodes_from-named :
      (count i : ℕ) (n : String)
      → All (λ (v : RingVNode). v.name ≡ n) (vnodes_from hash_key vnode_hash count i n)
  unfolding vnodes_from
  vnodes_from-named zero i n = tt
  vnodes_from-named (suc count) i n = (refl, vnodes_from-named count (suc i) n)

  all_vnodes-append :
      (xs ys : List AffinityNode)
      → all_vnodes hash_key vnode_hash (xs ++ ys)
        ≡ all_vnodes hash_key vnode_hash xs ++ all_vnodes hash_key vnode_hash ys
  unfolding all_vnodes
  all_vnodes-append [] ys = refl
  all_vnodes-append (x ∷ xs) ys = rw (all_vnodes-append xs ys) (
      sym (
        append_assoc (vnodes_from hash_key vnode_hash (node_weight x * vnodes_per_weight) 0 x.name)
          (all_vnodes hash_key vnode_hash xs) (all_vnodes hash_key vnode_hash ys)))

  -- A provider that joins the ring, at any place of the configuration, takes over keys, and moves no
  -- key from one of the other providers to another. Read the other way, only the keys of a provider
  -- that leaves move.
  pub join-moves_only_to_it :
      (key : String) (n : AffinityNode) (xs ys : List AffinityNode)
      → let look = λ (nodes : List AffinityNode).
        ring_lookup hash_key vnode_hash key (new_ring hash_key vnode_hash nodes) in
        (look (xs ++ (n ∷ ys)) ≡ look (xs ++ ys)) ⊎ (look (xs ++ (n ∷ ys)) ≡ n.name)
  unfolding all_vnodes
  join-moves_only_to_it key n xs ys =
      let all = all_vnodes hash_key vnode_hash in
      let new = vnodes_from hash_key vnode_hash (node_weight n * vnodes_per_weight) 0 n.name in
      let moved =
        λ (h : ℕ). nearest-Moved h n.name (all xs) new (all ys) (vnodes_from-named _ 0 n.name) in
      rw
        (
          ring_lookup-nearest key (xs ++ (n ∷ ys)),
          ring_lookup-nearest key (xs ++ ys),
          all_vnodes-append xs (n ∷ ys),
          all_vnodes-append xs ys,
        )
        (served-Moved n.name _ _ _ _ (moved (hash_key key)) (moved 0))
