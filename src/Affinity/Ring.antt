-- ===== src/Affinity/Ring.antt =====
-- prefix/affinity.go: Ring.
pub mod Order
pub mod Nearest
pub mod Moves
use switch.Prelude.Dict.{Dict, lookup, insert}
use switch.Prelude.Search.{sort_search}
use switch.Prelude.{
  ℕ, zero, suc, ◌+◌, ◌*◌, String, none, some, List, [], ◌∷◌, ◌++◌, ltb, leb, ◌==◌, if◌then◌else◌,
  length, get_or,
}

pub record AffinityNode : Type 0 where
  pub name : String
  pub weight : ℕ

abbrev pub vnodes_per_weight : ℕ
vnodes_per_weight = 256

pub record RingVNode : Type 0 where
  pub hash : ℕ
  pub name : String

pub record Ring : Type 0 where
  pub vnodes : List RingVNode
  pub weights : Dict ℕ
  pub total : ℕ

abbrev pub no_vnode : RingVNode
no_vnode = record { hash = 0; name = "" }

-- The sort by hash. (Which of two vnodes of one hash is first, Go leaves open.)
unfoldable pub insert_vnode : RingVNode → List RingVNode → List RingVNode
insert_vnode v [] = v ∷ []
insert_vnode v (w ∷ ws) =
    let rest = insert_vnode v ws in if leb v.hash w.hash then v ∷ w ∷ ws else w ∷ rest

unfoldable pub sort_vnodes : List RingVNode → List RingVNode
sort_vnodes [] = []
sort_vnodes (v ∷ vs) = insert_vnode v (sort_vnodes vs)

-- The index of the first vnode at or after a hash; the number of vnodes if there is none.
unfoldable pub position : ℕ → List RingVNode → ℕ
position h vs = sort_search (length vs) (λ i. leb h (get_or vs i no_vnode).hash)

unfoldable pub weight_of : String → Ring → ℕ
weight_of name r = elim (lookup name r.weights) [ none ↦ 1 | some w ↦ if ltb 0 w then w else 1 ]

abbrev pub node_weight : AffinityNode → ℕ
node_weight n = if n.weight == 0 then 1 else n.weight

unfoldable pub weights_from : Dict ℕ → List AffinityNode → Dict ℕ
weights_from m [] = m
weights_from m (n ∷ ns) = weights_from (insert n.name (node_weight n) m) ns

unfoldable pub total_weight : List AffinityNode → ℕ
total_weight [] = 0
total_weight (n ∷ ns) = node_weight n * vnodes_per_weight + total_weight ns

-- The provider at a hash: that of the first vnode clockwise.
unfoldable pub owner : ℕ → List RingVNode → String
owner h vs =
    let idx = position h vs in
    if length vs == 0 then "" else (get_or vs (if idx == length vs then 0 else idx) no_vnode).name

module _ (hash_key : String → ℕ) (vnode_hash : String → ℕ → ℕ) where
  -- The vnodes of a name with the numbers from `i` on.
  unfoldable pub vnodes_from : ℕ → ℕ → String → List RingVNode
  vnodes_from zero i name = []
  vnodes_from (suc count) i name =
      record { hash = vnode_hash name i; name = name } ∷ vnodes_from count (suc i) name

  unfoldable pub all_vnodes : List AffinityNode → List RingVNode
  all_vnodes [] = []
  all_vnodes (n ∷ ns) = vnodes_from (node_weight n * vnodes_per_weight) 0 n.name ++ all_vnodes ns

  unfoldable pub new_ring : List AffinityNode → Ring
  new_ring nodes = record {
    vnodes = sort_vnodes (all_vnodes nodes);
    weights = weights_from [] nodes;
    total = total_weight nodes;
  }

  unfoldable pub ring_lookup : String → Ring → String
  ring_lookup key r = owner (hash_key key) r.vnodes
