-- ===== src/Affinity/Tests.antt =====
-- prefix/affinity.go: a ring of three vnodes, and the theorems at concrete inputs.
use switch.Prelude.Search.{sort_search, search_loop}
use switch.Prelude.Dict.{lookup, remove}
use switch.Prelude.{
  ℕ, String, ◌≡◌, refl, ◌≢◌, ◌⊎◌, Bool, not, Option, some, List, [], ◌∷◌, ◌++◌, str_eq,
}
use switch.Affinity.Ring.{AffinityNode, RingVNode, position, weight_of, new_ring, ring_lookup}
use switch.Affinity.Ring.Moves.{join-moves_only_to_it}
use switch.Affinity.Router.{
  AffinityRouter, minute, is_overloaded, usable, walk, sticky, conclude, new_affinity_router,
  decide_by_ring, decide_with, decide, affinity_pick, overflowed, primary,
}
use switch.Affinity.Router.Decision.{decide_first, ByRing}
use switch.Affinity.Router.Overflow.{serve_all, never_overflows, picks, finishes}

abbrev three_vnodes : List RingVNode
three_vnodes =
    record { hash = 10; name = "a" }
    ∷ record { hash = 20; name = "b" }
    ∷ record { hash = 30; name = "c" }
    ∷ []

-- "b" is at its limit: more than 5/4 requests are under way.
abbrev router : AffinityRouter
router = record {
  ring = record { vnodes = three_vnodes; weights = []; total = 3 };
  overload_num = 5;
  overload_den = 4;
  overflow_ttl = minute;
  inflight = ("b", 2) ∷ [];
  overflow = [];
  overflow_cnt = 0;
  primary_cnt = 0;
  fallback_cnt = 0;
}

abbrev key_hash : String → ℕ
key_hash key = 15

abbrev none_hash : String → ℕ → ℕ
none_hash name i = i

abbrev named : Option (String → Bool)
named = some (λ name. not (str_eq name ""))

-- The key belongs to "b", which is passed over for "c".
passes_overloaded : (decide key_hash 0 "k" named router).1 ≡ ("c", primary)
unfolding decide decide_with decide_by_ring conclude sticky lookup remove walk usable is_overloaded
    weight_of position sort_search search_loop
passes_overloaded = refl

decide_first_example : ByRing key_hash "k" named router (decide key_hash 0 "k" named router).1
unfolding sticky lookup
decide_first_example = decide_first key_hash 0 "k" named router refl refl

abbrev node_a : AffinityNode
node_a = record { name = "a"; weight = 1 }

abbrev node_b : AffinityNode
node_b = record { name = "b"; weight = 2 }

abbrev of_key : List AffinityNode → String
of_key nodes = ring_lookup key_hash none_hash "k" (new_ring key_hash none_hash nodes)

join-moves_only_to_it_example :
    (of_key ([] ++ (node_b ∷ (node_a ∷ []))) ≡ of_key ([] ++ (node_a ∷ [])))
    ⊎ (of_key ([] ++ (node_b ∷ (node_a ∷ []))) ≡ "b")
join-moves_only_to_it_example = join-moves_only_to_it key_hash none_hash "k" node_b [] (node_a ∷ [])

never_overflows_example :
    let a =
      serve_all key_hash none_hash
        (new_affinity_router key_hash none_hash (node_a ∷ []) 0 1 0)
        (picks 3 "k" named ∷ finishes "a" ∷ []) in
    (a.overflow ≡ []) × ((affinity_pick key_hash 4 "k" named a).1.1 ≢ overflowed)
never_overflows_example =
    never_overflows key_hash none_hash (node_a ∷ []) 0 1 0 4 "k" named
      (picks 3 "k" named ∷ finishes "a" ∷ [])
