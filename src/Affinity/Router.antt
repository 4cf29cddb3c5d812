-- ===== src/Affinity/Router.antt =====
-- prefix/affinity.go: AffinityRouter. The callback `healthy` is a function of the name, or nil. Dec
-- takes one off a counter and then repairs a negative one by a store of 0; `dec` does both at once.
pub mod Decision
pub mod Load
pub mod Overflow
use switch.Prelude.Dict.{Dict, lookup, insert, remove}
use switch.Prelude.{
  ℕ, zero, suc, ◌+◌, ◌-◌, ◌*◌, ◌%◌, String, Bool, true, false, ◌&&◌, not, Option, none, some, List,
  [], str_eq, ltb, ◌==◌, if◌then◌else◌, length, get_or,
}
use switch.Affinity.Ring.{Ring, AffinityNode, RingVNode, no_vnode, position, weight_of, new_ring}

pub record OverflowEntry : Type 0 where
  pub provider : String
  pub until : ℕ

-- The overload factor is overload_num / overload_den.
pub record AffinityRouter : Type 0 where
  pub ring : Ring
  pub overload_num : ℕ
  pub overload_den : ℕ
  pub overflow_ttl : ℕ
  pub inflight : Dict ℕ
  pub overflow : Dict OverflowEntry
  pub overflow_cnt : ℕ
  pub primary_cnt : ℕ
  pub fallback_cnt : ℕ

pub data Reason : Type 0 where
  overflowed primary fallback : Reason

abbrev pub minute : ℕ
minute = 60000000000

abbrev pub is_healthy : Option (String → Bool) → String → Bool
is_healthy none name = true
is_healthy (some healthy) name = healthy name

unfoldable pub is_overloaded : String → AffinityRouter → Bool
is_overloaded name a = elim (lookup name a.inflight) [
  | none ↦ false
  | some inf ↦ ltb (a.overload_num * weight_of name a.ring) (inf * a.overload_den)
]

-- What the walk takes.
unfoldable pub usable : Option (String → Bool) → AffinityRouter → String → Bool
usable healthy a name = is_healthy healthy name && not (is_overloaded name a)

-- The walk from vnode `start + step` on, with the number of vnodes that are left. A vnode that is
-- passed, also one of the name visited last, leaves its own name as the last one.
unfoldable pub walk : (String → Bool) → List RingVNode → ℕ → ℕ → ℕ → String → Option String
walk accepts vs start zero step last_visited = none
walk accepts vs start (suc left) step last_visited =
    let name = (get_or vs ((start + step) % length vs) no_vnode).name in
    let rest = walk accepts vs start left (suc step) name in
    if str_eq name last_visited then rest else if accepts name then some name else rest

unfoldable pub inc : String → AffinityRouter → AffinityRouter
inc name a = record a {
  inflight =
      insert name (suc (elim (lookup name a.inflight) [ none ↦ 0 | some inf ↦ inf ])) a.inflight;
}

-- The count stops at 0.
unfoldable pub dec : String → AffinityRouter → AffinityRouter
dec name a = elim (lookup name a.inflight) [
  | none ↦ a
  | some inf ↦ record a { inflight = insert name (inf - 1) a.inflight }
]

unfoldable pub inflight_of : String → AffinityRouter → ℕ
inflight_of name a = elim (lookup name a.inflight) [ none ↦ 0 | some inf ↦ inf ]

unfoldable pub record_overflow : ℕ → String → String → AffinityRouter → AffinityRouter
record_overflow now key provider_name a = record a {
  overflow =
      insert key (record { provider = provider_name; until = now + a.overflow_ttl }) a.overflow;
  overflow_cnt = suc a.overflow_cnt;
}

-- The entry that still holds: its time is not over and its provider is healthy.
unfoldable pub sticky : ℕ → Option (String → Bool) → Option OverflowEntry → Option String
sticky now healthy none = none
sticky now none (some e) = none
sticky now (some healthy) (some e) =
    if ltb now e.until && healthy e.provider then some e.provider else none

-- affinityPick of server/routing.go: what it records after a decision.
unfoldable pub note_overflow : ℕ → String → String → Reason → AffinityRouter → AffinityRouter
note_overflow now key p overflowed a = if str_eq p "" then a else record_overflow now key p a
note_overflow now key p primary a = a
note_overflow now key p fallback a = a

-- Counts the outcome of the walk.
unfoldable pub conclude : Option String → AffinityRouter → AffinityRouter × (String × Reason)
conclude none a = (record a { fallback_cnt = suc a.fallback_cnt }, ("", fallback))
conclude (some name) a = (record a { primary_cnt = suc a.primary_cnt }, (name, primary))

module _ (hash_key : String → ℕ) (vnode_hash : String → ℕ → ℕ) where
  unfoldable pub new_affinity_router : List AffinityNode → ℕ → ℕ → ℕ → AffinityRouter
  new_affinity_router nodes overload_num overload_den overflow_ttl = record {
    ring = new_ring hash_key vnode_hash nodes;
    overload_num = if overload_num == 0 then 5 else overload_num;
    overload_den = if overload_num == 0 then 4 else overload_den;
    overflow_ttl = if overflow_ttl == 0 then minute else overflow_ttl;
    inflight = [];
    overflow = [];
    overflow_cnt = 0;
    primary_cnt = 0;
    fallback_cnt = 0;
  }

  unfoldable pub set_ring : List AffinityNode → AffinityRouter → AffinityRouter
  set_ring nodes a = record a { ring = new_ring hash_key vnode_hash nodes; overflow = [] }

module _ (hash_key : String → ℕ) where
  unfoldable pub decide_by_ring :
      String → Option (String → Bool) → AffinityRouter → AffinityRouter × (String × Reason)
  decide_by_ring key healthy a =
      let vs = a.ring.vnodes in
      if length vs == 0
      then conclude none a
      else conclude (walk (usable healthy a) vs (position (hash_key key) vs) (length vs) 0 "") a

  -- By the entry that holds, or else by the ring, without the entry that does not.
  unfoldable pub decide_with :
      Option String
      → String
      → Option (String → Bool)
      → AffinityRouter
      → AffinityRouter × (String × Reason)
  decide_with (some provider) key healthy a = (a, (provider, overflowed))
  decide_with none key healthy a =
      decide_by_ring key healthy (record a { overflow = remove key a.overflow })

  unfoldable pub decide :
      ℕ → String → Option (String → Bool) → AffinityRouter → AffinityRouter × (String × Reason)
  decide now key healthy a = decide_with (sticky now healthy (lookup key a.overflow)) key healthy a

  -- server/routing.go, affinityPick: the server's use of a decision.
  unfoldable pub affinity_pick :
      ℕ → String → Option (String → Bool) → AffinityRouter → AffinityRouter × (String × Reason)
  affinity_pick now key healthy a =
      let (b, (p, reason)) = decide now key healthy a in
      let c = note_overflow now key p reason b in (if str_eq p "" then c else inc p c, (p, reason))
