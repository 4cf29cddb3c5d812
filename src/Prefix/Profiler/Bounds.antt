-- ===== src/Prefix/Profiler/Bounds.antt =====
-- prefix/profiler.go: the sizes of what the profiler keeps.
use switch.Prelude.Dict.{Dict, lookup, IsMap}
use switch.Prelude.Sort.{sort_by, IsOrdered, insert_by}
use switch.Prelude.{
  ℕ, ◌+◌, ◌-◌, ◌*◌, ◌≤◌, min, String, ◌≡◌, inl, inr, false, none, List, [], ◌∷◌, arith, eq_iff,
  str_eq, ltb, leb, Bool-cases, length, All, ◌<◌, ltb→lt, length-take, true, le→leb, take,
}
use switch.Prefix.{Message, PrefixRecord}
use switch.Prefix.Profiler.{max_bytes, truncate_from, truncate_messages, older}

unfoldable pub bytes : List Message → ℕ
bytes [] = 0
bytes (m ∷ ms) = length m.content + bytes ms

truncate_from-bytes :
    (total : ℕ) (ms : List Message)
    → total ≤ max_bytes
    → bytes (truncate_from total ms) ≡ min (bytes ms) (max_bytes - total)
unfolding truncate_from bytes
truncate_from-bytes total [] h = omega arith
truncate_from-bytes total (m ∷ ms) h =
    elim (Bool-cases (ltb max_bytes (total + length m.content))) [
      | inl over ↦
          let cut = length-take (max_bytes - total) m.content in
          let long : max_bytes < total + length m.content = ltb→lt _ _ over in
          let full : leb max_bytes (total + length (take (max_bytes - total) m.content)) ≡ true =
            le→leb _ _ (omega (arith, cut, long, h)) in
          rw (over, full) (omega (arith, cut, long, h))
      | inr fits ↦ elim (Bool-cases (leb max_bytes (total + length m.content))) [
        | inl full ↦ ground (arith, fits, full)
        | inr room ↦
            let later = truncate_from-bytes (total + length m.content) ms (ground (arith, fits)) in
            ground (arith, fits, room, later)
      ]
    ]

-- The messages that are kept for a warm-up have all the bytes of those given, up to 16 KiB.
pub truncate_messages-bytes :
    (ms : List Message) → bytes (truncate_messages ms) ≡ min (bytes ms) (16 * 1024)
unfolding truncate_messages
truncate_messages-bytes ms = truncate_from-bytes 0 ms (omega arith)

abbrev pub IsApart : String × PrefixRecord → String × PrefixRecord → Type 0
IsApart a b = str_eq a.0 b.0 ≡ false

lookup-IsApart :
    (k : String) (r : PrefixRecord) (d : Dict PrefixRecord)
    → lookup k d ≡ none
    → All (IsApart (k, r)) d
unfolding lookup
lookup-IsApart k r [] h = tt
lookup-IsApart k r ((j, s) ∷ d) h =
    (ground (arith, h, eq_iff j k, eq_iff k j), lookup-IsApart k r d (ground (arith, h)))

pub IsMap-distinct : (d : Dict PrefixRecord) → IsMap d → IsOrdered IsApart d
unfolding IsMap
IsMap-distinct [] h = tt
IsMap-distinct ((k, r) ∷ d) h = (lookup-IsApart k r d h.0, IsMap-distinct d h.1)

insert_by-IsApart :
    (a b : String × PrefixRecord) (es : List (String × PrefixRecord))
    → IsApart a b
    → All (IsApart a) es
    → All (IsApart a) (insert_by older b es)
unfolding insert_by
insert_by-IsApart a b [] r h = (r, tt)
insert_by-IsApart a b (e ∷ es) r h = elim (Bool-cases (older e b)) [
  | inl before ↦ rw before (h.0, insert_by-IsApart a b es r h.1)
  | inr after ↦ rw after (r, h)
]

insert_by-distinct :
    (b : String × PrefixRecord) (es : List (String × PrefixRecord))
    → All (IsApart b) es
    → IsOrdered IsApart es
    → IsOrdered IsApart (insert_by older b es)
unfolding insert_by
insert_by-distinct b [] h d = (tt, tt)
insert_by-distinct b (e ∷ es) h d = elim (Bool-cases (older e b)) [
  | inl before ↦
      let apart : IsApart e b = ground (arith, h.0, eq_iff b.0 e.0, eq_iff e.0 b.0) in
      rw before (insert_by-IsApart e b es apart d.0, insert_by-distinct b es h.1 d.1)
  | inr after ↦ rw after (h, d)
]

sort_by-All :
    (a : String × PrefixRecord) (es : List (String × PrefixRecord))
    → All (IsApart a) es
    → All (IsApart a) (sort_by older es)
unfolding sort_by
sort_by-All a [] h = tt
sort_by-All a (e ∷ es) h = insert_by-IsApart a e (sort_by older es) h.0 (sort_by-All a es h.1)

pub sort_by-distinct :
    (es : List (String × PrefixRecord))
    → IsOrdered IsApart es
    → IsOrdered IsApart (sort_by older es)
unfolding sort_by
sort_by-distinct [] h = tt
sort_by-distinct (e ∷ es) h =
    insert_by-distinct e (sort_by older es) (sort_by-All e es h.0) (sort_by-distinct es h.1)
