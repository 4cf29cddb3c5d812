-- ===== src/Prefix/Profiler/Evicted.antt =====
-- prefix/profiler.go: the eviction keeps the size in bounds and the records that were used last.
use mathlib.Core.List.{Memᴰ}
use mathlib.Core.Option.{some-injective}
use switch.Prelude.Dict.{Dict, lookup, IsMap}
use switch.Prelude.Sort.{
  IsOrdered, sort_by, sort_by-Memᴰ, sort_by-IsOrdered, length-sort_by, Memᴰ-sort_by,
}
use switch.Prelude.{
  String, ◌≡◌, ◌∙◌, false, none, List, arith, length, take, sym, ap, inl, inr, true, Bool-cases,
  ◌-◌, ◌≤◌, leb, length-take,
}
use switch.Prefix.{PrefixRecord}
use switch.Prefix.Profiler.{remove_each, older, Profiler, evict_if_needed}
use switch.Prefix.Profiler.Bounds.{IsApart, IsMap-distinct, sort_by-distinct}
use switch.Prefix.Profiler.Removed.{
  names, take-IsOrdered, before_rest, lookup-remove_each, remove_each-IsMap, length-remove_each,
  names-Memᴰ, Memᴰ-names, Memᴰ-lookup, remove_each-Memᴰ, take-Memᴰ, all-there,
}

abbrev evicted : Profiler → List (String × PrefixRecord)
evicted p = take (length p.records - p.max_records) (sort_by older p.records)

evicted-Memᴰ : (p : Profiler) (e : String × PrefixRecord) → Memᴰ e (evicted p) → Memᴰ e p.records
evicted-Memᴰ p e m = sort_by-Memᴰ older e p.records (take-Memᴰ _ _ e m)

-- The eviction leaves at most the maximum.
length-evict_if_needed :
    (p : Profiler) → IsMap p.records → length (evict_if_needed p).records ≤ p.max_records
unfolding evict_if_needed
length-evict_if_needed p v =
    let n = length p.records - p.max_records in
    let distinct =
      take-IsOrdered IsApart n _ (sort_by-distinct p.records (IsMap-distinct p.records v)) in
    let gone =
      length-remove_each (evicted p) p.records distinct
        (all-there (evicted p) p.records v (evicted-Memᴰ p)) in
    let many = length-take n (sort_by older p.records) in
    let sorted = length-sort_by older p.records in ground (arith, gone, many, sorted)

abbrev IsOlder : String × PrefixRecord → String × PrefixRecord → Type 0
IsOlder a b = a.1.last_access ≤ b.1.last_access

oldest-first : (d : Dict PrefixRecord) → IsOrdered IsOlder (sort_by older d)
oldest-first d =
    sort_by-IsOrdered older IsOlder (λ a b h. ground (arith, h)) (λ a b h. ground (arith, h))
      (λ a b c h k. omega (arith, h, k)) d

lost-among :
    (p : Profiler) (gone : String × PrefixRecord)
    → IsMap p.records
    → Memᴰ gone p.records
    → lookup gone.0 (remove_each (evicted p) p.records) ≡ none
    → names (evicted p) gone.0 ≡ true
lost-among p gone v was lost =
    let found = Memᴰ-lookup p.records gone v was in
    ground (arith, found, lost, lookup-remove_each gone.0 (evicted p) p.records v)

stays-apart :
    (p : Profiler) (kept : String × PrefixRecord)
    → IsMap p.records
    → Memᴰ kept (remove_each (evicted p) p.records)
    → names (evicted p) kept.0 ≡ false
stays-apart p kept v stays =
    let v' = remove_each-IsMap (evicted p) p.records v in
    let found = Memᴰ-lookup (remove_each (evicted p) p.records) kept v' stays in
    ground (arith, found, lookup-remove_each kept.0 (evicted p) p.records v)

evicted-before :
    (p : Profiler) (gone kept : String × PrefixRecord)
    → IsMap p.records
    → Memᴰ gone p.records
    → lookup gone.0 (remove_each (evicted p) p.records) ≡ none
    → Memᴰ kept (remove_each (evicted p) p.records)
    → gone.1.last_access ≤ kept.1.last_access
evicted-before p gone kept v was lost stays =
    let n = length p.records - p.max_records in
    let (e, among, named) = names-Memᴰ (evicted p) gone.0 (lost-among p gone v was lost) in
    let same : e.1 ≡ gone.1 = some-injective e.1 gone.1 (
      sym (Memᴰ-lookup p.records e v (evicted-Memᴰ p e among))
      ∙ ap (λ k. lookup k p.records) named
      ∙ Memᴰ-lookup p.records gone v was) in
    let in_all =
      Memᴰ-sort_by older kept p.records (remove_each-Memᴰ (evicted p) p.records kept stays) in
    elim (before_rest IsOlder n (sort_by older p.records) e kept (oldest-first p.records) among
      in_all) [
        | inl also ↦
            absurd (ground (arith, Memᴰ-names (evicted p) kept also, stays-apart p kept v stays))
        | inr first ↦ omega (arith, first, ap (λ r. r.last_access) same)
      ]

-- The eviction leaves at most the maximum of records, and what goes was used last before what stays,
-- or at the same time.
pub evict_if_needed-oldest :
    (p : Profiler) (gone kept : String × PrefixRecord)
    → IsMap p.records
    → Memᴰ gone p.records
    → lookup gone.0 (evict_if_needed p).records ≡ none
    → Memᴰ kept (evict_if_needed p).records
    → (length (evict_if_needed p).records ≤ p.max_records)
      × (gone.1.last_access ≤ kept.1.last_access)
unfolding evict_if_needed
evict_if_needed-oldest p gone kept v was lost stays = (
  length-evict_if_needed p v,
  elim (Bool-cases (leb (length p.records) p.max_records)) [
    | inl fits ↦
        let found = Memᴰ-lookup p.records gone v was in absurd (ground (arith, fits, lost, found))
    | inr over ↦ evicted-before p gone kept v was (ground (arith, over, lost)) (rw over at stays)
  ],
)
