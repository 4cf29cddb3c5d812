-- ===== src/Cache/Evict.antt =====
-- cache/cache.go: which entry a full cache evicts.
use native.Mathlib.Nat.{le_refl}
use switch.Prelude.Dict.{Dict, lookup, IsMap, remove, lookup-insert, lookup-remove}
use switch.Prelude.{
  ℕ, ◌≤◌, ◌<◌, String, ◌≡◌, refl, ◌⊎◌, inl, inr, false, some, [], ◌∷◌, arith, str_eq, ltb,
  Bool-cases, ◌+◌, ◌≢◌, none, eq_iff, ltb→lt, length, true,
}
use switch.Cache.{CacheEntry, oldest_from, Cache, oldest, make_room, set_with_ttl}
use switch.Cache.Size.{Inv}

module _ {ℓ} {A : Type ℓ} where
  -- No entry stands under the empty key. (The gateway's keys are hashes.)
  abbrev pub HasNames : Dict (CacheEntry A) → Type 0
  HasNames [] = Unit
  HasNames ((k, e) ∷ m) = (str_eq k "" ≡ false) × HasNames m

  -- No entry expires before t.
  abbrev pub NoneBefore : ℕ → Dict (CacheEntry A) → Type 0
  NoneBefore t [] = Unit
  NoneBefore t ((k, e) ∷ m) = (t ≤ e.expires_at) × NoneBefore t m

  NoneBefore-mono : {s t : ℕ} (m : Dict (CacheEntry A)) → s ≤ t → NoneBefore t m → NoneBefore s m
  NoneBefore-mono [] h b = tt
  NoneBefore-mono ((k, e) ∷ m) h b = (omega arith, NoneBefore-mono m h b.1)

  -- The loop keeps the key it started with, if no entry expires before it, and else finds one that
  -- no entry expires before.
  Kept : String → ℕ → Dict (CacheEntry A) → String → Type ℓ
  Kept o t m r =
      ((r ≡ o) × NoneBefore t m)
      ⊎ ((e : CacheEntry A) × (lookup r m ≡ some e)
          × (e.expires_at < t)
          × NoneBefore e.expires_at m)

  lookup-skip :
      (k r : String) (e e' : CacheEntry A) (m : Dict (CacheEntry A))
      → lookup k m ≡ none
      → lookup r m ≡ some e'
      → lookup r ((k, e) ∷ m) ≡ some e'
  unfolding lookup
  lookup-skip k r e e' m fresh found = ground (arith, eq_iff k r)

  lookup-here :
      (k : String) (e : CacheEntry A) (m : Dict (CacheEntry A)) → lookup k ((k, e) ∷ m) ≡ some e
  unfolding lookup
  lookup-here k e m = ground (arith, eq_iff k k)

  -- One round of the loop, from what the later rounds keep.
  took :
      (t : ℕ) (k : String) (e : CacheEntry A) (m : Dict (CacheEntry A)) (o r : String)
      → lookup k m ≡ none
      → e.expires_at < t
      → Kept k e.expires_at m r
      → Kept o t ((k, e) ∷ m) r
  unfolding Kept
  took t k e m o r fresh sooner (inl (same, none_before)) =
      inr (e, rw same (lookup-here k e m), sooner, (le_refl _, none_before))
  took t k e m o r fresh sooner (inr (e', found, lower, none_before)) =
      inr (e', lookup-skip k r e e' m fresh found, omega arith, (omega arith, none_before))

  passed :
      (t : ℕ) (k : String) (e : CacheEntry A) (m : Dict (CacheEntry A)) (o r : String)
      → lookup k m ≡ none
      → t ≤ e.expires_at
      → Kept o t m r
      → Kept o t ((k, e) ∷ m) r
  unfolding Kept
  passed t k e m o r fresh later (inl (same, none_before)) = inl (same, (later, none_before))
  passed t k e m o r fresh later (inr (e', found, lower, none_before)) =
      inr (e', lookup-skip k r e e' m fresh found, lower, (omega arith, none_before))

  oldest_from_took :
      (o k : String) (t : ℕ) (e : CacheEntry A) (m : Dict (CacheEntry A))
      → ltb e.expires_at t ≡ true
      → oldest_from o t ((k, e) ∷ m) ≡ oldest_from k e.expires_at m
  unfolding oldest_from
  oldest_from_took o k t e m sooner = ground (arith)

  oldest_from_passed :
      (o k : String) (t : ℕ) (e : CacheEntry A) (m : Dict (CacheEntry A))
      → str_eq o "" ≡ false
      → ltb e.expires_at t ≡ false
      → oldest_from o t ((k, e) ∷ m) ≡ oldest_from o t m
  unfolding oldest_from
  oldest_from_passed o k t e m named later = rw (named, later)

  oldest_from-Kept :
      (o : String) (t : ℕ) (m : Dict (CacheEntry A))
      → str_eq o "" ≡ false
      → HasNames m
      → IsMap m
      → Kept o t m (oldest_from o t m)
  unfolding IsMap
  oldest_from-Kept o t [] named names v = unfold oldest_from Kept in inl (refl, tt)
  oldest_from-Kept o t ((k, e) ∷ m) named names v = elim (Bool-cases (ltb e.expires_at t)) [
    | inl sooner ↦ rw (oldest_from_took o k t e m sooner) (
        took t k e m o _ v.0 (ltb→lt _ _ sooner)
          (oldest_from-Kept k e.expires_at m names.0 names.1 v.1))
    | inr later ↦
        rw (oldest_from_passed o k t e m named later)
          (passed t k e m o _ v.0 (ground arith) (oldest_from-Kept o t m named names.1 v.1))
  ]

  -- The entry to evict is one of the entries, and none expires sooner.
  oldest-first :
      (m : Dict (CacheEntry A))
      → 0 < length m
      → HasNames m
      → IsMap m
      → (e : CacheEntry A) × (lookup (oldest m) m ≡ some e) × NoneBefore e.expires_at m
  unfolding oldest oldest_from Kept IsMap
  oldest-first [] h names v = absurd (omega arith)
  oldest-first ((k, e) ∷ m) h names v =
      first_entry (oldest_from-Kept k e.expires_at m names.0 names.1 v.1)
    where
      first_entry :
          Kept k e.expires_at m (oldest_from k e.expires_at m)
          → (e' : CacheEntry A) × (lookup (oldest_from k e.expires_at m) ((k, e) ∷ m) ≡ some e')
            × NoneBefore e'.expires_at ((k, e) ∷ m)
      first_entry (inl (same, none_before)) =
          (e, rw same (lookup-here k e m), (le_refl _, none_before))
      first_entry (inr (e', found, lower, none_before)) =
          (e', lookup-skip k _ e e' m v.0 found, (omega arith, none_before))

  -- A write into a full cache, also one that only overwrites a value, drops an entry that no entry
  -- expires before.
  pub full_write-evicts :
      (now ttl : ℕ) (key : String) (value : A) (c : Cache A)
      → Inv c
      → HasNames c.entries
      → 0 < length c.entries
      → c.max_size ≤ length c.entries
      → key ≢ oldest c.entries
      → (e : CacheEntry A) × (lookup (oldest c.entries) c.entries ≡ some e)
        × NoneBefore e.expires_at c.entries
        × (lookup (oldest c.entries) (set_with_ttl now key value ttl c).entries ≡ none)
  unfolding set_with_ttl make_room
  full_write-evicts now ttl key value c v names some_entry full ne =
      let o = oldest c.entries in
      let (e, found, none_before) = oldest-first c.entries some_entry names v.is_map in
      (
        e,
        found,
        none_before,
        ground (
          arith,
          eq_iff key o,
          eq_iff o o,
          lookup-insert key o (record { value = value; expires_at = now + ttl })
              (remove o c.entries),
          lookup-remove o o c.entries v.is_map,
        ),
      )
