-- ===== src/Cache/Size.antt =====
-- cache/cache.go: the bound on the number of entries.
use native.Mathlib.Decide.{dec_lt}
use switch.Prelude.Dict.{
  Dict, IsMap, has, remove, insert-IsMap, remove-IsMap, length-insert-le, lookup, length-remove-has,
  length-remove-le,
}
use switch.Prelude.{
  ℕ, suc, ◌≤◌, ◌<◌, max, String, ◌≡◌, refl, ◌⊎◌, inl, inr, true, ◌||◌, [], ◌∷◌, arith, eq_iff,
  str_eq, ltb, Bool-cases, length, ◌+◌, leb, none, List, ◌∙◌,
}
use switch.Cache.{
  Cache, CacheEntry, oldest_from, oldest, make_room, new, set_with_ttl, drop_expired, evict_expired,
  size,
}

module _ {ℓ} {A : Type ℓ} where
  -- The loop returns the key it started with, or one of the entries.
  oldest_from-cases :
      (o : String) (t : ℕ) (m : Dict (CacheEntry A))
      → (oldest_from o t m ≡ o) ⊎ (has (oldest_from o t m) m ≡ true)
  unfolding oldest_from has
  oldest_from-cases o t [] = inl refl
  oldest_from-cases o t ((k, e) ∷ m) =
      let accepts = str_eq o "" || ltb e.expires_at t in
      elim (Bool-cases accepts) [
        | inl yes_take ↦
            ground
              (arith, oldest_from-cases k e.expires_at m, eq_iff k (oldest_from k e.expires_at m))
        | inr no_take ↦ ground (arith, oldest_from-cases o t m)
      ]

  -- A non-empty map has an entry to evict.
  pub oldest-has : (m : Dict (CacheEntry A)) → 0 < length m → has (oldest m) m ≡ true
  unfolding oldest oldest_from has
  oldest-has [] h = absurd (omega arith)
  oldest-has ((k, e) ∷ m) h = ground (
    arith,
    oldest_from-cases k e.expires_at m,
    eq_iff k (oldest_from k e.expires_at m),
    eq_iff "" "",
  )

-- The entries form a map and are no more than the cache's limit, or one where the limit is 0.
pub record Inv {ℓ} {A : Type ℓ} (c : Cache A) : Type ℓ where
  pub is_map : IsMap c.entries
  pub bounded : length c.entries ≤ max c.max_size 1

module _ {ℓ} {A : Type ℓ} where
  pub new-Inv : (max_size ttl : ℕ) → Inv (new {A = A} max_size ttl)
  unfolding new IsMap
  new-Inv max_size ttl = record { is_map = tt; bounded = omega arith }

  make_room-IsMap : (c : Cache A) → Inv c → IsMap (make_room c)
  unfolding make_room
  make_room-IsMap c v = elim (Bool-cases (leb c.max_size (length c.entries))) [
    | inl e ↦ rw (e, make_room) (remove-IsMap (oldest c.entries) c.entries v.is_map)
    | inr e ↦ rw (e, make_room) v.is_map
  ]

  make_room-lt : (c : Cache A) → Inv c → suc (length (make_room c)) ≤ max c.max_size 1
  unfolding make_room
  make_room-lt c v = elim (Bool-cases (leb c.max_size (length c.entries))) [
    | inl e ↦ rw (e, make_room) (evicted c v)
    | inr e ↦ rw (e, make_room) (ground arith)
  ]
    where
      evicted :
          (c : Cache A)
          → Inv c
          → suc (length (remove (oldest c.entries) c.entries)) ≤ max c.max_size 1
      evicted c v = elim (dec_lt 0 (length c.entries)) [
        | yes some_entry ↦ omega (
          arith,
          length-remove-has (oldest c.entries) c.entries (oldest-has c.entries some_entry),
          v.bounded,
        )
        | no no_entry ↦ omega (arith, length-remove-le (oldest c.entries) c.entries)
      ]

  -- A write keeps the entries within the limit, and each key once.
  pub set_with_ttl-Inv :
      (now : ℕ) (key : String) (value : A) (ttl : ℕ) (c : Cache A)
      → Inv c
      → Inv (set_with_ttl now key value ttl c)
  unfolding set_with_ttl
  set_with_ttl-Inv now key value ttl c v = record {
    is_map = insert-IsMap key _ (make_room c) (make_room-IsMap c v);
    bounded = omega (
      arith,
      length-insert-le key (record { value = value; expires_at = now + ttl }) (make_room c),
      make_room-lt c v,
    );
  }

  length-drop_expired-le :
      (now : ℕ) (m : Dict (CacheEntry A)) → length (drop_expired now m) ≤ length m
  unfolding drop_expired
  length-drop_expired-le now [] = omega arith
  length-drop_expired-le now ((k, e) ∷ m) = ground (arith, length-drop_expired-le now m)

  pub lookup-drop_expired-none :
      (now : ℕ) (k : String) (m : Dict (CacheEntry A))
      → lookup k m ≡ none
      → lookup k (drop_expired now m) ≡ none
  unfolding drop_expired lookup
  lookup-drop_expired-none now k [] h = refl
  lookup-drop_expired-none now k ((j, e) ∷ m) h = ground (arith, lookup-drop_expired-none now k m)

  drop_expired-IsMap : (now : ℕ) (m : Dict (CacheEntry A)) → IsMap m → IsMap (drop_expired now m)
  unfolding drop_expired IsMap
  drop_expired-IsMap now [] v = tt
  drop_expired-IsMap now ((k, e) ∷ m) v = elim (Bool-cases (ltb e.expires_at now)) [
    | inl gone ↦ rw (gone, drop_expired) (drop_expired-IsMap now m v.1)
    | inr kept ↦
        rw (kept, drop_expired) (lookup-drop_expired-none now k m v.0, drop_expired-IsMap now m v.1)
  ]

  pub evict_expired-Inv : (now : ℕ) (c : Cache A) → Inv c → Inv (evict_expired now c)
  unfolding evict_expired
  evict_expired-Inv now c v = record {
    is_map = drop_expired-IsMap now c.entries v.is_map;
    bounded = omega (arith, length-drop_expired-le now c.entries, v.bounded);
  }

-- The calls that change a cache.
pub data Op {ℓ} (A : Type ℓ) : Type ℓ where
  sets : String → A → ℕ → Op A
  evicts : Op A

module _ {ℓ} {A : Type ℓ} where
  unfoldable pub step : ℕ × Op A → Cache A → Cache A
  step (now, sets key value ttl) c = set_with_ttl now key value ttl c
  step (now, evicts) c = evict_expired now c

  unfoldable pub run : Cache A → List (ℕ × Op A) → Cache A
  run c [] = c
  run c (op ∷ ops) = run (step op c) ops

  step-Inv : (op : ℕ × Op A) (c : Cache A) → Inv c → Inv (step op c)
  unfolding step
  step-Inv (now, sets key value ttl) c v = set_with_ttl-Inv now key value ttl c v
  step-Inv (now, evicts) c v = evict_expired-Inv now c v

  step-max_size : (op : ℕ × Op A) (c : Cache A) → (step op c).max_size ≡ c.max_size
  unfolding step set_with_ttl evict_expired
  step-max_size (now, sets key value ttl) c = refl
  step-max_size (now, evicts) c = refl

  pub run-Inv : (c : Cache A) (ops : List (ℕ × Op A)) → Inv c → Inv (run c ops)
  unfolding run
  run-Inv c [] v = v
  run-Inv c (op ∷ ops) v = run-Inv (step op c) ops (step-Inv op c v)

  run-max_size : (c : Cache A) (ops : List (ℕ × Op A)) → (run c ops).max_size ≡ c.max_size
  unfolding run
  run-max_size c [] = refl
  run-max_size c (op ∷ ops) = run-max_size (step op c) ops ∙ step-max_size op c

  -- A cache made for `max_size` entries, at least one, never holds more, nor a key twice, after any
  -- writes and clean-ups at any times.
  pub size-le :
      (max_size ttl : ℕ) (ops : List (ℕ × Op A))
      → 0 < max_size
      → let c = run (new {A = A} max_size ttl) ops in (size c ≤ max_size) × IsMap c.entries
  unfolding size
  size-le max_size ttl ops pos =
      let v = run-Inv (new max_size ttl) ops (new-Inv max_size ttl) in
      (omega (arith, v.bounded, limit, pos), v.is_map)
    where
      limit : (run (new {A = A} max_size ttl) ops).max_size ≡ max_size
      limit = run-max_size (new max_size ttl) ops ∙ unfold new in refl
