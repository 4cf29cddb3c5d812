-- ===== src/Cache/Lookup.antt =====
-- cache/cache.go: what a read finds after a write or a clean-up.
use switch.Prelude.Dict.{
  Dict, lookup, IsMap, remove, lookup-insert, lookup-insert_self, lookup-remove,
}
use switch.Prelude.{
  ℕ, ◌≤◌, String, ◌≡◌, refl, [], ◌∷◌, ◌+◌, ◌≢◌, ◌&&◌, none, some, arith, eq_iff, str_eq, leb,
  if◌then◌else◌, length,
}
use switch.Cache.{
  CacheEntry, live_value, drop_expired, Cache, get, oldest, make_room, set_with_ttl, evict_expired,
}
use switch.Cache.Size.{Inv, lookup-drop_expired-none}

module _ {ℓ} {A : Type ℓ} where
  lookup-drop_expired :
      (now : ℕ) (k : String) (m : Dict (CacheEntry A))
      → IsMap m
      → (later : ℕ) → now ≤ later
      → live_value later (lookup k (drop_expired now m)) ≡ live_value later (lookup k m)
  unfolding lookup drop_expired IsMap
  lookup-drop_expired now k [] v later h = refl
  lookup-drop_expired now k ((j, e) ∷ m) v later h =
      ground (
        arith,
        eq_iff j k,
        lookup-drop_expired now k m v.1 later h,
        lookup-drop_expired-none now k m,
      )

  -- A clean-up is not seen by any reader, then or later: it drops expired entries only.
  pub get-evict_expired :
      (now later : ℕ) (key : String) (c : Cache A)
      → Inv c
      → now ≤ later
      → get later key (evict_expired now c) ≡ get later key c
  unfolding get evict_expired
  get-evict_expired now later key c v h = lookup-drop_expired now key c.entries v.is_map later h

  -- A value that was written is read back, by the same key, until its time to live is over, and not
  -- after that; whether or not the write had to evict another entry.
  pub get-set_with_ttl_self :
      (now later ttl : ℕ) (key : String) (value : A) (c : Cache A)
      → get later key (set_with_ttl now key value ttl c)
        ≡ (if leb later (now + ttl) then some value else none)
  unfolding get set_with_ttl
  get-set_with_ttl_self now later ttl key value c = ground (
    arith,
    lookup-insert_self key (record { value = value; expires_at = now + ttl }) (make_room c),
  )

  -- What a reader of another key finds: as before, but for the key that was evicted from a full
  -- cache.
  pub get-set_with_ttl_ne :
      (now later ttl : ℕ) (key other : String) (value : A) (c : Cache A)
      → Inv c
      → key ≢ other
      → get later other (set_with_ttl now key value ttl c) ≡ (
          if leb c.max_size (length c.entries) && str_eq (oldest c.entries) other
          then none
          else get later other c)
  unfolding get set_with_ttl make_room
  get-set_with_ttl_ne now later ttl key other value c v ne = ground (
    arith,
    eq_iff key other,
    lookup-insert key other (record { value = value; expires_at = now + ttl })
        (remove (oldest c.entries) c.entries),
    lookup-insert key other (record { value = value; expires_at = now + ttl }) c.entries,
    lookup-remove (oldest c.entries) other c.entries v.is_map,
  )
