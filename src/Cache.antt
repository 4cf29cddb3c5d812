-- ===== src/Cache.antt =====
-- cache/cache.go: the response cache. Values are of any type; time is nanoseconds in ℕ and an
-- argument of each call; the order of the entries is that of one `range` over the map.
pub mod Size
pub mod Lookup
pub mod Evict
pub mod Coalescer
mod Tests
use switch.Prelude.Dict.{Dict, lookup, insert, remove}
use switch.Prelude.{
  ℕ, ◌+◌, String, ◌||◌, Option, none, some, [], ◌∷◌, str_eq, ltb, leb, if◌then◌else◌, length, take,
}

pub record CacheEntry {ℓ} (A : Type ℓ) : Type ℓ where
  pub value : A
  pub expires_at : ℕ

pub record Cache {ℓ} (A : Type ℓ) : Type ℓ where
  pub entries : Dict (CacheEntry A)
  pub max_size : ℕ
  pub ttl : ℕ

module _ {ℓ} {A : Type ℓ} where
  unfoldable pub new : ℕ → ℕ → Cache A
  new max_size ttl = record { entries = []; max_size = max_size; ttl = ttl }

  abbrev pub live_value : ℕ → Option (CacheEntry A) → Option A
  live_value now none = none
  live_value now (some e) = if ltb e.expires_at now then none else some e.value

  unfoldable pub get : ℕ → String → Cache A → Option A
  get now key c = live_value now (lookup key c.entries)

  -- The loop that looks for the entry to evict, over the entries that are left.
  unfoldable pub oldest_from : String → ℕ → Dict (CacheEntry A) → String
  oldest_from oldest oldest_time [] = oldest
  oldest_from oldest oldest_time ((k, e) ∷ m) =
      let take = str_eq oldest "" || ltb e.expires_at oldest_time in
      oldest_from (if take then k else oldest) (if take then e.expires_at else oldest_time) m

  unfoldable pub oldest : Dict (CacheEntry A) → String
  oldest m = oldest_from "" 0 m

  unfoldable pub make_room : Cache A → Dict (CacheEntry A)
  make_room c =
      if leb c.max_size (length c.entries) then remove (oldest c.entries) c.entries else c.entries

  unfoldable pub set_with_ttl : ℕ → String → A → ℕ → Cache A → Cache A
  set_with_ttl now key value ttl c = record c {
    entries = insert key (record { value = value; expires_at = now + ttl }) (make_room c);
  }

  unfoldable pub set_value : ℕ → String → A → Cache A → Cache A
  set_value now key value c = set_with_ttl now key value c.ttl c

  unfoldable pub drop_expired : ℕ → Dict (CacheEntry A) → Dict (CacheEntry A)
  drop_expired now [] = []
  drop_expired now ((k, e) ∷ m) =
      let rest = drop_expired now m in if ltb e.expires_at now then rest else (k, e) ∷ rest

  unfoldable pub evict_expired : ℕ → Cache A → Cache A
  evict_expired now c = record c { entries = drop_expired now c.entries }

  unfoldable pub size : Cache A → ℕ
  size c = length c.entries
