-- ===== src/Prefix/Profiler.antt =====
-- prefix/profiler.go: Profiler.
pub mod Bounds
pub mod Removed
pub mod Evicted
use switch.Prelude.Dict.{Dict, lookup, remove, update}
use switch.Prelude.Sort.{sort_by}
use switch.Prelude.{
  ℕ, suc, ◌+◌, ◌-◌, ◌*◌, String, Bool, false, ◌&&◌, Option, none, some, List, [], ◌∷◌, map, str_eq,
  ltb, leb, if◌then◌else◌, length, take,
}
use switch.Prefix.{Message, PrefixRecord, FingerprintTree}

pub record Profiler : Type 0 where
  pub records : Dict PrefixRecord
  pub window : ℕ
  pub max_records : ℕ

unfoldable pub new_profiler : Profiler
new_profiler = record { records = []; window = 900_000_000_000; max_records = 1000 }

abbrev pub max_bytes : ℕ
max_bytes = 16 * 1024

-- The loop of truncateMessages, after messages of `total` bytes.
unfoldable pub truncate_from : ℕ → List Message → List Message
truncate_from total [] = []
truncate_from total (m ∷ ms) =
    let content =
      if ltb max_bytes (total + length m.content)
      then take (max_bytes - total) m.content
      else m.content in
    let rest = truncate_from (total + length content) ms in
    record { role = m.role; content = content }
    ∷ (if leb max_bytes (total + length content) then [] else rest)

unfoldable pub truncate_messages : List Message → List Message
truncate_messages ms = truncate_from 0 ms

-- The first layer at which the lengths so far add up to the tokens, from layer i on; the last one
-- when there is none.
unfoldable pub layer_from : ℕ → ℕ → ℕ → List ℕ → ℕ
layer_from i acc hit [] = i - 1
layer_from i acc hit (n ∷ ns) =
    let later = layer_from (suc i) (acc + n) hit ns in if leb hit (acc + n) then i else later

unfoldable pub hit_block_layer : FingerprintTree → ℕ → ℕ
hit_block_layer tree hit = layer_from 0 0 hit tree.token_len

abbrev pub older : String × PrefixRecord → String × PrefixRecord → Bool
older a b = ltb a.1.last_access b.1.last_access

unfoldable pub remove_each : List (String × PrefixRecord) → Dict PrefixRecord → Dict PrefixRecord
remove_each [] d = d
remove_each (e ∷ es) d = remove_each es (remove e.0 d)

unfoldable pub evict_if_needed : Profiler → Profiler
evict_if_needed p =
    let excess = length p.records - p.max_records in
    if leb (length p.records) p.max_records
    then p
    else record p { records = remove_each (take excess (sort_by older p.records)) p.records }

abbrev pub new_record : String → PrefixRecord
new_record fp = record {
  fp = fp;
  req_count = 0;
  hit_tokens = 0;
  miss_tokens = 0;
  input_tokens = 0;
  last_hit_block = 0;
  hit_layer = 0;
  last_access = 0;
  tenant = "";
  last_messages = [];
}

unfoldable pub observe_record :
    ℕ → FingerprintTree → ℕ → ℕ → String → List Message → PrefixRecord → PrefixRecord
observe_record now tree hit miss tenant msgs r = record {
  fp = r.fp;
  req_count = suc r.req_count;
  hit_tokens = r.hit_tokens + hit;
  miss_tokens = r.miss_tokens + miss;
  input_tokens = r.input_tokens + (hit + miss);
  last_hit_block = if ltb 0 hit then hit else r.last_hit_block;
  hit_layer = if ltb 0 hit then hit_block_layer tree hit else r.hit_layer;
  last_access = now;
  tenant = if str_eq tenant "" then r.tenant else tenant;
  last_messages = if ltb 0 (length msgs) then truncate_messages msgs else r.last_messages;
}

-- Without a tree nothing is observed.
unfoldable pub observe_full :
    ℕ → Option FingerprintTree → ℕ → ℕ → String → List Message → Profiler → Profiler
observe_full now none hit miss tenant msgs p = p
observe_full now (some tree) hit miss tenant msgs p = evict_if_needed (record p {
  records =
      update (new_record tree.fp) tree.fp (observe_record now tree hit miss tenant msgs) p.records;
})

unfoldable pub is_hot : ℕ → String → ℕ → Profiler → Bool
is_hot now fp min_req p = elim (lookup fp p.records) [
  | none ↦ false
  | some r ↦ leb (now - r.last_access) p.window && leb min_req r.req_count
]

abbrev pub more_hits : PrefixRecord → PrefixRecord → Bool
more_hits a b = ltb b.hit_tokens a.hit_tokens

unfoldable pub top : ℕ → Profiler → List PrefixRecord
top n p = take n (sort_by more_hits (map (λ e. e.1) p.records))
