-- ===== src/Prefix.antt =====
-- prefix/fingerprint.go, prefix/profiler.go and prefix/warmup.go: the fingerprints of prompt prefixes,
-- their statistics, and the scheduler that warms the caches of the hot ones. Affinity and Quota stand in modules of their own. Time is
-- nanoseconds in ℕ, token counts are numbers, and the content of a message is the list of its bytes.
pub mod Fingerprint
pub mod Profiler
pub mod Warmup
mod Tests
use switch.Prelude.{ℕ, String, List}

pub record Message : Type 0 where
  pub role : String
  pub content : List ℕ

-- Record of the profiler.
pub record PrefixRecord : Type 0 where
  pub fp : String
  pub req_count : ℕ
  pub hit_tokens : ℕ
  pub miss_tokens : ℕ
  pub input_tokens : ℕ
  pub last_hit_block : ℕ
  pub hit_layer : ℕ
  pub last_access : ℕ
  pub tenant : String
  pub last_messages : List Message

pub record FingerprintTree : Type 0 where
  pub segments : List String
  pub token_len : List ℕ
  pub fp : String
