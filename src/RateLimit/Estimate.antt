-- ===== src/RateLimit/Estimate.antt =====
-- provider/manager.go: TokenEstimate, the count of tokens that the limiters take. The contents of the
-- messages are lists of bytes, and MaxTokens is not negative, as validateRequest of server/api.go
-- requires; the sum is an int of 64 bits.
use switch.Prelude.Int.{ℤ, pos, wrapped, wrapped-exact}
use switch.Prelude.{ℕ, ◌+◌, ◌/◌, ◌^◌, ◌<◌, List, [], ◌∷◌, ◌≡◌, length}

unfoldable pub content_bytes : List (List ℕ) → ℕ
content_bytes [] = 0
content_bytes (c ∷ contents) = length c + content_bytes contents

unfoldable pub token_estimate : List (List ℕ) → ℕ → ℤ
token_estimate contents max_tokens =
    wrapped (content_bytes contents / 4 + length contents + max_tokens)

-- While the sum is an int, the estimate is a quarter of the bytes, one for each message, and MaxTokens.
pub token_estimate-exact :
    (contents : List (List ℕ)) (max_tokens : ℕ)
    → content_bytes contents / 4 + length contents + max_tokens < 2 ^ 63
    → token_estimate contents max_tokens
      ≡ pos (content_bytes contents / 4 + length contents + max_tokens)
unfolding token_estimate
token_estimate-exact contents max_tokens h =
    wrapped-exact (content_bytes contents / 4 + length contents + max_tokens) h
