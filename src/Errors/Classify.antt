-- ===== src/Errors/Classify.antt =====
-- provider/errors.go: ClassifyError and ClassifyErrorWithMessage, as far as the kind goes (a message
-- is a text for the reader).
use text.Mathlib.Text.{find?}
use switch.Prelude.{
  ℕ, String, ◌≡◌, Bool, true, false, ◌&&◌, ◌||◌, not, Option, none, some, List, [], ◌∷◌, arith, ltb,
  leb, ◌==◌, if◌then◌else◌,
}
use switch.Errors.{
  ErrorKind, retryable, context_window, content_policy, permission, model_not_found, unknown, auth,
  rate_limit, timeout, server_error, bad_request, network,
}

-- What ClassifyError asks of a Go error.
pub record GoError : Type 0 where
  -- errors.As a GatewayError: its kind.
  pub classified : Option ErrorKind
  pub is_deadline : Bool
  pub is_network : Bool

abbrev pub classify_go_error : Option GoError → ErrorKind
classify_go_error none = unknown
classify_go_error (some e) =
    if e.is_deadline then timeout else if e.is_network then network else unknown

abbrev pub already_classified : Option GoError → Option ErrorKind
already_classified none = none
already_classified (some e) = e.classified

-- By the status code alone; one that is below 400 leaves the zero kind.
unfoldable pub kind_of_status : ℕ → ErrorKind
kind_of_status status =
    if status == 401 || status == 403
    then auth
    else if status == 429
    then rate_limit
    else if leb 500 status
    then server_error
    else if leb 400 status
    then bad_request
    else unknown

unfoldable pub classify_error : Option GoError → ℕ → ErrorKind
classify_error err status = elim (already_classified err) [
  | some kind ↦ kind
  | none ↦ if ltb 0 status then kind_of_status status else classify_go_error err
]

abbrev pub contains : String → String → Bool
contains s sub = elim (find? s sub) [ none ↦ false | some i ↦ true ]

unfoldable pub contains_any : String → List String → Bool
contains_any s [] = false
contains_any s (sub ∷ subs) = contains s sub || contains_any s subs

abbrev pub context_words : List String
context_words = "context" ∷ "maximum context" ∷ "token limit" ∷ "input is too long" ∷ "length" ∷ []

abbrev pub policy_words : List String
policy_words = "policy" ∷ "content.filtered" ∷ "sensitive" ∷ "moderation" ∷ "safety" ∷ []

abbrev pub model_words : List String
model_words = "model" ∷ "not found" ∷ "does not exist" ∷ []

-- The first switch, by the status.
unfoldable pub first_kind : ℕ → ErrorKind
first_kind status =
    if status == 401
    then auth
    else if status == 403
    then permission
    else if status == 429
    then rate_limit
    else if status == 404
    then model_not_found
    else if status == 413
    then context_window
    else if leb 500 status
    then server_error
    else if leb 400 status
    then bad_request
    else unknown

-- The second switch, by the words of a 4xx message.
unfoldable pub refine_kind : String → ErrorKind → ErrorKind
refine_kind low kind =
    if contains_any low context_words
    then context_window
    else if contains_any low policy_words
    then content_policy
    else if contains_any low model_words
    then model_not_found
    else kind

-- `low` is the message in lower case.
unfoldable pub classify_with_message : ℕ → String → ErrorKind
classify_with_message status low =
    if leb 400 status && ltb status 500
    then refine_kind low (first_kind status)
    else first_kind status

-- The message has one of the words that refine a kind.
unfoldable pub has_words : String → Bool
has_words low =
    contains_any low context_words || contains_any low policy_words || contains_any low model_words

-- An upstream response is retried exactly when its status is 500 or above, or is 429 and the message
-- has none of the words: a 429 whose message speaks, for example, of a "model" is not retried.
pub classify_with_message-retryable :
    (status : ℕ) (low : String)
    → retryable (classify_with_message status low)
      ≡ (leb 500 status || (status == 429 && not (has_words low)))
unfolding classify_with_message first_kind refine_kind has_words retryable
classify_with_message-retryable status low = ground arith

-- The other classifier, by the status alone, has such a response retried whatever its message says.
pub kind_of_status-retryable :
    (status : ℕ) → retryable (kind_of_status status) ≡ (leb 500 status || (status == 429))
unfolding kind_of_status retryable
kind_of_status-retryable status = ground arith
