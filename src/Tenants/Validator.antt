-- ===== src/Tenants/Validator.antt =====
-- provider/tenant.go: CostValidator. A cost is a number of a unit of which `dollar` make a dollar, a
-- price a number of it for a token.
use switch.Prelude.{
  ℕ, suc, ◌+◌, ◌*◌, ◌≡◌, refl, Bool, true, false, ◌&&◌, Option, none, some, List, [], ◌∷◌, ◌++◌,
  arith, ltb, ◌==◌, if◌then◌else◌, ◌∙◌,
}
use switch.Tenants.{Pricing}

pub record CostValidator : Type 0 where
  pub total_checked : ℕ
  pub warnings : ℕ
  pub criticals : ℕ
  pub last_hour_cost : ℕ
  pub current_cost : ℕ

pub data Alert : Type 0 where
  no_pricing free_tokens costly_request costly_price cost_grew : Alert

unfoldable pub new_cost_validator : CostValidator
new_cost_validator = record {
  total_checked = 0;
  warnings = 0;
  criticals = 0;
  last_hour_cost = 0;
  current_cost = 0;
}

abbrev alert_if : Bool → Alert → List Alert
alert_if b a = if b then a ∷ [] else []

abbrev count_if : Bool → ℕ
count_if b = if b then 1 else 0

abbrev no_price : Option Pricing → Bool
no_price none = true
no_price (some p) = false

module _ (dollar : ℕ) where
  abbrev high_price : Option Pricing → Bool
  high_price none = false
  high_price (some p) = ltb (500 * dollar) (p.input_price * 1_000_000)

  unfoldable pub validate : Option Pricing → ℕ → ℕ → CostValidator → CostValidator × List Alert
  validate pricing cost tokens cv =
      let missing = no_price pricing in
      let free = cost == 0 && ltb 0 tokens in
      let costly = ltb (10 * dollar) cost in
      let high = high_price pricing in
      (
        record {
          total_checked = suc cv.total_checked;
          warnings = cv.warnings + count_if free + count_if costly + count_if high;
          criticals = cv.criticals + count_if missing;
          last_hour_cost = cv.last_hour_cost;
          current_cost = cv.current_cost + cost;
        },
        alert_if missing no_pricing
            ++ alert_if free free_tokens
            ++ alert_if costly costly_request
            ++ alert_if high costly_price,
      )

-- (current - last) / last > 0.5, for a last that is positive.
unfoldable pub hourly_check : CostValidator → CostValidator × List Alert
hourly_check cv =
    let grew = ltb 0 cv.last_hour_cost && ltb (3 * cv.last_hour_cost) (2 * cv.current_cost) in
    (record cv { last_hour_cost = cv.current_cost; current_cost = 0 }, alert_if grew cost_grew)

-- The calls of one hour, each a request's pricing, cost and tokens.
pub record Checked : Type 0 where
  pub pricing : Option Pricing
  pub cost : ℕ
  pub tokens : ℕ

unfoldable pub total_cost : List Checked → ℕ
total_cost [] = 0
total_cost (c ∷ cs) = c.cost + total_cost cs

module _ (dollar : ℕ) where
  unfoldable pub validate_all : List Checked → CostValidator → CostValidator
  validate_all [] cv = cv
  validate_all (c ∷ cs) cv = validate_all cs (validate dollar c.pricing c.cost c.tokens cv).0

  validate_all-cost :
      (cs : List Checked) (cv : CostValidator)
      → ((validate_all cs cv).current_cost ≡ cv.current_cost + total_cost cs)
        × ((validate_all cs cv).last_hour_cost ≡ cv.last_hour_cost)
  unfolding validate_all total_cost validate
  validate_all-cost [] cv = (omega arith, refl)
  validate_all-cost (c ∷ cs) cv =
      let later = validate_all-cost cs (validate dollar c.pricing c.cost c.tokens cv).0 in
      (omega (arith, later.0), later.1)

  -- The check at the end of an hour warns exactly when the requests of the hour have cost more than
  -- one and a half times those of the hour before, and those cost something.
  pub hourly_check-grew :
      (before hour : List Checked) (cv : CostValidator)
      → let cv' = (hourly_check (validate_all before (hourly_check cv).0)).0 in
        (hourly_check (validate_all hour cv')).1 ≡ (
          if ltb 0 (total_cost before) && ltb (3 * total_cost before) (2 * total_cost hour)
          then cost_grew ∷ []
          else [])
  unfolding hourly_check
  hourly_check-grew before hour cv =
      let first = validate_all-cost before (hourly_check cv).0 in
      let cv' = (hourly_check (validate_all before (hourly_check cv).0)).0 in
      let cv'' = validate_all hour cv' in
      let second_ = validate_all-cost hour cv' in
      let last : cv''.last_hour_cost ≡ total_cost before = second_.1 ∙ first.0 ∙ omega arith in
      let current : cv''.current_cost ≡ total_cost hour = second_.0 ∙ omega arith in
      rw (last, current) refl
