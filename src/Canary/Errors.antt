-- ===== src/Canary/Errors.antt =====
-- config/canary.go: how many errors pause a rollout.
use switch.Prelude.{
  ℕ, ◌+◌, ◌-◌, ◌≤◌, ◌<◌, ◌≡◌, true, false, List, [], ◌∷◌, arith, ltb, suc, refl, ap, ◌∙◌, leb,
}
use switch.Canary.{
  CanaryRollout, full_traffic, is_rolling, traffic_percent, count_error, record_error, paused,
}

abbrev pub errors_at : CanaryRollout → List ℕ → CanaryRollout
errors_at cr [] = cr
errors_at cr (t ∷ ts) = errors_at (record_error t cr) ts

-- A rolling rollout with so many errors counted since the given time.
unfoldable pub counted : ℕ → ℕ → CanaryRollout → CanaryRollout
counted n since cr = record cr { error_count = n; last_error_check = since }

record_error-late :
    (a : ℕ) (cr : CanaryRollout)
    → is_rolling cr.state ≡ true
    → cr.last_error_check + cr.error_window < a
    → record_error a cr ≡ counted 0 a cr
unfolding record_error count_error counted
record_error-late a cr rolls quiet =
    let late : ltb cr.error_window (a - cr.last_error_check) ≡ true = ground arith in
    rw (rolls, late) refl

record_error-soon :
    (n since t : ℕ) (cr : CanaryRollout)
    → is_rolling cr.state ≡ true
    → t - since ≤ cr.error_window
    → suc n < 3
    → record_error t (counted n since cr) ≡ counted (suc n) since cr
unfolding record_error count_error counted
record_error-soon n since t cr rolls near few =
    let soon : ltb cr.error_window (t - since) ≡ false = ground arith in
    let below : leb 3 (suc n) ≡ false = ground arith in rw (rolls, soon, below) refl

record_error-third :
    (since t : ℕ) (cr : CanaryRollout)
    → is_rolling cr.state ≡ true
    → t - since ≤ cr.error_window
    → (record_error t (counted 2 since cr)).state ≡ paused
unfolding record_error count_error counted
record_error-third since t cr rolls near =
    let soon : ltb cr.error_window (t - since) ≡ false = ground arith in rw (rolls, soon) refl

paused-full : (cr : CanaryRollout) → cr.state ≡ paused → traffic_percent cr ≡ full_traffic
unfolding traffic_percent
paused-full cr h = rw h refl

three_errors :
    (a b c : ℕ) (cr : CanaryRollout)
    → is_rolling cr.state ≡ true
    → cr.last_error_check + cr.error_window < a
    → b - a ≤ cr.error_window
    → c - a ≤ cr.error_window
    → errors_at cr (a ∷ b ∷ c ∷ []) ≡ counted 2 a cr
three_errors a b c cr rolls quiet in_b in_c =
    ap (λ (r : CanaryRollout). record_error c (record_error b r))
      (record_error-late a cr rolls quiet)
    ∙ ap (record_error c) (record_error-soon 0 a b cr rolls in_b (omega arith))
    ∙ record_error-soon 1 a c cr rolls in_c (omega arith)

-- The first error after a quiet time only sets the count back to 0: a rollout of which errors come at
-- four times within a window still rolls after the third, and is paused by the fourth; and paused, it
-- no longer holds back any traffic.
pub fourth_error-pauses :
    (a b c d : ℕ) (cr : CanaryRollout)
    → is_rolling cr.state ≡ true
    → cr.last_error_check + cr.error_window < a
    → b - a ≤ cr.error_window
    → c - a ≤ cr.error_window
    → d - a ≤ cr.error_window
    → ((errors_at cr (a ∷ b ∷ c ∷ [])).state ≡ cr.state)
      × ((errors_at cr (a ∷ b ∷ c ∷ d ∷ [])).state ≡ paused)
      × (traffic_percent (errors_at cr (a ∷ b ∷ c ∷ d ∷ [])) ≡ full_traffic)
fourth_error-pauses a b c d cr rolls quiet in_b in_c in_d =
    let three = three_errors a b c cr rolls quiet in_b in_c in
    let fourth : (errors_at cr (a ∷ b ∷ c ∷ d ∷ [])).state ≡ paused =
      ap (λ (r : CanaryRollout). (record_error d r).state) three
      ∙ record_error-third a d cr rolls in_d in
    (
      ap (λ (r : CanaryRollout). r.state) three ∙ unfold counted in refl,
      fourth,
      paused-full (errors_at cr (a ∷ b ∷ c ∷ d ∷ [])) fourth,
    )
