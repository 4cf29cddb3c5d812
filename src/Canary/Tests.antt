-- ===== src/Canary/Tests.antt =====
-- config/canary.go: a rollout in two stages, and the theorems at concrete inputs.
use switch.Prelude.{◌+◌, ◌≡◌, refl, List, [], ◌∷◌, arith}
use switch.Canary.{
  CanaryRollout, CanaryStage, full_traffic, minutes, new_canary_rollout, start, traffic_percent,
  next_stage, advance, Call, perform, perform_all, paused, complete, starts, advances,
}
use switch.Canary.Errors.{fourth_error-pauses, errors_at}

abbrev two_stages : List CanaryStage
two_stages =
    record { traffic_percent = 10000; duration = 5 }
    ∷ record { traffic_percent = 1000000; duration = 0 }
    ∷ []

-- Too early at 8; the second stage at 15, the end at 16.
abbrev to_the_end : List Call
to_the_end = starts 10 ∷ advances 12 ∷ advances 15 ∷ advances 16 ∷ []

ends_complete : (perform_all (new_canary_rollout two_stages) to_the_end).state ≡ complete
unfolding perform_all perform new_canary_rollout start advance next_stage
ends_complete = refl

abbrev rolled_out : CanaryRollout
rolled_out = start (minutes 100) (new_canary_rollout two_stages)

fourth_error-pauses_example :
    let a = minutes 100 in
    ((errors_at rolled_out (a ∷ (a + 1) ∷ (a + 2) ∷ [])).state ≡ rolled_out.state)
    × ((errors_at rolled_out (a ∷ (a + 1) ∷ (a + 2) ∷ (a + 3) ∷ [])).state ≡ paused)
    × (traffic_percent (errors_at rolled_out (a ∷ (a + 1) ∷ (a + 2) ∷ (a + 3) ∷ [])) ≡ full_traffic)
unfolding start new_canary_rollout
fourth_error-pauses_example =
    fourth_error-pauses (minutes 100) (minutes 100 + 1) (minutes 100 + 2) (minutes 100 + 3)
      rolled_out refl (omega arith) (omega arith) (omega arith) (omega arith)
