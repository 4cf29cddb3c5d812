-- ===== src/Canary/Stages.antt =====
-- config/canary.go: the stage that a rollout is in.
use switch.Prelude.{◌<◌, ◌≡◌, refl, true, ◌||◌, List, [], ◌∷◌, arith, length}
use switch.Canary.{
  CanaryRollout, CanaryStage, new_canary_rollout, start, is_rolling, next_stage, advance,
  count_error, record_error, rollback, is_paused, resume, Call, perform, perform_all, starts,
  advances, errs, resumes, rolls_back,
}

-- While a rollout rolls or is paused its stage exists.
pub record Inv (stages : List CanaryStage) (cr : CanaryRollout) : Type 0 where
  pub same : cr.stages ≡ stages
  pub in_range : (is_rolling cr.state || is_paused cr.state) ≡ true → cr.current < length stages

perform-Inv :
    (stages : List CanaryStage) (call : Call) (cr : CanaryRollout)
    → 0 < length stages
    → Inv stages cr
    → Inv stages (perform call cr)
unfolding perform start advance next_stage record_error count_error resume rollback
perform-Inv stages (starts now) cr some_stage v = record {
  same = v.same;
  in_range = λ h. some_stage;
}
perform-Inv stages (advances now) cr some_stage v = record {
  same = ground (arith, v.same);
  in_range = λ h. ground (arith, v.same, v.in_range);
}
perform-Inv stages (errs now) cr some_stage v = record {
  same = ground (arith, v.same);
  in_range = λ h. ground (arith, v.in_range);
}
perform-Inv stages (resumes now) cr some_stage v = record {
  same = ground (arith, v.same);
  in_range = λ h. ground (arith, v.in_range);
}
perform-Inv stages rolls_back cr some_stage v = record {
  same = v.same;
  in_range = λ h. ground (arith, h);
}

perform_all-Inv :
    (stages : List CanaryStage) (calls : List Call) (cr : CanaryRollout)
    → 0 < length stages
    → Inv stages cr
    → Inv stages (perform_all cr calls)
unfolding perform_all
perform_all-Inv stages [] cr some_stage v = v
perform_all-Inv stages (call ∷ calls) cr some_stage v =
    perform_all-Inv stages calls (perform call cr) some_stage
      (perform-Inv stages call cr some_stage v)

-- A rollout with at least one stage never reads past its stages: after any calls at any times, while
-- it rolls or is paused its stage exists, and the stages are those it was made with.
pub rollout-Inv :
    (stages : List CanaryStage) (calls : List Call)
    → 0 < length stages
    → Inv stages (perform_all (new_canary_rollout stages) calls)
rollout-Inv stages calls some_stage =
    perform_all-Inv stages calls (new_canary_rollout stages) some_stage
      (unfold new_canary_rollout in (record { same = refl; in_range = λ h. ground (arith, h) }))
