-- ===== src/Canary.antt =====
-- config/canary.go: the progressive rollout of a configuration. A share of the traffic is counted in
-- millionths; time is nanoseconds in ℕ and an argument of each call, and a time that was never set
-- is 0.
pub mod Stages
pub mod Errors
mod Tests
use switch.Prelude.{
  ℕ, suc, ◌-◌, ◌*◌, Bool, true, false, ◌&&◌, List, [], ◌∷◌, ltb, leb, if◌then◌else◌, length, get_or,
}

pub record CanaryStage : Type 0 where
  pub traffic_percent : ℕ
  pub duration : ℕ

abbrev pub full_traffic : ℕ
full_traffic = 1000000

abbrev pub minutes : ℕ → ℕ
minutes n = n * 60000000000

abbrev pub default_canary_stages : List CanaryStage
default_canary_stages =
    record { traffic_percent = 10000; duration = minutes 5 }
    ∷ record { traffic_percent = 100000; duration = minutes 5 }
    ∷ record { traffic_percent = 300000; duration = minutes 10 }
    ∷ record { traffic_percent = 1000000; duration = 0 }
    ∷ []

pub data CanaryState : Type 0 where
  idle rolling paused rolled_back complete : CanaryState

pub record CanaryRollout : Type 0 where
  pub state : CanaryState
  pub stages : List CanaryStage
  pub current : ℕ
  pub started : ℕ
  pub stage_at : ℕ
  pub max_errors : ℕ
  pub error_count : ℕ
  pub error_window : ℕ
  pub last_error_check : ℕ

unfoldable pub new_canary_rollout : List CanaryStage → CanaryRollout
new_canary_rollout stages = record {
  state = idle;
  stages = stages;
  current = 0;
  started = 0;
  stage_at = 0;
  max_errors = 0;
  error_count = 0;
  error_window = minutes 1;
  last_error_check = 0;
}

unfoldable pub start : ℕ → CanaryRollout → CanaryRollout
start now cr = record cr {
  state = rolling;
  current = 0;
  error_count = 0;
  started = now;
  stage_at = now;
}

abbrev pub is_rolling : CanaryState → Bool
is_rolling rolling = true
is_rolling idle = false
is_rolling paused = false
is_rolling rolled_back = false
is_rolling complete = false

abbrev pub no_stage : CanaryStage
no_stage = record { traffic_percent = 0; duration = 0 }

-- cr.stages[cr.current]; an index past the end would panic.
abbrev pub stage_of : CanaryRollout → CanaryStage
stage_of cr = get_or cr.stages cr.current no_stage

unfoldable pub traffic_percent : CanaryRollout → ℕ
traffic_percent cr =
    if is_rolling cr.state && ltb cr.current (length cr.stages)
    then (stage_of cr).traffic_percent
    else full_traffic

-- The next stage, or the end.
unfoldable pub next_stage : ℕ → CanaryRollout → CanaryRollout
next_stage now cr =
    let cr' = record cr { current = suc cr.current } in
    if leb (length cr.stages) (suc cr.current)
    then record cr' { state = complete }
    else record cr' { stage_at = now }

unfoldable pub advance : ℕ → CanaryRollout → CanaryRollout
advance now cr =
    if is_rolling cr.state
    then (if ltb 0 (stage_of cr).duration && ltb (now - cr.stage_at) (stage_of cr).duration
        then cr
        else next_stage now cr)
    else cr

-- The count, which is set back when the window is over, with the error that is just counted.
unfoldable pub count_error : ℕ → CanaryRollout → CanaryRollout
count_error now cr =
    if ltb cr.error_window (now - cr.last_error_check)
    then record cr { error_count = 0; last_error_check = now }
    else record cr { error_count = suc cr.error_count }

unfoldable pub record_error : ℕ → CanaryRollout → CanaryRollout
record_error now cr =
    let cr' = count_error now cr in
    if is_rolling cr.state
    then (if leb 3 cr'.error_count then record cr' { state = paused } else cr')
    else cr

unfoldable pub rollback : CanaryRollout → CanaryRollout
rollback cr = record cr { state = rolled_back }

abbrev pub is_paused : CanaryState → Bool
is_paused paused = true
is_paused idle = false
is_paused rolling = false
is_paused rolled_back = false
is_paused complete = false

unfoldable pub resume : ℕ → CanaryRollout → CanaryRollout
resume now cr =
    if is_paused cr.state
    then record cr { state = rolling; error_count = 0; stage_at = now }
    else cr

pub data Call : Type 0 where
  starts advances errs resumes : ℕ → Call
  rolls_back : Call

unfoldable pub perform : Call → CanaryRollout → CanaryRollout
perform (starts now) cr = start now cr
perform (advances now) cr = advance now cr
perform (errs now) cr = record_error now cr
perform (resumes now) cr = resume now cr
perform rolls_back cr = rollback cr

unfoldable pub perform_all : CanaryRollout → List Call → CanaryRollout
perform_all cr [] = cr
perform_all cr (call ∷ calls) = perform_all (perform call cr) calls
