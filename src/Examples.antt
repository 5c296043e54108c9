-- ===== src/Examples.antt =====
-- Sample rollouts, and the theorems at them.
pub mod Board
pub mod Certificates
pub mod Experiments
pub mod Firsts
pub mod Inputs
pub mod Leaders
pub mod Servers
pub mod Notices
pub mod Processes
pub mod Reconciliations
pub mod Statuses
pub mod Traffics
pub mod Webhooks
use kulta.Prelude.{
  ℕ, ◌≡◌, refl, String, Option, none, some, List, [], ◌∷◌, length, codes, arith, All, done,
}
use kulta.Prelude.Int.{pos, ◌-ℤ◌}
use kulta.Crd.{
  Rollout, RolloutSpec, RolloutStatus, default_status, ObjectMeta, CanaryStrategy, CanaryStep,
  PauseDuration, default_advisor_config, progressing, completed, failed,
}
use kulta.Clock.{Chrono}
use kulta.Duration.{parse_duration}
use kulta.Duration.Decimal.{DurationUnit, parse_duration-decimal}
use kulta.Validation.Sound.{StepIsValid}

-- A clock that counts strokes: a moment is a text, and as many seconds as the text is long.
abbrev pub strokes : Chrono
strokes = record {
  DateTime = String;
  parse_from_rfc3339 = λ s. some s;
  to_rfc3339 = λ t. t;
  seconds_since = λ now start. pos (length (codes now)) -ℤ pos (length (codes start));
  parse-to_rfc3339 = λ t. refl;
}

abbrev pub weight_step : ℕ → CanaryStep
weight_step w = record { set_weight = some (pos w); pause = none }

abbrev pub two_seconds : PauseDuration
two_seconds = record { duration = some "2s" }

abbrev pub pause_step : CanaryStep
pause_step = record { set_weight = some (pos 20); pause = some two_seconds }

abbrev canary_of : List CanaryStep → CanaryStrategy
canary_of steps = record {
  canary_service = "app-canary";
  stable_service = "app-stable";
  port = none;
  steps = steps;
  traffic_routing = none;
  analysis = none;
}

abbrev pub plain_canary : CanaryStrategy
plain_canary = canary_of (weight_step 10 ∷ weight_step 50 ∷ [])

abbrev pub full_canary : CanaryStrategy
full_canary = canary_of (weight_step 100 ∷ [])

abbrev pub paused_canary : CanaryStrategy
paused_canary = canary_of (pause_step ∷ weight_step 50 ∷ [])

abbrev metadata : ObjectMeta
metadata = record {
  name = some "app";
  namespace = some "default";
  annotations = none;
  labels = none;
  uid = none;
  resource_version = none;
  generation = none;
}

abbrev pub spec_of : CanaryStrategy → RolloutSpec
spec_of canary = record {
  replicas = pos 10;
  selector = record { match_labels = none; match_expressions = "" };
  template = record { labels = none; containers = none; rest = "" };
  strategy = record { simple = none; canary = some canary; blue_green = none; ab_testing = none };
  max_surge = some "25%";
  max_unavailable = none;
  progress_deadline_seconds = some (pos 600);
  advisor = default_advisor_config;
}

abbrev pub rollout_of : CanaryStrategy → Option RolloutStatus → Rollout
rollout_of canary status = record { metadata = metadata; spec = spec_of canary; status = status }

-- The status of `full_canary` at its only step.
abbrev pub full : RolloutStatus
full = record default_status {
  current_step_index = some (pos 0);
  current_weight = some (pos 100);
  phase = some completed;
}

-- The status at the first step.
abbrev pub at_first : RolloutStatus
at_first = record default_status {
  current_step_index = some (pos 0);
  current_weight = some (pos 20);
  phase = some progressing;
  pause_start_time = some "";
  progress_started_at = some "";
}

abbrev pub failed_at_first : RolloutStatus
failed_at_first = record at_first { phase = some failed }

pub parse_two_seconds : parse_duration "2s" ≡ done (some 2)
parse_two_seconds =
    parse_duration-decimal "2s" 2 [] DurationUnit.seconds (omega arith, ground arith) refl

pub plain_steps : All StepIsValid plain_canary.steps
plain_steps = ((ground arith, ground arith), ((ground arith, ground arith), ground arith))

pub paused_steps : All StepIsValid paused_canary.steps
paused_steps =
    ((ground arith, (2, parse_two_seconds)), ((ground arith, ground arith), ground arith))
