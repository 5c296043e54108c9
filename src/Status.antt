-- ===== src/Status.antt =====
-- controller/rollout/status.rs: what the status of a rollout should be next. A parsed duration is
-- its seconds; `Exec` carries the panic that `parse_duration` may raise.
pub mod Reach
pub mod Advance
pub mod Pause
pub mod Complete
pub mod Patch
pub mod Stale
pub mod Requeue
use Prim.Native.String.{◌++◌}
use kulta.Prelude.{
  ◌>>=◌, ℕ, ◌-◌, String, Bool, true, false, Option, none, some, List, get_elem?, unwrap_or, is_some,
  and_then, lookup, str_eq, if◌then◌else◌, Exec, done, panic, leb, length, min, max,
}
use kulta.Prelude.Int.{
  ℤ, pos, negsuc, pos_part, ◌+ℤ◌, ltb_ℤ, leb_ℤ, ◌==ℤ◌, wrap_i32, as_usize, show_int,
}
use kulta.Crd.{
  Phase, progressing, paused, preview, completed, RolloutStatus, default_status, Rollout, StringMap,
  CanaryStep, CanaryStrategy, PauseDuration,
}
use kulta.Clock.{Chrono}
use kulta.Duration.{parse_duration}

abbrev pub is_paused : Option Phase → Bool
is_paused (some paused) = true
is_paused _ = false

-- The first `match` of `is_progress_deadline_exceeded`.
abbrev pub is_active : Option Phase → Bool
is_active (some progressing) = true
is_active (some preview) = true
is_active _ = false

abbrev pub is_true : Option String → Bool
is_true none = false
is_true (some value) = str_eq value "true"

abbrev annotation : String → Option StringMap → Option String
annotation key annotations = and_then annotations (lookup key)

unfoldable pub has_promote_annotation : Rollout → Bool
has_promote_annotation rollout =
    is_true (annotation "kulta.io/promote" rollout.metadata.annotations)

abbrev pub step_weight : Option CanaryStep → ℤ
step_weight none = pos 0
step_weight (some step) = unwrap_or step.set_weight (pos 0)

abbrev pub has_pause : Option CanaryStep → Bool
has_pause none = false
has_pause (some step) = is_some step.pause

abbrev pub first : List CanaryStep → Option CanaryStep
first steps = get_elem? steps 0

abbrev completed_message : String
completed_message = "Rollout completed: 100% traffic to canary"

-- `current_step_index.unwrap_or(-1) + 1`.
unfoldable pub next_index : Option ℤ → ℤ
next_index current_step_index = wrap_i32 (unwrap_or current_step_index (negsuc 0) +ℤ pos 1)

-- The status past the last step.
unfoldable pub finish : ℤ → RolloutStatus → RolloutStatus
finish next_step_index status = record status {
  current_step_index = some next_step_index;
  current_weight = some (pos 100);
  phase = some completed;
  message = some completed_message;
}

abbrev pub current_step : Option ℤ → Option CanaryStrategy → Option CanaryStep
current_step none canary = none
current_step (some idx) none = none
current_step (some idx) (some canary) = get_elem? canary.steps (as_usize idx)

abbrev pub pause_duration : Option PauseDuration → Exec (Option ℕ)
pause_duration none = done none
pause_duration (some pause) = elim pause.duration [
  | none ↦ done none
  | some dur_str ↦ parse_duration dur_str
]

abbrev pub step_pause : Option CanaryStep → Option PauseDuration
step_pause none = none
step_pause (some step) = step.pause

abbrev pub or_panic {ℓ} : {A : Type ℓ} → Option A → Exec A
or_panic none = panic
or_panic (some x) = done x

-- `steps[i]`.
abbrev pub index {ℓ} : {A : Type ℓ} → List A → ℕ → Exec A
index xs i = or_panic (get_elem? xs i)

module _ (chrono : Chrono) where
  open chrono use {DateTime, parse_from_rfc3339, to_rfc3339, seconds_since}

  abbrev deadline_passed : Option DateTime → ℤ → DateTime → Bool
  deadline_passed none deadline_seconds now = false
  deadline_passed (some started) deadline_seconds now =
      ltb_ℤ deadline_seconds (seconds_since now started)

  unfoldable pub is_progress_deadline_exceeded : RolloutStatus → ℤ → DateTime → Bool
  is_progress_deadline_exceeded status deadline_seconds now =
      if is_active status.phase
      then deadline_passed (and_then status.progress_started_at parse_from_rfc3339) deadline_seconds
          now
      else false

  -- `pause_start_time` for a step that is entered now.
  abbrev pub pause_start : Bool → DateTime → Option String
  pause_start true now = some (to_rfc3339 now)
  pause_start false now = none

  unfoldable pub initialize_canary : Option CanaryStrategy → DateTime → RolloutStatus
  initialize_canary none now = default_status
  initialize_canary (some canary) now =
      let first_step = first canary.steps in
      record default_status {
        current_step_index = some (pos 0);
        current_weight = some (step_weight first_step);
        phase = some progressing;
        message = some (
            "Starting canary rollout at step 0 ("
            ++ show_int (step_weight first_step)
            ++ "% traffic)");
        pause_start_time = pause_start (has_pause first_step) now;
        progress_started_at = some (to_rfc3339 now);
      }

  unfoldable pub initialize_rollout_status : Rollout → DateTime → RolloutStatus
  initialize_rollout_status rollout now =
      if is_some rollout.spec.strategy.simple
      then record default_status {
        phase = some completed;
        message = some "Simple rollout completed: all replicas updated";
      }
      else if is_some rollout.spec.strategy.blue_green
      then record default_status {
        phase = some preview;
        message = some "Blue-green rollout: preview environment ready";
        pause_start_time = some (to_rfc3339 now);
      }
      else initialize_canary rollout.spec.strategy.canary now

  -- Has a pause of so many seconds, begun at that time, run out?
  abbrev pub pause_over : Option ℕ → Option DateTime → DateTime → Bool
  pause_over none start now = false
  pause_over (some duration) none now = false
  pause_over (some duration) (some start) now = leb_ℤ (pos duration) (seconds_since now start)

  unfoldable pub pause_elapsed : Option String → Option String → DateTime → Exec Bool
  pause_elapsed none pause_start_time now = done false
  pause_elapsed (some duration_str) pause_start_time now = do
    duration ← parse_duration duration_str
    done (pause_over duration (and_then pause_start_time parse_from_rfc3339) now)

  -- From "Check if current step has pause" on.
  unfoldable pub may_leave : Rollout → Option String → Option PauseDuration → DateTime → Exec Bool
  may_leave rollout pause_start_time none now = done true
  may_leave rollout pause_start_time (some pause) now =
      if has_promote_annotation rollout
      then done true
      else pause_elapsed pause.duration pause_start_time now

  unfoldable pub leave_step : Rollout → RolloutStatus → Option CanaryStep → DateTime → Exec Bool
  leave_step rollout status none now = done false
  leave_step rollout status (some step) now =
      may_leave rollout status.pause_start_time step.pause now

  unfoldable pub should_progress_from : Rollout → RolloutStatus → DateTime → Exec Bool
  should_progress_from rollout status now =
      if is_paused status.phase
      then done false
      else leave_step rollout status
          (current_step status.current_step_index rollout.spec.strategy.canary) now

  unfoldable pub should_progress_to_next_step : Rollout → DateTime → Exec Bool
  should_progress_to_next_step rollout now = elim rollout.status [
    | none ↦ done false
    | some status ↦ should_progress_from rollout status now
  ]

  -- The status on entering a step.
  unfoldable pub enter : ℤ → CanaryStep → RolloutStatus → DateTime → RolloutStatus
  enter next_step_index next_step status now =
      let next_weight = unwrap_or next_step.set_weight (pos 0) in
      let last = next_weight ==ℤ pos 100 in
      record status {
        current_step_index = some next_step_index;
        current_weight = some next_weight;
        phase = some (if last then completed else progressing);
        message = some (
            if last
            then completed_message
            else "Advanced to step "
              ++ show_int next_step_index
              ++ " ("
              ++ show_int next_weight
              ++ "% traffic)");
        pause_start_time = pause_start (is_some next_step.pause) now;
      }

  -- What advancing comes to, as one lookup: Advance has the theorem.
  abbrev pub land : ℤ → Option CanaryStep → RolloutStatus → DateTime → RolloutStatus
  land next_step_index none status now = finish next_step_index status
  land next_step_index (some next_step) status now = enter next_step_index next_step status now

  unfoldable pub advanced_status : Option CanaryStrategy → RolloutStatus → DateTime → RolloutStatus
  advanced_status none status now = status
  advanced_status (some canary) status now =
      let next_step_index = next_index status.current_step_index in
      land next_step_index (get_elem? canary.steps (as_usize next_step_index)) status now

  -- From "Check if next step exists" on.
  unfoldable pub advance_canary :
      Option CanaryStrategy → RolloutStatus → DateTime → Exec RolloutStatus
  advance_canary none status now = done status
  advance_canary (some canary) status now =
      let next_step_index = next_index status.current_step_index in
      if leb (length canary.steps) (as_usize next_step_index)
      then done (finish next_step_index status)
      else index canary.steps (as_usize next_step_index) >>= λ next_step.
          done (enter next_step_index next_step status now)

  unfoldable pub advance_to_next_step : Rollout → DateTime → Exec RolloutStatus
  advance_to_next_step rollout now = elim rollout.status [
    | none ↦ done (initialize_rollout_status rollout now)
    | some status ↦ advance_canary rollout.spec.strategy.canary status now
  ]

  unfoldable pub compute_desired_status : Rollout → DateTime → Exec RolloutStatus
  compute_desired_status rollout now = elim rollout.status [
    | none ↦ done (initialize_rollout_status rollout now)
    | some status ↦ do
      progress ← should_progress_to_next_step rollout now
      if progress then advance_to_next_step rollout now else done status
  ]

  -- `clamp(5s, 300s)` of the seconds left of the pause, or 30 s.
  unfoldable pub calculate_requeue_interval : Option DateTime → Option ℕ → DateTime → ℕ
  calculate_requeue_interval (some start) (some duration) now =
      max 5 (min 300 (duration - pos_part (seconds_since now start)))
  calculate_requeue_interval _ _ now = 30

  unfoldable pub calculate_requeue_interval_from_rollout :
      Rollout → RolloutStatus → DateTime → Exec ℕ
  calculate_requeue_interval_from_rollout rollout status now = do
    duration ←
        pause_duration
          (step_pause (current_step status.current_step_index rollout.spec.strategy.canary))
    done (
        calculate_requeue_interval (and_then status.pause_start_time parse_from_rfc3339) duration
          now)
