-- ===== src/Examples/Statuses.antt =====
-- The theorems on the status of a rollout, at samples.
use kulta.Prelude.{◌≡◌, refl, ◌↔◌, ◌≢◌, arith, none, some, true, All, done, Returns, subst}
use mathlib.Core.Option.{some-injective}
use kulta.Prelude.Int.{pos, wrap_i32, ◌+ℤ◌, as_usize}
use kulta.Crd.{RolloutStatus, CanaryStep, paused}
use kulta.Status.{
  compute_desired_status, initialize_canary, should_progress_to_next_step, should_progress_from,
  leave_step, may_leave, advance_to_next_step, advance_canary, next_index, enter, current_step,
  initialize_rollout_status,
}
use kulta.Status.Advance.{OnTrack}
use kulta.Status.Pause.{MayLeave, should_progress-MayLeave, compute_desired_status-Returns}
use kulta.Status.Complete.{failed_resumes}
use kulta.Validation.Sound.{StepIsValid}
use kulta.Examples.{
  strokes, plain_canary, paused_canary, rollout_of, at_first, failed_at_first, weight_step,
  paused_steps,
}

abbrev pub started : RolloutStatus
started = initialize_canary strokes (some plain_canary) ""

pub started_lem : compute_desired_status strokes (rollout_of plain_canary none) "" ≡ done started
unfolding compute_desired_status initialize_rollout_status
started_lem = refl

should_progress-MayLeave_example :
    (should_progress_to_next_step strokes (rollout_of paused_canary (some at_first)) "..."
      ≡ done true)
    ↔ ((at_first.phase ≢ some paused)
        × ((step : CanaryStep) × (current_step at_first.current_step_index (some paused_canary)
              ≡ some step)
            × MayLeave strokes (rollout_of paused_canary (some at_first)) at_first step "..."))
should_progress-MayLeave_example =
    should_progress-MayLeave strokes (rollout_of paused_canary (some at_first)) at_first "..." refl

compute_desired_status-Returns_example :
    Returns (compute_desired_status strokes (rollout_of paused_canary (some at_first)) "...")
compute_desired_status-Returns_example =
    compute_desired_status-Returns strokes (rollout_of paused_canary (some at_first)) "..."
      (λ canary e.
        subst (λ c. All StepIsValid c.steps) (some-injective paused_canary canary e) paused_steps)

-- A step without a pause is left for the next.
moved :
    compute_desired_status strokes (rollout_of plain_canary (some at_first)) "..."
    ≡ done (enter strokes (pos 1) (weight_step 50) at_first "...")
unfolding compute_desired_status should_progress_to_next_step should_progress_from leave_step
    may_leave advance_to_next_step advance_canary next_index wrap_i32 as_usize ◌+ℤ◌ enter
moved = refl

failed_resumes_example :
    (next : RolloutStatus) × (compute_desired_status strokes
        (rollout_of plain_canary (some failed_at_first))
        "..."
      ≡ done next)
    × OnTrack plain_canary 1 next
failed_resumes_example =
    failed_resumes strokes (rollout_of plain_canary (some failed_at_first)) failed_at_first
      plain_canary 0 "..." (weight_step 10) refl refl refl refl refl refl (omega arith)
