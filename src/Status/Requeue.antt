-- ===== src/Status/Requeue.antt =====
-- When the controller looks again, and when it gives up.
use kulta.Prelude.{
  Returns, All, ap, ℕ, ◌+◌, ◌≤◌, ◌≡◌, refl, ◌↔◌, ◌⊎◌, inl, inr, arith, String, true, Option, none,
  some, and_then, done, ◌>>=◌, Bool-cases,
}
use kulta.Prelude.Int.{ℤ, pos_part, ◌<ℤ◌}
use kulta.Crd.{
  CanaryStep, CanaryStrategy, PauseDuration, Phase, progressing, preview, RolloutStatus, Rollout,
}
use kulta.Duration.{parse_duration}
use kulta.Validation.Sound.{StepIsValid, DurationIsValid, PauseIsValid}
use kulta.Status.Pause.{current_step-valid}
use kulta.Clock.{Chrono}
use kulta.Status.{
  is_active, deadline_passed, is_progress_deadline_exceeded, pause_duration, step_pause,
  current_step, calculate_requeue_interval, calculate_requeue_interval_from_rollout,
}

is_active_lem :
    (o : Option Phase) → (is_active o ≡ true) ↔ ((o ≡ some progressing) ⊎ (o ≡ some preview))
is_active_lem o = ground arith

module _ (chrono : Chrono) where
  open chrono use {DateTime, parse_from_rfc3339, seconds_since}

  calculate_requeue_interval_bounds :
      (start : Option DateTime) (duration : Option ℕ) (now : DateTime)
      → let r = calculate_requeue_interval chrono start duration now in (5 ≤ r) × (r ≤ 300)
  unfolding calculate_requeue_interval
  calculate_requeue_interval_bounds none duration now = omega arith
  calculate_requeue_interval_bounds (some start) none now = omega arith
  calculate_requeue_interval_bounds (some start) (some duration) now = omega arith

  pause_duration-Returns :
      (o : Option CanaryStep)
      → ((step : CanaryStep) → o ≡ some step → StepIsValid step)
      → Returns (pause_duration (step_pause o))
  pause_duration-Returns none h = (none, refl)
  pause_duration-Returns (some step) h = paused_for step.pause (h step refl).1
    where
      for_duration :
          (o : Option String)
          → DurationIsValid o
          → Returns (elim o [ none ↦ done none | some dur_str ↦ parse_duration dur_str ])
      for_duration none v = (none, refl)
      for_duration (some s) (d, e) = (some d, e)

      paused_for : (o : Option PauseDuration) → PauseIsValid o → Returns (pause_duration o)
      paused_for none v = (none, refl)
      paused_for (some pause) v = for_duration pause.duration v

  -- For a canary strategy whose steps are valid, an interval is computed, and it is from 5 to 300
  -- seconds.
  calculate_requeue_interval_from_rollout_bounds :
      (rollout : Rollout) (status : RolloutStatus) (now : DateTime)
      → ((canary : CanaryStrategy)
          → rollout.spec.strategy.canary ≡ some canary
          → All StepIsValid canary.steps)
      → (r : ℕ) × (calculate_requeue_interval_from_rollout chrono rollout status now ≡ done r)
        × (5 ≤ r)
        × (r ≤ 300)
  unfolding calculate_requeue_interval_from_rollout
  calculate_requeue_interval_from_rollout_bounds rollout status now h =
      let here = current_step status.current_step_index rollout.spec.strategy.canary in
      let (o, e) =
        pause_duration-Returns here
          (current_step-valid chrono status.current_step_index rollout.spec.strategy.canary h) in
      let start = and_then status.pause_start_time parse_from_rfc3339 in
      let (low, high) = calculate_requeue_interval_bounds start o now in
      (
        calculate_requeue_interval chrono start o now,
        ap (λ m. m >>= λ d. done (calculate_requeue_interval chrono start d now)) e,
        low,
        high,
      )

  -- While a timed pause runs, the next look is not after the end of the pause, unless it is the
  -- least wait of 5 seconds; and it is not before the end, unless it is the greatest wait.
  calculate_requeue_interval_timed :
      (start now : DateTime) (duration : ℕ)
      → let r = calculate_requeue_interval chrono (some start) (some duration) now in
        let elapsed = pos_part (seconds_since now start) in
        ((r ≡ 5) ⊎ (r + elapsed ≤ duration)) × ((r ≡ 300) ⊎ (duration ≤ r + elapsed))
  unfolding calculate_requeue_interval
  calculate_requeue_interval_timed start now duration = grind arith

  started_lem :
      (o : Option String) (deadline : ℤ) (now : DateTime)
      → (deadline_passed chrono (and_then o parse_from_rfc3339) deadline now ≡ true) ↔ (
          (text : String) × (started : DateTime) × (o ≡ some text)
          × (parse_from_rfc3339 text ≡ some started)
          × (deadline <ℤ seconds_since now started))
  started_lem none deadline now = (λ h. cc, λ h. cc h.2)
  started_lem (some text) deadline now =
      (λ h. go (parse_from_rfc3339 text) refl h, λ (t, started, e, f, g). ground arith)
    where
      go :
          (o : Option DateTime)
          → parse_from_rfc3339 text ≡ o
          → deadline_passed chrono o deadline now ≡ true
          → (t : String) × (started : DateTime) × (Option.some text ≡ some t)
            × (parse_from_rfc3339 t ≡ some started)
            × (deadline <ℤ seconds_since now started)
      go none e h = cc
      go (some started) e h = (text, started, refl, e, ground arith)

  -- The deadline is exceeded exactly in the phases Progressing and Preview, when a progress start
  -- time can be read and more seconds than the deadline allows have gone by since.
  is_progress_deadline_exceeded_lem :
      (status : RolloutStatus) (deadline : ℤ) (now : DateTime)
      → (is_progress_deadline_exceeded chrono status deadline now ≡ true) ↔ (
          ((status.phase ≡ some progressing) ⊎ (status.phase ≡ some preview))
          × ((text : String) × (started : DateTime) × (status.progress_started_at ≡ some text)
              × (parse_from_rfc3339 text ≡ some started)
              × (deadline <ℤ seconds_since now started)))
  unfolding is_progress_deadline_exceeded
  is_progress_deadline_exceeded_lem status deadline now =
      elim (Bool-cases (is_active status.phase)) [
        | inl a ↦ rw a (
          λ h. (
            (is_active_lem status.phase).0 a,
            (started_lem status.progress_started_at deadline now).0 h,
          ),
          λ h. (started_lem status.progress_started_at deadline now).1 h.1,
        )
        | inr n ↦ rw n (λ h. cc, λ h. cc (n, (is_active_lem status.phase).1 h.0))
      ]
