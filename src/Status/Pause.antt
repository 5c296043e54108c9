-- ===== src/Status/Pause.antt =====
-- When a rollout leaves a step, and that deciding it raises no panic for a valid strategy.
use text.Mathlib.TextEquality.{eq_iff}
use kulta.Prelude.{
  ℕ, ◌≡◌, refl, sym, subst, ap, ◌∙◌, ◌≢◌, ◌↔◌, inl, inr, arith, String, true, false, Option, none,
  some, lookup, and_then, All, All-get_elem?, Exec, done, panic, ◌>>=◌, Returns, Returns-bind,
  Bool-cases, Option-cases, if◌then◌else◌,
}
use kulta.Prelude.Int.{ℤ, pos, ◌≤ℤ◌, as_usize}
use kulta.Crd.{paused, Phase, RolloutStatus, CanaryStep, PauseDuration, CanaryStrategy, Rollout}
use kulta.Clock.{Chrono}
use kulta.Duration.{parse_duration}
use kulta.Validation.Sound.{StepIsValid, DurationIsValid, PauseIsValid}
use mathlib.Core.Option.{some-injective}
use kulta.Status.{
  is_true, is_paused, has_promote_annotation, pause_over, pause_elapsed, may_leave, leave_step,
  current_step, should_progress_from, should_progress_to_next_step, advanced_status,
  initialize_rollout_status, compute_desired_status,
}
use kulta.Status.Reach.{compute_desired_status-some}

-- The annotation `kulta.io/promote: "true"`.
abbrev pub IsPromoted : Rollout → Type 0
IsPromoted rollout = and_then rollout.metadata.annotations (lookup "kulta.io/promote") ≡ some "true"

has_promote_lem : (rollout : Rollout) → (has_promote_annotation rollout ≡ true) ↔ IsPromoted rollout
unfolding has_promote_annotation
has_promote_lem rollout = go (and_then rollout.metadata.annotations (lookup "kulta.io/promote"))
  where
    go : (o : Option String) → (is_true o ≡ true) ↔ (o ≡ some "true")
    go none = ground arith
    go (some v) =
        (λ h. ap some ((eq_iff v "true").0 h), λ h. (eq_iff v "true").1 (some-injective v _ h))

module _ (chrono : Chrono) where
  open chrono use {DateTime, parse_from_rfc3339, seconds_since}

  -- Why a rollout may leave a step.
  pub data MayLeave (rollout : Rollout) (status : RolloutStatus) (step : CanaryStep)
      (now : DateTime) : Type 0 where
    unpaused : step.pause ≡ none → MayLeave rollout status step now
    promoted : IsPromoted rollout → MayLeave rollout status step now
    timed_out :
        {pause : PauseDuration} {duration started : String} {d : ℕ} {start : DateTime}
        → step.pause ≡ some pause
        → pause.duration ≡ some duration
        → parse_duration duration ≡ done (some d)
        → status.pause_start_time ≡ some started
        → parse_from_rfc3339 started ≡ some start
        → pos d ≤ℤ seconds_since now start
        → MayLeave rollout status step now

  pause_elapsed-true :
      (duration started : Option String) (now : DateTime)
      → pause_elapsed chrono duration started now ≡ done true
      → (s : String) × (t : String) × (d : ℕ) × (start : DateTime) × (duration ≡ some s)
        × (started ≡ some t)
        × (parse_duration s ≡ done (some d))
        × (parse_from_rfc3339 t ≡ some start)
        × (pos d ≤ℤ seconds_since now start)
  unfolding pause_elapsed
  pause_elapsed-true none started now h = cc
  pause_elapsed-true (some s) none now h = ground arith
  pause_elapsed-true (some s) (some t) now h =
      go (parse_duration s) refl (parse_from_rfc3339 t) refl h
    where
      go :
          (m : Exec (Option ℕ))
          → parse_duration s ≡ m
          → (o : Option DateTime) → parse_from_rfc3339 t ≡ o
          → (m >>= λ parsed. done (pause_over chrono parsed o now)) ≡ done true
          → (s' : String) × (t' : String) × (d : ℕ) × (start : DateTime) × (Option.some s ≡ some s')
            × (Option.some t ≡ some t')
            × (parse_duration s' ≡ done (some d))
            × (parse_from_rfc3339 t' ≡ some start)
            × (pos d ≤ℤ seconds_since now start)
      go panic e o f h = cc
      go (done none) e o f h = cc
      go (done (some d)) e none f h = cc
      go (done (some d)) e (some start) f h = (s, t, d, start, refl, refl, e, f, ground arith)

  pause_elapsed-of :
      {duration started : Option String} {s t : String} {d : ℕ} {start : DateTime} (now : DateTime)
      → duration ≡ some s
      → parse_duration s ≡ done (some d)
      → started ≡ some t
      → parse_from_rfc3339 t ≡ some start
      → pos d ≤ℤ seconds_since now start
      → pause_elapsed chrono duration started now ≡ done true
  unfolding pause_elapsed
  pause_elapsed-of now a b c d h = ground arith

  may_leave-of :
      (rollout : Rollout) (status : RolloutStatus) (step : CanaryStep) (now : DateTime)
      → MayLeave rollout status step now
      → may_leave chrono rollout status.pause_start_time step.pause now ≡ done true
  unfolding may_leave
  may_leave-of rollout status step now (unpaused u) =
      ap (λ o. may_leave chrono rollout status.pause_start_time o now) u
  may_leave-of rollout status step now (promoted p) = ground (arith, (has_promote_lem rollout).1 p)
  may_leave-of rollout status step now (timed_out {pause} a b c d e f) =
      ap (λ o. may_leave chrono rollout status.pause_start_time o now) a
      ∙ ground (arith, pause_elapsed-of now b c d e f)

  of_may_leave :
      (rollout : Rollout) (status : RolloutStatus) (step : CanaryStep) (now : DateTime)
      (o : Option PauseDuration)
      → step.pause ≡ o
      → may_leave chrono rollout status.pause_start_time o now ≡ done true
      → MayLeave rollout status step now
  unfolding may_leave
  of_may_leave rollout status step now none e h = unpaused e
  of_may_leave rollout status step now (some pause) e h =
      elim (Bool-cases (has_promote_annotation rollout)) [
        | inl p ↦ promoted ((has_promote_lem rollout).0 p)
        | inr n ↦ timed (rw n at h)
      ]
    where
      timed :
          pause_elapsed chrono pause.duration status.pause_start_time now ≡ done true
          → MayLeave rollout status step now
      timed h =
          let (s, t, d, start, a, b, c, f, g) =
            pause_elapsed-true pause.duration status.pause_start_time now h in
          timed_out e a c b f g

  leave_step_lem :
      (rollout : Rollout) (status : RolloutStatus) (o : Option CanaryStep) (now : DateTime)
      → (leave_step chrono rollout status o now ≡ done true)
        ↔ ((step : CanaryStep) × (o ≡ some step) × MayLeave rollout status step now)
  unfolding leave_step
  leave_step_lem rollout status none now = (λ h. cc, λ h. cc h.1)
  leave_step_lem rollout status (some step) now = (
    λ h. (step, refl, of_may_leave rollout status step now step.pause refl h),
    λ (step', e, m).
        may_leave-of rollout status step now
          (subst (λ s. MayLeave rollout status s now) (sym (some-injective step step' e)) m),
  )

  not_paused_lem : (o : Option Phase) → (is_paused o ≡ false) ↔ (o ≢ some paused)
  not_paused_lem o = ground arith

  pub to_from :
      (rollout : Rollout) (status : RolloutStatus) (now : DateTime)
      → rollout.status ≡ some status
      → should_progress_to_next_step chrono rollout now
        ≡ should_progress_from chrono rollout status now
  unfolding should_progress_to_next_step
  to_from rollout status now e = ground arith

  from_lem :
      (rollout : Rollout) (status : RolloutStatus) (now : DateTime)
      → (should_progress_from chrono rollout status now ≡ done true) ↔ (
          (is_paused status.phase ≡ false)
          × (leave_step chrono rollout status
                (current_step status.current_step_index rollout.spec.strategy.canary)
                now
              ≡ done true))
  unfolding should_progress_from
  from_lem rollout status now = ground arith

  -- A rollout with a status advances exactly if its phase is not Paused, its index is that of a
  -- step, and the step has no pause, the promote annotation is set, or the pause has a duration that
  -- can be parsed, a start time that can be read, and at least that many seconds have gone by.
  pub should_progress-MayLeave :
      (rollout : Rollout) (status : RolloutStatus) (now : DateTime)
      → rollout.status ≡ some status
      → (should_progress_to_next_step chrono rollout now ≡ done true) ↔ (
          (status.phase ≢ some paused)
          × ((step : CanaryStep) × (current_step status.current_step_index
                  rollout.spec.strategy.canary
                ≡ some step)
              × MayLeave rollout status step now))
  should_progress-MayLeave rollout status now e = (
    λ h.
        let both = (from_lem rollout status now).0 (sym (to_from rollout status now e) ∙ h) in
        ((not_paused_lem status.phase).0 both.0, (leave_step_lem rollout status here now).0 both.1),
    λ h.
        to_from rollout status now e
        ∙ (from_lem rollout status now).1
            ((not_paused_lem status.phase).1 h.0, (leave_step_lem rollout status here now).1 h.1),
  )
    where
      here : Option CanaryStep
      here = current_step status.current_step_index rollout.spec.strategy.canary

  pause_elapsed-Returns :
      (duration started : Option String) (now : DateTime)
      → ((s : String) → duration ≡ some s → Returns (parse_duration s))
      → Returns (pause_elapsed chrono duration started now)
  unfolding pause_elapsed
  pause_elapsed-Returns none started now h = (false, refl)
  pause_elapsed-Returns (some s) started now h =
      Returns-bind (parse_duration s)
        (λ parsed. pause_over chrono parsed (and_then started parse_from_rfc3339) now) (h s refl)

  may_leave-Returns :
      (rollout : Rollout) (started : Option String) (o : Option PauseDuration) (now : DateTime)
      → PauseIsValid o
      → Returns (may_leave chrono rollout started o now)
  unfolding may_leave
  may_leave-Returns rollout started none now h = (true, refl)
  may_leave-Returns rollout started (some pause) now h =
      elim (Bool-cases (has_promote_annotation rollout)) [
        | inl p ↦ (true, rw p)
        | inr n ↦ let (b, e) = waiting in (b, rw n e)
      ]
    where
      waiting : Returns (pause_elapsed chrono pause.duration started now)
      waiting =
          pause_elapsed-Returns pause.duration started now
            λ s e. let (d, f) = subst DurationIsValid e h in (some d, f)

  leave_step-Returns :
      (rollout : Rollout) (status : RolloutStatus) (o : Option CanaryStep) (now : DateTime)
      → ((step : CanaryStep) → o ≡ some step → StepIsValid step)
      → Returns (leave_step chrono rollout status o now)
  unfolding leave_step
  leave_step-Returns rollout status none now h = (false, refl)
  leave_step-Returns rollout status (some step) now h =
      may_leave-Returns rollout status.pause_start_time step.pause now (h step refl).1

  pub current_step-valid :
      (idx : Option ℤ) (o : Option CanaryStrategy)
      → ((canary : CanaryStrategy) → o ≡ some canary → All StepIsValid canary.steps)
      → (step : CanaryStep) → current_step idx o ≡ some step
      → StepIsValid step
  current_step-valid none o h step e = cc
  current_step-valid (some idx) none h step e = cc
  current_step-valid (some idx) (some canary) h step e =
      All-get_elem? StepIsValid canary.steps (as_usize idx) (h canary refl) e

  should_progress_from-Returns :
      (rollout : Rollout) (status : RolloutStatus) (now : DateTime)
      → ((canary : CanaryStrategy)
          → rollout.spec.strategy.canary ≡ some canary
          → All StepIsValid canary.steps)
      → Returns (should_progress_from chrono rollout status now)
  unfolding should_progress_from
  should_progress_from-Returns rollout status now h = elim (Bool-cases (is_paused status.phase)) [
    | inl p ↦ (false, rw p)
    | inr n ↦ rw n (
        leave_step-Returns rollout status _ now
          (current_step-valid status.current_step_index rollout.spec.strategy.canary h))
  ]

  -- For a canary strategy whose steps are valid, computing the next status never panics, neither
  -- in reading a duration nor in indexing the steps.
  pub compute_desired_status-Returns :
      (rollout : Rollout) (now : DateTime)
      → ((canary : CanaryStrategy)
          → rollout.spec.strategy.canary ≡ some canary
          → All StepIsValid canary.steps)
      → Returns (compute_desired_status chrono rollout now)
  compute_desired_status-Returns rollout now h = elim (Option-cases rollout.status) [
    | inl e ↦ (
      initialize_rollout_status chrono rollout now,
      unfold compute_desired_status in ground arith,
    )
    | inr (status, e) ↦ rw (compute_desired_status-some chrono rollout status now e) (
        Returns-bind (should_progress_from chrono rollout status now)
          (λ progress.
            if progress
            then advanced_status chrono rollout.spec.strategy.canary status now
            else status)
          (should_progress_from-Returns rollout status now h))
  ]
