-- ===== src/Status/Complete.antt =====
-- What reconciling leaves alone, and what happens to a failed rollout.
use kulta.Prelude.{
  ℕ, suc, ◌^◌, ◌<◌, ◌≡◌, sym, ap, subst, ◌∙◌, ◌≢◌, inl, inr, arith, Option, none, some, length,
  get_elem?, get_elem?-some, done, ◌>>=◌, if◌then◌else◌,
}
use kulta.Prelude.Int.{ℤ, pos}
use kulta.Crd.{paused, failed, RolloutStatus, CanaryStep, CanaryStrategy, Rollout}
use kulta.Clock.{Chrono}
use kulta.Status.{
  should_progress_from, finish, enter, land, advanced_status, compute_desired_status,
}
use kulta.Status.Advance.{OnTrack, advance_canary-OnTrack}
use kulta.Status.Reach.{compute_desired_status-some, current_step_lem, keep_or_advance}
use kulta.Status.Pause.{unpaused, to_from, should_progress-MayLeave}

-- What a reconciliation does not touch.
record SameRest (s t : RolloutStatus) : Type 0 where
  pub same_replicas : t.replicas ≡ s.replicas
  pub same_ready : t.ready_replicas ≡ s.ready_replicas
  pub same_updated : t.updated_replicas ≡ s.updated_replicas
  pub same_step_start : t.step_start_time ≡ s.step_start_time
  pub same_progress_start : t.progress_started_at ≡ s.progress_started_at
  pub same_decisions : t.decisions ≡ s.decisions
  pub same_experiment : t.ab_experiment ≡ s.ab_experiment
  pub same_source : t.last_decision_source ≡ s.last_decision_source

module _ (chrono : Chrono) where
  open chrono use {DateTime}

  land-SameRest :
      (n : ℤ) (o : Option CanaryStep) (status : RolloutStatus) (now : DateTime)
      → SameRest status (land chrono n o status now)
  unfolding finish enter
  land-SameRest n none status now = ground arith
  land-SameRest n (some step) status now = ground arith

  advance_canary-SameRest :
      (o : Option CanaryStrategy) (status : RolloutStatus) (now : DateTime)
      → SameRest status (advanced_status chrono o status now)
  unfolding advanced_status
  advance_canary-SameRest none status now = ground arith
  advance_canary-SameRest (some canary) status now = land-SameRest _ _ status now

  -- Once there is a status, reconciling changes only the step index, the weight, the phase, the
  -- message and the pause start time. So the progress start time stays that of the first
  -- reconciliation, and a step start time is never written.
  compute_desired_status-SameRest :
      (rollout : Rollout) (status : RolloutStatus) (now : DateTime) {next : RolloutStatus}
      → rollout.status ≡ some status
      → compute_desired_status chrono rollout now ≡ done next
      → SameRest status next
  compute_desired_status-SameRest rollout status now {next} e h =
      elim (keep_or_advance chrono (should_progress_from chrono rollout status now) status
        (advanced_status chrono rollout.spec.strategy.canary status now) {t = next}
        (sym (compute_desired_status-some chrono rollout status now e) ∙ h)) [
          | inl kept ↦ subst (SameRest status) (sym kept) (ground arith)
          | inr (p, advanced) ↦
              subst (SameRest status) (sym advanced)
                (advance_canary-SameRest rollout.spec.strategy.canary status now)
        ]

  -- At a step without a pause a rollout that is not Paused advances.
  pub advance_unpaused :
      (rollout : Rollout) (status : RolloutStatus) (canary : CanaryStrategy) (i : ℕ)
      (now : DateTime) (step : CanaryStep)
      → rollout.status ≡ some status
      → rollout.spec.strategy.canary ≡ some canary
      → status.current_step_index ≡ some (pos i)
      → get_elem? canary.steps i ≡ some step
      → step.pause ≡ none
      → status.phase ≢ some paused
      → compute_desired_status chrono rollout now
        ≡ done (advanced_status chrono (some canary) status now)
  advance_unpaused rollout status canary i now step e c a s p q =
      compute_desired_status-some chrono rollout status now e
      ∙ ap
          (λ m. m >>= λ progress. done (
            if progress
            then advanced_status chrono rollout.spec.strategy.canary status now
            else status))
          (sym (to_from chrono rollout status now e)
            ∙ (should_progress-MayLeave chrono rollout status now e).1
                (q, (step, current_step_lem chrono canary i a c ∙ s, unpaused p)))
      ∙ ap (λ o. done (advanced_status chrono o status now)) c

  -- A Failed rollout whose step has no pause does not stay Failed: the next reconciliation takes it
  -- to the next step, as Progressing or Completed.
  pub failed_resumes :
      (rollout : Rollout) (status : RolloutStatus) (canary : CanaryStrategy) (i : ℕ)
      (now : DateTime) (step : CanaryStep)
      → rollout.status ≡ some status
      → rollout.spec.strategy.canary ≡ some canary
      → status.phase ≡ some failed
      → status.current_step_index ≡ some (pos i)
      → get_elem? canary.steps i ≡ some step
      → step.pause ≡ none
      → length canary.steps < 2 ^ 31
      → (next : RolloutStatus) × (compute_desired_status chrono rollout now ≡ done next)
        × OnTrack canary (suc i) next
  failed_resumes rollout status canary i now step e c f a s p b = (
    advanced_status chrono (some canary) status now,
    advance_unpaused rollout status canary i now step e c a s p (λ q. cc),
    advance_canary-OnTrack chrono canary i status now a (get_elem?-some canary.steps i s) b,
  )
