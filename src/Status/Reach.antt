-- ===== src/Status/Reach.antt =====
-- Where the canary handler takes a status: it keeps it, or goes to the next step.
use kulta.Prelude.{
  ℕ, suc, ◌^◌, ◌<◌, ◌≡◌, refl, sym, subst, ap, ◌∙◌, ◌⊎◌, inl, inr, arith, Bool, true, false, Option,
  none, some, length, get_elem?, get_elem?-some, if◌then◌else◌, Exec, done, panic, ◌>>=◌,
}
use kulta.Prelude.Int.{ℤ, pos}
use kulta.Crd.{RolloutStatus, CanaryStep, CanaryStrategy, Rollout}
use kulta.Clock.{Chrono}
use kulta.Status.{
  current_step, leave_step, should_progress_from, should_progress_to_next_step, initialize_canary,
  initialize_rollout_status, advanced_status, advance_canary, advance_to_next_step,
  compute_desired_status,
}
use kulta.Status.Advance.{OnTrack, as_usize_pos, advance_canary-OnTrack, advance_canary_lem}

module _ (chrono : Chrono) where
  open chrono use {DateTime}

  progressed :
      (m : Exec Bool) (kept : RolloutStatus) {n : Exec RolloutStatus} {advanced : RolloutStatus}
      → n ≡ done advanced
      → (m >>= λ progress. if progress then n else done kept)
        ≡ (m >>= λ progress. done (if progress then advanced else kept))
  progressed panic kept e = refl
  progressed (done true) kept e = e
  progressed (done false) kept e = refl

  computed_from :
      (rollout : Rollout) (status : RolloutStatus) (now : DateTime)
      → rollout.status ≡ some status
      → compute_desired_status chrono rollout now ≡ (
          should_progress_from chrono rollout status now >>= λ progress.
          if progress
          then advance_canary chrono rollout.spec.strategy.canary status now
          else done status)
  unfolding compute_desired_status should_progress_to_next_step advance_to_next_step
  computed_from rollout status now e = ground arith

  -- With a status there is: it is kept, or the rollout advances.
  pub compute_desired_status-some :
      (rollout : Rollout) (status : RolloutStatus) (now : DateTime)
      → rollout.status ≡ some status
      → compute_desired_status chrono rollout now ≡ (
          should_progress_from chrono rollout status now >>= λ progress. done (
            if progress
            then advanced_status chrono rollout.spec.strategy.canary status now
            else status))
  compute_desired_status-some rollout status now e =
      computed_from rollout status now e
      ∙ progressed (should_progress_from chrono rollout status now) status
          (advance_canary_lem chrono rollout.spec.strategy.canary status now)

  leave_step-some :
      (rollout : Rollout) (status : RolloutStatus) (o : Option CanaryStep) (now : DateTime)
      → leave_step chrono rollout status o now ≡ done true
      → (step : CanaryStep) × (o ≡ some step)
  unfolding leave_step
  leave_step-some rollout status none now h = cc
  leave_step-some rollout status (some step) now h = (step, refl)

  should_progress-leave :
      (rollout : Rollout) (status : RolloutStatus) (now : DateTime)
      → should_progress_from chrono rollout status now ≡ done true
      → leave_step chrono rollout status
          (current_step status.current_step_index rollout.spec.strategy.canary)
          now
        ≡ done true
  unfolding should_progress_from
  should_progress-leave rollout status now p = ground arith

  pub current_step_lem :
      (canary : CanaryStrategy) (i : ℕ) {idx : Option ℤ} {strategy : Option CanaryStrategy}
      → idx ≡ some (pos i)
      → strategy ≡ some canary
      → current_step idx strategy ≡ get_elem? canary.steps i
  current_step_lem canary i {idx} {strategy} e c =
      ap (λ x. current_step x strategy) e
      ∙ ap (current_step (some (pos i))) c
      ∙ ap (get_elem? canary.steps) (as_usize_pos i)

  -- A rollout leaves only a step that its strategy has.
  leave-lt :
      (rollout : Rollout) (status : RolloutStatus) (canary : CanaryStrategy) (i : ℕ)
      (now : DateTime)
      → rollout.spec.strategy.canary ≡ some canary
      → status.current_step_index ≡ some (pos i)
      → should_progress_from chrono rollout status now ≡ done true
      → i < length canary.steps
  leave-lt rollout status canary i now c e p =
      let (step, found) =
        leave_step-some rollout status _ now (should_progress-leave rollout status now p) in
      get_elem?-some canary.steps i (sym (current_step_lem canary i e c) ∙ found)

  pub keep_or_advance :
      (m : Exec Bool) (kept advanced : RolloutStatus) {t : RolloutStatus}
      → (m >>= λ progress. done (if progress then advanced else kept)) ≡ done t
      → (t ≡ kept) ⊎ ((m ≡ done true) × (t ≡ advanced))
  keep_or_advance m kept advanced h = ground arith

  -- The canary handler keeps a status that is at a step, or takes it to the next step.
  pub compute-OnTrack :
      (rollout : Rollout) (status : RolloutStatus) (canary : CanaryStrategy) (i : ℕ)
      (now : DateTime) {next : RolloutStatus}
      → rollout.spec.strategy.canary ≡ some canary
      → rollout.status ≡ some status
      → length canary.steps < 2 ^ 31
      → status.current_step_index ≡ some (pos i)
      → compute_desired_status chrono rollout now ≡ done next
      → (next ≡ status) ⊎ OnTrack canary (suc i) next
  compute-OnTrack rollout status canary i now {next} c e b at_step h =
      elim (keep_or_advance (should_progress_from chrono rollout status now) status
        (advanced_status chrono rollout.spec.strategy.canary status now) {t = next}
        (sym (compute_desired_status-some rollout status now e) ∙ h)) [
          | inl kept ↦ inl kept
          | inr (p, advanced) ↦ inr (
              subst (OnTrack canary (suc i))
                (sym (advanced ∙ ap (λ o. advanced_status chrono o status now) c))
                (advance_canary-OnTrack chrono canary i status now at_step
                  (leave-lt rollout status canary i now c at_step p) b))
        ]

  pub initial_lem :
      (rollout : Rollout) (canary : CanaryStrategy) (now : DateTime) {status : RolloutStatus}
      → rollout.spec.strategy.simple ≡ none
      → rollout.spec.strategy.blue_green ≡ none
      → rollout.spec.strategy.canary ≡ some canary
      → rollout.status ≡ none
      → compute_desired_status chrono rollout now ≡ done status
      → initialize_canary chrono (some canary) now ≡ status
  unfolding compute_desired_status initialize_rollout_status
  initial_lem rollout canary now s g c n h = ground arith
