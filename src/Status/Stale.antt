-- ===== src/Status/Stale.antt =====
-- A pause start time outlives its pause.
use kulta.Prelude.{ℕ, suc, ◌+◌, ◌^◌, ◌<◌, ◌≡◌, refl, ap, ◌∙◌, String, none, some, get_elem?}
use kulta.Prelude.Int.{pos}
use kulta.Crd.{RolloutStatus, CanaryStep, CanaryStrategy}
use kulta.Clock.{Chrono}
use kulta.Status.{enter, advanced_status}
use kulta.Status.Advance.{advanced_status_lem}
use kulta.Status.Patch.{over, merge_status, patch_status}

module _ (chrono : Chrono) where
  open chrono use {DateTime}

  -- A rollout that moves from a step with a pause start time to a step without a pause computes a
  -- status without a pause start time, and the patch leaves the old one in the stored status.
  pause_start_kept :
      (canary : CanaryStrategy) (i : ℕ) (status : RolloutStatus) (now : DateTime)
      (step : CanaryStep) (start : String)
      → status.current_step_index ≡ some (pos i)
      → i + 1 < 2 ^ 31
      → get_elem? canary.steps (suc i) ≡ some step
      → step.pause ≡ none
      → status.pause_start_time ≡ some start
      → let next = advanced_status chrono (some canary) status now in
        (next.pause_start_time ≡ none)
        × ((patch_status next (some status)).pause_start_time ≡ some start)
  unfolding enter patch_status merge_status
  pause_start_kept canary i status now step start a b s p t =
      let cleared : (advanced_status chrono (some canary) status now).pause_start_time ≡ none =
        rw (advanced_status_lem chrono canary i status now a b, s, p) refl in
      (cleared, ap (λ o. over o status.pause_start_time) cleared ∙ t)
