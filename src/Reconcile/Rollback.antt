-- ===== src/Reconcile/Rollback.antt =====
-- What a rollback leaves as it is.
use kulta.Prelude.{◌≡◌, sym, ap, ◌∙◌, some, String, unwrap_or, and_then}
use kulta.Prelude.Int.{negsuc}
use kulta.Crd.{Rollout, RolloutStatus}
use kulta.Traffic.{calculate_traffic_weights, canary_weights, status_index}
use kulta.Status.Patch.{patch_status, merge_status, over_self}
use kulta.Reconcile.Stages.{failed_status}

-- The rollout with the status that is stored after the patch.
abbrev pub after_failure : Rollout → String → RolloutStatus → Rollout
after_failure rollout message status = record rollout {
  status = some (patch_status (failed_status message status) (some status));
}

-- A rollout that is marked as failed, be it for its metrics or its deadline, keeps its traffic weights
-- and the weight by which its pods are split: the canary goes on serving what it served.
pub failed_status-weights :
    (rollout : Rollout) (status : RolloutStatus) (message : String)
    → rollout.status ≡ some status
    → (calculate_traffic_weights (after_failure rollout message status)
        ≡ calculate_traffic_weights rollout)
      × (and_then (after_failure rollout message status).status (λ s. s.current_weight)
          ≡ and_then rollout.status (λ s. s.current_weight))
unfolding calculate_traffic_weights patch_status merge_status
failed_status-weights rollout status message e = (
  ap (λ i. canary_weights rollout.spec.strategy.canary (unwrap_or i (negsuc 0)))
        (over_self status.current_step_index)
      ∙ sym (ap (λ s. canary_weights rollout.spec.strategy.canary (status_index s)) e),
  over_self status.current_weight ∙ sym (ap (λ s. and_then s (λ s. s.current_weight)) e),
)
