-- ===== src/Examples/Firsts.antt =====
-- The first reconciliation of a rollout with the simple strategy.
use kulta.Prelude.{true, ◌≡◌, refl, none, some, [], ◌∷◌, done}
use kulta.Crd.{Rollout}
use kulta.Validation.{valid, validate_rollout, validate_canary, validate_surge, validate_deadline}
use kulta.Strategy.{select_strategy, compute_next_status, next_simple}
use kulta.Kube.{Log}
use kulta.Kube.Run.{returned}
use kulta.Kube.Sent.{sent}
use kulta.ReplicaSets.{
  reconcile_replicasets, simple_replicasets, build_replicaset_core, ensure_replicaset_exists,
  insert,
}
use kulta.ReplicaSets.Hash.{compute_pod_template_hash, fnv_1a, hex_digits, slice}
use kulta.Routes.{reconcile_traffic}
use kulta.Reconcile.{reconcile, should_reconcile}
use kulta.Reconcile.First.{reconcile_first}
use kulta.Examples.{plain_canary, rollout_of}
use kulta.Examples.Servers.{sample_context, cluster}

abbrev simple_rollout : Rollout
simple_rollout =
    let rollout = rollout_of plain_canary none in
    record rollout {
      spec = record rollout.spec {
        strategy = record {
          simple = some (record { analysis = none });
          canary = none;
          blue_green = none;
          ab_testing = none;
        };
        max_surge = none;
        progress_deadline_seconds = none;
      };
    }

abbrev afterwards : Log
afterwards =
    (reconcile_replicasets sample_context.to_json cluster (select_strategy simple_rollout)
      simple_rollout []).1

simple_valid : validate_rollout simple_rollout ≡ done valid
unfolding validate_rollout validate_canary validate_surge validate_deadline
simple_valid = refl

simple_created :
    reconcile_replicasets sample_context.to_json cluster
      (select_strategy simple_rollout)
      simple_rollout
      []
    ≡ (returned tt, afterwards)
unfolding reconcile_replicasets simple_replicasets build_replicaset_core ensure_replicaset_exists
    select_strategy compute_pod_template_hash fnv_1a hex_digits slice insert
simple_created = refl

simple_untouched :
    reconcile_traffic cluster (select_strategy simple_rollout) simple_rollout afterwards
    ≡ (returned tt, afterwards)
unfolding reconcile_traffic select_strategy
simple_untouched = refl

simple_next :
    compute_next_status sample_context.chrono
      (select_strategy simple_rollout)
      simple_rollout
      (sample_context.now afterwards)
      (sample_context.utc_now afterwards)
    ≡ done (next_simple simple_rollout)
unfolding compute_next_status select_strategy
simple_next = refl

reconcile_first_example :
    sent (reconcile sample_context (some true) simple_rollout []).1
    ≡ next_simple simple_rollout ∷ []
unfolding should_reconcile
reconcile_first_example =
    reconcile_first sample_context simple_rollout "default" (some true) [] afterwards afterwards
      (next_simple simple_rollout) refl refl simple_valid refl simple_created simple_untouched
      simple_next
