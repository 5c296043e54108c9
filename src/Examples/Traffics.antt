-- ===== src/Examples/Traffics.antt =====
-- The theorems on the statuses that reconciling stores, and on the traffic, at samples.
use kulta.Prelude.{◌≡◌, refl, arith, Option, none, some, true, ℕ, [], ◌∷◌, done}
use kulta.Prelude.{is_empty}
use kulta.Prelude.Int.{wrap_i32, ◌+ℤ◌, ◌-ℤ◌}
use kulta.Prelude.Parse.{split_last, parse_i32}
use kulta.Crd.{RolloutStatus, Rollout}
use kulta.Validation.{
  valid, validate_rollout, validate_canary, validate_surge, validate_deadline, validate_steps,
  validate_step, validate_weight, validate_pause, validate_routing,
}
use kulta.Strategy.{select_strategy, compute_next_status, get_gateway_api_routing}
use kulta.Status.{initialize_canary, compute_desired_status, initialize_rollout_status}
use kulta.Status.Patch.{patch_status}
use kulta.Replicas.{
  calculate_replica_split_with_surge, reduce, scale_down, scale_up, parse_surge_value,
  calculate_replica_split, ideal_canary, percent_ceil,
}
use kulta.ReplicaSets.{
  reconcile_replicasets, canary_replicasets, build_replicaset_core, ensure_replicaset_exists,
  insert,
}
use kulta.ReplicaSets.Hash.{compute_pod_template_hash, fnv_1a, hex_digits, slice}
use kulta.Routes.{reconcile_traffic, reconcile_gateway_api_traffic}
use kulta.Traffic.{calculate_traffic_weights}
use kulta.Traffic.Weights.{calculate_traffic_weights-Stored}
use kulta.Kube.{Log}
use kulta.Kube.Run.{returned}
use kulta.Kube.Sent.{sent}
use kulta.Status.Advance.{OnTrack}
use kulta.Reconcile.{should_reconcile, reconcile}
use kulta.Reconcile.Changes.{begin, Changed-OnTrack}
use kulta.Reconcile.First.{reconcile_first}
use kulta.Reconcile.Stored.{OnlyCanary, Standing, Stored, first, Stored-Standing}
use kulta.Examples.{strokes, plain_canary, rollout_of}
use kulta.Examples.Servers.{sample_context, cluster}

abbrev begun : RolloutStatus
begun = initialize_canary strokes (some plain_canary) "|||||||||"

-- A rollout with two steps and nothing more, with a status or without.
abbrev plain_rollout : Option RolloutStatus → Rollout
plain_rollout status =
    let rollout = rollout_of plain_canary status in
    record rollout {
      spec = record rollout.spec { max_surge = none; progress_deadline_seconds = none };
    }

only_plain : OnlyCanary (plain_rollout none).spec plain_canary
only_plain = record {
  no_simple = refl;
  no_blue_green = refl;
  no_ab_testing = refl;
  is_canary = refl;
  has_steps = λ e. cc;
  few_steps = omega arith;
}

abbrev afterwards : Log
afterwards =
    (reconcile_replicasets sample_context.to_json cluster (select_strategy (plain_rollout none))
      (plain_rollout none) []).1

plain_valid : validate_rollout (plain_rollout none) ≡ done valid
unfolding validate_rollout validate_canary validate_surge validate_deadline validate_steps
    validate_step validate_weight validate_pause validate_routing is_empty
plain_valid = refl

plain_created :
    reconcile_replicasets sample_context.to_json cluster
      (select_strategy (plain_rollout none))
      (plain_rollout none)
      []
    ≡ (returned tt, afterwards)
unfolding reconcile_replicasets canary_replicasets build_replicaset_core ensure_replicaset_exists
    select_strategy compute_pod_template_hash fnv_1a hex_digits slice insert
    calculate_replica_split_with_surge reduce scale_down scale_up parse_surge_value
    calculate_replica_split ideal_canary percent_ceil wrap_i32 ◌+ℤ◌ ◌-ℤ◌ split_last parse_i32
plain_created = refl

plain_routed :
    reconcile_traffic cluster (select_strategy (plain_rollout none)) (plain_rollout none) afterwards
    ≡ (returned tt, afterwards)
unfolding reconcile_traffic select_strategy reconcile_gateway_api_traffic get_gateway_api_routing
plain_routed = refl

plain_next :
    compute_next_status strokes
      (select_strategy (plain_rollout none))
      (plain_rollout none)
      "|||||||||"
      "|||||||||"
    ≡ done begun
unfolding compute_next_status select_strategy compute_desired_status initialize_rollout_status
plain_next = refl

leads : should_reconcile (some true) ≡ true
unfolding should_reconcile
leads = refl

sends_begun : sent (reconcile sample_context (some true) (plain_rollout none) []).1 ≡ begun ∷ []
sends_begun =
    reconcile_first sample_context (plain_rollout none) "default" (some true) [] afterwards
      afterwards begun leads refl plain_valid refl plain_created plain_routed plain_next

begun-Stored : Stored sample_context (plain_rollout none).spec (patch_status begun none)
begun-Stored = first (some true) (plain_rollout none) [] refl refl sends_begun

Changed-OnTrack_example : OnTrack plain_canary 0 (patch_status begun none)
Changed-OnTrack_example =
    Changed-OnTrack sample_context (plain_rollout none).spec plain_canary only_plain
      (begin (some true) (plain_rollout none) [] refl refl sends_begun)

Stored-Standing_example : (i : ℕ) × Standing plain_canary i (patch_status begun none)
Stored-Standing_example =
    Stored-Standing sample_context (plain_rollout none).spec plain_canary only_plain begun-Stored

calculate_traffic_weights-Stored_example :
    (patch_status begun none).current_weight
    ≡ some (calculate_traffic_weights (plain_rollout (some (patch_status begun none)))).1
calculate_traffic_weights-Stored_example =
    calculate_traffic_weights-Stored sample_context (plain_rollout (some (patch_status begun none)))
      plain_canary (patch_status begun none) only_plain refl begun-Stored
