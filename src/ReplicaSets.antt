-- ===== src/ReplicaSets.antt =====
-- controller/rollout/replicaset.rs: the ReplicaSets of a rollout, and the handlers that bring them
-- about (controller/strategies). The arithmetic of the replicas is in Replicas.
pub mod Hash
pub mod Ensure
use Prim.Native.String.{◌++◌}
use kulta.Prelude.{
  ℕ, String, Bool, true, false, Option, some, List, [], ◌∷◌, unwrap_or, and_then, str_eq, ◌==◌,
  if◌then◌else◌,
}
use kulta.Prelude.Int.{ℤ, pos, ◌==ℤ◌}
use kulta.Crd.{StringMap, PodTemplateSpec, Rollout}
use kulta.Leader.Api.{Response, ok, api_error, failure}
use kulta.Replicas.{calculate_replica_split_with_surge}
use kulta.Strategy.{Handler, simple, canary, blue_green, ab_testing}
use kulta.Kube.{ReplicaSet, scale_replicaset, create_replicaset, Server}
use kulta.Kube.Run.{
  Run, pure, raise, ok_or, map_err, ◌>>=◌, ◌>>◌, ask, ask_replicaset, or_kube_error, missing_name,
  replicaset_missing_name, kube_error, strategy_error, missing_field,
  replicaset_reconciliation_failed,
}
use kulta.ReplicaSets.Hash.{compute_pod_template_hash}

-- `BTreeMap::insert`. The order of the list means nothing.
unfoldable pub insert : String → String → StringMap → StringMap
insert key value [] = (key, value) ∷ []
insert key value ((k, v) ∷ m) =
    let rest = insert key value m in if str_eq k key then (key, value) ∷ m else (k, v) ∷ rest

abbrev pub replicaset_labels : PodTemplateSpec → String → String → StringMap
replicaset_labels template hash rs_type = insert "rollouts.kulta.io/managed" "true" (
    insert "rollouts.kulta.io/type" rs_type
      (insert "pod-template-hash" hash (unwrap_or template.labels [])))

abbrev pub replicaset_of : Rollout → String → String → String → ℤ → Bool → ReplicaSet
replicaset_of rollout rollout_name hash rs_type replicas with_suffix =
    let labels = replicaset_labels rollout.spec.template hash rs_type in
    record {
      name = some (if with_suffix then rollout_name ++ "-" ++ rs_type else rollout_name);
      namespace = rollout.metadata.namespace;
      labels = some labels;
      replicas = some replicas;
      selector = record { match_labels = some labels; match_expressions = "" };
      template = record rollout.spec.template { labels = some labels };
    }

abbrev pub in_strategy : {A : Type 0} → Run A → Run A
in_strategy = map_err (strategy_error replicaset_reconciliation_failed)

abbrev pub namespace_of : Rollout → Run String
namespace_of rollout = ok_or rollout.metadata.namespace (strategy_error (missing_field "namespace"))

abbrev pub Bytes : Type 0
Bytes = List ℕ

-- `to_json` is `serde_json::to_string` of a pod template, in bytes.
module _ (to_json : PodTemplateSpec → Option Bytes) (server : Server) where
  unfoldable pub build_replicaset_core : Rollout → String → ℤ → Bool → Run ReplicaSet
  build_replicaset_core rollout rs_type replicas with_suffix = do
    rollout_name ← ok_or rollout.metadata.name missing_name
    hash ← compute_pod_template_hash to_json rollout.spec.template
    pure (replicaset_of rollout rollout_name hash rs_type replicas with_suffix)

  abbrev pub build_replicaset : Rollout → String → ℤ → Run ReplicaSet
  build_replicaset rollout rs_type replicas = build_replicaset_core rollout rs_type replicas true

  abbrev pub build_replicaset_for_simple : Rollout → ℤ → Run ReplicaSet
  build_replicaset_for_simple rollout replicas =
      build_replicaset_core rollout "simple" replicas false

  abbrev pub build_pair : Rollout → String → String → ℤ → Run (ReplicaSet × ReplicaSet)
  build_pair rollout first second replicas = do
    first_rs ← build_replicaset_core rollout first replicas true
    second_rs ← build_replicaset_core rollout second replicas true
    pure (first_rs, second_rs)

  abbrev pub build_replicasets_for_blue_green : Rollout → ℤ → Run (ReplicaSet × ReplicaSet)
  build_replicasets_for_blue_green rollout = build_pair rollout "active" "preview"

  abbrev pub build_replicasets_for_ab_testing : Rollout → ℤ → Run (ReplicaSet × ReplicaSet)
  build_replicasets_for_ab_testing rollout = build_pair rollout "variant-a" "variant-b"

  -- What the response to the read calls for.
  abbrev pub ensure_from : String → String → ReplicaSet → ℤ → Response ReplicaSet → Run (Unit {0})
  ensure_from namespace rs_name rs replicas (ok existing) =
      if unwrap_or existing.replicas (pos 0) ==ℤ replicas
      then pure tt
      else ask server (scale_replicaset namespace rs_name replicas) >>= or_kube_error
  ensure_from namespace rs_name rs replicas (api_error code) =
      if code == 404
      then ask server (create_replicaset namespace rs) >>= or_kube_error
      else raise kube_error
  ensure_from namespace rs_name rs replicas failure = raise kube_error

  -- `namespace` is that of `rs_api`.
  unfoldable pub ensure_replicaset_exists : String → ReplicaSet → ℤ → Run (Unit {0})
  ensure_replicaset_exists namespace rs replicas = do
    rs_name ← ok_or rs.name replicaset_missing_name
    existing ← ask_replicaset server namespace rs_name
    ensure_from namespace rs_name rs replicas existing

  abbrev pub ensure : String → ReplicaSet → ℤ → Run (Unit {0})
  ensure namespace rs replicas = in_strategy (ensure_replicaset_exists namespace rs replicas)

  unfoldable pub simple_replicasets : Rollout → Run (Unit {0})
  simple_replicasets rollout = do
    namespace ← namespace_of rollout
    rs ← in_strategy (build_replicaset_for_simple rollout rollout.spec.replicas)
    ensure namespace rs rollout.spec.replicas

  unfoldable pub canary_replicasets : Rollout → Run (Unit {0})
  canary_replicasets rollout = do
    namespace ← namespace_of rollout
    let current_weight = unwrap_or (and_then rollout.status (λ s. s.current_weight)) (pos 0)
    let split =
        calculate_replica_split_with_surge rollout.spec.replicas current_weight
          rollout.spec.max_surge rollout.spec.max_unavailable
    stable_rs ← in_strategy (build_replicaset rollout "stable" split.0)
    ensure namespace stable_rs split.0
    canary_rs ← in_strategy (build_replicaset rollout "canary" split.1)
    ensure namespace canary_rs split.1

  abbrev pub ensure_pair : String → ReplicaSet × ReplicaSet → ℤ → Run (Unit {0})
  ensure_pair namespace (first_rs, second_rs) replicas = do
    ensure namespace first_rs replicas
    ensure namespace second_rs replicas

  unfoldable pub blue_green_replicasets : Rollout → Run (Unit {0})
  blue_green_replicasets rollout = do
    namespace ← namespace_of rollout
    pair ← in_strategy (build_replicasets_for_blue_green rollout rollout.spec.replicas)
    ensure_pair namespace pair rollout.spec.replicas

  unfoldable pub ab_testing_replicasets : Rollout → Run (Unit {0})
  ab_testing_replicasets rollout = do
    namespace ← namespace_of rollout
    pair ← in_strategy (build_replicasets_for_ab_testing rollout rollout.spec.replicas)
    ensure_pair namespace pair rollout.spec.replicas

  unfoldable pub reconcile_replicasets : Handler → Rollout → Run (Unit {0})
  reconcile_replicasets simple = simple_replicasets
  reconcile_replicasets canary = canary_replicasets
  reconcile_replicasets blue_green = blue_green_replicasets
  reconcile_replicasets ab_testing = ab_testing_replicasets
