-- ===== src/Reconcile/Quiet.antt =====
-- Before the status is decided upon, a reconciliation sends none.
use kulta.Prelude.{
  Bool, and_then, refl, ◌==◌, true, false, Option, none, some, List, [], ◌∷◌, String, unwrap_or,
}
use kulta.Prelude.Int.{ℤ, pos, ◌==ℤ◌}
use kulta.Crd.{Rollout, PodTemplateSpec, GatewayApiRouting, AbStrategy}
use kulta.Leader.Api.{Response, ok, api_error, failure}
use kulta.Kube.{
  ReplicaSet, Server, get_replicaset, scale_replicaset, create_replicaset, patch_rules,
}
use kulta.Kube.Run.{
  Run, pure, ok_or, missing_name, serialization_error, replicaset_missing_name, ask, ◌>>=◌,
  strategy_error, missing_field,
}
use kulta.Kube.Sent.{
  Quiet, bind-Quiet, of_exec-Quiet, ok_or-Quiet, map_err-Quiet, if-Quiet, or_kube_error-Quiet,
}
use kulta.ReplicaSets.Hash.{compute_pod_template_hash}
use kulta.Replicas.{calculate_replica_split_with_surge}
use kulta.Traffic.{HttpRouteRule, build_gateway_api_backend_refs}
use kulta.Routes.Rules.{build_ab_testing_httproute_rules}
use kulta.Routes.{
  weight_rule, patched, patch_routing, ab_patch, patch_httproute_weights,
  patch_httproute_with_rules, reconcile_gateway_api_traffic, ab_testing_traffic, reconcile_traffic,
}
use kulta.ReplicaSets.{
  build_pair, ensure_pair, build_replicaset, Bytes, build_replicaset_core, ensure_from,
  ensure_replicaset_exists, ensure, in_strategy, namespace_of, simple_replicasets,
  canary_replicasets, blue_green_replicasets, ab_testing_replicasets, reconcile_replicasets,
}
use kulta.Strategy.{Handler, simple, canary, blue_green, ab_testing}

module _ (to_json : PodTemplateSpec → Option Bytes) (server : Server) where
  hash-Quiet : (template : PodTemplateSpec) → Quiet (compute_pod_template_hash to_json template)
  unfolding compute_pod_template_hash
  hash-Quiet template =
      bind-Quiet (ok_or (to_json template) serialization_error) _
        (ok_or-Quiet (to_json template) serialization_error) (λ json. of_exec-Quiet _)

  build_replicaset_core-Quiet :
      (rollout : Rollout) (rs_type : String) (replicas : ℤ) (suffix : Bool)
      → Quiet (build_replicaset_core to_json server rollout rs_type replicas suffix)
  unfolding build_replicaset_core
  build_replicaset_core-Quiet rollout rs_type replicas suffix =
      bind-Quiet (ok_or rollout.metadata.name missing_name) _
        (ok_or-Quiet rollout.metadata.name missing_name)
        (λ name.
          bind-Quiet (compute_pod_template_hash to_json rollout.spec.template) _
            (hash-Quiet rollout.spec.template) (λ hash log. refl))

  ensure_from-Quiet :
      (namespace name : String) (rs : ReplicaSet) (replicas : ℤ) (r : Response ReplicaSet)
      → Quiet (ensure_from to_json server namespace name rs replicas r)
  ensure_from-Quiet namespace name rs replicas (ok existing) =
      if-Quiet (unwrap_or existing.replicas (pos 0) ==ℤ replicas) _ _ (λ log. refl)
        (λ log. or_kube_error-Quiet _ (scale_replicaset namespace name replicas ∷ log))
  ensure_from-Quiet namespace name rs replicas (api_error code) =
      if-Quiet (code == 404) _ _
        (λ log. or_kube_error-Quiet _ (create_replicaset namespace rs ∷ log)) (λ log. refl)
  ensure_from-Quiet namespace name rs replicas failure = λ log. refl

  ensure-Quiet :
      (namespace : String) (rs : ReplicaSet) (replicas : ℤ)
      → Quiet (ensure to_json server namespace rs replicas)
  unfolding ensure_replicaset_exists
  ensure-Quiet namespace rs replicas =
      map_err-Quiet _ (ensure_replicaset_exists to_json server namespace rs replicas) (
        bind-Quiet (ok_or rs.name replicaset_missing_name) _
          (ok_or-Quiet rs.name replicaset_missing_name)
          (λ name log.
            ensure_from-Quiet namespace name rs replicas (server.found log namespace name)
              (get_replicaset namespace name ∷ log)))

  built-Quiet :
      (rollout : Rollout) (rs_type : String) (replicas : ℤ) (suffix : Bool)
      → Quiet (in_strategy (build_replicaset_core to_json server rollout rs_type replicas suffix))
  built-Quiet rollout rs_type replicas suffix =
      map_err-Quiet _ (build_replicaset_core to_json server rollout rs_type replicas suffix)
        (build_replicaset_core-Quiet rollout rs_type replicas suffix)

  -- One ReplicaSet, built and brought about.
  one-Quiet :
      (rollout : Rollout) (namespace rs_type : String) (replicas : ℤ) (suffix : Bool)
      → Quiet (
          in_strategy (build_replicaset_core to_json server rollout rs_type replicas suffix)
          >>= λ rs. ensure to_json server namespace rs replicas)
  one-Quiet rollout namespace rs_type replicas suffix =
      bind-Quiet
        (in_strategy (build_replicaset_core to_json server rollout rs_type replicas suffix)) _
        (built-Quiet rollout rs_type replicas suffix) (λ rs. ensure-Quiet namespace rs replicas)

  build_pair-Quiet :
      (rollout : Rollout) (first second : String) (replicas : ℤ)
      → Quiet (in_strategy (build_pair to_json server rollout first second replicas))
  build_pair-Quiet rollout first second replicas =
      map_err-Quiet _ (build_pair to_json server rollout first second replicas) (
        bind-Quiet (build_replicaset_core to_json server rollout first replicas true) _
          (build_replicaset_core-Quiet rollout first replicas true)
          (λ first_rs.
            bind-Quiet (build_replicaset_core to_json server rollout second replicas true) _
              (build_replicaset_core-Quiet rollout second replicas true) (λ second_rs log. refl)))

  two-Quiet :
      (rollout : Rollout) (namespace first second : String) (replicas : ℤ)
      → Quiet (
          in_strategy (build_pair to_json server rollout first second replicas) >>= λ pair.
          ensure_pair to_json server namespace pair replicas)
  two-Quiet rollout namespace first second replicas =
      bind-Quiet (in_strategy (build_pair to_json server rollout first second replicas)) _
        (build_pair-Quiet rollout first second replicas)
        (λ (first_rs, second_rs).
          bind-Quiet (ensure to_json server namespace first_rs replicas) _
            (ensure-Quiet namespace first_rs replicas)
            (λ u. ensure-Quiet namespace second_rs replicas))

  in_namespace-Quiet :
      (rollout : Rollout) (f : String → Run (Unit {0}))
      → ((namespace : String) → Quiet (f namespace))
      → Quiet (namespace_of rollout >>= f)
  in_namespace-Quiet rollout f =
      bind-Quiet (namespace_of rollout) f (ok_or-Quiet rollout.metadata.namespace _)

  canary-Quiet : (rollout : Rollout) → Quiet (canary_replicasets to_json server rollout)
  unfolding canary_replicasets
  canary-Quiet rollout =
      let current_weight = unwrap_or (and_then rollout.status (λ s. s.current_weight)) (pos 0) in
      let split =
        calculate_replica_split_with_surge rollout.spec.replicas current_weight
          rollout.spec.max_surge rollout.spec.max_unavailable in
      in_namespace-Quiet rollout _ (λ namespace.
        bind-Quiet (in_strategy (build_replicaset to_json server rollout "stable" split.0)) _
          (built-Quiet rollout "stable" split.0 true)
          (λ rs.
            bind-Quiet (ensure to_json server namespace rs split.0) _
              (ensure-Quiet namespace rs split.0)
              (λ u. one-Quiet rollout namespace "canary" split.1 true)))

  pub reconcile_replicasets-Quiet :
      (handler : Handler) (rollout : Rollout)
      → Quiet (reconcile_replicasets to_json server handler rollout)
  unfolding reconcile_replicasets simple_replicasets blue_green_replicasets ab_testing_replicasets
  reconcile_replicasets-Quiet simple rollout =
      in_namespace-Quiet rollout _
        (λ namespace. one-Quiet rollout namespace "simple" rollout.spec.replicas false)
  reconcile_replicasets-Quiet canary rollout = canary-Quiet rollout
  reconcile_replicasets-Quiet blue_green rollout =
      in_namespace-Quiet rollout _
        (λ namespace. two-Quiet rollout namespace "active" "preview" rollout.spec.replicas)
  reconcile_replicasets-Quiet ab_testing rollout =
      in_namespace-Quiet rollout _
        (λ namespace. two-Quiet rollout namespace "variant-a" "variant-b" rollout.spec.replicas)

patched-Quiet : (r : Response (Unit {0})) → Quiet (patched r)
patched-Quiet (ok u) log = refl
patched-Quiet (api_error code) log = if-Quiet (code == 404) (pure tt) _ (λ l. refl) (λ l. refl) log
patched-Quiet failure log = refl

module _ (server : Server) where
  rules-Quiet :
      (namespace route : String) (rules : List HttpRouteRule)
      → Quiet (ask server (patch_rules namespace route rules) >>= patched)
  rules-Quiet namespace route rules log =
      let request = patch_rules namespace route rules in
      patched-Quiet (server.written log request) (request ∷ log)

  patch_routing-Quiet :
      (rollout : Rollout) (namespace : String) (routing : Option GatewayApiRouting)
      → Quiet (patch_routing server rollout namespace routing)
  unfolding patch_httproute_weights
  patch_routing-Quiet rollout namespace none log = refl
  patch_routing-Quiet rollout namespace (some routing) log =
      rules-Quiet namespace routing.http_route
        (weight_rule (build_gateway_api_backend_refs rollout) ∷ []) log

  ab_patch-Quiet :
      (rollout : Rollout) (ab_strategy : AbStrategy) (routing : Option GatewayApiRouting)
      → Quiet (ab_patch server rollout ab_strategy routing)
  unfolding patch_httproute_with_rules
  ab_patch-Quiet rollout ab_strategy none log = refl
  ab_patch-Quiet rollout ab_strategy (some routing) log =
      rules-Quiet (unwrap_or rollout.metadata.namespace "default") routing.http_route
        (build_ab_testing_httproute_rules ab_strategy) log

  weights-Quiet : (rollout : Rollout) → Quiet (reconcile_gateway_api_traffic server rollout)
  unfolding reconcile_gateway_api_traffic
  weights-Quiet rollout =
      bind-Quiet (namespace_of rollout) _ (ok_or-Quiet rollout.metadata.namespace _)
        (λ namespace. patch_routing-Quiet rollout namespace _)

  pub reconcile_traffic-Quiet :
      (handler : Handler) (rollout : Rollout) → Quiet (reconcile_traffic server handler rollout)
  unfolding reconcile_traffic ab_testing_traffic
  reconcile_traffic-Quiet simple rollout = λ log. refl
  reconcile_traffic-Quiet canary rollout = weights-Quiet rollout
  reconcile_traffic-Quiet blue_green rollout = weights-Quiet rollout
  reconcile_traffic-Quiet ab_testing rollout =
      bind-Quiet
        (ok_or rollout.spec.strategy.ab_testing
          (strategy_error (missing_field "spec.strategy.abTesting")))
        _ (ok_or-Quiet rollout.spec.strategy.ab_testing _)
        (λ ab_strategy. ab_patch-Quiet rollout ab_strategy _)
