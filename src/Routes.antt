-- ===== src/Routes.antt =====
-- controller/strategies: what the handlers write to the HTTPRoute of a rollout (mod.rs and
-- ab_testing.rs). Weights and A/B rules are sent as one merge patch of the route's rules.
pub mod Rules
pub mod Patch
pub mod Variants
use kulta.Prelude.{
  String, Option, none, some, List, [], ◌∷◌, unwrap_or, and_then, ◌==◌, if◌then◌else◌,
}
use kulta.Crd.{Rollout, GatewayApiRouting, AbStrategy}
use kulta.Leader.Api.{Response, ok, api_error, failure}
use kulta.Traffic.{HttpRouteRule, GatewayBackendRef, build_gateway_api_backend_refs}
use kulta.Strategy.{Handler, simple, canary, blue_green, ab_testing, get_gateway_api_routing}
use kulta.Kube.{patch_rules, Server}
use kulta.Kube.Run.{
  Run, pure, raise, ok_or, ◌>>=◌, ask, strategy_error, missing_field, traffic_reconciliation_failed,
}
use kulta.ReplicaSets.{namespace_of}
use kulta.Routes.Rules.{build_ab_testing_httproute_rules}

-- A rule of the weight patch: only its references are named.
abbrev pub weight_rule : List GatewayBackendRef → HttpRouteRule
weight_rule backend_refs = record {
  name = none;
  matches = none;
  backend_refs = some backend_refs;
  filters = none;
  timeouts = none;
}

-- The `match` on the response: a missing route is no error.
abbrev pub patched : Response (Unit {0}) → Run (Unit {0})
patched (ok u) = pure tt
patched (api_error code) =
    if code == 404 then pure tt else raise (strategy_error traffic_reconciliation_failed)
patched failure = raise (strategy_error traffic_reconciliation_failed)

module _ (server : Server) where
  unfoldable pub patch_httproute_with_rules : String → String → List HttpRouteRule → Run (Unit {0})
  patch_httproute_with_rules namespace httproute_name rules =
      ask server (patch_rules namespace httproute_name rules) >>= patched

  unfoldable pub patch_httproute_weights :
      String → GatewayApiRouting → List GatewayBackendRef → Run (Unit {0})
  patch_httproute_weights namespace gateway_api_routing backend_refs =
      ask server
        (patch_rules namespace gateway_api_routing.http_route (weight_rule backend_refs ∷ []))
      >>= patched

  abbrev pub patch_routing : Rollout → String → Option GatewayApiRouting → Run (Unit {0})
  patch_routing rollout namespace none = pure tt
  patch_routing rollout namespace (some gateway_api_routing) =
      patch_httproute_weights namespace gateway_api_routing (build_gateway_api_backend_refs rollout)

  unfoldable pub reconcile_gateway_api_traffic : Rollout → Run (Unit {0})
  reconcile_gateway_api_traffic rollout = do
    namespace ← namespace_of rollout
    patch_routing rollout namespace (get_gateway_api_routing rollout)

  abbrev pub ab_patch : Rollout → AbStrategy → Option GatewayApiRouting → Run (Unit {0})
  ab_patch rollout ab_strategy none = pure tt
  ab_patch rollout ab_strategy (some gateway_api_routing) =
      patch_httproute_with_rules (unwrap_or rollout.metadata.namespace "default")
        gateway_api_routing.http_route (build_ab_testing_httproute_rules ab_strategy)

  unfoldable pub ab_testing_traffic : Rollout → Run (Unit {0})
  ab_testing_traffic rollout = do
    ab_strategy ←
        ok_or rollout.spec.strategy.ab_testing
          (strategy_error (missing_field "spec.strategy.abTesting"))
    ab_patch rollout ab_strategy (and_then ab_strategy.traffic_routing (λ t. t.gateway_api))

  unfoldable pub reconcile_traffic : Handler → Rollout → Run (Unit {0})
  reconcile_traffic simple rollout = pure tt
  reconcile_traffic canary rollout = reconcile_gateway_api_traffic rollout
  reconcile_traffic blue_green rollout = reconcile_gateway_api_traffic rollout
  reconcile_traffic ab_testing rollout = ab_testing_traffic rollout
