-- ===== src/Traffic.antt =====
-- controller/rollout/traffic.rs: traffic weights and the backend references of an HTTPRoute. The
-- route and its references are types of the crate gateway-api: the model keeps the fields that the
-- controller sets, and a route's other fields as text.
pub mod Weights
use kulta.Prelude.{String, Option, none, some, List, [], ◌∷◌, get_elem?, unwrap_or, if◌then◌else◌}
use kulta.Prelude.Int.{ℤ, pos, negsuc, ◌-ℤ◌, ltb_ℤ, wrap_i32, as_usize}
use kulta.Crd.{
  Phase, initializing, completed, RolloutStatus, Rollout, CanaryStep, CanaryStrategy,
  BlueGreenStrategy,
}

unfoldable pub default_service_port : Option ℤ → ℤ
default_service_port configured = unwrap_or configured (pos 80)

pub record HttpBackendRef : Type 0 where
  pub name : String
  pub port : Option ℤ
  pub weight : Option ℤ

-- `HTTPRouteRulesBackendRefs` of gateway-api. `namespace` and `filters` are always `None`.
pub record GatewayBackendRef : Type 0 where
  pub name : String
  pub port : Option ℤ
  pub weight : Option ℤ
  pub kind : Option String
  pub group : Option String

-- The weight of the step that the index finds; past the last step all traffic goes to the canary.
abbrev pub step_weights : Option CanaryStep → ℤ × ℤ
step_weights none = (pos 0, pos 100)
step_weights (some step) =
    let canary_weight = unwrap_or step.set_weight (pos 0) in
    (wrap_i32 (pos 100 -ℤ canary_weight), canary_weight)

abbrev pub index_weights : List CanaryStep → ℤ → ℤ × ℤ
index_weights steps current_step_index =
    if ltb_ℤ current_step_index (pos 0)
    then (pos 100, pos 0)
    else step_weights (get_elem? steps (as_usize current_step_index))

abbrev pub status_index : Option RolloutStatus → ℤ
status_index none = negsuc 0
status_index (some status) = unwrap_or status.current_step_index (negsuc 0)

abbrev pub canary_weights : Option CanaryStrategy → ℤ → ℤ × ℤ
canary_weights none index = (pos 100, pos 0)
canary_weights (some canary) index = index_weights canary.steps index

-- The weights of the stable and the canary service.
unfoldable pub calculate_traffic_weights : Rollout → ℤ × ℤ
calculate_traffic_weights rollout =
    canary_weights rollout.spec.strategy.canary (status_index rollout.status)

abbrev phase_weights : Phase → ℤ × ℤ
phase_weights completed = (pos 0, pos 100)
phase_weights _ = (pos 100, pos 0)

abbrev status_phase : Option RolloutStatus → Phase
status_phase none = initializing
status_phase (some status) = unwrap_or status.phase initializing

-- The weights of the active and the preview service.
unfoldable pub calculate_blue_green_weights : Rollout → ℤ × ℤ
calculate_blue_green_weights rollout = phase_weights (status_phase rollout.status)

abbrev backend_ref : String → ℤ → ℤ → HttpBackendRef
backend_ref name port weight = record { name = name; port = some port; weight = some weight }

unfoldable pub build_backend_refs_with_weights : Rollout → List HttpBackendRef
unfolding default_service_port
build_backend_refs_with_weights rollout = elim rollout.spec.strategy.canary [
  | none ↦ []
  | some canary ↦
      let (stable_weight, canary_weight) = calculate_traffic_weights rollout in
      let port = default_service_port canary.port in
      backend_ref canary.stable_service port stable_weight
      ∷ backend_ref canary.canary_service port canary_weight
      ∷ []
]

abbrev pub service_ref : String → ℤ → ℤ → GatewayBackendRef
service_ref name port weight = record {
  name = name;
  port = some port;
  weight = some weight;
  kind = some "Service";
  group = some "";
}

abbrev pub blue_green_refs : BlueGreenStrategy → ℤ × ℤ → List GatewayBackendRef
unfolding default_service_port
blue_green_refs blue_green (active_weight, preview_weight) =
    let port = default_service_port blue_green.port in
    service_ref blue_green.active_service port active_weight
    ∷ service_ref blue_green.preview_service port preview_weight
    ∷ []

abbrev pub canary_refs : CanaryStrategy → ℤ × ℤ → List GatewayBackendRef
unfolding default_service_port
canary_refs canary (stable_weight, canary_weight) =
    let port = default_service_port canary.port in
    service_ref canary.stable_service port stable_weight
    ∷ service_ref canary.canary_service port canary_weight
    ∷ []

unfoldable pub build_gateway_api_backend_refs : Rollout → List GatewayBackendRef
build_gateway_api_backend_refs rollout = elim rollout.spec.strategy.blue_green [
  | some blue_green ↦ blue_green_refs blue_green (calculate_blue_green_weights rollout)
  | none ↦ elim rollout.spec.strategy.canary [
    | none ↦ []
    | some canary ↦ canary_refs canary (calculate_traffic_weights rollout)
  ]
]

pub data HeaderMatchType : Type 0 where
  exact regular_expression : HeaderMatchType

pub record HeaderMatch : Type 0 where
  pub name : String
  pub value : String
  pub match_type : Option HeaderMatchType

-- `other` is what a match says of the method, the path and the query, as text.
pub record RouteMatch : Type 0 where
  pub headers : Option (List HeaderMatch)
  pub other : Option String

pub record HttpRouteRule : Type 0 where
  pub name : Option String
  pub matches : Option (List RouteMatch)
  pub backend_refs : Option (List GatewayBackendRef)
  pub filters : Option String
  pub timeouts : Option String

pub record HttpRoute : Type 0 where
  pub rules : Option (List HttpRouteRule)
  pub rest : String

abbrev pub set_first : List GatewayBackendRef → List HttpRouteRule → List HttpRouteRule
set_first refs [] = []
set_first refs (first_rule ∷ rules) = record first_rule { backend_refs = some refs } ∷ rules

-- The route is changed in place: the result is the route afterwards.
unfoldable pub update_httproute_backends : Rollout → HttpRoute → HttpRoute
update_httproute_backends rollout httproute = elim httproute.rules [
  | none ↦ httproute
  | some rules ↦ record httproute {
    rules = some (set_first (build_gateway_api_backend_refs rollout) rules);
  }
]
