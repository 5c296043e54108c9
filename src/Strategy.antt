-- ===== src/Strategy.antt =====
-- controller/strategies/: the choice of a handler, and the status that each handler computes. What
-- the handlers ask of the Kubernetes API is in ReplicaSets and Routes.
pub mod Choice
pub mod Phases
use Prim.Native.String.{◌++◌}
use kulta.Prelude.{
  String, Bool, true, false, Option, none, some, [], unwrap_or, is_some, and_then, lookup,
  if◌then◌else◌, Exec, done,
}
use kulta.Prelude.Int.{show_int}
use kulta.Crd.{
  Phase, preview, experimenting, concluded, completed, RolloutStatus, default_status,
  AbExperimentStatus, Rollout, GatewayApiRouting, TrafficRouting,
}
use kulta.Clock.{Chrono}
use kulta.Status.{has_promote_annotation, compute_desired_status}

-- The implementors of the trait `RolloutStrategy`.
pub data Handler : Type 0 where
  simple canary blue_green ab_testing : Handler

unfoldable pub name : Handler → String
name simple = "simple"
name canary = "canary"
name blue_green = "blue-green"
name ab_testing = "ab-testing"

unfoldable pub supports_metrics_analysis : Handler → Bool
supports_metrics_analysis simple = false
supports_metrics_analysis canary = true
supports_metrics_analysis blue_green = false
supports_metrics_analysis ab_testing = true

unfoldable pub supports_manual_promotion : Handler → Bool
supports_manual_promotion simple = false
supports_manual_promotion _ = true

unfoldable pub select_strategy : Rollout → Handler
select_strategy rollout =
    if is_some rollout.spec.strategy.simple
    then simple
    else if is_some rollout.spec.strategy.blue_green
    then blue_green
    else if is_some rollout.spec.strategy.ab_testing
    then ab_testing
    else canary

abbrev gateway_of : Option TrafficRouting → Option GatewayApiRouting
gateway_of routing = and_then routing (λ r. r.gateway_api)

-- The canary strategy's routing first, then the blue-green strategy's.
unfoldable pub get_gateway_api_routing : Rollout → Option GatewayApiRouting
get_gateway_api_routing rollout =
    elim (and_then rollout.spec.strategy.canary (λ c. gateway_of c.traffic_routing)) [
      | some gateway_api ↦ some gateway_api
      | none ↦ and_then rollout.spec.strategy.blue_green (λ b. gateway_of b.traffic_routing)
    ]

abbrev pub phase_of : Option RolloutStatus → Option Phase
phase_of status = and_then status (λ s. s.phase)

-- simple.rs.
unfoldable pub next_simple : Rollout → RolloutStatus
next_simple rollout = record default_status {
  phase = some completed;
  message =
      some ("Simple rollout completed: " ++ show_int rollout.spec.replicas ++ " replicas updated");
  replicas = rollout.spec.replicas;
}

-- blue_green.rs: a status made of a phase, a message and the replicas.
abbrev blue_green_status : Rollout → Phase → String → RolloutStatus
blue_green_status rollout phase message = record default_status {
  phase = some phase;
  message = some message;
  replicas = rollout.spec.replicas;
}

abbrev promoted_message : String
promoted_message = "Blue-green rollout completed: preview promoted to active"

unfoldable pub next_blue_green : Rollout → Option Phase → RolloutStatus
next_blue_green rollout (some completed) = blue_green_status rollout completed promoted_message
next_blue_green rollout (some preview) =
    if has_promote_annotation rollout
    then blue_green_status rollout completed promoted_message
    else blue_green_status rollout preview
        "Blue-green rollout: preview environment ready, awaiting promotion"
next_blue_green rollout _ =
    blue_green_status rollout preview "Blue-green rollout: preview environment ready"

-- ab_testing.rs has a `has_promote_annotation` of its own: any value of the annotation counts.
unfoldable pub has_ab_promote_annotation : Rollout → Bool
has_ab_promote_annotation rollout =
    is_some (and_then rollout.metadata.annotations (lookup "kulta.io/promote"))

abbrev pub has_conclusion : Option RolloutStatus → Bool
has_conclusion status =
    is_some (and_then (and_then status (λ s. s.ab_experiment)) (λ e. e.conclusion_reason))

-- `RolloutStatus { phase, message, ..current_status.cloned().unwrap_or_default() }`.
abbrev ab_status : Option RolloutStatus → Phase → String → RolloutStatus
ab_status status phase message = record (unwrap_or status default_status) {
  phase = some phase;
  message = some message;
}

abbrev new_experiment : String → AbExperimentStatus
new_experiment started_at = record {
  started_at = started_at;
  concluded_at = none;
  sample_size_a = none;
  sample_size_b = none;
  results = [];
  winner = none;
  conclusion_reason = none;
}

-- `started_at` is the time that the handler reads for itself, printed.
unfoldable pub next_ab_testing :
    Rollout → Option RolloutStatus → Option Phase → String → RolloutStatus
next_ab_testing rollout status (some completed) started_at =
    ab_status status completed "A/B experiment completed"
next_ab_testing rollout status (some concluded) started_at =
    if has_ab_promote_annotation rollout
    then ab_status status completed "A/B experiment promoted"
    else ab_status status concluded "A/B experiment concluded, awaiting promotion"
next_ab_testing rollout status (some experimenting) started_at =
    if has_conclusion status
    then ab_status status concluded "A/B experiment concluded, awaiting promotion"
    else ab_status status experimenting "A/B experiment in progress"
next_ab_testing rollout status _ started_at = record default_status {
  phase = some experimenting;
  message = some "A/B experiment started";
  ab_experiment = some (new_experiment started_at);
}

-- `compute_next_status` of the four handlers. `utc_now` is the time that ab_testing.rs reads from
-- the system clock, past the injected one.
unfoldable pub compute_next_status :
    (chrono : Chrono) → Handler → Rollout → chrono.DateTime → chrono.DateTime → Exec RolloutStatus
compute_next_status chrono simple rollout now utc_now = done (next_simple rollout)
compute_next_status chrono canary rollout now utc_now = compute_desired_status chrono rollout now
compute_next_status chrono blue_green rollout now utc_now =
    done (next_blue_green rollout (phase_of rollout.status))
compute_next_status chrono ab_testing rollout now utc_now =
    done
      (next_ab_testing rollout rollout.status (phase_of rollout.status) (chrono.to_rfc3339 utc_now))
