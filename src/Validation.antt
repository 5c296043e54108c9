-- ===== src/Validation.antt =====
-- controller/rollout/validation.rs: `validate_rollout`; the surge format of replicaset.rs with it.
pub mod Sound
use Prim.Native.String.{◌++◌}
use kulta.Prelude.{
  ℕ, suc, String, Bool, true, false, ◌&&◌, not, Option, none, some, List, [], ◌∷◌, codes, is_empty,
  show_nat, Exec, done, ◌>>=◌,
}
use kulta.Prelude.Int.{ℤ, pos, leb_ℤ, ltb_ℤ, show_int}
use kulta.Prelude.Parse.{split_last, strip_last, parse_i32}
use kulta.Crd.{
  Rollout, CanaryStep, CanaryStrategy, PauseDuration, TrafficRouting, GatewayApiRouting,
}
use kulta.Duration.{parse_duration}

-- `Result<(), String>`.
pub data Verdict : Type 0 where
  valid : Verdict
  invalid : String → Verdict

-- A check that fails ends the function, one that passes goes on.
infixl 5 ◌>>◌
abbrev pub ◌>>◌ : Exec Verdict → Exec Verdict → Exec Verdict
m >> k = m >>= elim [ valid ↦ k | invalid e ↦ done (invalid e) ]

-- `if failed { return Err(e) }`.
abbrev pub refuse_if : Bool → String → Exec Verdict
refuse_if true e = done (invalid e)
refuse_if false e = done valid

abbrev pub in_percent_range : ℤ → Bool
in_percent_range w = leb_ℤ (pos 0) w && leb_ℤ w (pos 100)

abbrev pub is_percentage : Option ℤ → Bool
is_percentage none = false
is_percentage (some percent) = in_percent_range percent

abbrev pub is_absolute : Option ℤ → Bool
is_absolute none = false
is_absolute (some abs) = leb_ℤ (pos 0) abs

abbrev pub surge_format : List ℕ → Option (List ℕ) → Bool
surge_format value (some percent_str) = is_percentage (parse_i32 percent_str)
surge_format value none = is_absolute (parse_i32 value)

-- replicaset.rs.
unfoldable pub is_valid_surge_format : String → Bool
is_valid_surge_format value =
    surge_format (codes value) (strip_last b'%' (split_last (codes value)))

unfoldable pub validate_weight : ℕ → Option ℤ → Exec Verdict
validate_weight i (some weight) =
    refuse_if (not (in_percent_range weight))
      ("steps[" ++ show_nat i ++ "].setWeight must be 0-100, got " ++ show_int weight)
validate_weight i none = done (invalid ("steps[" ++ show_nat i ++ "].setWeight is required"))

abbrev pub duration_verdict : ℕ → String → Option ℕ → Verdict
duration_verdict i duration (some d) = valid
duration_verdict i duration none =
    invalid ("steps[" ++ show_nat i ++ "].pause.duration invalid: " ++ duration)

abbrev pub validate_duration : ℕ → Option String → Exec Verdict
validate_duration i none = done valid
validate_duration i (some duration) =
    parse_duration duration >>= λ parsed. done (duration_verdict i duration parsed)

unfoldable pub validate_pause : ℕ → Option PauseDuration → Exec Verdict
validate_pause i none = done valid
validate_pause i (some pause) = validate_duration i pause.duration

unfoldable pub validate_step : ℕ → CanaryStep → Exec Verdict
validate_step i step = do validate_weight i step.set_weight; validate_pause i step.pause

-- The loop over `steps.iter().enumerate()`.
unfoldable pub validate_steps : ℕ → List CanaryStep → Exec Verdict
validate_steps i [] = done valid
validate_steps i (step ∷ steps) = do validate_step i step; validate_steps (suc i) steps

abbrev no_steps : List CanaryStep → Bool
no_steps [] = true
no_steps (step ∷ steps) = false

abbrev pub validate_gateway : Option GatewayApiRouting → Exec Verdict
validate_gateway none = done valid
validate_gateway (some gateway) =
    refuse_if (is_empty gateway.http_route)
      "spec.strategy.canary.trafficRouting.gatewayAPI.httpRoute cannot be empty"

unfoldable pub validate_routing : Option TrafficRouting → Exec Verdict
validate_routing none = done valid
validate_routing (some routing) = validate_gateway routing.gateway_api

unfoldable pub validate_canary : Option CanaryStrategy → Exec Verdict
validate_canary none = done valid
validate_canary (some canary) = do
  refuse_if (is_empty canary.canary_service) "spec.strategy.canary.canaryService cannot be empty"
  refuse_if (is_empty canary.stable_service) "spec.strategy.canary.stableService cannot be empty"
  refuse_if (no_steps canary.steps) "spec.strategy.canary.steps must have at least one step"
  validate_steps 0 canary.steps
  validate_routing canary.traffic_routing

unfoldable pub validate_surge : String → String → Option String → Exec Verdict
validate_surge field absolute none = done valid
validate_surge field absolute (some value) = refuse_if (not (is_valid_surge_format value)) (
    field ++ " invalid format '" ++ value
    ++ "': must be percentage (e.g., '25%') or absolute number (e.g., '" ++ absolute ++ "')")

unfoldable pub validate_deadline : Option ℤ → Exec Verdict
validate_deadline none = done valid
validate_deadline (some deadline) =
    refuse_if (ltb_ℤ deadline (pos 0))
      ("spec.progressDeadlineSeconds must be >= 0, got " ++ show_int deadline)

unfoldable pub validate_rollout : Rollout → Exec Verdict
validate_rollout rollout = do
  refuse_if (ltb_ℤ rollout.spec.replicas (pos 0))
      ("spec.replicas must be >= 0, got " ++ show_int rollout.spec.replicas)
  validate_canary rollout.spec.strategy.canary
  validate_surge "spec.maxSurge" "5" rollout.spec.max_surge
  validate_surge "spec.maxUnavailable" "0" rollout.spec.max_unavailable
  validate_deadline rollout.spec.progress_deadline_seconds
