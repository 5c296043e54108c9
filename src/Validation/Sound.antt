-- ===== src/Validation/Sound.antt =====
-- Which rollouts `validate_rollout` accepts.
use kulta.Prelude.{
  ℕ, suc, String, Bool, true, false, not, Option, none, some, List, [], ◌∷◌, ◌≡◌, refl, ◌↔◌, ◌≢◌,
  codes, is_empty, arith, All, Exec, done, panic, ◌>>=◌,
}
use kulta.Prelude.Int.{ℤ, pos, ltb_ℤ, ◌≤ℤ◌}
use kulta.Prelude.Parse.{split_last, strip_last, parse_i32}
use kulta.Crd.{
  Rollout, CanaryStep, CanaryStrategy, PauseDuration, TrafficRouting, GatewayApiRouting,
}
use kulta.Duration.{parse_duration}
use kulta.Validation.{
  Verdict, valid, invalid, ◌>>◌, refuse_if, no_steps, surge_format, is_valid_surge_format,
  validate_weight, duration_verdict, validate_duration, validate_gateway, validate_pause,
  validate_step, validate_steps, validate_routing, validate_canary, validate_surge, is_percentage,
  is_absolute, validate_deadline, validate_rollout,
}

abbrev pub IsAccepted : Exec Verdict → Type 0
IsAccepted m = m ≡ done valid

abbrev pub InPercent : ℤ → Type 0
InPercent w = (pos 0 ≤ℤ w) × (w ≤ℤ pos 100)

abbrev pub WeightIsValid : Option ℤ → Type 0
WeightIsValid none = ⊥
WeightIsValid (some weight) = InPercent weight

abbrev pub DurationIsValid : Option String → Type 0
DurationIsValid none = Unit {0}
DurationIsValid (some duration) = (d : ℕ) × (parse_duration duration ≡ done (some d))

abbrev pub PauseIsValid : Option PauseDuration → Type 0
PauseIsValid none = Unit {0}
PauseIsValid (some pause) = DurationIsValid pause.duration

abbrev pub StepIsValid : CanaryStep → Type 0
StepIsValid step = WeightIsValid step.set_weight × PauseIsValid step.pause

abbrev GatewayIsValid : Option GatewayApiRouting → Type 0
GatewayIsValid none = Unit {0}
GatewayIsValid (some gateway) = is_empty gateway.http_route ≡ false

abbrev RoutingIsValid : Option TrafficRouting → Type 0
RoutingIsValid none = Unit {0}
RoutingIsValid (some routing) = GatewayIsValid routing.gateway_api

pub record CanaryIsValid (canary : CanaryStrategy) : Type 0 where
  pub canary_named : is_empty canary.canary_service ≡ false
  pub stable_named : is_empty canary.stable_service ≡ false
  pub has_steps : canary.steps ≢ []
  pub steps_valid : All StepIsValid canary.steps
  pub routing_valid : RoutingIsValid canary.traffic_routing

abbrev pub CanaryOptionIsValid : Option CanaryStrategy → Type 0
CanaryOptionIsValid none = Unit {0}
CanaryOptionIsValid (some canary) = CanaryIsValid canary

-- Either a percentage from 0 to 100, or a number that is not negative.
abbrev SurgeTextIsValid : List ℕ → Option (List ℕ) → Type 0
SurgeTextIsValid value (some percent_str) =
    (percent : ℤ) × (parse_i32 percent_str ≡ some percent) × InPercent percent
SurgeTextIsValid value none = (abs : ℤ) × (parse_i32 value ≡ some abs) × (pos 0 ≤ℤ abs)

abbrev pub SurgeIsValid : Option String → Type 0
SurgeIsValid none = Unit {0}
SurgeIsValid (some value) =
    SurgeTextIsValid (codes value) (strip_last b'%' (split_last (codes value)))

abbrev pub DeadlineIsValid : Option ℤ → Type 0
DeadlineIsValid none = Unit {0}
DeadlineIsValid (some deadline) = pos 0 ≤ℤ deadline

pub record IsValid (rollout : Rollout) : Type 0 where
  pub replicas_valid : pos 0 ≤ℤ rollout.spec.replicas
  pub canary_valid : CanaryOptionIsValid rollout.spec.strategy.canary
  pub max_surge_valid : SurgeIsValid rollout.spec.max_surge
  pub max_unavailable_valid : SurgeIsValid rollout.spec.max_unavailable
  pub deadline_valid : DeadlineIsValid rollout.spec.progress_deadline_seconds

↔-trans : {P Q R : Type 0} → P ↔ Q → Q ↔ R → P ↔ R
↔-trans f g = (λ p. g.0 (f.0 p), λ r. f.1 (g.1 r))

nonneg_lem : (a : ℤ) → (ltb_ℤ a (pos 0) ≡ false) ↔ (pos 0 ≤ℤ a)
nonneg_lem a = ground arith

>>-IsAccepted :
    {P Q : Type 0} (m k : Exec Verdict)
    → IsAccepted m ↔ P
    → IsAccepted k ↔ Q
    → IsAccepted (m >> k) ↔ (P × Q)
>>-IsAccepted (done valid) k p q = (λ h. (p.0 refl, q.0 h), λ h. q.1 h.1)
>>-IsAccepted (done (invalid e)) k p q = (λ h. cc, λ h. absurd (refused (p.1 h.0)))
  where
    refused : ¬ (Path (Exec Verdict) (done (invalid e)) (done valid))
    refused h = cc
>>-IsAccepted panic k p q = (λ h. cc, λ h. absurd (unwound (p.1 h.0)))
  where
    unwound : ¬ (Path (Exec Verdict) panic (done valid))
    unwound h = cc

refuse_if-IsAccepted : (b : Bool) (e : String) → IsAccepted (refuse_if b e) ↔ (b ≡ false)
refuse_if-IsAccepted b e = ground arith

weight-IsAccepted : (i : ℕ) (o : Option ℤ) → IsAccepted (validate_weight i o) ↔ WeightIsValid o
unfolding validate_weight
weight-IsAccepted i none = (λ h. cc, λ h. absurd h)
weight-IsAccepted i (some w) = ground arith

duration-IsAccepted :
    (i : ℕ) (o : Option String) → IsAccepted (validate_duration i o) ↔ DurationIsValid o
duration-IsAccepted i none = (λ h. tt, λ h. refl)
duration-IsAccepted i (some s) = (accepted (parse_duration s), λ h. rw h.1)
  where
    accepted :
        (m : Exec (Option ℕ))
        → IsAccepted (m >>= λ parsed. done (duration_verdict i s parsed))
        → (d : ℕ) × (m ≡ done (some d))
    accepted (done (some d)) h = (d, refl)
    accepted (done none) h = cc
    accepted panic h = cc

pause-IsAccepted :
    (i : ℕ) (o : Option PauseDuration) → IsAccepted (validate_pause i o) ↔ PauseIsValid o
unfolding validate_pause
pause-IsAccepted i none = (λ h. tt, λ h. refl)
pause-IsAccepted i (some p) = duration-IsAccepted i p.duration

step-IsAccepted : (i : ℕ) (step : CanaryStep) → IsAccepted (validate_step i step) ↔ StepIsValid step
unfolding validate_step
step-IsAccepted i step =
    >>-IsAccepted (validate_weight i step.set_weight) (validate_pause i step.pause)
      (weight-IsAccepted i step.set_weight) (pause-IsAccepted i step.pause)

steps-IsAccepted :
    (i : ℕ) (steps : List CanaryStep) → IsAccepted (validate_steps i steps) ↔ All StepIsValid steps
unfolding validate_steps
steps-IsAccepted i [] = (λ h. tt, λ h. refl)
steps-IsAccepted i (step ∷ steps) =
    >>-IsAccepted (validate_step i step) (validate_steps (suc i) steps) (step-IsAccepted i step)
      (steps-IsAccepted (suc i) steps)

gateway-IsAccepted :
    (o : Option GatewayApiRouting) → IsAccepted (validate_gateway o) ↔ GatewayIsValid o
gateway-IsAccepted none = (λ h. tt, λ h. refl)
gateway-IsAccepted (some g) = refuse_if-IsAccepted (is_empty g.http_route) _

routing-IsAccepted :
    (o : Option TrafficRouting) → IsAccepted (validate_routing o) ↔ RoutingIsValid o
unfolding validate_routing
routing-IsAccepted none = (λ h. tt, λ h. refl)
routing-IsAccepted (some r) = gateway-IsAccepted r.gateway_api

no_steps_lem : (steps : List CanaryStep) → (no_steps steps ≡ false) ↔ (steps ≢ [])
no_steps_lem [] = ground arith
no_steps_lem (step ∷ steps) = ground arith

canary-IsAccepted :
    (o : Option CanaryStrategy) → IsAccepted (validate_canary o) ↔ CanaryOptionIsValid o
unfolding validate_canary
canary-IsAccepted none = (λ h. tt, λ h. refl)
canary-IsAccepted (some canary) = (
  λ h.
      let r = checks.0 h in
      record {
        canary_named = r.0;
        stable_named = r.1.0;
        has_steps = r.1.1.0;
        steps_valid = r.1.1.1.0;
        routing_valid = r.1.1.1.1;
      },
  λ v. checks.1 (v.canary_named, (v.stable_named, (v.has_steps, (v.steps_valid, v.routing_valid)))),
)
  where
    checks : IsAccepted (validate_canary (some canary)) ↔ (
        (is_empty canary.canary_service ≡ false)
        × ((is_empty canary.stable_service ≡ false)
            × ((canary.steps ≢ [])
                × (All StepIsValid canary.steps × RoutingIsValid canary.traffic_routing))))
    checks = >>-IsAccepted _ _ (refuse_if-IsAccepted (is_empty canary.canary_service) _) (
        >>-IsAccepted _ _ (refuse_if-IsAccepted (is_empty canary.stable_service) _) (
          >>-IsAccepted _ _
            (↔-trans (refuse_if-IsAccepted (no_steps canary.steps) _) (no_steps_lem canary.steps))
            (>>-IsAccepted _ _ (steps-IsAccepted 0 canary.steps)
              (routing-IsAccepted canary.traffic_routing))))

not_lem : (b : Bool) → (not b ≡ false) ↔ (b ≡ true)
not_lem b = ground arith

percentage_lem :
    (o : Option ℤ)
    → (is_percentage o ≡ true) ↔ ((percent : ℤ) × (o ≡ some percent) × InPercent percent)
percentage_lem none = (λ h. cc, λ h. cc h.1)
percentage_lem (some n) = (λ h. (n, refl, ground arith), λ h. ground (arith, h))

absolute_lem :
    (o : Option ℤ) → (is_absolute o ≡ true) ↔ ((abs : ℤ) × (o ≡ some abs) × (pos 0 ≤ℤ abs))
absolute_lem none = (λ h. cc, λ h. cc h.1)
absolute_lem (some n) = (λ h. (n, refl, ground arith), λ h. ground (arith, h))

text_format_lem :
    (value : List ℕ) (o : Option (List ℕ))
    → (surge_format value o ≡ true) ↔ SurgeTextIsValid value o
text_format_lem value (some percent_str) = percentage_lem (parse_i32 percent_str)
text_format_lem value none = absolute_lem (parse_i32 value)

surge_format_lem :
    (value : String) → (is_valid_surge_format value ≡ true) ↔ SurgeIsValid (some value)
unfolding is_valid_surge_format
surge_format_lem value = text_format_lem (codes value) (strip_last b'%' (split_last (codes value)))

surge-IsAccepted :
    (field absolute : String) (o : Option String)
    → IsAccepted (validate_surge field absolute o) ↔ SurgeIsValid o
unfolding validate_surge
surge-IsAccepted field absolute none = (λ h. tt, λ h. refl)
surge-IsAccepted field absolute (some value) =
    ↔-trans (refuse_if-IsAccepted (not (is_valid_surge_format value)) _)
      (↔-trans (not_lem (is_valid_surge_format value)) (surge_format_lem value))

deadline-IsAccepted : (o : Option ℤ) → IsAccepted (validate_deadline o) ↔ DeadlineIsValid o
unfolding validate_deadline
deadline-IsAccepted none = (λ h. tt, λ h. refl)
deadline-IsAccepted (some deadline) = ground arith

-- A rollout is accepted exactly if it is valid: no negative replicas, named services and a route
-- name where they are given, at least one step, weights from 0 to 100, durations that can be
-- parsed, well-formed surge values and no negative deadline.
pub validate_rollout-valid :
    (rollout : Rollout) → (validate_rollout rollout ≡ done valid) ↔ IsValid rollout
unfolding validate_rollout
validate_rollout-valid rollout = (
  λ h.
      let r = checks.0 h in
      record {
        replicas_valid = r.0;
        canary_valid = r.1.0;
        max_surge_valid = r.1.1.0;
        max_unavailable_valid = r.1.1.1.0;
        deadline_valid = r.1.1.1.1;
      },
  λ v. checks.1 (
    v.replicas_valid,
    (v.canary_valid, (v.max_surge_valid, (v.max_unavailable_valid, v.deadline_valid))),
  ),
)
  where
    open rollout.spec use {
      replicas, strategy, max_surge, max_unavailable, progress_deadline_seconds,
    }

    checks : IsAccepted (validate_rollout rollout) ↔ (
        (pos 0 ≤ℤ replicas)
        × (CanaryOptionIsValid strategy.canary
            × (SurgeIsValid max_surge
                × (SurgeIsValid max_unavailable × DeadlineIsValid progress_deadline_seconds))))
    checks =
        >>-IsAccepted _ _
          (↔-trans (refuse_if-IsAccepted (ltb_ℤ replicas (pos 0)) _) (nonneg_lem replicas))
          (>>-IsAccepted _ _ (canary-IsAccepted strategy.canary) (
            >>-IsAccepted _ _ (surge-IsAccepted _ _ max_surge) (
              >>-IsAccepted _ _ (surge-IsAccepted _ _ max_unavailable)
                (deadline-IsAccepted progress_deadline_seconds))))
