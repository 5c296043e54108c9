-- ===== src/Examples/Inputs.antt =====
-- The theorems on what the controller is given, at samples: durations, specifications, replicas.
use kulta.Prelude.{
  ℕ, ◌≤◌, ◌<◌, ◌*◌, ◌+◌, ◌≡◌, ◌≢◌, refl, ◌↔◌, arith, none, some, [], ◌∷◌, codes, is_empty, done,
  panic,
}
use kulta.Prelude.Int.{pos, ◌+ℤ◌, ◌≤ℤ◌, max_i32}
use kulta.Prelude.Parse.{trim}
use kulta.Crd.{Phase, preview, default_advisor_config}
use kulta.Duration.{parse_duration}
use kulta.Duration.Bounds.{EndsWide, parse_duration-panic}
use kulta.Duration.Decimal.{minutes, parse_duration-decimal}
use kulta.Validation.{valid, validate_rollout}
use kulta.Validation.Sound.{IsValid, validate_rollout-valid}
use kulta.Replicas.{
  parse_surge_value, quarter, calculate_replica_split, calculate_replica_split_with_surge,
}
use kulta.Replicas.Split.{calculate_replica_split-ceil}
use kulta.Replicas.Surge.{calculate_replica_split_with_surge-eq-split}
use kulta.Status.{has_promote_annotation}
use kulta.Strategy.{next_blue_green}
use kulta.Strategy.Phases.{BlueGreenStep, next_blue_green-step}
use kulta.Conversion.RoundTrip.{stored, percent_default, convert_to_v1alpha1-convert_to_v1beta1}
use kulta.Examples.{spec_of, plain_steps, plain_canary, rollout_of}

validate_rollout-valid_example :
    (validate_rollout (rollout_of plain_canary none) ≡ done valid)
    ↔ IsValid (rollout_of plain_canary none)
validate_rollout-valid_example = validate_rollout-valid (rollout_of plain_canary none)

parse_duration-decimal_example : parse_duration "05m" ≡ done (some 300)
parse_duration-decimal_example =
    parse_duration-decimal "05m" 0 (5 ∷ []) minutes (omega arith, (omega arith, ground arith)) refl

parse_duration-panic_example : (parse_duration "5µ" ≡ panic) ↔ EndsWide (trim (codes "5µ"))
parse_duration-panic_example = parse_duration-panic "5µ"

calculate_replica_split-ceil_example :
    (stable canary : ℕ) × (calculate_replica_split (pos 3) (pos 50) ≡ (pos stable, pos canary))
    × (stable + canary ≡ 3)
    × (3 * 50 ≤ canary * 100)
    × (canary * 100 < 3 * 50 + 100)
calculate_replica_split-ceil_example = calculate_replica_split-ceil 3 50 (omega arith) (omega arith)

fits : pos 10 +ℤ parse_surge_value "25%" (pos 10) ≤ℤ max_i32
unfolding ◌+ℤ◌
fits = rw quarter (ground arith)

calculate_replica_split_with_surge-eq-split_example :
    calculate_replica_split_with_surge (pos 10) (pos 25) none none
    ≡ calculate_replica_split (pos 10) (pos 25)
calculate_replica_split_with_surge-eq-split_example =
    calculate_replica_split_with_surge-eq-split 10 25 none none (omega arith) (omega arith) fits

next_blue_green-step_example :
    (new : Phase) × ((next_blue_green (rollout_of plain_canary none) (some preview)).phase
      ≡ some new)
    × BlueGreenStep (has_promote_annotation (rollout_of plain_canary none)) (some preview) new
next_blue_green-step_example = next_blue_green-step (rollout_of plain_canary none) (some preview)

convert_to_v1alpha1-convert_to_v1beta1_example :
    ((stored (spec_of plain_canary) ≡ spec_of plain_canary) ↔ (
      ((spec_of plain_canary).max_surge ≢ none)
      × ((spec_of plain_canary).max_unavailable ≢ none)
      × ((spec_of plain_canary).progress_deadline_seconds ≢ none)
      × ((spec_of plain_canary).advisor ≡ default_advisor_config)))
    × (stored (spec_of plain_canary) ≡ record (spec_of plain_canary) { max_unavailable = some "0" })
    × (stored (stored (spec_of plain_canary)) ≡ stored (spec_of plain_canary))
convert_to_v1alpha1-convert_to_v1beta1_example =
    convert_to_v1alpha1-convert_to_v1beta1 (spec_of plain_canary)

plain-IsValid : IsValid (rollout_of plain_canary none)
unfolding is_empty
plain-IsValid = record {
  replicas_valid = ground arith;
  canary_valid = record {
    canary_named = refl;
    stable_named = refl;
    has_steps = λ e. cc;
    steps_valid = plain_steps;
    routing_valid = ground arith;
  };
  max_surge_valid = percent_default;
  max_unavailable_valid = ground arith;
  deadline_valid = ground arith;
}
