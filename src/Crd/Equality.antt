-- ===== src/Crd/Equality.antt =====
-- crd/rollout.rs derives `PartialEq`: two statuses are equal field by field, doubles as doubles.
use Prim.Native.String.{String}
use kulta.Prelude.{
  ℕ, Bool, true, false, ◌&&◌, Option, none, some, List, [], ◌∷◌, str_eq, length, lookup, ◌==◌,
}
use kulta.Prelude.Int.{ℤ, ◌==ℤ◌}
use kulta.Crd.Analysis.{F64}
use kulta.Crd.Status.{
  Phase, DecisionAction, DecisionReason, MetricSnapshot, Decision, AbVariant, AbConclusionReason,
  AbMetricResult, AbExperimentStatus, RolloutStatus,
}

module _ {A : Type 0} (eq : A → A → Bool) where
  abbrev pub eq_option : Option A → Option A → Bool
  eq_option none none = true
  eq_option (some a) (some b) = eq a b
  eq_option _ _ = false

  abbrev pub eq_list : List A → List A → Bool
  eq_list [] [] = true
  eq_list (a ∷ xs) (b ∷ ys) = eq a b && eq_list xs ys
  eq_list _ _ = false

abbrev eq_int : ℤ → ℤ → Bool
eq_int a b = a ==ℤ b

abbrev eq_bool : Bool → Bool → Bool
eq_bool true b = b
eq_bool false true = false
eq_bool false false = true

abbrev rank_phase : Phase → ℕ
rank_phase Phase.initializing = 0
rank_phase Phase.progressing = 1
rank_phase Phase.paused = 2
rank_phase Phase.preview = 3
rank_phase Phase.experimenting = 4
rank_phase Phase.concluded = 5
rank_phase Phase.completed = 6
rank_phase Phase.failed = 7

abbrev pub eq_phase : Phase → Phase → Bool
eq_phase a b = rank_phase a == rank_phase b

abbrev rank_action : DecisionAction → ℕ
rank_action DecisionAction.initialize = 0
rank_action DecisionAction.step_advance = 1
rank_action DecisionAction.promotion = 2
rank_action DecisionAction.rollback = 3
rank_action DecisionAction.pause = 4
rank_action DecisionAction.resume = 5
rank_action DecisionAction.complete = 6

abbrev pub eq_action : DecisionAction → DecisionAction → Bool
eq_action a b = rank_action a == rank_action b

abbrev rank_reason : DecisionReason → ℕ
rank_reason DecisionReason.analysis_passed = 0
rank_reason DecisionReason.analysis_failed = 1
rank_reason DecisionReason.pause_duration_expired = 2
rank_reason DecisionReason.manual_promotion = 3
rank_reason DecisionReason.manual_rollback = 4
rank_reason DecisionReason.timeout = 5
rank_reason DecisionReason.initialization = 6

abbrev pub eq_reason : DecisionReason → DecisionReason → Bool
eq_reason a b = rank_reason a == rank_reason b

abbrev rank_variant : AbVariant → ℕ
rank_variant AbVariant.a = 0
rank_variant AbVariant.b = 1

abbrev pub eq_variant : AbVariant → AbVariant → Bool
eq_variant x y = rank_variant x == rank_variant y

abbrev rank_conclusion : AbConclusionReason → ℕ
rank_conclusion AbConclusionReason.significance_reached = 0
rank_conclusion AbConclusionReason.max_duration_exceeded = 1
rank_conclusion AbConclusionReason.manual_conclusion = 2
rank_conclusion AbConclusionReason.consensus_reached = 3

abbrev pub eq_conclusion : AbConclusionReason → AbConclusionReason → Bool
eq_conclusion a b = rank_conclusion a == rank_conclusion b

-- `eq` is the equality of doubles.
module _ (eq : F64 → F64 → Bool) where
  abbrev eq_snapshot : MetricSnapshot → MetricSnapshot → Bool
  eq_snapshot a b = eq a.value b.value && eq a.threshold b.threshold && eq_bool a.passed b.passed

  abbrev is_snapshot : MetricSnapshot → Option MetricSnapshot → Bool
  is_snapshot a none = false
  is_snapshot a (some b) = eq_snapshot a b

  abbrev all_in : List (String × MetricSnapshot) → List (String × MetricSnapshot) → Bool
  all_in [] m = true
  all_in ((k, a) ∷ xs) m = is_snapshot a (lookup k m) && all_in xs m

  -- Of a `HashMap`: as many keys, and for each the same value.
  abbrev eq_metrics : List (String × MetricSnapshot) → List (String × MetricSnapshot) → Bool
  eq_metrics xs ys = (length xs == length ys) && all_in xs ys

  unfoldable pub eq_decision : Decision → Decision → Bool
  eq_decision a b =
      str_eq a.timestamp b.timestamp
      && eq_action a.action b.action
      && eq_option eq_int a.from_step b.from_step
      && eq_option eq_int a.to_step b.to_step
      && eq_reason a.reason b.reason
      && eq_option str_eq a.message b.message
      && eq_option eq_metrics a.metrics b.metrics

  unfoldable pub eq_result : AbMetricResult → AbMetricResult → Bool
  eq_result a b =
      str_eq a.name b.name
      && eq a.value_a b.value_a
      && eq a.value_b b.value_b
      && eq a.confidence b.confidence
      && eq_bool a.is_significant b.is_significant
      && eq_option eq_variant a.winner b.winner

  unfoldable pub eq_experiment : AbExperimentStatus → AbExperimentStatus → Bool
  eq_experiment a b =
      str_eq a.started_at b.started_at
      && eq_option str_eq a.concluded_at b.concluded_at
      && eq_option eq_int a.sample_size_a b.sample_size_a
      && eq_option eq_int a.sample_size_b b.sample_size_b
      && eq_list eq_result a.results b.results
      && eq_option eq_variant a.winner b.winner
      && eq_option eq_conclusion a.conclusion_reason b.conclusion_reason

  unfoldable pub eq_status : RolloutStatus → RolloutStatus → Bool
  eq_status a b =
      eq_int a.replicas b.replicas
      && eq_int a.ready_replicas b.ready_replicas
      && eq_int a.updated_replicas b.updated_replicas
      && eq_option eq_int a.current_step_index b.current_step_index
      && eq_option eq_int a.current_weight b.current_weight
      && eq_option eq_phase a.phase b.phase
      && eq_option str_eq a.message b.message
      && eq_option str_eq a.pause_start_time b.pause_start_time
      && eq_option str_eq a.step_start_time b.step_start_time
      && eq_option str_eq a.progress_started_at b.progress_started_at
      && eq_list eq_decision a.decisions b.decisions
      && eq_option eq_experiment a.ab_experiment b.ab_experiment
      && eq_option str_eq a.last_decision_source b.last_decision_source
