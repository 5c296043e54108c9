-- ===== src/Crd/Status.antt =====
-- crd/rollout.rs: the status of a rollout, its phases, decisions and experiment.
use kulta.Prelude.{String, Option, none, List, [], Bool}
use kulta.Prelude.Int.{ℤ, pos}
use kulta.Crd.Analysis.{F64}

pub data Phase : Type 0 where
  initializing progressing paused preview experimenting concluded completed failed : Phase

pub Phase-discrete : Discrete Phase
Phase-discrete = hlevel

pub data DecisionAction : Type 0 where
  initialize step_advance promotion rollback pause resume complete : DecisionAction

pub data DecisionReason : Type 0 where
  analysis_passed analysis_failed pause_duration_expired : DecisionReason
  manual_promotion manual_rollback timeout initialization : DecisionReason

pub record MetricSnapshot : Type 0 where
  pub value : F64
  pub threshold : F64
  pub passed : Bool

pub record Decision : Type 0 where
  pub timestamp : String
  pub action : DecisionAction
  pub from_step : Option ℤ
  pub to_step : Option ℤ
  pub reason : DecisionReason
  pub message : Option String
  pub metrics : Option (List (String × MetricSnapshot))

pub data AbVariant : Type 0 where
  a b : AbVariant

pub data AbConclusionReason : Type 0 where
  significance_reached max_duration_exceeded : AbConclusionReason
  manual_conclusion consensus_reached : AbConclusionReason

pub record AbMetricResult : Type 0 where
  pub name : String
  pub value_a : F64
  pub value_b : F64
  pub confidence : F64
  pub is_significant : Bool
  pub winner : Option AbVariant

pub record AbExperimentStatus : Type 0 where
  pub started_at : String
  pub concluded_at : Option String
  pub sample_size_a : Option ℤ
  pub sample_size_b : Option ℤ
  pub results : List AbMetricResult
  pub winner : Option AbVariant
  pub conclusion_reason : Option AbConclusionReason

pub record RolloutStatus : Type 0 where
  pub replicas : ℤ
  pub ready_replicas : ℤ
  pub updated_replicas : ℤ
  pub current_step_index : Option ℤ
  pub current_weight : Option ℤ
  pub phase : Option Phase
  pub message : Option String
  pub pause_start_time : Option String
  pub step_start_time : Option String
  pub progress_started_at : Option String
  pub decisions : List Decision
  pub ab_experiment : Option AbExperimentStatus
  pub last_decision_source : Option String

-- `RolloutStatus::default()`, derived.
abbrev pub default_status : RolloutStatus
default_status = record {
  replicas = pos 0;
  ready_replicas = pos 0;
  updated_replicas = pos 0;
  current_step_index = none;
  current_weight = none;
  phase = none;
  message = none;
  pause_start_time = none;
  step_start_time = none;
  progress_started_at = none;
  decisions = [];
  ab_experiment = none;
  last_decision_source = none;
}
