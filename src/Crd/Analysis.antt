-- ===== src/Crd/Analysis.antt =====
-- crd/rollout.rs: the analysis sections of a strategy, and the advisor's configuration.
use kulta.Prelude.{ℕ, String, Option, none, List}
use kulta.Prelude.Int.{ℤ}

-- The bit pattern of an IEEE double. The operations on it are parameters of the code that needs them.
abbrev pub F64 : Type 0
F64 = ℕ

pub data FailurePolicy : Type 0 where
  pause continue rollback : FailurePolicy

pub record PrometheusConfig : Type 0 where
  pub address : Option String

pub record MetricConfig : Type 0 where
  pub name : String
  pub threshold : F64
  pub interval : Option String
  pub failure_threshold : Option ℤ
  pub min_sample_size : Option ℤ

pub record AnalysisConfig : Type 0 where
  pub prometheus : Option PrometheusConfig
  pub failure_policy : Option FailurePolicy
  pub warmup_duration : Option String
  pub metrics : List MetricConfig

pub data AbMetricDirection : Type 0 where
  lower higher : AbMetricDirection

pub record AbMetricConfig : Type 0 where
  pub name : String
  pub direction : AbMetricDirection
  pub min_effect_size : Option F64

pub record AbAnalysisConfig : Type 0 where
  pub prometheus : Option PrometheusConfig
  pub metrics : List AbMetricConfig
  pub min_duration : Option String
  pub min_sample_size : Option ℤ
  pub confidence_level : Option F64

pub data AdvisorLevel : Type 0 where
  off context advised planned driven : AdvisorLevel

pub record AdvisorConfig : Type 0 where
  pub level : AdvisorLevel
  pub endpoint : Option String
  pub timeout_seconds : ℕ  -- u64

abbrev pub default_advisor_timeout_seconds : ℕ
default_advisor_timeout_seconds = 10

-- `to_weight` is a `u32`.
pub data RecommendedAction : Type 0 where
  continue pause rollback : RecommendedAction
  advance : ℕ → RecommendedAction

pub record Recommendation : Type 0 where
  pub action : RecommendedAction
  pub confidence : F64
  pub reasoning : String

-- `impl Default for AdvisorConfig`.
abbrev pub default_advisor_config : AdvisorConfig
default_advisor_config = record {
  level = AdvisorLevel.off;
  endpoint = none;
  timeout_seconds = default_advisor_timeout_seconds;
}
