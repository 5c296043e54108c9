-- ===== src/Analysis.antt =====
-- controller/rollout/reconcile.rs: the evaluation of a canary's metrics and of an A/B experiment.
pub mod Limits
pub mod Conclusions
use kulta.Prelude.{
  ℕ, String, Bool, true, false, ◌||◌, Option, none, some, List, [], ◌∷◌, unwrap_or, is_some,
  and_then, lookup, if◌then◌else◌,
}
use kulta.Prelude.Int.{ℤ, pos, ltb_ℤ, leb_ℤ}
use kulta.Crd.{
  F64, Rollout, AnalysisConfig, AbAnalysisConfig, AbStrategy, AbVariant, AbConclusionReason,
  manual_conclusion, max_duration_exceeded, AbMetricResult, AbMetricDirection,
}
use kulta.Duration.{parse_duration}
use kulta.Experiment.{evaluate_ab_metrics, determine_experiment_conclusion}
use kulta.Kube.{QueryResult, value, query_error}
use kulta.Kube.Run.{Run, pure, raise, of_exec, ◌>>=◌, metrics_evaluation_failed}
use kulta.Kube.Context.{Context, ask_clock}
use kulta.Metrics.{
  Evaluated, evaluated, failed_query, evaluate_all_metrics, query_ab_error_rate,
  query_ab_sample_count,
}

pub record AbExperimentEvaluation : Type 0 where
  pub should_conclude : Bool
  pub winner : Option AbVariant
  pub reason : Option AbConclusionReason
  pub results : List AbMetricResult
  pub sample_size_a : Option ℤ
  pub sample_size_b : Option ℤ

-- The experiment goes on.
abbrev pub undecided : Option ℤ → Option ℤ → List AbMetricResult → AbExperimentEvaluation
undecided sample_a sample_b results = record {
  should_conclude = false;
  winner = none;
  reason = none;
  results = results;
  sample_size_a = sample_a;
  sample_size_b = sample_b;
}

abbrev pub inconclusive : AbExperimentEvaluation
inconclusive = undecided none none []

-- It ends without a winner.
abbrev pub ended : AbConclusionReason → AbExperimentEvaluation
ended reason = record inconclusive { should_conclude = true; reason = some reason }

-- It ends as its results say, if they do.
abbrev pub settled :
    ℤ → ℤ → List AbMetricResult → Option (AbVariant × AbConclusionReason) → AbExperimentEvaluation
settled sample_a sample_b results none = undecided (some sample_a) (some sample_b) results
settled sample_a sample_b results (some (winner, reason)) = record {
  should_conclude = true;
  winner = some winner;
  reason = some reason;
  results = results;
  sample_size_a = some sample_a;
  sample_size_b = some sample_b;
}

abbrev pub has_conclude_annotation : Rollout → Bool
has_conclude_annotation rollout =
    is_some (and_then rollout.metadata.annotations (lookup "kulta.io/conclude-experiment"))

-- Has a limit, if there is one and it can be parsed, been reached after so many seconds?
abbrev pub reached : Option ℕ → Option ℤ → Bool
reached (some limit) (some elapsed) = leb_ℤ (pos limit) elapsed
reached _ _ = false

abbrev pub before : Option ℕ → Option ℤ → Bool
before (some limit) (some elapsed) = ltb_ℤ elapsed (pos limit)
before _ _ = false

abbrev pub limit_of : Option String → Run (Option ℕ)
limit_of none = pure none
limit_of (some duration_str) = of_exec (parse_duration duration_str)

abbrev default_confidence_level : F64
default_confidence_level = 4606732058837280358  -- 0.95

-- `min_sample_size` is an `i32`.
abbrev pub min_samples : AbAnalysisConfig → ℤ
min_samples analysis_config = unwrap_or analysis_config.min_sample_size (pos 30)

module _ (ctx : Context) where
  open ctx use {chrono, doubles, name_any, created_at}
  open chrono use {DateTime, parse_from_rfc3339, seconds_since}

  abbrev or_else : Option DateTime → Option DateTime → Option DateTime
  or_else none other = other
  or_else (some t) other = some t

  abbrev pub step_start : Rollout → Option DateTime
  step_start rollout =
      or_else (and_then (and_then rollout.status (λ s. s.step_start_time)) parse_from_rfc3339)
        (created_at rollout.metadata)

  -- Without a start time the warmup is taken to have just begun.
  abbrev pub warming_from : ℕ → Option DateTime → Run Bool
  warming_from warmup none = pure true
  warming_from warmup (some start_time) = do
    now ← ask_clock ctx
    pure (ltb_ℤ (seconds_since now start_time) (pos warmup))

  abbrev pub warming : Rollout → Option ℕ → Run Bool
  warming rollout none = pure false
  warming rollout (some warmup) = warming_from warmup (step_start rollout)

  -- `map_err`.
  abbrev pub or_failed : Evaluated → Run Bool
  or_failed (evaluated is_healthy) = pure is_healthy
  or_failed (failed_query e) = raise metrics_evaluation_failed

  abbrev pub query_metrics : Rollout → AnalysisConfig → Bool → Run Bool
  query_metrics rollout analysis_config true = pure true
  query_metrics rollout analysis_config false =
      evaluate_all_metrics ctx analysis_config.metrics (name_any rollout.metadata) "canary"
      >>= or_failed

  abbrev pub evaluate_config : Rollout → Option AnalysisConfig → Run Bool
  evaluate_config rollout none = pure true
  evaluate_config rollout (some analysis_config) = do
    warmup_duration ← limit_of analysis_config.warmup_duration
    in_warmup ← warming rollout warmup_duration
    query_metrics rollout analysis_config in_warmup

  unfoldable pub evaluate_rollout_metrics : Rollout → Run Bool
  evaluate_rollout_metrics rollout =
      evaluate_config rollout (and_then rollout.spec.strategy.canary (λ c. c.analysis))

  abbrev pub started_at : Rollout → Option DateTime
  started_at rollout =
      and_then (and_then rollout.status (λ s. s.ab_experiment))
        (λ e. parse_from_rfc3339 e.started_at)

  abbrev pub elapsed_since : Option DateTime → Run (Option ℤ)
  elapsed_since none = pure none
  elapsed_since (some start) = do now ← ask_clock ctx; pure (some (seconds_since now start))

  abbrev pub results_of : AbAnalysisConfig → F64 → F64 → ℤ → ℤ → List AbMetricResult
  results_of analysis_config rate_a rate_b sample_a sample_b =
      evaluate_ab_metrics doubles
        ((record {
          name = "error-rate";
          rate_a = rate_a;
          rate_b = rate_b;
          n_a = sample_a;
          n_b = sample_b;
          direction = AbMetricDirection.lower;
        })
          ∷ [])
        (unwrap_or analysis_config.confidence_level default_confidence_level)

  -- The end of the function, from the answers to the queries of the error rates on.
  abbrev pub judge_b : AbAnalysisConfig → ℤ → ℤ → F64 → QueryResult → Run AbExperimentEvaluation
  judge_b analysis_config sample_a sample_b rate_a (query_error e) =
      pure (undecided (some sample_a) (some sample_b) [])
  judge_b analysis_config sample_a sample_b rate_a (value rate_b) =
      let results = results_of analysis_config rate_a rate_b sample_a sample_b in
      pure (settled sample_a sample_b results (determine_experiment_conclusion results))

  abbrev pub judge_a :
      AbStrategy → AbAnalysisConfig → ℤ → ℤ → QueryResult → Run AbExperimentEvaluation
  judge_a ab_strategy analysis_config sample_a sample_b (query_error e) =
      pure (undecided (some sample_a) (some sample_b) [])
  judge_a ab_strategy analysis_config sample_a sample_b (value rate_a) =
      query_ab_error_rate ctx ab_strategy.variant_b_service
      >>= judge_b analysis_config sample_a sample_b rate_a

  -- From both sample counts on.
  abbrev pub judge_samples : AbStrategy → AbAnalysisConfig → ℤ → ℤ → Run AbExperimentEvaluation
  judge_samples ab_strategy analysis_config sample_a sample_b =
      if ltb_ℤ sample_a (min_samples analysis_config)
        || ltb_ℤ sample_b (min_samples analysis_config)
      then pure (undecided (some sample_a) (some sample_b) [])
      else query_ab_error_rate ctx ab_strategy.variant_a_service
        >>= judge_a ab_strategy analysis_config sample_a sample_b

  abbrev pub count_b : AbStrategy → AbAnalysisConfig → ℤ → Option ℤ → Run AbExperimentEvaluation
  count_b ab_strategy analysis_config sample_a none = pure inconclusive
  count_b ab_strategy analysis_config sample_a (some sample_b) =
      judge_samples ab_strategy analysis_config sample_a sample_b

  abbrev pub count_a : AbStrategy → AbAnalysisConfig → Option ℤ → Run AbExperimentEvaluation
  count_a ab_strategy analysis_config none = pure inconclusive
  count_a ab_strategy analysis_config (some sample_a) =
      query_ab_sample_count ctx ab_strategy.variant_b_service
      >>= count_b ab_strategy analysis_config sample_a

  abbrev pub from_counts : AbStrategy → AbAnalysisConfig → Bool → Run AbExperimentEvaluation
  from_counts ab_strategy analysis_config true = pure inconclusive
  from_counts ab_strategy analysis_config false =
      query_ab_sample_count ctx ab_strategy.variant_a_service
      >>= count_a ab_strategy analysis_config

  -- From the analysis section on.
  abbrev pub from_analysis :
      AbStrategy → Option ℤ → Option AbAnalysisConfig → Run AbExperimentEvaluation
  from_analysis ab_strategy elapsed none = pure inconclusive
  from_analysis ab_strategy elapsed (some analysis_config) = do
    min_duration ← limit_of analysis_config.min_duration
    from_counts ab_strategy analysis_config (before min_duration elapsed)

  abbrev pub from_timeout : AbStrategy → Option ℤ → Bool → Run AbExperimentEvaluation
  from_timeout ab_strategy elapsed true = pure (ended max_duration_exceeded)
  from_timeout ab_strategy elapsed false = from_analysis ab_strategy elapsed ab_strategy.analysis

  -- From the conclude annotation on.
  abbrev pub from_annotation : Rollout → AbStrategy → Bool → Run AbExperimentEvaluation
  from_annotation rollout ab_strategy true = pure (ended manual_conclusion)
  from_annotation rollout ab_strategy false = do
    elapsed ← elapsed_since (started_at rollout)
    max_duration ← limit_of ab_strategy.max_duration
    from_timeout ab_strategy elapsed (reached max_duration elapsed)

  abbrev pub evaluate_strategy : Rollout → Option AbStrategy → Run AbExperimentEvaluation
  evaluate_strategy rollout none = pure inconclusive
  evaluate_strategy rollout (some ab_strategy) =
      from_annotation rollout ab_strategy (has_conclude_annotation rollout)

  unfoldable pub evaluate_ab_experiment : Rollout → Run AbExperimentEvaluation
  evaluate_ab_experiment rollout = evaluate_strategy rollout rollout.spec.strategy.ab_testing
