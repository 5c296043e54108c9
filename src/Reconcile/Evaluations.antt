-- ===== src/Reconcile/Evaluations.antt =====
-- The evaluations send no status either.
use kulta.Prelude.{refl, ℕ, Bool, true, false, ◌||◌, Option, none, some, List, [], ◌∷◌, String}
use kulta.Prelude.Int.{ℤ, ltb_ℤ}
use kulta.Crd.{Rollout, MetricConfig, AnalysisConfig, AbStrategy, AbAnalysisConfig, F64}
use kulta.Duration.{parse_duration}
use kulta.Kube.{QueryResult, value, query_error, query_instant}
use kulta.Kube.Run.{Run}
use kulta.Kube.Context.{Context}
use kulta.Kube.Sent.{Quiet, bind-Quiet, of_exec-Quiet, if-Quiet}
use kulta.Metrics.{
  Evaluated, evaluated, failed_query, evaluate_query, go_on, query_of, evaluate_metric,
  evaluate_all_metrics, query_ab_error_rate, query_ab_sample_count, as_count,
  build_ab_error_rate_query, build_ab_sample_count_query,
}
use kulta.Analysis.{
  limit_of, warming_from, warming, step_start, or_failed, query_metrics, evaluate_config,
  evaluate_rollout_metrics, elapsed_since, started_at, judge_b, judge_a, judge_samples, count_b,
  count_a, from_counts, from_analysis, from_timeout, from_annotation, evaluate_strategy,
  evaluate_ab_experiment, min_samples, before, reached, has_conclude_annotation,
}

limit_of-Quiet : (duration : Option String) → Quiet (limit_of duration)
limit_of-Quiet none = λ log. refl
limit_of-Quiet (some duration_str) = of_exec-Quiet (parse_duration duration_str)

module _ (ctx : Context) where
  open ctx use {chrono, name_any, server}
  open chrono use {DateTime}

  evaluate_query-Quiet :
      (threshold : F64) (query : Option String) → Quiet (evaluate_query ctx threshold query)
  evaluate_query-Quiet threshold none = λ log. refl
  evaluate_query-Quiet threshold (some query) = λ log. refl

  go_on-Quiet : (rest : Run Evaluated) → Quiet rest → (r : Evaluated) → Quiet (go_on ctx r rest)
  go_on-Quiet rest h (evaluated true) = h
  go_on-Quiet rest h (evaluated false) = λ log. refl
  go_on-Quiet rest h (failed_query e) = λ log. refl

  evaluate_all_metrics-Quiet :
      (metrics : List MetricConfig) (rollout_name revision : String)
      → Quiet (evaluate_all_metrics ctx metrics rollout_name revision)
  unfolding evaluate_all_metrics evaluate_metric
  evaluate_all_metrics-Quiet [] rollout_name revision = λ log. refl
  evaluate_all_metrics-Quiet (metric ∷ metrics) rollout_name revision =
      let query = query_of metric.name rollout_name revision in
      let rest = evaluate_all_metrics ctx metrics rollout_name revision in
      bind-Quiet (evaluate_query ctx metric.threshold query) _
        (evaluate_query-Quiet metric.threshold query)
        (go_on-Quiet rest (evaluate_all_metrics-Quiet metrics rollout_name revision))

  or_failed-Quiet : (r : Evaluated) → Quiet (or_failed ctx r)
  or_failed-Quiet (evaluated is_healthy) log = refl
  or_failed-Quiet (failed_query e) log = refl

  query_metrics-Quiet :
      (rollout : Rollout) (c : AnalysisConfig) (in_warmup : Bool)
      → Quiet (query_metrics ctx rollout c in_warmup)
  query_metrics-Quiet rollout c true = λ log. refl
  query_metrics-Quiet rollout c false =
      bind-Quiet (evaluate_all_metrics ctx c.metrics (name_any rollout.metadata) "canary") _
        (evaluate_all_metrics-Quiet c.metrics (name_any rollout.metadata) "canary") or_failed-Quiet

  warming_from-Quiet : (limit : ℕ) (start : Option DateTime) → Quiet (warming_from ctx limit start)
  warming_from-Quiet limit none log = refl
  warming_from-Quiet limit (some start) log = refl

  warming-Quiet : (rollout : Rollout) (limit : Option ℕ) → Quiet (warming ctx rollout limit)
  warming-Quiet rollout none = λ log. refl
  warming-Quiet rollout (some limit) = warming_from-Quiet limit (step_start ctx rollout)

  evaluate_config-Quiet :
      (rollout : Rollout) (c : Option AnalysisConfig) → Quiet (evaluate_config ctx rollout c)
  evaluate_config-Quiet rollout none = λ log. refl
  evaluate_config-Quiet rollout (some c) =
      bind-Quiet (limit_of c.warmup_duration) _ (limit_of-Quiet c.warmup_duration) (λ limit.
        bind-Quiet (warming ctx rollout limit) _ (warming-Quiet rollout limit)
          (query_metrics-Quiet rollout c))

  pub evaluate_rollout_metrics-Quiet :
      (rollout : Rollout) → Quiet (evaluate_rollout_metrics ctx rollout)
  unfolding evaluate_rollout_metrics
  evaluate_rollout_metrics-Quiet rollout = evaluate_config-Quiet rollout _

  module _ (ab_strategy : AbStrategy) (c : AbAnalysisConfig) where
    judge_b-Quiet :
        (sample_a sample_b : ℤ) (rate_a : F64) (r : QueryResult)
        → Quiet (judge_b ctx c sample_a sample_b rate_a r)
    judge_b-Quiet sample_a sample_b rate_a (value rate_b) log = refl
    judge_b-Quiet sample_a sample_b rate_a (query_error e) log = refl

    judge_a-Quiet :
        (sample_a sample_b : ℤ) (r : QueryResult)
        → Quiet (judge_a ctx ab_strategy c sample_a sample_b r)
    unfolding query_ab_error_rate
    judge_a-Quiet sample_a sample_b (value rate_a) log =
        let query = build_ab_error_rate_query ab_strategy.variant_b_service in
        judge_b-Quiet sample_a sample_b rate_a (server.queried log query)
          (query_instant query ∷ log)
    judge_a-Quiet sample_a sample_b (query_error e) log = refl

    judge_samples-Quiet :
        (sample_a sample_b : ℤ) → Quiet (judge_samples ctx ab_strategy c sample_a sample_b)
    unfolding query_ab_error_rate
    judge_samples-Quiet sample_a sample_b =
        if-Quiet (ltb_ℤ sample_a (min_samples c) || ltb_ℤ sample_b (min_samples c)) _ _
          (λ log. refl)
          (λ log.
            let query = build_ab_error_rate_query ab_strategy.variant_a_service in
            judge_a-Quiet sample_a sample_b (server.queried log query) (query_instant query ∷ log))

    count_b-Quiet :
        (sample_a : ℤ) (count : Option ℤ) → Quiet (count_b ctx ab_strategy c sample_a count)
    count_b-Quiet sample_a none log = refl
    count_b-Quiet sample_a (some sample_b) log = judge_samples-Quiet sample_a sample_b log

    count_a-Quiet : (count : Option ℤ) → Quiet (count_a ctx ab_strategy c count)
    unfolding query_ab_sample_count
    count_a-Quiet none log = refl
    count_a-Quiet (some sample_a) log =
        let query = build_ab_sample_count_query ab_strategy.variant_b_service in
        count_b-Quiet sample_a (as_count ctx (server.queried log query)) (query_instant query ∷ log)

    from_counts-Quiet : (early : Bool) → Quiet (from_counts ctx ab_strategy c early)
    unfolding query_ab_sample_count
    from_counts-Quiet true log = refl
    from_counts-Quiet false log =
        let query = build_ab_sample_count_query ab_strategy.variant_a_service in
        count_a-Quiet (as_count ctx (server.queried log query)) (query_instant query ∷ log)

  from_analysis-Quiet :
      (ab_strategy : AbStrategy) (elapsed : Option ℤ) (c : Option AbAnalysisConfig)
      → Quiet (from_analysis ctx ab_strategy elapsed c)
  from_analysis-Quiet ab_strategy elapsed none = λ log. refl
  from_analysis-Quiet ab_strategy elapsed (some c) =
      bind-Quiet (limit_of c.min_duration) _ (limit_of-Quiet c.min_duration)
        (λ limit. from_counts-Quiet ab_strategy c (before limit elapsed))

  from_timeout-Quiet :
      (ab_strategy : AbStrategy) (elapsed : Option ℤ) (late : Bool)
      → Quiet (from_timeout ctx ab_strategy elapsed late)
  from_timeout-Quiet ab_strategy elapsed true = λ log. refl
  from_timeout-Quiet ab_strategy elapsed false =
      from_analysis-Quiet ab_strategy elapsed ab_strategy.analysis

  elapsed_since-Quiet : (start : Option DateTime) → Quiet (elapsed_since ctx start)
  elapsed_since-Quiet none log = refl
  elapsed_since-Quiet (some start) log = refl

  from_annotation-Quiet :
      (rollout : Rollout) (ab_strategy : AbStrategy) (annotated : Bool)
      → Quiet (from_annotation ctx rollout ab_strategy annotated)
  from_annotation-Quiet rollout ab_strategy true = λ log. refl
  from_annotation-Quiet rollout ab_strategy false =
      bind-Quiet (elapsed_since ctx (started_at ctx rollout)) _
        (elapsed_since-Quiet (started_at ctx rollout))
        (λ elapsed.
          bind-Quiet (limit_of ab_strategy.max_duration) _ (limit_of-Quiet ab_strategy.max_duration)
            (λ limit. from_timeout-Quiet ab_strategy elapsed (reached limit elapsed)))

  evaluate_strategy-Quiet :
      (rollout : Rollout) (ab_strategy : Option AbStrategy)
      → Quiet (evaluate_strategy ctx rollout ab_strategy)
  evaluate_strategy-Quiet rollout none = λ log. refl
  evaluate_strategy-Quiet rollout (some ab_strategy) =
      from_annotation-Quiet rollout ab_strategy (has_conclude_annotation rollout)

  pub evaluate_ab_experiment-Quiet :
      (rollout : Rollout) → Quiet (evaluate_ab_experiment ctx rollout)
  unfolding evaluate_ab_experiment
  evaluate_ab_experiment-Quiet rollout =
      evaluate_strategy-Quiet rollout rollout.spec.strategy.ab_testing
