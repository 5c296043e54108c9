-- ===== src/Metrics/Health.antt =====
-- When the metrics of a rollout are healthy.
use kulta.Prelude.{
  ◌≡◌, refl, ap, sym, subst, ◌↔◌, String, true, false, Option, none, some, List, [], ◌∷◌, All,
}
use kulta.Crd.{F64, MetricConfig}
use kulta.Kube.{PrometheusError, QueryResult, value, query_error, query_instant, Log}
use kulta.Kube.Run.{Outcome, returned, Run, ◌>>=◌}
use kulta.Kube.Context.{Context}
use kulta.Metrics.{
  Evaluated, evaluated, failed_query, compare_value, evaluate_query, go_on, query_of,
  evaluate_metric, evaluate_all_metrics,
}

-- A Prometheus that gives each query the same answer while the metrics are read.
abbrev pub Steady : Context → (String → QueryResult) → Type 0
Steady ctx answers = (log : Log) (query : String) → ctx.server.queried log query ≡ answers query

abbrev pub HealthyRun : Outcome Evaluated × Log → Type 0
HealthyRun (outcome, log) = outcome ≡ returned (evaluated true)

module _ (ctx : Context) (answers : String → QueryResult) where
  open ctx use {doubles}

  -- The metric's name is known, and its query is answered by a value below the threshold.
  abbrev pub Healthy : String → String → MetricConfig → Type 0
  Healthy rollout_name revision metric =
      (query : String) × (v : F64) × (query_of metric.name rollout_name revision ≡ some query)
      × (answers query ≡ value v)
      × (doubles.lt v metric.threshold ≡ true)

  abbrev answer_of : F64 → Option String → Evaluated
  answer_of threshold none = failed_query PrometheusError.invalid_query
  answer_of threshold (some query) = compare_value ctx threshold (answers query)

  abbrev after : Option String → Log → Log
  after none log = log
  after (some query) log = query_instant query ∷ log

  step :
      (threshold : F64) (query : Option String) (rest : Run Evaluated) (log : Log)
      → Steady ctx answers
      → (evaluate_query ctx threshold query >>= λ r. go_on ctx r rest) log
        ≡ go_on ctx (answer_of threshold query) rest (after query log)
  step threshold none rest log steady = refl
  step threshold (some query) rest log steady =
      ap (λ r. go_on ctx (compare_value ctx threshold r) rest (query_instant query ∷ log))
        (steady log query)

  go_on-healthy :
      (r : Evaluated) (rest : Run Evaluated) (log : Log)
      → HealthyRun (go_on ctx r rest log) ↔ ((r ≡ evaluated true) × HealthyRun (rest log))
  go_on-healthy (evaluated true) rest log = (λ h. (refl, h), λ h. h.1)
  go_on-healthy (evaluated false) rest log = (λ h. absurd (cc h), λ h. absurd (cc h.0))
  go_on-healthy (failed_query e) rest log = (λ h. absurd (cc h), λ h. absurd (cc h.0))

  compare_value-true :
      (threshold : F64) (r : QueryResult)
      → (compare_value ctx threshold r ≡ evaluated true)
        ↔ ((v : F64) × (r ≡ value v) × (doubles.lt v threshold ≡ true))
  compare_value-true threshold (value v) =
      (λ h. (v, refl, cc), λ h. let (w, e, less) = h in cc (e, less))
  compare_value-true threshold (query_error e) =
      (λ h. absurd (cc h), λ h. let (w, e, less) = h in absurd (cc e))

  answer_of-Healthy :
      (rollout_name revision : String) (metric : MetricConfig) (query : Option String)
      → query_of metric.name rollout_name revision ≡ query
      → (answer_of metric.threshold query ≡ evaluated true) ↔ Healthy rollout_name revision metric
  answer_of-Healthy rollout_name revision metric none e =
      (λ h. absurd (cc h), λ h. let (query, v, q, a, less) = h in absurd (cc (e, q)))
  answer_of-Healthy rollout_name revision metric (some query) e =
      let compared = compare_value-true metric.threshold (answers query) in
      (
        λ h. let (v, a, less) = compared.0 h in (query, v, e, a, less),
        λ h.
            let (q, v, known, a, less) = h in
            let same : q ≡ query = cc (e, known) in compared.1 (v, cc (a, same), less),
      )

  -- Where Prometheus is steady, the metrics of a rollout are found healthy exactly if every one of
  -- them has a known name and a query that is answered by a value below its threshold.
  pub evaluate_all_metrics-Healthy :
      (metrics : List MetricConfig) (rollout_name revision : String) (log : Log)
      → Steady ctx answers
      → HealthyRun (evaluate_all_metrics ctx metrics rollout_name revision log)
        ↔ All (Healthy rollout_name revision) metrics
  unfolding evaluate_all_metrics evaluate_metric
  evaluate_all_metrics-Healthy [] rollout_name revision log steady = (λ h. tt, λ h. refl)
  evaluate_all_metrics-Healthy (metric ∷ metrics) rollout_name revision log steady =
      let query = query_of metric.name rollout_name revision in
      let rest = evaluate_all_metrics ctx metrics rollout_name revision in
      let first = answer_of-Healthy rollout_name revision metric query refl in
      let both = go_on-healthy (answer_of metric.threshold query) rest (after query log) in
      let others =
        evaluate_all_metrics-Healthy metrics rollout_name revision (after query log) steady in
      let e = step metric.threshold query rest log steady in
      (
        λ h. let (one, more) = both.0 (subst HealthyRun e h) in (first.0 one, others.0 more),
        λ h. let (one, more) = h in subst HealthyRun (sym e) (both.1 (first.1 one, others.1 more)),
      )
