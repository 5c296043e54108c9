-- ===== src/Examples/Reconciliations.antt =====
-- The theorems on a reconciliation, at samples.
use kulta.Prelude.{◌≡◌, ◌↔◌, refl, inl, true, false, none, some, [], ◌∷◌, All, and_then}
use kulta.Crd.{
  MetricConfig, Rollout, experimenting, default_status, default_advisor_config, AdvisorConfig,
  AdvisorLevel,
}
use kulta.Traffic.{calculate_traffic_weights}
use kulta.Kube.{value}
use kulta.Metrics.{evaluate_all_metrics}
use kulta.Metrics.Health.{HealthyRun, Healthy, evaluate_all_metrics-Healthy}
use kulta.Analysis.{evaluate_ab_experiment}
use kulta.Analysis.Conclusions.{JustifiedOutcome, evaluate_ab_experiment-Justified}
use kulta.Reconcile.{reconcile}
use kulta.Reconcile.Sends.{Sends, Any}
use kulta.Reconcile.AtMostOne.{reconcile-Sends}
use kulta.Reconcile.Guards.{asked, reconcile-Barred}
use kulta.Reconcile.Rollback.{after_failure, failed_status-weights}
use kulta.Advisors.{no_op, http, resolve_advisor}
use kulta.Advisors.Cached.{Transparent, resolve_advisor-Transparent}
use kulta.Examples.{plain_canary, rollout_of, at_first}
use kulta.Examples.Servers.{sample_context, shop_test}

abbrev error_metric : MetricConfig
error_metric = record {
  name = "error-rate";
  threshold = 5;
  interval = none;
  failure_threshold = none;
  min_sample_size = none;
}

evaluate_all_metrics-Healthy_example :
    HealthyRun (evaluate_all_metrics sample_context (error_metric ∷ []) "app" "canary" [])
    ↔ All (Healthy sample_context (λ query. value 3) "app" "canary") (error_metric ∷ [])
evaluate_all_metrics-Healthy_example =
    evaluate_all_metrics-Healthy sample_context (λ query. value 3) (error_metric ∷ []) "app"
      "canary" [] (λ log query. refl)

abbrev experiment : Rollout
experiment =
    let rollout =
      rollout_of plain_canary (some (record default_status { phase = some experimenting })) in
    record rollout {
      spec = record rollout.spec {
        strategy = record {
          simple = none;
          canary = none;
          blue_green = none;
          ab_testing = some shop_test;
        };
      };
    }

evaluate_ab_experiment-Justified_example :
    JustifiedOutcome sample_context [] experiment shop_test
      (evaluate_ab_experiment sample_context experiment [])
evaluate_ab_experiment-Justified_example =
    evaluate_ab_experiment-Justified sample_context experiment shop_test [] refl

reconcile-Sends_example :
    Sends sample_context
      (rollout_of plain_canary none)
      Any
      []
      (reconcile sample_context (some true) (rollout_of plain_canary none) [])
reconcile-Sends_example =
    reconcile-Sends sample_context (rollout_of plain_canary none) (some true) []

reconcile-Barred_example :
    asked (reconcile sample_context (some false) (rollout_of plain_canary none) []).1 ≡ asked []
reconcile-Barred_example =
    reconcile-Barred sample_context (rollout_of plain_canary none) (some false) [] (inl refl)

failed_status-weights_example :
    (calculate_traffic_weights (after_failure (rollout_of plain_canary (some at_first)) "" at_first)
      ≡ calculate_traffic_weights (rollout_of plain_canary (some at_first)))
    × (and_then
          (after_failure (rollout_of plain_canary (some at_first)) "" at_first).status
          (λ s. s.current_weight)
        ≡ at_first.current_weight)
failed_status-weights_example =
    failed_status-weights (rollout_of plain_canary (some at_first)) at_first "" refl

abbrev asking : AdvisorConfig
asking = record default_advisor_config { level = AdvisorLevel.advised; endpoint = some "http://a" }

resolve_advisor-Transparent_example :
    Transparent
      (resolve_advisor asking no_op none).0
      (resolve_advisor asking no_op (some ((("http://a", 10), http "http://a" 10) ∷ [])))
resolve_advisor-Transparent_example =
    resolve_advisor-Transparent asking no_op (some ((("http://a", 10), http "http://a" 10) ∷ []))
      (refl, tt)
