-- ===== src/Metrics.antt =====
-- controller/prometheus.rs: the queries, the reading of a response, and the test of the metrics
-- against their thresholds. The HTTP client, serde_json and the reading of a double are not part of
-- the repository.
pub mod Health
use Prim.Native.String.{◌++◌}
use kulta.Prelude.{
  String, Bool, true, false, Option, none, some, List, [], ◌∷◌, get_elem?, str_eq, if◌then◌else◌,
}
use kulta.Prelude.Int.{ℤ}
use kulta.Crd.{F64, MetricConfig}
use kulta.Experiment.{Doubles}
use kulta.Kube.{
  PrometheusError, http_error, invalid_query, parse_error, no_data, invalid_value, QueryResult,
  value, query_error,
}
use kulta.Kube.Run.{◌>>=◌, Run, pure, ask_query}
use kulta.Kube.Context.{Context}

abbrev pub labels_of : String → String → String
labels_of rollout_name revision =
    "rollout=\"" ++ rollout_name ++ "\",revision=\"" ++ revision ++ "\"}[2m])"

unfoldable pub build_error_rate_query : String → String → String
build_error_rate_query rollout_name revision =
    "sum(rate(http_requests_total{status=~\"5..\","
    ++ labels_of rollout_name revision
    ++ ") / sum(rate(http_requests_total{"
    ++ labels_of rollout_name revision
    ++ ") * 100"

unfoldable pub build_latency_p95_query : String → String → String
build_latency_p95_query rollout_name revision =
    "histogram_quantile(0.95, rate(http_request_duration_seconds_bucket{"
    ++ labels_of rollout_name revision
    ++ ")"

unfoldable pub build_ab_error_rate_query : String → String
build_ab_error_rate_query service_name =
    "sum(rate(http_requests_total{status=~\"5..\",service=\"" ++ service_name
    ++ "\"}[5m])) / sum(rate(http_requests_total{service=\"" ++ service_name ++ "\"}[5m]))"

unfoldable pub build_ab_sample_count_query : String → String
build_ab_sample_count_query service_name =
    "sum(increase(http_requests_total{service=\"" ++ service_name ++ "\"}[1h]))"

pub data HttpOutcome : Type 0 where
  not_sent unreadable : HttpOutcome
  body : String → HttpOutcome

-- A result is a timestamp and a value as text.
pub record PrometheusResponse : Type 0 where
  pub status : String
  pub result : List (ℤ × String)

module _ (from_str : String → Option PrometheusResponse) (parse_f64 : String → Option F64)
    (doubles : Doubles) where
  abbrev pub finite : Option F64 → QueryResult
  finite none = query_error parse_error
  finite (some v) =
      if doubles.is_nan v
      then query_error invalid_value
      else if doubles.is_infinite v
      then query_error invalid_value
      else value v

  abbrev pub first_value : Option (ℤ × String) → QueryResult
  first_value none = query_error no_data
  first_value (some (timestamp, text)) = finite (parse_f64 text)

  abbrev pub read_response : Option PrometheusResponse → QueryResult
  read_response none = query_error parse_error
  read_response (some response) =
      if str_eq response.status "success"
      then first_value (get_elem? response.result 0)
      else query_error http_error

  unfoldable pub parse_prometheus_instant_query : String → QueryResult
  parse_prometheus_instant_query json_response = read_response (from_str json_response)

  -- The outcome of the HTTP request: an error, a body that cannot be read, or a body.
  abbrev pub read_body : HttpOutcome → QueryResult
  read_body not_sent = query_error http_error
  read_body unreadable = query_error http_error
  read_body (body text) = parse_prometheus_instant_query text

  -- `HttpPrometheusClient`: the request goes to the client's address, whatever the status of the
  -- response.
  unfoldable pub query_instant : (String → String → HttpOutcome) → String → String → QueryResult
  query_instant get address query = read_body (get (address ++ "/api/v1/query") query)

-- `Result<bool, PrometheusError>`.
pub data Evaluated : Type 0 where
  evaluated : Bool → Evaluated
  failed_query : PrometheusError → Evaluated

-- The `match metric_name`.
unfoldable pub query_of : String → String → String → Option String
query_of metric_name rollout_name revision =
    if str_eq metric_name "error-rate"
    then some (build_error_rate_query rollout_name revision)
    else if str_eq metric_name "latency-p95"
    then some (build_latency_p95_query rollout_name revision)
    else none

module _ (ctx : Context) where
  open ctx use {server, doubles, as_i64}

  abbrev pub compare_value : F64 → QueryResult → Evaluated
  compare_value threshold (value v) = evaluated (doubles.lt v threshold)
  compare_value threshold (query_error e) = failed_query e

  abbrev pub evaluate_query : F64 → Option String → Run Evaluated
  evaluate_query threshold none = pure (failed_query invalid_query)
  evaluate_query threshold (some query) = do
    answer ← ask_query server query
    pure (compare_value threshold answer)

  unfoldable pub evaluate_metric : String → String → String → F64 → Run Evaluated
  evaluate_metric metric_name rollout_name revision threshold =
      evaluate_query threshold (query_of metric_name rollout_name revision)

  -- The rest of the loop, after one metric.
  abbrev pub go_on : Evaluated → Run Evaluated → Run Evaluated
  go_on (evaluated true) rest = rest
  go_on (evaluated false) rest = pure (evaluated false)
  go_on (failed_query e) rest = pure (failed_query e)

  unfoldable pub evaluate_all_metrics : List MetricConfig → String → String → Run Evaluated
  evaluate_all_metrics [] rollout_name revision = pure (evaluated true)
  evaluate_all_metrics (metric ∷ metrics) rollout_name revision = do
    is_healthy ← evaluate_metric metric.name rollout_name revision metric.threshold
    go_on is_healthy (evaluate_all_metrics metrics rollout_name revision)

  unfoldable pub query_ab_error_rate : String → Run QueryResult
  query_ab_error_rate service_name = ask_query server (build_ab_error_rate_query service_name)

  -- `Result<i64, PrometheusError>`, whose errors its only caller treats alike.
  abbrev pub as_count : QueryResult → Option ℤ
  as_count (value v) = some (as_i64 v)
  as_count (query_error e) = none

  unfoldable pub query_ab_sample_count : String → Run (Option ℤ)
  query_ab_sample_count service_name = do
    count ← ask_query server (build_ab_sample_count_query service_name)
    pure (as_count count)
