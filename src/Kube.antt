-- ===== src/Kube.antt =====
-- What a reconciliation asks of the world: the requests to the Kubernetes API, to Prometheus and to
-- the advisor, the events and the occurrences. The servers are not part of the repository: one record
-- answers each request, from what was requested before. A run keeps the log of its requests.
pub mod Run
pub mod Context
pub mod Sent
use kulta.Prelude.{String, Bool, Option, List}
use kulta.Prelude.Int.{ℤ}
use kulta.Crd.{F64, StringMap, LabelSelector, PodTemplateSpec, Phase, RolloutStatus, Recommendation}
use kulta.Leader.Api.{Response}
use kulta.Traffic.{HttpRouteRule}
use kulta.Serving.Measures.{Measurement}

-- `k8s_openapi::api::apps::v1::ReplicaSet`, the fields that the controller sets or reads.
pub record ReplicaSet : Type 0 where
  pub name : Option String
  pub namespace : Option String
  pub labels : Option StringMap
  pub replicas : Option ℤ
  pub selector : LabelSelector
  pub template : PodTemplateSpec

-- advisor.rs: the phase is kept as it is, not printed, and a decision of the history is its time and
-- action in one text.
pub record AnalysisContext : Type 0 where
  pub rollout_name : String
  pub namespace : String
  pub strategy : String
  pub current_step : Option ℤ
  pub current_weight : Option ℤ
  pub metrics_healthy : Bool
  pub phase : Option Phase
  pub history : List String

pub data PrometheusError : Type 0 where
  http_error invalid_query parse_error no_data invalid_value : PrometheusError

-- A namespaced request starts with its namespace and the object's name.
pub data Request : Type 0 where
  get_replicaset : String → String → Request
  scale_replicaset : String → String → ℤ → Request
  create_replicaset : String → ReplicaSet → Request
  -- A merge patch of `spec.rules`.
  patch_rules : String → String → List HttpRouteRule → Request
  -- A merge patch of `status`.
  send_status : String → String → RolloutStatus → Request
  -- A merge patch that takes the annotation `kulta.io/promote` away.
  remove_promote : String → String → Request
  query_instant : String → Request
  read_clock : Request
  advise : AnalysisContext → Request
  -- `emit_status_change_event` and `emit_occurrence`, which never stop a reconciliation.
  emit_events : Option RolloutStatus → RolloutStatus → Request
  emit_occurrence : Option Phase → Phase → String → Request
  emit_advisor_occurrence : String → Recommendation → Bool → Request
  -- A call on the registry of the controller's own metrics.
  measure : Measurement → Request

pub data QueryResult : Type 0 where
  value : F64 → QueryResult
  query_error : PrometheusError → QueryResult

abbrev pub Log : Type 0
Log = List Request

-- The answers, each from the log so far, the newest request first.
pub record Server : Type 0 where
  pub found : Log → String → String → Response ReplicaSet
  pub written : Log → Request → Response Unit
  pub queried : Log → String → QueryResult
  pub advised : Log → AnalysisContext → Option Recommendation
