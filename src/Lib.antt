-- ===== src/Lib.antt =====
-- Kulta, a Kubernetes controller for progressive delivery: the parts that decide what a rollout's
-- status, traffic and replicas should be.
--
-- The controller reconciles one custom resource, the Rollout. A reconciliation validates the
-- resource, picks a strategy handler, computes the next status from the old one, the annotations
-- and the present moment, splits the pods and the traffic by the status, and asks to be called
-- again after an interval. Any number of controllers may run; a lease says which one leads.
--
-- Crd (with Crd/Analysis, Crd/Strategy, Crd/Status and Crd/Spec) has the types of
-- src/crd/rollout.rs with their fields; names that begin with AB are spelled Ab. A pod template and
-- a selector keep what the controller reads of them. A double is its bit pattern.
--
-- Duration and Validation are src/controller/rollout/validation.rs: parse_duration and
-- validate_rollout, the checks in the order of the source. A duration is its seconds.
--
-- Replicas is the arithmetic of src/controller/rollout/replicaset.rs.
--
-- Clock is what the code uses of the crate chrono, a record of operations with the law that a
-- printed moment can be read back. src/controller/clock.rs only hands out the present moment, which
-- is an argument here.
--
-- Status is src/controller/rollout/status.rs, every function under its own name; where a function
-- of the source is long, the branches are functions named for what they do (enter, finish,
-- may_leave).
--
-- Traffic is src/controller/rollout/traffic.rs: the weights and the references of an HTTPRoute.
--
-- Strategy is src/controller/strategies: the choice of a handler and the handlers'
-- compute_next_status. ReplicaSets and Routes are what the handlers ask of the Kubernetes API, with
-- src/controller/rollout/replicaset.rs.
--
-- Conversion is src/crd/conversion.rs, between Crd.RolloutSpec (v1alpha1) and the specification of
-- src/crd/v1beta1.rs.
--
-- Leader is src/server/leader.rs. Leader/Api is what it uses of the Kubernetes Lease API, with the
-- optimistic locking of the API server as laws; an attempt to lead reads the lease in one state of
-- the server and writes it in a later one.
--
-- Experiment is src/controller/prometheus_ab.rs: the significance test of an A/B experiment, over a
-- record of operations on doubles, and the conclusion from the results.
--
-- Events is src/controller/cdevents.rs: which events a change of status calls for.
--
-- Status/Patch is how src/controller/rollout/reconcile.rs stores a computed status: a JSON merge
-- patch, without the fields that the serialization of src/crd/rollout.rs leaves out.
--
-- Kube is what a reconciliation asks of the world: one record answers every request from the log of
-- the requests so far. A Run carries the log, and returns, raises an error of the code or panics.
-- Kube/Context is the Context of src/controller/rollout/reconcile.rs with the operations of other
-- libraries.
--
-- Metrics is src/controller/prometheus.rs. Analysis is the end of
-- src/controller/rollout/reconcile.rs: evaluate_rollout_metrics and evaluate_ab_experiment.
--
-- Reconcile is the function reconcile of src/controller/rollout/reconcile.rs, stage by stage;
-- Reconcile/Stored and Reconcile/Changes follow the statuses that one reconciliation after the
-- other stores. A request to emit events or an occurrence stands for the call; Events/Build and
-- Occurrences are what the calls make of it (src/controller/cdevents.rs and
-- src/controller/occurrence.rs). Events/Delivery is the sink, and Occurrences/File the file of the
-- occurrences. Advisors is resolve_advisor of src/controller/advisor.rs, and Advisors/Service what
-- the advisors answer.
--
-- Webhook is the conversion of raw objects in src/server/webhook.rs, Webhook/Admission their
-- admission, and Webhook/Handlers the handlers of both.
--
-- Tls is src/server/tls.rs. Tls/Api is what it uses of the Kubernetes API and of other libraries;
-- an initialisation reads the Secret in one state of the cluster and does the rest in a later one.
--
-- Serving is src/server/health.rs, with Serving/Measures for src/server/metrics.rs, and Shutdown is
-- src/server/shutdown.rs. Process is src/main.rs: what a start leads to, from the environment and
-- the outcomes of the other libraries, what the process answers then, and how it stops.
--
-- Examples has sample rollouts and the theorems at them.
--
-- Numbers: an i32 is an integer, and every sum or difference that can overflow wraps, as in a
-- release build; `as usize` turns a negative index into one past every list. Panics are values of
-- the type Exec. A loop is a recursion on the list it walks; the only fuel is the 20 digits of
-- show_nat, which prints numbers below 10 ^ 20, more than a 64-bit number has, and the 16
-- hexadecimal digits of a 64-bit hash.
--
-- Not modelled: the HTTP servers and clients and the registry of the metrics, which are calls of
-- other libraries; the signal handlers; the reading and printing of JSON.
pub mod Prelude
pub mod Crd
pub mod Duration
pub mod Validation
pub mod Replicas
pub mod Clock
pub mod Status
pub mod Traffic
pub mod Strategy
pub mod Examples
pub mod Conversion
pub mod Leader
pub mod Experiment
pub mod Events
pub mod Kube
pub mod ReplicaSets
pub mod Routes
pub mod Metrics
pub mod Analysis
pub mod Reconcile
pub mod Occurrences
pub mod Advisors
pub mod Webhook
pub mod Tls
pub mod Serving
pub mod Shutdown
pub mod Process
