-- ===== src/Process.antt =====
-- main.rs: how the controller starts, what it serves while it runs, and how it stops.
pub mod Probes
pub mod Leading
pub mod Attempts
use kulta.Prelude.{
  ℕ, String, Bool, true, false, not, ◌||◌, ◌&&◌, Option, none, some, List, [], is_some, unwrap_or,
  is_empty, str_eq, ◌==◌, if◌then◌else◌,
}
use kulta.Crd.{Rollout}
use kulta.Kube.{Log}
use kulta.Kube.Run.{Run, returned, raised, panicked, pure, ◌>>=◌, Outcome as RunOutcome}
use kulta.Kube.Context.{Context, tell_all}
use kulta.Reconcile.{reconcile}
use kulta.Serving.{
  ReadinessState, new, set_ready, set_not_ready, Answer, Encoded, Method, get, post, route_of,
  answer, Route,
}
use kulta.Serving.Measures.{Measurement, record_reconciliation_error}
use kulta.Leader.{LeaderConfig, Outcome, from_env, run_leader_election}
use kulta.Tls.{
  Fallible, gave, failed, ◌then◌, initialize_tls, build_rustls_config, default_tls_secret_name,
}
use kulta.Tls.Api.{TlsLibraries, TlsApi}

abbrev pub health_port : ℕ
health_port = 8080

abbrev pub webhook_port : ℕ
webhook_port = 8443

-- `std::env::var`.
abbrev pub Environment : Type 0
Environment = String → Option String

abbrev pub is_on : Option String → Bool
is_on none = false
is_on (some v) = str_eq v "true" || str_eq v "1"

unfoldable pub is_leader_election_enabled : Environment → Bool
is_leader_election_enabled env = is_on (env "KULTA_LEADER_ELECTION")

unfoldable pub is_webhook_tls_enabled : Environment → Bool
is_webhook_tls_enabled env = is_on (env "KULTA_WEBHOOK_TLS")

abbrev pub get_webhook_service_name : Environment → String
get_webhook_service_name env = unwrap_or (env "KULTA_SERVICE_NAME") "kulta-controller"

abbrev pub get_controller_namespace : Environment → String
get_controller_namespace env = unwrap_or (env "KULTA_NAMESPACE") "kulta-system"

-- The label of the strategy in the metrics of an error.
unfoldable pub error_label : Rollout → String
error_label rollout =
    if is_some rollout.spec.strategy.simple
    then "simple"
    else if is_some rollout.spec.strategy.blue_green
    then "blue_green"
    else "canary"

-- What is measured, and the seconds until the next attempt. A double is its bit pattern: zero is 0.
unfoldable pub error_policy : Rollout → Bool → List Measurement × ℕ
error_policy rollout has_metrics =
    (if has_metrics then record_reconciliation_error (error_label rollout) 0 else [], 10)

-- What kube's Controller does with a result of `reconcile`: it goes by the interval, and hands an
-- error to the policy.
module _ (ctx : Context) where
  abbrev handle : Rollout → RunOutcome ℕ × Log → RunOutcome ℕ × Log
  handle rollout (returned interval, log) = (returned interval, log)
  handle rollout (raised e, log) =
      let (measurements, interval) = error_policy rollout ctx.has_metrics in
      (tell_all measurements >>= λ u. pure interval) log
  handle rollout (panicked, log) = (panicked, log)

  unfoldable pub attempt : Option Bool → Rollout → Run ℕ
  attempt leader_state rollout log = handle rollout (reconcile ctx leader_state rollout log)

-- The address that Prometheus is asked at.
unfoldable pub prometheus_address : Environment → String
prometheus_address env =
    let address = unwrap_or (env "KULTA_PROMETHEUS_ADDRESS") "" in
    if is_empty address then "http://localhost:9090" else address

-- A server listens on one port, with TLS or without. The port is taken to be free.
pub record Listener : Type 0 where
  pub port : ℕ
  pub tls : Bool

-- A process that runs. `elector` is the task of the leader election, `leader_state` what
-- `LeaderState` says, and `has_leader_state` whether the context of the reconciliations has it.
pub record Process : Type 0 where
  pub readiness : ReadinessState
  pub leader_state : Bool
  pub elector : Option LeaderConfig
  pub has_leader_state : Bool
  pub listener : Option Listener
  pub shutdown : Bool

-- `Context::new` or `Context::new_with_leader`: what a reconciliation sees of the leader state.
unfoldable pub context_leader : Process → Option Bool
context_leader p = if p.has_leader_state then some p.leader_state else none

-- The attempts of the elector, if there is one.
abbrev pub elect : Option LeaderConfig → Bool → List Outcome → Bool
elect none leader outcomes = leader
elect (some config) leader outcomes = run_leader_election leader outcomes

unfoldable pub live : Process → List Outcome → Process
live p outcomes = record p { leader_state = elect p.elector p.leader_state outcomes }

-- The end of `main`: the signal makes the process not ready, the end of the stream does not. Every
-- task is aborted.
unfoldable pub stop : Process → Bool → Process
stop p by_signal = record p {
  readiness = if by_signal then set_not_ready p.readiness else p.readiness;
  elector = none;
  listener = none;
  shutdown = true;
}

-- HTTPS by TLS, HTTP without.
abbrev same_mode : Bool → Bool → Bool
same_mode true tls = tls
same_mode false tls = not tls

-- An answer over HTTP or HTTPS, from a port; nothing where no server listens, or not so.
abbrev pub hears : Option Listener → ℕ → Bool → Bool
hears none port tls = false
hears (some listener) port tls = (listener.port == port) && same_mode listener.tls tls

module _ (webhook : Route → Answer) where
  unfoldable pub respond : Process → Encoded → ℕ → Bool → Method → String → Option Answer
  respond p encoded port tls method path =
      if hears p.listener port tls
      then some (answer webhook p.readiness encoded (route_of path) method)
      else none

  module _ (encoded : Encoded) where
    -- The readiness probe of the deployment, and a call of the conversion webhook.
    abbrev pub probed : Process → Option Answer
    probed p = respond p encoded health_port false get "/readyz"

    abbrev pub called : Process → Option Answer
    called p = respond p encoded webhook_port true post "/convert"

pub data Started : Type 0 where
  -- The registry of the metrics could not be made.
  crashed : Started
  -- No client for Kubernetes, or no certificates.
  refused : Started
  running : Process → Started

abbrev pub launch : Environment → String → Listener → Process
launch env new_v4 listener = record {
  readiness = set_ready new;
  leader_state = if is_leader_election_enabled env then false else true;
  elector = if is_leader_election_enabled env then some (from_env env new_v4) else none;
  has_leader_state = is_leader_election_enabled env;
  listener = some listener;
  shutdown = false;
}

module _ (libraries : TlsLibraries) (api : TlsApi libraries) where
  open libraries use {ServerConfig}
  open api use {State}

  -- The certificates, and the configuration of the server from them.
  unfoldable pub tls_config : Environment → State → State → Fallible ServerConfig
  tls_config env read_at write_at =
      (initialize_tls libraries api (get_webhook_service_name env) (get_controller_namespace env)
          default_tls_secret_name read_at write_at
        then λ bundle s. (build_rustls_config libraries bundle, s)).0

  abbrev pub secured : Environment → String → Fallible ServerConfig → Started
  secured env new_v4 (gave config) =
      running (launch env new_v4 record { port = webhook_port; tls = true })
  secured env new_v4 (failed e) = refused

  abbrev pub connected : Environment → String → State → State → Started
  connected env new_v4 read_at write_at =
      if is_webhook_tls_enabled env
      then secured env new_v4 (tls_config env read_at write_at)
      else running (launch env new_v4 record { port = health_port; tls = false })

  -- Whether the metrics and the client can be made is up to other libraries.
  unfoldable pub start : Environment → String → Bool → Bool → State → State → Started
  start env new_v4 has_metrics has_client read_at write_at =
      if has_metrics
      then if has_client then connected env new_v4 read_at write_at else refused
      else crashed
