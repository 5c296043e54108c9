-- ===== src/Examples/Processes.antt =====
-- The theorems on the process, at the environment of the deployment, and on the shutdown.
use kulta.Prelude.{
  ◌≡◌, refl, ◌↔◌, ◌⊎◌, true, false, none, some, [], ◌∷◌, ◌++◌, str_eq, if◌then◌else◌,
}
use kulta.Leader.{leads, error}
use kulta.Reconcile.{should_reconcile}
use kulta.Serving.{bare, text}
use kulta.Shutdown.{changed, dropped, wait, Returned, SomeStops, wait-Returned}
use kulta.Tls.{
  initialize_tls, load_from_secret, bundle_of, publish, ca_bundle_base64, build_rustls_config,
  made_ones, generate_certificate_bundle, generate_ca, generate_server_cert, service_names,
  save_to_secret,
}
use kulta.Process.{
  Process, Environment, running, attempt, start, tls_config, launch, context_leader, live,
  webhook_port, is_webhook_tls_enabled, is_leader_election_enabled, probed, called,
}
use kulta.Process.Probes.{start-respond}
use kulta.Process.Leading.{start-should_reconcile}
use kulta.Process.Attempts.{Accounts, attempt-Tally}
use kulta.Reconcile.{reconcile, should_reconcile}
use kulta.Kube.Sent.{seen}
use kulta.Examples.{rollout_of, plain_canary}
use kulta.Examples.Servers.{sample_context}
use kulta.Examples.Certificates.{plain, cluster, empty}

abbrev deployed : Environment
deployed name = if str_eq name "KULTA_WEBHOOK_TLS" then some "true" else none

abbrev up : Process
up = launch deployed "1" record { port = webhook_port; tls = true }

started : start plain cluster deployed "1" true true empty empty ≡ running up
unfolding start is_webhook_tls_enabled tls_config build_rustls_config made_ones initialize_tls
    load_from_secret bundle_of publish ca_bundle_base64 generate_certificate_bundle generate_ca
    generate_server_cert service_names save_to_secret
started = refl

start-respond_example :
    ((probed (λ route. bare 200) (text "") up ≡ some (bare 200))
      ↔ (is_webhook_tls_enabled deployed ≡ false))
    × ((called (λ route. bare 200) (text "") up ≡ some (bare 200))
        ↔ (is_webhook_tls_enabled deployed ≡ true))
start-respond_example =
    start-respond plain cluster deployed "1" (λ route. bare 200) (text "") true true empty empty up
      started

start-should_reconcile_example :
    (should_reconcile (context_leader (live up ((error ∷ []) ++ leads true ∷ []))) ≡ true)
    ↔ ((is_leader_election_enabled deployed ≡ false) ⊎ (leads true ≡ leads true))
start-should_reconcile_example =
    start-should_reconcile plain cluster deployed "1" true true empty empty up (error ∷ [])
      (leads true) started

wait-Returned_example :
    Returned (wait false (changed false ∷ dropped ∷ []))
    ↔ ((false ≡ true) ⊎ SomeStops (changed false ∷ dropped ∷ []))
wait-Returned_example = wait-Returned false (changed false ∷ dropped ∷ [])

attempt-Tally_example :
    Accounts
      (should_reconcile (some true))
      (seen [])
      (reconcile sample_context (some true) (rollout_of plain_canary none) [])
      (attempt sample_context (some true) (rollout_of plain_canary none) [])
attempt-Tally_example =
    attempt-Tally sample_context (rollout_of plain_canary none) refl (some true) []
