-- ===== src/Process/Probes.antt =====
-- When the controller comes up, and whom it answers then.
use kulta.Prelude.{
  ◌≡◌, refl, sym, ap, subst, ◌∙◌, ◌↔◌, ◌⊎◌, inl, inr, String, Bool, true, false, some, Bool-cases,
}
use kulta.Serving.{Answer, Route, convert, bare, Encoded, route_of, answer}
use kulta.Tls.Api.{TlsLibraries, TlsApi}
use kulta.Tls.{Fallible, gave, failed}
use kulta.Process.{
  Process, Environment, running, health_port, webhook_port, is_webhook_tls_enabled, launch, secured,
  connected, tls_config, start, respond, probed, called,
}

module _ (libraries : TlsLibraries) (api : TlsApi libraries) where
  open libraries use {ServerConfig}
  open api use {State}

  module _ (env : Environment) (new_v4 : String) where
    -- The process that a start may lead to.
    abbrev pub launched : Bool → Process
    launched true = launch env new_v4 record { port = webhook_port; tls = true }
    launched false = launch env new_v4 record { port = health_port; tls = false }

    -- What a start needs.
    abbrev pub MayRun : Bool → Bool → State → State → Type 0
    MayRun has_metrics has_client read_at write_at =
        (has_metrics ≡ true)
        × (has_client ≡ true)
        × ((is_webhook_tls_enabled env ≡ false)
            ⊎ ((config : ServerConfig) × (tls_config libraries api env read_at write_at
                  ≡ gave config)))

    secured-running :
        (config : Fallible ServerConfig) (p : Process)
        → secured libraries api env new_v4 config ≡ running p
        → (c : ServerConfig) × (config ≡ gave c) × (p ≡ launched true)
    secured-running (gave config) p h = (config, refl, cc)
    secured-running (failed e) p h = cc

    connected-running :
        (read_at write_at : State) (p : Process)
        → connected libraries api env new_v4 read_at write_at ≡ running p
        → ((is_webhook_tls_enabled env ≡ false)
            ⊎ ((config : ServerConfig) × (tls_config libraries api env read_at write_at
                  ≡ gave config)))
          × (p ≡ launched (is_webhook_tls_enabled env))
    connected-running read_at write_at p h = elim (Bool-cases (is_webhook_tls_enabled env)) [
      | inl on ↦
          let (c, e, f) =
            secured-running (tls_config libraries api env read_at write_at) p (rw on at h) in
          (inr (c, e), f ∙ sym (ap launched on))
      | inr off ↦
          let same : running (launched false) ≡ running p = rw off at h in
          let p-launched : p ≡ launched false = cc same in
          (inl off, p-launched ∙ sym (ap launched off))
    ]

    pub start_needs :
        (has_metrics has_client : Bool) (read_at write_at : State) (p : Process)
        → start libraries api env new_v4 has_metrics has_client read_at write_at ≡ running p
        → MayRun has_metrics has_client read_at write_at
          × (p ≡ launched (is_webhook_tls_enabled env))
    unfolding start
    start_needs true true read_at write_at p h =
        let (why, e) = connected-running read_at write_at p h in ((refl, refl, why), e)
    start_needs true false read_at write_at p h = cc
    start_needs false has_client read_at write_at p h = cc

    connected_runs :
        (read_at write_at : State)
        → (is_webhook_tls_enabled env ≡ false)
          ⊎ ((config : ServerConfig) × (tls_config libraries api env read_at write_at
                ≡ gave config))
        → connected libraries api env new_v4 read_at write_at
          ≡ running (launched (is_webhook_tls_enabled env))
    connected_runs read_at write_at (inl off) = rw off refl
    connected_runs read_at write_at (inr (config, e)) =
        elim (Bool-cases (is_webhook_tls_enabled env)) [
          | inl on ↦ rw (on, e) refl
          | inr off ↦ rw off refl
        ]

    start_runs :
        (has_metrics has_client : Bool) (read_at write_at : State)
        → MayRun has_metrics has_client read_at write_at
        → start libraries api env new_v4 has_metrics has_client read_at write_at
          ≡ running (launched (is_webhook_tls_enabled env))
    unfolding start
    start_runs true true read_at write_at (m, c, why) = connected_runs read_at write_at why
    start_runs true false read_at write_at (m, c, why) = cc
    start_runs false has_client read_at write_at (m, c, why) = cc

    -- The controller runs exactly if its registry of metrics and its client can be made, and TLS is
    -- off or the certificates are there and make a configuration.
    start-running :
        (has_metrics has_client : Bool) (read_at write_at : State)
        → ((p : Process) × (start libraries api env new_v4 has_metrics has_client read_at write_at
              ≡ running p))
          ↔ MayRun has_metrics has_client read_at write_at
    start-running has_metrics has_client read_at write_at = (
      λ (p, e). (start_needs has_metrics has_client read_at write_at p e).0,
      λ why. (
        launched (is_webhook_tls_enabled env),
        start_runs has_metrics has_client read_at write_at why,
      ),
    )

    module _ (webhook : Route → Answer) (encoded : Encoded) where
      abbrev Heard : Process → Bool → Type 0
      Heard p on =
          ((probed webhook encoded p ≡ some (bare 200)) ↔ (on ≡ false))
          × ((called webhook encoded p ≡ some (webhook convert)) ↔ (on ≡ true))

      launched-Heard : (on : Bool) → Heard (launched on) on
      unfolding respond route_of answer
      launched-Heard true = ((λ e. cc, λ e. cc), (λ e. refl, λ e. refl))
      launched-Heard false = ((λ e. refl, λ e. refl), (λ e. cc, λ e. cc))

      -- A controller that runs answers the readiness probe, over HTTP at port 8080, exactly if TLS is
      -- off, and the conversion webhook, over HTTPS at port 8443, exactly if TLS is on.
      pub start-respond :
          (has_metrics has_client : Bool) (read_at write_at : State) (p : Process)
          → start libraries api env new_v4 has_metrics has_client read_at write_at ≡ running p
          → ((probed webhook encoded p ≡ some (bare 200)) ↔ (is_webhook_tls_enabled env ≡ false))
            × ((called webhook encoded p ≡ some (webhook convert))
                ↔ (is_webhook_tls_enabled env ≡ true))
      start-respond has_metrics has_client read_at write_at p e =
          subst (λ q. Heard q (is_webhook_tls_enabled env))
            (sym (start_needs has_metrics has_client read_at write_at p e).1)
            (launched-Heard (is_webhook_tls_enabled env))
