-- ===== src/Reconcile/Endings.antt =====
-- The stages that end a reconciliation early, and do not count it.
use kulta.Prelude.{
  ◌≡◌, refl, ◌⊎◌, inl, inr, Bool, true, false, ◌&&◌, Option, none, some, ◌∷◌, String, is_some,
}
use kulta.Crd.{Rollout, RolloutStatus, Phase, progressing, experimenting, failed}
use kulta.Leader.Api.{Response, ok, api_error, failure}
use kulta.Strategy.{Handler, name, supports_metrics_analysis}
use kulta.Kube.{Log, send_status, emit_events, emit_occurrence, read_clock}
use kulta.Kube.Run.{◌>>=◌, or_kube_error}
use kulta.Kube.Context.{Context}
use kulta.Kube.Sent.{sent, counted, seen}
use kulta.Reconcile.Stages.{
  end_with, ended_in_30, goes_on, roll_back, consult, analyse_metrics, metrics_stage, start_of,
  conclude_with, judge_experiment, experiment_stage, in_phase, concluded_status, failed_status,
  rollback_message,
}
use kulta.Analysis.{evaluate_rollout_metrics, evaluate_ab_experiment}
use kulta.Reconcile.Evaluations.{evaluate_rollout_metrics-Quiet, evaluate_ab_experiment-Quiet}
use kulta.Reconcile.Refines.{start_of-Quiet, consult-Quiet}
use kulta.Reconcile.Tally.{View, Tally, Staged, Quiet-Tally, if-Tally}

module _ (ctx : Context) (rollout : Rollout) (namespace : String) where
  open ctx use {chrono, server, name_any, utc_now, to_json}
  open chrono use {DateTime, to_rfc3339}

  answered-Tally :
      (status : RolloutStatus) (v : View) (log : Log) (r : Response (Unit {0}))
      → (status.phase ≡ some failed) ⊎ (status.phase ≡ some Phase.concluded)
      → sent log ≡ status ∷ v.0
      → counted log ≡ v.1
      → Tally Staged v ((or_kube_error r >>= λ u. ended_in_30) log)
  answered-Tally status v log (ok u) p s c = inr ((status, s, p), inl c)
  answered-Tally status v log (api_error code) p s c = c
  answered-Tally status v log failure p s c = c

  end_with-Tally :
      (strategy : Handler) (old : Option Phase) (new : Phase) (status : RolloutStatus) (log : Log)
      → (status.phase ≡ some failed) ⊎ (status.phase ≡ some Phase.concluded)
      → Tally Staged (seen log) (end_with ctx rollout namespace strategy old new status log)
  end_with-Tally strategy old new status log p =
      let told =
        emit_occurrence old new (name strategy) ∷ emit_events rollout.status status ∷ log in
      let request = send_status namespace (name_any rollout.metadata) status in
      answered-Tally status (seen log) (request ∷ told) (server.written told request) p refl refl

  roll_back-Tally :
      (strategy : Handler) (status : RolloutStatus) (is_healthy : Bool) (log : Log)
      → Tally Staged (seen log) (roll_back ctx rollout namespace strategy status is_healthy log)
  roll_back-Tally strategy status true log = refl
  roll_back-Tally strategy status false log =
      end_with-Tally strategy (some progressing) failed (failed_status rollback_message status) log
        (inl refl)

  pub metrics_stage-Tally :
      (strategy : Handler) (status : Option RolloutStatus) (log : Log)
      → Tally Staged (seen log) (metrics_stage ctx rollout namespace strategy status log)
  unfolding analyse_metrics
  metrics_stage-Tally strategy none log = refl
  metrics_stage-Tally strategy (some status) log =
      if-Tally Staged (supports_metrics_analysis strategy && in_phase progressing status.phase)
        (analyse_metrics ctx rollout namespace strategy status) goes_on log
        (Quiet-Tally Staged _ (evaluate_rollout_metrics ctx rollout) log
          (evaluate_rollout_metrics-Quiet ctx rollout)
          (λ is_healthy l.
            Quiet-Tally Staged _ (consult ctx rollout namespace strategy status is_healthy) l
              (consult-Quiet ctx rollout namespace strategy status is_healthy)
              (λ u k. roll_back-Tally strategy status is_healthy k)))
        refl

  pub experiment_stage-Tally :
      (strategy : Handler) (status : Option RolloutStatus) (log : Log)
      → Tally Staged (seen log) (experiment_stage ctx rollout namespace strategy status log)
  unfolding judge_experiment
  experiment_stage-Tally strategy none log = refl
  experiment_stage-Tally strategy (some status) log =
      if-Tally Staged
        (is_some rollout.spec.strategy.ab_testing && in_phase experimenting status.phase)
        (judge_experiment ctx rollout namespace strategy status) goes_on log
        (Quiet-Tally Staged _ (evaluate_ab_experiment ctx rollout) log
          (evaluate_ab_experiment-Quiet ctx rollout)
          (λ evaluation l.
            if-Tally Staged evaluation.should_conclude
              (conclude_with ctx rollout namespace strategy status evaluation) goes_on l
              (Quiet-Tally Staged _ (start_of ctx status.ab_experiment) l
                (start_of-Quiet ctx rollout namespace status.ab_experiment)
                (λ started_at k.
                  end_with-Tally strategy (some experimenting) Phase.concluded
                    (concluded_status ctx status evaluation started_at (to_rfc3339 (ctx.now k)))
                    (read_clock ∷ k) (inr refl)))
              refl))
        refl
