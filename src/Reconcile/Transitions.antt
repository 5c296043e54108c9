-- ===== src/Reconcile/Transitions.antt =====
-- What a reconciliation may make of a rollout's status.
use kulta.Prelude.{◌≡◌, arith, true, false, Option, some, List, String, done}
use kulta.Prelude.Int.{ℤ}
use kulta.Crd.{Rollout, RolloutStatus, Phase, progressing, experimenting}
use kulta.Status.{is_progress_deadline_exceeded}
use kulta.Strategy.{select_strategy, supports_metrics_analysis, compute_next_status}
use kulta.Kube.{Log}
use kulta.Kube.Run.{returned}
use kulta.Kube.Context.{Context}
use kulta.Kube.Sent.{sent}
use kulta.Analysis.{AbExperimentEvaluation, evaluate_rollout_metrics, evaluate_ab_experiment}
use kulta.Reconcile.{unchanged}
use kulta.Reconcile.Stages.{in_phase, failed_status, start_of, rollback_message, concluded_status}
use kulta.Reconcile.Texts.{deadline_message}

pub in_phase-some : (p : Phase) (o : Option Phase) → in_phase p o ≡ true → o ≡ some p
in_phase-some p o h = ground arith

module _ (ctx : Context) where
  open ctx use {chrono, server, name_any, utc_now}
  open chrono use {DateTime, to_rfc3339}

  -- A status that may be sent where those of `before` have been, and what makes the controller send it. `ctx.now at_log` is what the
  -- clock shows after the requests of `at_log`.
  pub data Transition (rollout : Rollout) (before : List RolloutStatus)
      : RolloutStatus → Type 0 where
    rolled_back :
        (status : RolloutStatus) (log after : Log)
        → rollout.status ≡ some status
        → status.phase ≡ some progressing
        → supports_metrics_analysis (select_strategy rollout) ≡ true
        → evaluate_rollout_metrics ctx rollout log ≡ (returned false, after)
        → sent log ≡ before
        → Transition rollout before (failed_status rollback_message status)
    concluded :
        (status : RolloutStatus) (evaluation : AbExperimentEvaluation) (log after : Log)
        (asked at_log : Log) (started_at : String)
        → rollout.status ≡ some status
        → status.phase ≡ some experimenting
        → evaluate_ab_experiment ctx rollout log ≡ (returned evaluation, after)
        → evaluation.should_conclude ≡ true
        → start_of ctx status.ab_experiment asked ≡ (returned started_at, at_log)
        → sent log ≡ before
        → sent at_log ≡ before
        → Transition rollout before
            (concluded_status ctx status evaluation started_at (to_rfc3339 (ctx.now at_log)))
    overdue :
        (status : RolloutStatus) (deadline_seconds : ℤ) (at_log : Log)
        → rollout.status ≡ some status
        → rollout.spec.progress_deadline_seconds ≡ some deadline_seconds
        → is_progress_deadline_exceeded chrono status deadline_seconds (ctx.now at_log) ≡ true
        → sent at_log ≡ before
        → Transition rollout before (failed_status (deadline_message deadline_seconds) status)
    computed :
        (status : RolloutStatus) (at_log : Log)
        → compute_next_status chrono
            (select_strategy rollout)
            rollout
            (ctx.now at_log)
            (utc_now at_log)
          ≡ done status
        → unchanged ctx rollout status ≡ false
        → sent at_log ≡ before
        → Transition rollout before status
