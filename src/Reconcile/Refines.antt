-- ===== src/Reconcile/Refines.antt =====
-- The stages of a reconciliation, and the whole.
use kulta.Prelude.{
  ◌≡◌, refl, sym, ◌∙◌, inl, arith, Bool, true, false, ◌&&◌, ◌||◌, Option, none, some, ◌∷◌, String,
  is_some,
}
use kulta.Prelude.Int.{ℤ}
use kulta.Crd.{
  Rollout, RolloutStatus, Phase, progressing, preview, experimenting, failed, AbExperimentStatus,
  Recommendation,
}
use kulta.Status.{is_progress_deadline_exceeded}
use kulta.Strategy.{Handler, select_strategy, supports_metrics_analysis}
use kulta.Kube.{Log, read_clock, advise}
use kulta.Kube.Run.{returned, ◌>>=◌}
use kulta.Kube.Context.{Context, ask_clock}
use kulta.Kube.Sent.{Quiet, if-Quiet, recorded-sent, sent}
use kulta.Serving.Measures.{record_reconciliation_error}
use kulta.Reconcile.Texts.{deadline_message}
use kulta.Analysis.{AbExperimentEvaluation, evaluate_rollout_metrics, evaluate_ab_experiment}
use kulta.Reconcile.Stages.{
  end_with, goes_on, roll_back, heed, consult, consults_advisor, analysis_context, analyse_metrics,
  metrics_stage, start_of, conclude_experiment, judge_experiment, experiment_stage, give_up,
  watch_deadline, deadline_stage, in_phase, concluded_status, record_failure, failed_status,
}
use kulta.Reconcile.Evaluations.{evaluate_rollout_metrics-Quiet, evaluate_ab_experiment-Quiet}
use kulta.Reconcile.Transitions.{rolled_back, concluded, overdue, in_phase-some}
use kulta.Reconcile.Sends.{
  Sends, Ends, if-Sends, Quiet-Sends, end_with-Sends, tail-Sends, Quiet-after,
}

module _ (ctx : Context) (rollout : Rollout) (namespace : String) where
  open ctx use {chrono, server, name_any, utc_now, to_json}
  open chrono use {DateTime, to_rfc3339}

  both_true : (a b : Bool) → (a && b) ≡ true → (a ≡ true) × (b ≡ true)
  both_true a b h = ground arith

  pub start_of-Quiet : (start : Option AbExperimentStatus) → Quiet (start_of ctx start)
  start_of-Quiet none log = refl
  start_of-Quiet (some experiment) log = refl

  heed-Quiet :
      (strategy : Handler) (is_healthy : Bool) (r : Option Recommendation)
      → Quiet (heed ctx strategy is_healthy r)
  heed-Quiet strategy is_healthy none log = refl
  heed-Quiet strategy is_healthy (some recommendation) log = refl

  pub consult-Quiet :
      (strategy : Handler) (status : RolloutStatus) (is_healthy : Bool)
      → Quiet (consult ctx rollout namespace strategy status is_healthy)
  consult-Quiet strategy status is_healthy =
      if-Quiet
        (consults_advisor rollout.spec.advisor.level && is_some rollout.spec.advisor.endpoint) _ _
        (λ log.
          let request = analysis_context ctx rollout namespace strategy status is_healthy in
          heed-Quiet strategy is_healthy (server.advised log request) (advise request ∷ log))
        (λ log. refl)

  roll_back-Sends :
      (status : RolloutStatus) (is_healthy : Bool) (before between log : Log)
      → rollout.status ≡ some status
      → status.phase ≡ some progressing
      → supports_metrics_analysis (select_strategy rollout) ≡ true
      → evaluate_rollout_metrics ctx rollout before ≡ (returned is_healthy, between)
      → sent before ≡ sent log
      → Sends ctx rollout Ends log
          (roll_back ctx rollout namespace (select_strategy rollout) status is_healthy log)
  roll_back-Sends status true before between log s p m e same = inl refl
  roll_back-Sends status false before between log s p m e same =
      end_with-Sends ctx rollout namespace (select_strategy rollout) _ _ _ log
        (rolled_back status before between s p m e same)

  analyse_metrics-Sends :
      (status : RolloutStatus) (log : Log)
      → rollout.status ≡ some status
      → status.phase ≡ some progressing
      → supports_metrics_analysis (select_strategy rollout) ≡ true
      → Sends ctx rollout Ends log
          (analyse_metrics ctx rollout namespace (select_strategy rollout) status log)
  unfolding analyse_metrics
  analyse_metrics-Sends status log s p m =
      Quiet-Sends ctx rollout Ends (evaluate_rollout_metrics ctx rollout) _ log
        (evaluate_rollout_metrics-Quiet ctx rollout)
        (λ is_healthy between e.
          Quiet-Sends ctx rollout Ends
            (consult ctx rollout namespace (select_strategy rollout) status is_healthy) _ between
            (consult-Quiet (select_strategy rollout) status is_healthy)
            (λ u after c. roll_back-Sends status is_healthy log between after s p m e (
              sym (
                Quiet-after
                  (consult ctx rollout namespace (select_strategy rollout) status is_healthy)
                  between (consult-Quiet (select_strategy rollout) status is_healthy) c
                ∙ Quiet-after (evaluate_rollout_metrics ctx rollout) log
                    (evaluate_rollout_metrics-Quiet ctx rollout) e))))

  pub metrics_stage-Sends :
      (status : Option RolloutStatus) (log : Log)
      → rollout.status ≡ status
      → Sends ctx rollout Ends log
          (metrics_stage ctx rollout namespace (select_strategy rollout) status log)
  metrics_stage-Sends none log s = inl refl
  metrics_stage-Sends (some status) log s =
      if-Sends ctx rollout Ends
        (supports_metrics_analysis (select_strategy rollout) && in_phase progressing status.phase) _
        goes_on log
        (λ both.
          let (m, p) = both_true _ _ both in
          analyse_metrics-Sends status log s (in_phase-some progressing status.phase p) m)
        (λ skips. inl refl)

  concluded-Sends :
      (status : RolloutStatus) (evaluation : AbExperimentEvaluation) (before between log : Log)
      → rollout.status ≡ some status
      → status.phase ≡ some experimenting
      → evaluate_ab_experiment ctx rollout before ≡ (returned evaluation, between)
      → evaluation.should_conclude ≡ true
      → sent before ≡ sent log
      → Sends ctx rollout Ends log (
          (start_of ctx status.ab_experiment >>= λ started_at. ask_clock ctx >>= λ now.
          end_with ctx rollout namespace
            (select_strategy rollout)
            (some experimenting)
            Phase.concluded
            (concluded_status ctx status evaluation started_at (to_rfc3339 now)))
            log)
  concluded-Sends status evaluation before between log s p e c same =
      Quiet-Sends ctx rollout Ends (start_of ctx status.ab_experiment) _ log
        (start_of-Quiet status.ab_experiment)
        (λ started_at after f.
          end_with-Sends ctx rollout namespace (select_strategy rollout) _ _ _ (read_clock ∷ after)
            (concluded status evaluation before between log after started_at s p e c f
              (same
                ∙ sym (
                    Quiet-after (start_of ctx status.ab_experiment) log
                      (start_of-Quiet status.ab_experiment) f))
              refl))

  conclude_experiment-Sends :
      (status : RolloutStatus) (evaluation : AbExperimentEvaluation) (before between log : Log)
      → rollout.status ≡ some status
      → status.phase ≡ some experimenting
      → evaluate_ab_experiment ctx rollout before ≡ (returned evaluation, between)
      → sent before ≡ sent log
      → Sends ctx rollout Ends log (
          conclude_experiment ctx rollout namespace (select_strategy rollout) status evaluation log)
  conclude_experiment-Sends status evaluation before between log s p e same =
      if-Sends ctx rollout Ends evaluation.should_conclude _ goes_on log
        (λ does. concluded-Sends status evaluation before between log s p e does same)
        (λ skips. inl refl)

  judge_experiment-Sends :
      (status : RolloutStatus) (log : Log)
      → rollout.status ≡ some status
      → status.phase ≡ some experimenting
      → Sends ctx rollout Ends log
          (judge_experiment ctx rollout namespace (select_strategy rollout) status log)
  unfolding judge_experiment
  judge_experiment-Sends status log s p =
      Quiet-Sends ctx rollout Ends (evaluate_ab_experiment ctx rollout) _ log
        (evaluate_ab_experiment-Quiet ctx rollout)
        (λ evaluation after e. conclude_experiment-Sends status evaluation log after after s p e (
          sym (
            Quiet-after (evaluate_ab_experiment ctx rollout) log
              (evaluate_ab_experiment-Quiet ctx rollout) e)))

  pub experiment_stage-Sends :
      (status : Option RolloutStatus) (log : Log)
      → rollout.status ≡ status
      → Sends ctx rollout Ends log
          (experiment_stage ctx rollout namespace (select_strategy rollout) status log)
  experiment_stage-Sends none log s = inl refl
  experiment_stage-Sends (some status) log s =
      if-Sends ctx rollout Ends
        (is_some rollout.spec.strategy.ab_testing && in_phase experimenting status.phase) _ goes_on
        log
        (λ both.
          judge_experiment-Sends status log s
            (in_phase-some experimenting status.phase (both_true _ _ both).1))
        (λ skips. inl refl)

  give_up-Sends :
      (status : RolloutStatus) (deadline_seconds : ℤ) (at_log : Log) (late : Bool) (log : Log)
      → rollout.status ≡ some status
      → rollout.spec.progress_deadline_seconds ≡ some deadline_seconds
      → is_progress_deadline_exceeded chrono status deadline_seconds (ctx.now at_log) ≡ late
      → sent at_log ≡ sent log
      → Sends ctx rollout Ends log
          (give_up ctx rollout namespace (select_strategy rollout) status deadline_seconds late log)
  give_up-Sends status deadline_seconds at_log false log s d e same = inl refl
  give_up-Sends status deadline_seconds at_log true log s d e same =
      tail-Sends ctx rollout (record_failure ctx rollout)
        (end_with ctx rollout namespace (select_strategy rollout) status.phase failed
          (failed_status (deadline_message deadline_seconds) status))
        log
        (end_with-Sends ctx rollout namespace (select_strategy rollout) _ _ _ log
          (overdue status deadline_seconds at_log s d e same))
        (λ l.
          recorded-sent ctx
            (record_reconciliation_error (ctx.name_any rollout.metadata) (ctx.elapsed l)) l)

  watch_deadline-Sends :
      (status : RolloutStatus) (deadline_seconds : ℤ) (log : Log)
      → rollout.status ≡ some status
      → rollout.spec.progress_deadline_seconds ≡ some deadline_seconds
      → Sends ctx rollout Ends log (
          watch_deadline ctx rollout namespace
            (select_strategy rollout)
            status
            deadline_seconds
            log)
  unfolding watch_deadline
  watch_deadline-Sends status deadline_seconds log s d =
      give_up-Sends status deadline_seconds log
        (is_progress_deadline_exceeded chrono status deadline_seconds (ctx.now log))
        (read_clock ∷ log) s d refl refl

  pub deadline_stage-Sends :
      (deadline : Option ℤ) (status : Option RolloutStatus) (log : Log)
      → rollout.status ≡ status
      → rollout.spec.progress_deadline_seconds ≡ deadline
      → Sends ctx rollout Ends log
          (deadline_stage ctx rollout namespace (select_strategy rollout) deadline status log)
  deadline_stage-Sends none status log s d = inl refl
  deadline_stage-Sends (some deadline_seconds) none log s d = inl refl
  deadline_stage-Sends (some deadline_seconds) (some status) log s d =
      if-Sends ctx rollout Ends (in_phase progressing status.phase || in_phase preview status.phase)
        _ goes_on log (λ active. watch_deadline-Sends status deadline_seconds log s d)
        (λ skips. inl refl)
