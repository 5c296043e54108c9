-- ===== src/Reconcile/Stages.antt =====
-- controller/rollout/reconcile.rs: the stages that may end a reconciliation early.
use kulta.Prelude.{
  ℕ, String, Bool, true, false, ◌&&◌, ◌||◌, Option, none, some, map, is_some, if◌then◌else◌,
}
use kulta.Prelude.Int.{ℤ}
use kulta.Crd.{
  Rollout, RolloutStatus, Phase, progressing, preview, experimenting, concluded, failed,
  AdvisorLevel, AbExperimentStatus, eq_option, eq_phase, Recommendation,
}
use kulta.Strategy.{Handler, name, supports_metrics_analysis}
use kulta.Status.{is_progress_deadline_exceeded}
use kulta.Kube.{send_status, emit_events, emit_occurrence, emit_advisor_occurrence, AnalysisContext}
use kulta.Kube.Run.{Run, pure, ◌>>=◌, ◌>>◌, ask, ask_advice, or_kube_error, tell}
use kulta.Kube.Context.{Context, ask_clock, recorded}
use kulta.Serving.Measures.{record_reconciliation_error}
use kulta.Analysis.{evaluate_rollout_metrics, evaluate_ab_experiment, AbExperimentEvaluation}
use kulta.Reconcile.Texts.{show_decision, show_conclusion, deadline_message}

abbrev pub in_phase : Phase → Option Phase → Bool
in_phase phase current = eq_option eq_phase current (some phase)

-- `failed_status` of the rollback and of the deadline.
abbrev pub failed_status : String → RolloutStatus → RolloutStatus
failed_status message current_status = record current_status {
  phase = some failed;
  message = some message;
}

abbrev pub rollback_message : String
rollback_message = "Rollback triggered: metrics exceeded thresholds"

abbrev pub consults_advisor : AdvisorLevel → Bool
consults_advisor AdvisorLevel.off = false
consults_advisor AdvisorLevel.context = false
consults_advisor AdvisorLevel.advised = true
consults_advisor AdvisorLevel.planned = true
consults_advisor AdvisorLevel.driven = true

-- A stage returns the interval with which it ends the reconciliation, if it does.
abbrev pub unless_ended : Run ℕ → Option ℕ → Run ℕ
unless_ended rest none = rest
unless_ended rest (some interval) = pure interval

abbrev pub ended_in_30 : Run (Option ℕ)
ended_in_30 = pure (some 30)

abbrev pub goes_on : Run (Option ℕ)
goes_on = pure none

module _ (ctx : Context) where
  open ctx use {server, chrono, doubles, name_any, to_json, utc_now}
  open chrono use {DateTime, to_rfc3339}

  -- The patch of the status, with `?`.
  abbrev pub store : Rollout → String → RolloutStatus → Run (Unit {0})
  store rollout namespace status =
      ask server (send_status namespace (name_any rollout.metadata) status) >>= or_kube_error

  -- A status that ends the reconciliation: the event, the occurrence, the patch.
  abbrev pub end_with :
      Rollout → String → Handler → Option Phase → Phase → RolloutStatus → Run (Option ℕ)
  end_with rollout namespace strategy old_phase new_phase status = do
    tell (emit_events rollout.status status)
    tell (emit_occurrence old_phase new_phase (name strategy))
    store rollout namespace status
    ended_in_30

  abbrev pub analysis_context : Rollout → String → Handler → RolloutStatus → Bool → AnalysisContext
  analysis_context rollout namespace strategy current_status is_healthy = record {
    rollout_name = name_any rollout.metadata;
    namespace = namespace;
    strategy = name strategy;
    current_step = current_status.current_step_index;
    current_weight = current_status.current_weight;
    metrics_healthy = is_healthy;
    phase = current_status.phase;
    history = map show_decision current_status.decisions;
  }

  -- An advisor that fails changes nothing.
  abbrev pub heed : Handler → Bool → Option Recommendation → Run (Unit {0})
  heed strategy is_healthy none = pure tt
  heed strategy is_healthy (some recommendation) =
      tell (emit_advisor_occurrence (name strategy) recommendation is_healthy)

  abbrev pub consult : Rollout → String → Handler → RolloutStatus → Bool → Run (Unit {0})
  consult rollout namespace strategy current_status is_healthy =
      if consults_advisor rollout.spec.advisor.level && is_some rollout.spec.advisor.endpoint
      then ask_advice server (analysis_context rollout namespace strategy current_status is_healthy)
        >>= heed strategy is_healthy
      else pure tt

  abbrev pub roll_back : Rollout → String → Handler → RolloutStatus → Bool → Run (Option ℕ)
  roll_back rollout namespace strategy current_status true = goes_on
  roll_back rollout namespace strategy current_status false =
      end_with rollout namespace strategy (some progressing) failed
        (failed_status rollback_message current_status)

  unfoldable pub analyse_metrics : Rollout → String → Handler → RolloutStatus → Run (Option ℕ)
  analyse_metrics rollout namespace strategy current_status = do
    is_healthy ← evaluate_rollout_metrics ctx rollout
    consult rollout namespace strategy current_status is_healthy
    roll_back rollout namespace strategy current_status is_healthy

  -- "Evaluate metrics and trigger rollback if unhealthy".
  abbrev pub metrics_stage : Rollout → String → Handler → Option RolloutStatus → Run (Option ℕ)
  metrics_stage rollout namespace strategy none = goes_on
  metrics_stage rollout namespace strategy (some current_status) =
      if supports_metrics_analysis strategy && in_phase progressing current_status.phase
      then analyse_metrics rollout namespace strategy current_status
      else goes_on

  -- `started_at`: the clock is read only if the status has no experiment.
  abbrev pub start_of : Option AbExperimentStatus → Run String
  start_of (some experiment) = pure experiment.started_at
  start_of none = do now ← ask_clock ctx; pure (to_rfc3339 now)

  abbrev pub concluded_status :
      RolloutStatus → AbExperimentEvaluation → String → String → RolloutStatus
  concluded_status current_status evaluation started_at concluded_at = record current_status {
    phase = some concluded;
    message = some (show_conclusion evaluation.reason);
    ab_experiment = some (record {
      started_at = started_at;
      concluded_at = some concluded_at;
      sample_size_a = evaluation.sample_size_a;
      sample_size_b = evaluation.sample_size_b;
      results = evaluation.results;
      winner = evaluation.winner;
      conclusion_reason = evaluation.reason;
    });
    last_decision_source = none;
  }

  abbrev pub conclude_with :
      Rollout → String → Handler → RolloutStatus → AbExperimentEvaluation → Run (Option ℕ)
  conclude_with rollout namespace strategy current_status evaluation = do
    started_at ← start_of current_status.ab_experiment
    now ← ask_clock ctx
    end_with rollout namespace strategy (some experimenting) concluded
        (concluded_status current_status evaluation started_at (to_rfc3339 now))

  abbrev pub conclude_experiment :
      Rollout → String → Handler → RolloutStatus → AbExperimentEvaluation → Run (Option ℕ)
  conclude_experiment rollout namespace strategy current_status evaluation =
      if evaluation.should_conclude
      then conclude_with rollout namespace strategy current_status evaluation
      else goes_on

  unfoldable pub judge_experiment : Rollout → String → Handler → RolloutStatus → Run (Option ℕ)
  judge_experiment rollout namespace strategy current_status = do
    evaluation ← evaluate_ab_experiment ctx rollout
    conclude_experiment rollout namespace strategy current_status evaluation

  -- "Evaluate A/B experiment for conclusion".
  abbrev pub experiment_stage : Rollout → String → Handler → Option RolloutStatus → Run (Option ℕ)
  experiment_stage rollout namespace strategy none = goes_on
  experiment_stage rollout namespace strategy (some current_status) =
      if is_some rollout.spec.strategy.ab_testing && in_phase experimenting current_status.phase
      then judge_experiment rollout namespace strategy current_status
      else goes_on

  -- The metrics of the failure, whose label is the name of the rollout.
  abbrev pub record_failure : Rollout → Run (Unit {0})
  record_failure rollout log =
      recorded ctx (record_reconciliation_error (name_any rollout.metadata) (ctx.elapsed log)) log

  abbrev pub give_up : Rollout → String → Handler → RolloutStatus → ℤ → Bool → Run (Option ℕ)
  give_up rollout namespace strategy current_status deadline_seconds false = goes_on
  give_up rollout namespace strategy current_status deadline_seconds true =
      end_with rollout namespace strategy current_status.phase failed
        (failed_status (deadline_message deadline_seconds) current_status)
      >>= λ ended. record_failure rollout >> pure ended

  unfoldable pub watch_deadline : Rollout → String → Handler → RolloutStatus → ℤ → Run (Option ℕ)
  watch_deadline rollout namespace strategy current_status deadline_seconds = do
    now ← ask_clock ctx
    give_up rollout namespace strategy current_status deadline_seconds
        (is_progress_deadline_exceeded chrono current_status deadline_seconds now)

  -- "Check progress deadline".
  abbrev pub deadline_stage :
      Rollout → String → Handler → Option ℤ → Option RolloutStatus → Run (Option ℕ)
  deadline_stage rollout namespace strategy none status = goes_on
  deadline_stage rollout namespace strategy (some deadline_seconds) none = goes_on
  deadline_stage rollout namespace strategy (some deadline_seconds) (some current_status) =
      if in_phase progressing current_status.phase || in_phase preview current_status.phase
      then watch_deadline rollout namespace strategy current_status deadline_seconds
      else goes_on
