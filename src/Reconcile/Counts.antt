-- ===== src/Reconcile/Counts.antt =====
-- How often a reconciliation is counted in the controller's own metrics.
use kulta.Prelude.{
  ℕ, ◌≡◌, refl, sym, ap, subst, inl, inr, Bool, true, false, ◌||◌, Option, none, some, List, ◌∷◌,
  ◌++◌, String, if◌then◌else◌,
}
use kulta.Prelude.Int.{ℤ}
use kulta.Crd.{Rollout, RolloutStatus, progressing, preview, failed}
use kulta.Leader.Api.{Response, ok, api_error, failure}
use kulta.Status.{is_progress_deadline_exceeded, calculate_requeue_interval_from_rollout}
use kulta.Strategy.{Handler, name, select_strategy, phase_of}
use kulta.Kube.{Log, send_status, emit_events, emit_occurrence, read_clock}
use kulta.Kube.Run.{
  Outcome, returned, raised, panicked, pure, of_exec, ok_or, ◌>>=◌, or_kube_error,
  missing_namespace,
}
use kulta.Kube.Context.{Context, tell_all, recorded}
use kulta.Kube.Sent.{
  counted, seen, Keeps, bind-Keeps, if-Keeps, of_exec-Keeps, Quiet-counted, of_exec-Quiet,
  ok_or-Quiet,
}
use kulta.Serving.Measures.{
  Measurement, record_reconciliation_error, record_reconciliation_success,
  record_reconciliation_skipped,
}
use kulta.Reconcile.Stages.{
  ended_in_30, goes_on, metrics_stage, experiment_stage, give_up, watch_deadline, deadline_stage,
  in_phase, failed_status, record_failure, store,
}
use kulta.Reconcile.{
  desired_status, unchanged, tell_occurrence, drop_annotation, change_status, update_status,
  next_stage, status_stages, reconcile_in, reconcile, should_reconcile, or_valid, record_success,
  success_metrics, weight_gauge,
}
use kulta.Validation.{validate_rollout}
use kulta.ReplicaSets.{reconcile_replicasets}
use kulta.Routes.{reconcile_traffic}
use kulta.Reconcile.Quiet.{reconcile_replicasets-Quiet, reconcile_traffic-Quiet}
use kulta.Reconcile.AtMostOne.{
  drop_annotation-Quiet, tell_occurrence-Quiet, desired_status-Quiet, or_valid-Quiet,
}
use kulta.Reconcile.Texts.{deadline_message}
use kulta.Reconcile.Tally.{
  View, Tally, Staged, Finished, EndsRollout, Accounted, Counted, Quiet-Tally, Counted-bind,
  Counted-Finished, stage-Tally, if-Tally,
}
use kulta.Reconcile.Endings.{metrics_stage-Tally, experiment_stage-Tally}

module _ (ctx : Context) (rollout : Rollout) (namespace : String) where
  open ctx use {chrono, server, name_any, utc_now, to_json}
  open chrono use {DateTime, to_rfc3339}

  drop_annotation-counted : Keeps counted (drop_annotation ctx rollout namespace)
  drop_annotation-counted =
      Quiet-counted (drop_annotation ctx rollout namespace)
        (drop_annotation-Quiet ctx rollout namespace)

  answered-counted :
      (r : Response (Unit {0}))
      → Keeps counted (or_kube_error r >>= λ u. drop_annotation ctx rollout namespace)
  answered-counted (ok u) log = drop_annotation-counted log
  answered-counted (api_error code) log = refl
  answered-counted failure log = refl

  change_status-counted :
      (strategy : Handler) (desired : RolloutStatus)
      → Keeps counted (change_status ctx rollout namespace strategy desired)
  change_status-counted strategy desired log =
      let told = tell_occurrence ctx (phase_of rollout.status) desired.phase strategy in
      bind-Keeps counted told
        (λ u. store ctx rollout namespace desired >>= λ v. drop_annotation ctx rollout namespace)
        (Quiet-counted told (
          tell_occurrence-Quiet ctx rollout namespace (phase_of rollout.status) desired.phase
            strategy))
        (λ u l.
          let request = send_status namespace (name_any rollout.metadata) desired in
          answered-counted (server.written l request) (request ∷ l))
        (emit_events rollout.status desired ∷ log)

  update_status-counted :
      (strategy : Handler) (desired : RolloutStatus)
      → Keeps counted (update_status ctx rollout namespace strategy desired)
  unfolding update_status
  update_status-counted strategy desired =
      if-Keeps counted (unchanged ctx rollout desired) (pure tt)
        (change_status ctx rollout namespace strategy desired) (λ log. refl)
        (change_status-counted strategy desired)

  -- From here on there is a registry of metrics.
  module _ (has : ctx.has_metrics ≡ true) where
    recorded_all :
        (measurements : List Measurement) → recorded ctx measurements ≡ tell_all measurements
    recorded_all measurements = ap (λ b. if b then tell_all measurements else pure tt) has

    failure_ends :
        (v : View) (log : Log)
        → counted log ≡ v.1
        → EndsRollout v.0 log
        → Tally Staged v ((record_failure ctx rollout >>= λ u. ended_in_30) log)
    failure_ends v log c (status, e, p) =
        let measurements =
          record_reconciliation_error (name_any rollout.metadata) (ctx.elapsed log) in
        subst (λ m. Tally Staged v ((m >>= λ u. ended_in_30) log)) (sym (recorded_all measurements))
          (inr ((status, e, p), inr (ap (λ l. "error" ∷ l) c)))

    given_up :
        (v : View) (log : Log) (r : Response (Unit {0}))
        → counted log ≡ v.1
        → EndsRollout v.0 log
        → Tally Staged v (
            ((or_kube_error r >>= λ u. ended_in_30) >>= λ ended.
            record_failure ctx rollout >>= λ u. pure ended)
              log)
    given_up v log (ok u) c ends = failure_ends v log c ends
    given_up v log (api_error code) c ends = c
    given_up v log failure c ends = c

    give_up-Tally :
        (strategy : Handler) (status : RolloutStatus) (deadline_seconds : ℤ) (late : Bool)
        (log : Log)
        → Tally Staged
            (seen log)
            (give_up ctx rollout namespace strategy status deadline_seconds late log)
    give_up-Tally strategy status deadline_seconds false log = refl
    give_up-Tally strategy status deadline_seconds true log =
        let failing = failed_status (deadline_message deadline_seconds) status in
        let told =
          emit_occurrence status.phase failed (name strategy)
          ∷ emit_events rollout.status failing
          ∷ log in
        let request = send_status namespace (name_any rollout.metadata) failing in
        given_up (seen log) (request ∷ told) (server.written told request) refl
          (failing, refl, inl refl)

    deadline_stage-Tally :
        (strategy : Handler) (deadline : Option ℤ) (status : Option RolloutStatus) (log : Log)
        → Tally Staged
            (seen log)
            (deadline_stage ctx rollout namespace strategy deadline status log)
    unfolding watch_deadline
    deadline_stage-Tally strategy none status log = refl
    deadline_stage-Tally strategy (some deadline_seconds) none log = refl
    deadline_stage-Tally strategy (some deadline_seconds) (some status) log =
        if-Tally Staged (in_phase progressing status.phase || in_phase preview status.phase)
          (watch_deadline ctx rollout namespace strategy status deadline_seconds) goes_on log
          (give_up-Tally strategy status deadline_seconds
            (is_progress_deadline_exceeded chrono status deadline_seconds (ctx.now log))
            (read_clock ∷ log))
          refl

    measured :
        (strategy : Handler) (duration interval : ℕ) (weight : Option ℤ) (log : Log)
        → Tally Counted (seen log) (
            (tell_all (
                  record_reconciliation_success (name strategy) duration
                  ++ weight_gauge ctx rollout namespace weight)
                >>= λ u. pure interval)
              log)
    measured strategy duration interval none log = refl
    measured strategy duration interval (some weight) log = refl

    success-Counted :
        (strategy : Handler) (desired : RolloutStatus) (interval : ℕ) (log : Log)
        → Tally Counted
            (seen log)
            ((record_success ctx rollout namespace strategy desired >>= λ u. pure interval) log)
    success-Counted strategy desired interval log =
        let measurements =
          success_metrics ctx rollout namespace strategy desired (ctx.elapsed log) in
        subst (λ m. Tally Counted (seen log) ((m >>= λ u. pure interval) log))
          (sym (recorded_all measurements))
          (measured strategy (ctx.elapsed log) interval desired.current_weight log)

    next_stage-Tally :
        (log : Log)
        → Tally Finished (seen log) (next_stage ctx rollout namespace (select_strategy rollout) log)
    unfolding next_stage
    next_stage-Tally log =
        let strategy = select_strategy rollout in
        Quiet-Tally Finished _ (desired_status ctx rollout strategy) log
          (desired_status-Quiet ctx rollout namespace)
          (λ desired l. Counted-Finished (seen l) _ (
            Counted-bind _ (update_status ctx rollout namespace strategy desired) l
              (update_status-counted strategy desired)
              (λ u k.
                Counted-bind
                  (λ interval.
                    record_success ctx rollout namespace strategy desired >>= λ u. pure interval)
                  (of_exec
                    (calculate_requeue_interval_from_rollout chrono rollout desired (ctx.now k)))
                  (read_clock ∷ k)
                  (of_exec-Keeps counted
                    (calculate_requeue_interval_from_rollout chrono rollout desired (ctx.now k)))
                  (λ interval j. success-Counted strategy desired interval j))))

    status_stages-Tally :
        (log : Log)
        → Tally Finished
            (seen log)
            (status_stages ctx rollout namespace (select_strategy rollout) log)
    unfolding status_stages
    status_stages-Tally log =
        let strategy = select_strategy rollout in
        stage-Tally _
          (λ l.
            stage-Tally _
              (λ k.
                stage-Tally _ next_stage-Tally
                  (deadline_stage ctx rollout namespace strategy
                    rollout.spec.progress_deadline_seconds rollout.status)
                  k
                  (deadline_stage-Tally strategy rollout.spec.progress_deadline_seconds
                    rollout.status k))
              (experiment_stage ctx rollout namespace strategy rollout.status) l
              (experiment_stage-Tally ctx rollout namespace strategy rollout.status l))
          (metrics_stage ctx rollout namespace strategy rollout.status) log
          (metrics_stage-Tally ctx rollout namespace strategy rollout.status log)

    reconcile_in-Tally :
        (log : Log) → Tally Finished (seen log) (reconcile_in ctx rollout namespace log)
    reconcile_in-Tally log =
        let replicasets = reconcile_replicasets to_json server (select_strategy rollout) rollout in
        let traffic = reconcile_traffic server (select_strategy rollout) rollout in
        Quiet-Tally Finished _ (of_exec (validate_rollout rollout)) log
          (of_exec-Quiet (validate_rollout rollout))
          (λ verdict l.
            Quiet-Tally Finished _ (or_valid verdict) l
              (or_valid-Quiet ctx rollout namespace verdict)
              (λ u l.
                Quiet-Tally Finished _ replicasets l
                  (reconcile_replicasets-Quiet to_json server (select_strategy rollout) rollout)
                  (λ u l.
                    Quiet-Tally Finished _ traffic l
                      (reconcile_traffic-Quiet server (select_strategy rollout) rollout)
                      (λ u l. status_stages-Tally l))))

module _ (ctx : Context) (rollout : Rollout) (has : ctx.has_metrics ≡ true) where
  skipped-Tally :
      (log : Log)
      → Tally
          (Accounted false)
          (seen log)
          ((recorded ctx record_reconciliation_skipped >>= λ u. pure {A = ℕ} 5) log)
  skipped-Tally log =
      subst (λ m. Tally (Accounted false) (seen log) ((m >>= λ u. pure {A = ℕ} 5) log))
        (sym (ap (λ b. if b then tell_all record_reconciliation_skipped else pure tt) has)) refl

  guarded-Tally :
      (leads : Bool) (log : Log)
      → Tally (Accounted leads) (seen log) (
          (if leads
              then ok_or rollout.metadata.namespace missing_namespace >>= reconcile_in ctx rollout
              else recorded ctx record_reconciliation_skipped >>= λ u. pure 5)
            log)
  guarded-Tally true log =
      Quiet-Tally (Accounted true) (reconcile_in ctx rollout)
        (ok_or rollout.metadata.namespace missing_namespace) log
        (ok_or-Quiet rollout.metadata.namespace missing_namespace)
        (λ namespace l. as_accounted (seen l) _ (reconcile_in-Tally ctx rollout namespace has l))
    where
      as_accounted :
          (v : View) (o : Outcome ℕ × Log) → Tally Finished v o → Tally (Accounted true) v o
      as_accounted v (returned interval, after) h = h
      as_accounted v (raised e, after) h = h
      as_accounted v (panicked, after) h = h
  guarded-Tally false log = skipped-Tally log

  pub reconcile-Tally :
      (leader_state : Option Bool) (log : Log)
      → Tally
          (Accounted (should_reconcile leader_state))
          (seen log)
          (reconcile ctx leader_state rollout log)
  unfolding reconcile
  reconcile-Tally leader_state log = guarded-Tally (should_reconcile leader_state) log
