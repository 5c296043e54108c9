-- ===== src/Reconcile/AtMostOne.antt =====
-- A whole reconciliation sends one status at most, and one that does not lead asks nothing.
use kulta.Prelude.{
  ◌≡◌, refl, sym, subst, inl, Bool, false, ◌&&◌, Option, none, some, ◌∷◌, String, Exec, done, panic,
}
use kulta.Crd.{Rollout, RolloutStatus, Phase}
use kulta.Validation.{Verdict, valid, invalid, validate_rollout}
use kulta.Status.{has_promote_annotation, is_paused, calculate_requeue_interval_from_rollout}
use kulta.Strategy.{Handler, select_strategy, compute_next_status, phase_of}
use kulta.Kube.{Log, send_status, emit_events, read_clock}
use kulta.Kube.Run.{returned, pure, of_exec, ok_or, missing_namespace, ◌>>=◌}
use kulta.Kube.Context.{Context, ask_clock, recorded}
use kulta.Serving.Measures.{record_reconciliation_skipped}
use kulta.Kube.Sent.{
  sent, Keeps, Quiet-sent, bind-Keeps, of_exec-Keeps, recorded-sent, Quiet, of_exec-Quiet,
  ok_or-Quiet, if-Quiet,
}
use kulta.ReplicaSets.{reconcile_replicasets}
use kulta.Routes.{reconcile_traffic}
use kulta.Reconcile.{
  record_success, success_metrics, desired_status, unchanged, tell_occurrence, drop_annotation,
  change_status, update_status, next_stage, status_stages, reconcile_in, reconcile, or_valid,
  should_reconcile,
}
use kulta.Reconcile.Stages.{metrics_stage, experiment_stage, deadline_stage}
use kulta.Reconcile.Quiet.{reconcile_replicasets-Quiet, reconcile_traffic-Quiet}
use kulta.Reconcile.Transitions.{Transition, computed}
use kulta.Reconcile.Sends.{
  Sends, Any, if-Sends, Quiet-Sends, then-Sends, stage-Sends, stored-next, Quiet-after,
}
use kulta.Reconcile.Refines.{metrics_stage-Sends, experiment_stage-Sends, deadline_stage-Sends}

module _ (ctx : Context) (rollout : Rollout) where
  open ctx use {chrono, server, name_any, utc_now, to_json}

  module _ (namespace : String) where
    pub drop_annotation-Quiet : Quiet (drop_annotation ctx rollout namespace)
    drop_annotation-Quiet =
        if-Quiet (has_promote_annotation rollout && is_paused (phase_of rollout.status)) _ _
          (λ log. refl) (λ log. refl)

    pub tell_occurrence-Quiet :
        (old new : Option Phase) (strategy : Handler) → Quiet (tell_occurrence ctx old new strategy)
    tell_occurrence-Quiet old none strategy log = refl
    tell_occurrence-Quiet old (some new) strategy log = refl

    change_status-Sends :
        (strategy : Handler) (desired : RolloutStatus) (log : Log)
        → Transition ctx rollout (sent log) desired
        → Sends ctx rollout Any log (change_status ctx rollout namespace strategy desired log)
    change_status-Sends strategy desired log t =
        let told = emit_events rollout.status desired ∷ log in
        Quiet-Sends ctx rollout Any
          (tell_occurrence ctx (phase_of rollout.status) desired.phase strategy) _ told
          (tell_occurrence-Quiet (phase_of rollout.status) desired.phase strategy)
          (λ u after e.
            let request = send_status namespace (name_any rollout.metadata) desired in
            stored-next ctx rollout Any (drop_annotation ctx rollout namespace) desired after
              (request ∷ after) (server.written after request)
              (subst (λ b. Transition ctx rollout b desired)
                (sym (
                  Quiet-after (tell_occurrence ctx (phase_of rollout.status) desired.phase strategy)
                    told (tell_occurrence-Quiet (phase_of rollout.status) desired.phase strategy)
                    e))
                t)
              refl (Quiet-sent (drop_annotation ctx rollout namespace) drop_annotation-Quiet)
              (λ l. tt) (λ e. tt))

    update_status-Sends :
        (desired : RolloutStatus) (log : Log)
        → (unchanged ctx rollout desired ≡ false → Transition ctx rollout (sent log) desired)
        → Sends ctx rollout Any log
            (update_status ctx rollout namespace (select_strategy rollout) desired log)
    unfolding update_status
    update_status-Sends desired log t =
        if-Sends ctx rollout Any (unchanged ctx rollout desired) (pure tt) _ log (λ same. inl refl)
          (λ changed. change_status-Sends (select_strategy rollout) desired log (t changed))

    pub desired_status-Quiet : Quiet (desired_status ctx rollout (select_strategy rollout))
    unfolding desired_status
    desired_status-Quiet log =
        of_exec-Quiet
          (compute_next_status chrono (select_strategy rollout) rollout (ctx.now log) (utc_now log))
          (read_clock ∷ log)

    of_exec-returned :
        {A : Type 0} (x : Exec A) (a : A) (log after : Log)
        → of_exec x log ≡ (returned a, after)
        → x ≡ done a
    of_exec-returned (done b) a log after h = cc
    of_exec-returned panic a log after h = cc

    desired_status-computed :
        (desired : RolloutStatus) (log after : Log)
        → desired_status ctx rollout (select_strategy rollout) log ≡ (returned desired, after)
        → unchanged ctx rollout desired ≡ false
        → Transition ctx rollout (sent after) desired
    unfolding desired_status
    desired_status-computed desired log after h u =
        computed desired log (of_exec-returned _ desired (read_clock ∷ log) after h) u (
          sym (
            Quiet-after (desired_status ctx rollout (select_strategy rollout)) log
              desired_status-Quiet h))

    -- What follows the status: the interval, and the metrics.
    pub interval-sent :
        (strategy : Handler) (desired : RolloutStatus)
        → Keeps sent (
            ask_clock ctx >>= λ now.
            of_exec (calculate_requeue_interval_from_rollout chrono rollout desired now)
            >>= λ interval.
                record_success ctx rollout namespace strategy desired >>= λ u. pure interval)
    interval-sent strategy desired log =
        let interval =
          of_exec (calculate_requeue_interval_from_rollout chrono rollout desired (ctx.now log)) in
        bind-Keeps sent interval
          (λ seconds. record_success ctx rollout namespace strategy desired >>= λ u. pure seconds)
          (of_exec-Keeps sent _)
          (λ seconds.
            bind-Keeps sent (record_success ctx rollout namespace strategy desired)
              (λ u. pure seconds)
              (λ l.
                recorded-sent ctx
                  (success_metrics ctx rollout namespace strategy desired (ctx.elapsed l)) l)
              (λ u l. refl))
          (read_clock ∷ log)

    next_stage-Sends :
        (log : Log)
        → Sends ctx rollout Any log (next_stage ctx rollout namespace (select_strategy rollout) log)
    unfolding next_stage
    next_stage-Sends log =
        Quiet-Sends ctx rollout Any (desired_status ctx rollout (select_strategy rollout)) _ log
          desired_status-Quiet
          (λ desired after e.
            then-Sends ctx rollout _
              (update_status ctx rollout namespace (select_strategy rollout) desired) after
              (update_status-Sends desired after (desired_status-computed desired log after e))
              (λ u. interval-sent (select_strategy rollout) desired))

    status_stages-Sends :
        (log : Log)
        → Sends ctx rollout Any log
            (status_stages ctx rollout namespace (select_strategy rollout) log)
    unfolding status_stages
    status_stages-Sends log =
        let strategy = select_strategy rollout in
        stage-Sends ctx rollout _
          (λ l.
            stage-Sends ctx rollout _
              (λ k.
                stage-Sends ctx rollout _ next_stage-Sends
                  (deadline_stage ctx rollout namespace strategy
                    rollout.spec.progress_deadline_seconds rollout.status)
                  k (deadline_stage-Sends ctx rollout namespace _ _ k refl refl))
              (experiment_stage ctx rollout namespace strategy rollout.status) l
              (experiment_stage-Sends ctx rollout namespace _ l refl))
          (metrics_stage ctx rollout namespace strategy rollout.status) log
          (metrics_stage-Sends ctx rollout namespace _ log refl)

    pub or_valid-Quiet : (v : Verdict) → Quiet (or_valid v)
    or_valid-Quiet valid log = refl
    or_valid-Quiet (invalid e) log = refl

    reconcile_in-Sends :
        (log : Log) → Sends ctx rollout Any log (reconcile_in ctx rollout namespace log)
    reconcile_in-Sends log =
        Quiet-Sends ctx rollout Any (of_exec (validate_rollout rollout)) _ log
          (of_exec-Quiet (validate_rollout rollout))
          (λ verdict l e.
            Quiet-Sends ctx rollout Any (or_valid verdict) _ l (or_valid-Quiet verdict) (λ u l e.
              Quiet-Sends ctx rollout Any
                (reconcile_replicasets to_json server (select_strategy rollout) rollout) _ l
                (reconcile_replicasets-Quiet to_json server (select_strategy rollout) rollout)
                (λ u l e.
                  Quiet-Sends ctx rollout Any
                    (reconcile_traffic server (select_strategy rollout) rollout) _ l
                    (reconcile_traffic-Quiet server (select_strategy rollout) rollout)
                    (λ u l e. status_stages-Sends l))))

  -- A reconciliation sends no status, or exactly one, which the rollout calls for: the rollback of
  -- a Progressing rollout whose metrics were found unhealthy, under a strategy that analyses
  -- metrics; the conclusion of a running experiment whose evaluation concludes; the failure of a
  -- rollout whose deadline has passed by the injected clock; or the next status that the handler
  -- computes at a moment of the clock, if it differs from the old one. The moments and the
  -- evaluations are those that the context gives at a log of requests by which the same statuses
  -- have been sent as before the reconciliation.
  pub reconcile-Sends :
      (leader_state : Option Bool) (log : Log)
      → Sends ctx rollout Any log (reconcile ctx leader_state rollout log)
  unfolding reconcile
  reconcile-Sends leader_state log =
      if-Sends ctx rollout Any (should_reconcile leader_state) _
        (recorded ctx record_reconciliation_skipped >>= λ u. pure 5) log
        (λ leads.
          Quiet-Sends ctx rollout Any (ok_or rollout.metadata.namespace missing_namespace)
            (reconcile_in ctx rollout) log (ok_or-Quiet rollout.metadata.namespace _)
            (λ namespace l e. reconcile_in-Sends namespace l))
        (λ waits. inl (
          bind-Keeps sent (recorded ctx record_reconciliation_skipped) (λ u. pure 5)
            (recorded-sent ctx record_reconciliation_skipped) (λ u l. refl) log))
