-- ===== src/Reconcile/First.antt =====
-- The first reconciliation of a rollout.
use kulta.Prelude.{
  ◌≡◌, refl, sym, ap, ◌∙◌, ℕ, Bool, true, Option, none, some, ◌∷◌, String, done, if◌then◌else◌,
}
use kulta.Prelude.Int.{ℤ}
use kulta.Crd.{Rollout, RolloutStatus, Phase, eq_option, eq_status}
use kulta.Validation.{valid, validate_rollout}
use kulta.Strategy.{Handler, select_strategy, compute_next_status, phase_of}
use kulta.Kube.{Log, send_status, emit_events, read_clock}
use kulta.Kube.Run.{
  Outcome, returned, pure, of_exec, ok_or, ◌>>=◌, or_kube_error, missing_namespace,
}
use kulta.Kube.Context.{Context, recorded}
use kulta.Serving.Measures.{record_reconciliation_skipped}
use kulta.Kube.Sent.{sent, bind-Quiet, or_kube_error-Quiet, next-view, Quiet-sent, bind-returned}
use kulta.ReplicaSets.{reconcile_replicasets}
use kulta.Routes.{reconcile_traffic}
use kulta.Reconcile.{
  desired_status, tell_occurrence, drop_annotation, change_status, update_status, next_stage,
  status_stages, reconcile_in, reconcile, should_reconcile, or_valid,
}
use kulta.Reconcile.Stages.{
  metrics_stage, experiment_stage, deadline_stage, unless_ended, store, goes_on,
}
use kulta.Reconcile.Quiet.{reconcile_replicasets-Quiet, reconcile_traffic-Quiet}
use kulta.Reconcile.AtMostOne.{drop_annotation-Quiet, interval-sent}

module _ (ctx : Context) (rollout : Rollout) (namespace : String) where
  open ctx use {chrono, server, doubles, name_any, utc_now, to_json}

  stored-sent :
      (desired : RolloutStatus) (log : Log)
      → sent
          ((store ctx rollout namespace desired >>= λ u. drop_annotation ctx rollout namespace)
            log).1
        ≡ desired ∷ sent log
  stored-sent desired log =
      let request = send_status namespace (name_any rollout.metadata) desired in
      let answered = or_kube_error (server.written log request) in
      let rest = drop_annotation ctx rollout namespace in
      Quiet-sent (answered >>= λ u. rest)
        (bind-Quiet answered (λ u. rest) (or_kube_error-Quiet (server.written log request))
          (λ u. drop_annotation-Quiet ctx rollout namespace))
        (request ∷ log)

  told-sent :
      (old new : Option Phase) (strategy : Handler) (desired : RolloutStatus) (log : Log)
      → sent
          ((tell_occurrence ctx old new strategy >>= λ u.
              store ctx rollout namespace desired >>= λ v. drop_annotation ctx rollout namespace)
            log).1
        ≡ desired ∷ sent log
  told-sent old none strategy desired log = stored-sent desired log
  told-sent old (some new) strategy desired log = stored-sent desired (_ ∷ log)

  update_status-first :
      (strategy : Handler) (desired : RolloutStatus) (log : Log)
      → rollout.status ≡ none
      → sent (update_status ctx rollout namespace strategy desired log).1 ≡ desired ∷ sent log
  unfolding update_status
  update_status-first strategy desired log n =
      ap
        (λ s.
          sent
            ((if eq_option (eq_status doubles.eq) s (some desired)
                then pure tt
                else change_status ctx rollout namespace strategy desired)
              log).1)
        n
      ∙ told-sent (phase_of rollout.status) desired.phase strategy desired
          (emit_events rollout.status desired ∷ log)

  next_stage-first :
      (desired : RolloutStatus) (log : Log)
      → rollout.status ≡ none
      → compute_next_status chrono (select_strategy rollout) rollout (ctx.now log) (utc_now log)
        ≡ done desired
      → sent (next_stage ctx rollout namespace (select_strategy rollout) log).1 ≡ desired ∷ sent log
  unfolding next_stage desired_status
  next_stage-first desired log n e =
      ap (λ (o : Outcome ℕ × Log). sent o.1)
        (bind-returned (desired_status ctx rollout (select_strategy rollout)) _ desired log
          (read_clock ∷ log) (ap (λ x. of_exec x (read_clock ∷ log)) e))
      ∙ next-view sent
          (update_status ctx rollout namespace (select_strategy rollout) desired (read_clock ∷ log))
          _ (λ u. interval-sent ctx rollout namespace (select_strategy rollout) desired)
      ∙ update_status-first (select_strategy rollout) desired (read_clock ∷ log) n

  deadline_stage-none :
      (strategy : Handler) (deadline : Option ℤ)
      → deadline_stage ctx rollout namespace strategy deadline none ≡ goes_on
  deadline_stage-none strategy none = refl
  deadline_stage-none strategy (some deadline_seconds) = refl

  status_stages-first :
      (log : Log)
      → rollout.status ≡ none
      → status_stages ctx rollout namespace (select_strategy rollout) log
        ≡ next_stage ctx rollout namespace (select_strategy rollout) log
  unfolding status_stages
  status_stages-first log n =
      let strategy = select_strategy rollout in
      let rest = next_stage ctx rollout namespace strategy in
      ap
        (λ s.
          (metrics_stage ctx rollout namespace strategy s
              >>= unless_ended (
                  experiment_stage ctx rollout namespace strategy s
                  >>= unless_ended (
                      deadline_stage ctx rollout namespace strategy
                        rollout.spec.progress_deadline_seconds s
                      >>= unless_ended rest)))
            log)
        n
      ∙ ap (λ m. (m >>= unless_ended rest) log)
          (deadline_stage-none strategy rollout.spec.progress_deadline_seconds)

  reconcile_in-first :
      (log between after : Log) (desired : RolloutStatus)
      → validate_rollout rollout ≡ done valid
      → rollout.status ≡ none
      → reconcile_replicasets to_json server (select_strategy rollout) rollout log
        ≡ (returned tt, between)
      → reconcile_traffic server (select_strategy rollout) rollout between ≡ (returned tt, after)
      → compute_next_status chrono (select_strategy rollout) rollout (ctx.now after) (utc_now after)
        ≡ done desired
      → sent (reconcile_in ctx rollout namespace log).1 ≡ desired ∷ sent log
  reconcile_in-first log between after desired v n r t e =
      let strategy = select_strategy rollout in
      let replicasets = reconcile_replicasets to_json server strategy rollout in
      let traffic = reconcile_traffic server strategy rollout in
      let stages = status_stages ctx rollout namespace strategy in
      let unsent : sent after ≡ sent log =
        sym (ap (λ (o : Outcome (Unit {0}) × Log). sent o.1) t)
        ∙ Quiet-sent traffic (reconcile_traffic-Quiet server strategy rollout) between
        ∙ sym (ap (λ (o : Outcome (Unit {0}) × Log). sent o.1) r)
        ∙ Quiet-sent replicasets (reconcile_replicasets-Quiet to_json server strategy rollout)
            log in
      ap
        (λ x.
          sent
            ((of_exec x >>= λ verdict.
                or_valid verdict >>= λ u. replicasets >>= λ u. traffic >>= λ u. stages)
              log).1)
        v
      ∙ ap (λ (o : Outcome ℕ × Log). sent o.1)
          (bind-returned replicasets (λ u. traffic >>= λ u. stages) tt log between r)
      ∙ ap (λ (o : Outcome ℕ × Log). sent o.1)
          (bind-returned traffic (λ u. stages) tt between after t)
      ∙ ap (λ (o : Outcome ℕ × Log). sent o.1) (status_stages-first after n)
      ∙ next_stage-first desired after n e
      ∙ ap (λ l. desired ∷ l) unsent

  -- The first reconciliation of a valid rollout by a controller that leads, or that has no election,
  -- sends the status that the strategy's handler computes, and no other, once the ReplicaSets and the
  -- traffic have been seen to.
  pub reconcile_first :
      (leader_state : Option Bool) (log between after : Log) (desired : RolloutStatus)
      → should_reconcile leader_state ≡ true
      → rollout.metadata.namespace ≡ some namespace
      → validate_rollout rollout ≡ done valid
      → rollout.status ≡ none
      → reconcile_replicasets to_json server (select_strategy rollout) rollout log
        ≡ (returned tt, between)
      → reconcile_traffic server (select_strategy rollout) rollout between ≡ (returned tt, after)
      → compute_next_status chrono (select_strategy rollout) rollout (ctx.now after) (utc_now after)
        ≡ done desired
      → sent (reconcile ctx leader_state rollout log).1 ≡ desired ∷ sent log
  unfolding reconcile
  reconcile_first leader_state log between after desired leads named v n r t e =
      ap
        (λ b.
          sent
            ((if b
                then ok_or rollout.metadata.namespace missing_namespace >>= reconcile_in ctx rollout
                else recorded ctx record_reconciliation_skipped >>= λ u. pure 5)
              log).1)
        leads
      ∙ ap (λ o. sent ((ok_or o missing_namespace >>= reconcile_in ctx rollout) log).1) named
      ∙ reconcile_in-first log between after desired v n r t e
