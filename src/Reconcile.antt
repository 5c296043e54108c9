-- ===== src/Reconcile.antt =====
-- controller/rollout/reconcile.rs: the reconciliation of one rollout, from the leader test to the
-- requeue interval.
pub mod Stages
pub mod Texts
pub mod Quiet
pub mod Evaluations
pub mod Transitions
pub mod Sends
pub mod Stored
pub mod Changes
pub mod Refines
pub mod AtMostOne
pub mod First
pub mod Tally
pub mod Endings
pub mod Counts
pub mod Guards
pub mod Rollback
use kulta.Prelude.{ℕ, String, Bool, true, ◌&&◌, Option, none, some, List, [], ◌++◌, if◌then◌else◌}
use kulta.Prelude.Int.{ℤ}
use kulta.Crd.{F64, Rollout, RolloutStatus, Phase, eq_option, eq_status}
use kulta.Validation.{Verdict, valid, invalid, validate_rollout}
use kulta.Strategy.{Handler, name, select_strategy, compute_next_status, phase_of}
use kulta.Status.{is_paused, has_promote_annotation, calculate_requeue_interval_from_rollout}
use kulta.Kube.{remove_promote, emit_events, emit_occurrence}
use kulta.Kube.Run.{
  Run, pure, raise, of_exec, ok_or, ◌>>=◌, ◌>>◌, ask, tell, missing_namespace, validation_error,
}
use kulta.Kube.Context.{Context, ask_clock, recorded}
use kulta.Serving.Measures.{
  Measurement, record_reconciliation_success, record_reconciliation_skipped, set_traffic_weight,
}
use kulta.ReplicaSets.{reconcile_replicasets}
use kulta.Routes.{reconcile_traffic}
use kulta.Reconcile.Stages.{unless_ended, store, metrics_stage, experiment_stage, deadline_stage}

-- `leader_state` is what the elector last said, if there is one.
unfoldable pub should_reconcile : Option Bool → Bool
should_reconcile none = true
should_reconcile (some is_leader) = is_leader

abbrev pub or_valid : Verdict → Run (Unit {0})
or_valid valid = pure tt
or_valid (invalid e) = raise (validation_error e)

module _ (ctx : Context) where
  open ctx use {server, chrono, doubles, name_any, to_json, utc_now}
  open chrono use {DateTime, to_rfc3339}

  -- The A/B handler reads the system's clock by itself.
  unfoldable pub desired_status : Rollout → Handler → Run RolloutStatus
  desired_status rollout strategy log =
      (ask_clock ctx >>= λ now.
      of_exec (compute_next_status chrono strategy rollout now (utc_now log)))
        log

  abbrev pub unchanged : Rollout → RolloutStatus → Bool
  unchanged rollout desired = eq_option (eq_status doubles.eq) rollout.status (some desired)

  abbrev pub tell_occurrence : Option Phase → Option Phase → Handler → Run (Unit {0})
  tell_occurrence old_phase none strategy = pure tt
  tell_occurrence old_phase (some new_phase) strategy =
      tell (emit_occurrence old_phase new_phase (name strategy))

  -- Only a successful patch takes the annotation away, and failing to do so is no error.
  abbrev pub drop_annotation : Rollout → String → Run (Unit {0})
  drop_annotation rollout namespace =
      if has_promote_annotation rollout && is_paused (phase_of rollout.status)
      then ask server (remove_promote namespace (name_any rollout.metadata)) >>= (λ r. pure tt)
      else pure tt

  abbrev pub change_status : Rollout → String → Handler → RolloutStatus → Run (Unit {0})
  change_status rollout namespace strategy desired = do
    tell (emit_events rollout.status desired)
    tell_occurrence (phase_of rollout.status) desired.phase strategy
    store ctx rollout namespace desired
    drop_annotation rollout namespace

  -- "Update Rollout status if it changed".
  unfoldable pub update_status : Rollout → String → Handler → RolloutStatus → Run (Unit {0})
  update_status rollout namespace strategy desired =
      if unchanged rollout desired
      then pure tt
      else change_status rollout namespace strategy desired

  abbrev pub weight_gauge : Rollout → String → Option ℤ → List Measurement
  weight_gauge rollout namespace none = []
  weight_gauge rollout namespace (some weight) =
      set_traffic_weight namespace (name_any rollout.metadata) weight

  -- "Record success metrics".
  abbrev pub success_metrics : Rollout → String → Handler → RolloutStatus → F64 → List Measurement
  success_metrics rollout namespace strategy desired duration_secs =
      record_reconciliation_success (name strategy) duration_secs
      ++ weight_gauge rollout namespace desired.current_weight

  abbrev pub record_success : Rollout → String → Handler → RolloutStatus → Run (Unit {0})
  record_success rollout namespace strategy desired log =
      recorded ctx (success_metrics rollout namespace strategy desired (ctx.elapsed log)) log

  unfoldable pub next_stage : Rollout → String → Handler → Run ℕ
  next_stage rollout namespace strategy = do
    desired ← desired_status rollout strategy
    update_status rollout namespace strategy desired
    now ← ask_clock ctx
    interval ← of_exec (calculate_requeue_interval_from_rollout chrono rollout desired now)
    record_success rollout namespace strategy desired
    pure interval

  -- What follows the ReplicaSets and the traffic.
  unfoldable pub status_stages : Rollout → String → Handler → Run ℕ
  status_stages rollout namespace strategy =
      metrics_stage ctx rollout namespace strategy rollout.status
      >>= unless_ended (
          experiment_stage ctx rollout namespace strategy rollout.status
          >>= unless_ended (
              deadline_stage ctx rollout namespace strategy rollout.spec.progress_deadline_seconds
                rollout.status
              >>= unless_ended (next_stage rollout namespace strategy)))

  -- From the name of the rollout on.
  abbrev pub reconcile_in : Rollout → String → Run ℕ
  reconcile_in rollout namespace = do
    verdict ← of_exec (validate_rollout rollout)
    or_valid verdict
    reconcile_replicasets to_json server (select_strategy rollout) rollout
    reconcile_traffic server (select_strategy rollout) rollout
    status_stages rollout namespace (select_strategy rollout)

  -- The seconds until the next look.
  unfoldable pub reconcile : Option Bool → Rollout → Run ℕ
  reconcile leader_state rollout =
      if should_reconcile leader_state
      then ok_or rollout.metadata.namespace missing_namespace >>= reconcile_in rollout
      else recorded ctx record_reconciliation_skipped >> pure 5
