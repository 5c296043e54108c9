-- ===== src/Events/Build.antt =====
-- controller/cdevents.rs: how an event is built, and how the events that a change calls for are sent.
-- The conversions of the crates cdevents-sdk and cloudevents, any of which may fail, are parameters.
use Prim.Native.String.{◌++◌}
use kulta.Prelude.{
  ℕ, String, Bool, true, ◌&&◌, Option, none, some, List, [], ◌∷◌, unwrap_or, and_then, is_some,
  get_elem?, length, if◌then◌else◌,
}
use kulta.Prelude.Int.{ℤ, pos, show_int}
use kulta.Crd.{
  Rollout, RolloutStatus, Container, CanaryStrategy, AbExperimentStatus, AbMetricResult, AbVariant,
  AbConclusionReason,
}
use kulta.Events.{
  EventKind, service_deployed, service_upgraded, service_rolledback, service_published,
  experiment_concluded, is_initialization, is_experiment_concluded, is_step_progression,
  is_rollback, is_completion,
}

pub record RolloutInfo : Type 0 where
  pub name : String
  pub namespace : String
  pub uid : String
  pub generation : ℤ

pub record StepInfo : Type 0 where
  pub index : ℤ
  pub total : ℕ
  pub traffic_weight : ℤ

pub record ExperimentInfo : Type 0 where
  pub started_at : String
  pub concluded_at : String
  pub sample_size_a : ℤ
  pub sample_size_b : ℤ
  pub winner : Option AbVariant
  pub conclusion_reason : Option AbConclusionReason
  pub metrics : List AbMetricResult

-- What the custom data says besides the rollout, the strategy and the reason.
pub data Detail : Type 0 where
  step : StepInfo → Detail
  experiment : ExperimentInfo → Detail

pub record CustomData : Type 0 where
  pub rollout : RolloutInfo
  pub strategy : String
  pub detail : Detail
  pub reason : String

-- `artifact_id` is the image, for the kinds of event that have one. The event's own id is random.
pub record Event : Type 0 where
  pub kind : EventKind
  pub artifact_id : Option String
  pub environment_id : String
  pub environment_source : String
  pub subject_id : String
  pub custom_data : CustomData

abbrev rollout_info : Rollout → RolloutInfo
rollout_info rollout = record {
  name = unwrap_or rollout.metadata.name "unknown";
  namespace = unwrap_or rollout.metadata.namespace "default";
  uid = unwrap_or rollout.metadata.uid "";
  generation = unwrap_or rollout.metadata.generation (pos 0);
}

-- Here the canary section comes first, unlike in the choice of the handler.
unfoldable pub strategy_name : Rollout → String
strategy_name rollout =
    if is_some rollout.spec.strategy.canary
    then "canary"
    else if is_some rollout.spec.strategy.blue_green
    then "blue-green"
    else if is_some rollout.spec.strategy.ab_testing
    then "ab-testing"
    else "simple"

abbrev step_count : Option CanaryStrategy → ℕ
step_count none = 0
step_count (some canary) = length canary.steps

unfoldable pub build_kulta_custom_data : Rollout → RolloutStatus → String → CustomData
build_kulta_custom_data rollout status decision_reason = record {
  rollout = rollout_info rollout;
  strategy = strategy_name rollout;
  detail = step (record {
    index = unwrap_or status.current_step_index (pos 0);
    total = step_count rollout.spec.strategy.canary;
    traffic_weight = unwrap_or status.current_weight (pos 0);
  });
  reason = decision_reason;
}

abbrev results_of : Option AbExperimentStatus → List AbMetricResult
results_of none = []
results_of (some ab) = ab.results

abbrev started_of : Option AbExperimentStatus → String
started_of none = ""
started_of (some ab) = ab.started_at

-- A winner or a reason that is missing is printed as "none" or "unknown".
unfoldable pub build_experiment_custom_data : Rollout → RolloutStatus → CustomData
build_experiment_custom_data rollout status =
    let ab_experiment = status.ab_experiment in
    record {
      rollout = rollout_info rollout;
      strategy = "ab-testing";
      detail = experiment (record {
        started_at = started_of ab_experiment;
        concluded_at = unwrap_or (and_then ab_experiment (λ ab. ab.concluded_at)) "";
        sample_size_a = unwrap_or (and_then ab_experiment (λ ab. ab.sample_size_a)) (pos 0);
        sample_size_b = unwrap_or (and_then ab_experiment (λ ab. ab.sample_size_b)) (pos 0);
        winner = and_then ab_experiment (λ ab. ab.winner);
        conclusion_reason = and_then ab_experiment (λ ab. ab.conclusion_reason);
        metrics = results_of ab_experiment;
      });
      reason = "experiment_concluded";
    }

abbrev first_image : List Container → Option String
first_image containers = and_then (get_elem? containers 0) (λ c. c.image)

unfoldable pub extract_image_from_rollout : Rollout → Option String
extract_image_from_rollout rollout = and_then rollout.spec.template.containers first_image

-- What the libraries accept: an artifact id, an id, a source, and an event as a whole.
pub record Accepts : Type 0 where
  pub artifact : String → Bool
  pub id : String → Bool
  pub source : String → Bool
  pub event : Event → Bool

abbrev environment_of : String → String → String → String
environment_of group namespace name =
    "/apis/" ++ group ++ "/v1alpha1/namespaces/" ++ namespace ++ "/rollouts/" ++ name

-- The part after the rollout's name of the subject's id.
abbrev subject_of : EventKind → RolloutStatus → String
subject_of service_deployed status = "/initialization"
subject_of service_upgraded status =
    "/step/" ++ show_int (unwrap_or status.current_step_index (pos 0))
subject_of service_rolledback status = "/rollback"
subject_of service_published status = "/completed"
subject_of experiment_concluded status = "/experiment-concluded"

abbrev group_of : EventKind → String
group_of experiment_concluded = "kulta.io"
group_of _ = "argoproj.io"

abbrev data_of : EventKind → Rollout → RolloutStatus → CustomData
data_of service_deployed rollout status = build_kulta_custom_data rollout status "initialization"
data_of service_upgraded rollout status = build_kulta_custom_data rollout status "step_advanced"
data_of service_rolledback rollout status = build_kulta_custom_data rollout status "analysis_failed"
data_of service_published rollout status = build_kulta_custom_data rollout status "completed"
data_of experiment_concluded rollout status = build_experiment_custom_data rollout status

-- The image, for the kinds that need one: `none` fails.
abbrev pub artifact_of : EventKind → Rollout → Option (Option String)
artifact_of service_published rollout = some none
artifact_of experiment_concluded rollout = some none
artifact_of _ rollout = and_then (extract_image_from_rollout rollout) (λ image. some (some image))

abbrev pub event_of : EventKind → Rollout → RolloutStatus → Option String → String → String → Event
event_of kind rollout status artifact_id namespace name = record {
  kind = kind;
  artifact_id = artifact_id;
  environment_id = namespace ++ "/" ++ name;
  environment_source = environment_of (group_of kind) namespace name;
  subject_id = "/rollouts/" ++ name ++ subject_of kind status;
  custom_data = data_of kind rollout status;
}

module _ (accepts : Accepts) where
  abbrev pub accepts_artifact : Option String → Bool
  accepts_artifact none = true
  accepts_artifact (some image) = accepts.artifact image

  abbrev pub accepted : Event → Option Event
  accepted e =
      if accepts_artifact e.artifact_id
        && accepts.id e.environment_id
        && accepts.source e.environment_source
        && accepts.id e.subject_id
        && accepts.event e
      then some e
      else none

  -- The five `build_…_event` functions; `none` is an error.
  unfoldable pub build_event : EventKind → Rollout → RolloutStatus → Option Event
  build_event kind rollout status = and_then (artifact_of kind rollout) (λ artifact_id.
      and_then rollout.metadata.namespace (λ namespace.
        and_then rollout.metadata.name
          (λ name. accepted (event_of kind rollout status artifact_id namespace name))))

  -- The events that reach the sink, the first that cannot be built or sent ending the sequence.
  module _ (sends : Event → Bool) where
    abbrev pub with_event : Option Event → List Event → List Event
    with_event none rest = []
    with_event (some e) rest = if sends e then e ∷ rest else []

    -- `build_…_event` and `sink.send`, and what follows them.
    abbrev pub send_event : EventKind → Rollout → RolloutStatus → List Event → List Event
    send_event kind rollout status rest = with_event (build_event kind rollout status) rest

    unfoldable pub delivered : Rollout → Option RolloutStatus → RolloutStatus → List Event
    delivered rollout old_status new_status =
        if is_initialization old_status new_status
        then send_event service_deployed rollout new_status (
            if is_completion new_status.phase
            then send_event service_published rollout new_status []
            else [])
        else if is_step_progression old_status new_status
        then send_event service_upgraded rollout new_status []
        else if is_rollback new_status.phase
        then send_event service_rolledback rollout new_status []
        else if is_experiment_concluded old_status new_status
        then send_event experiment_concluded rollout new_status []
        else if is_completion new_status.phase
        then send_event service_published rollout new_status []
        else []
