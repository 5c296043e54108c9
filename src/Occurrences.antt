-- ===== src/Occurrences.antt =====
-- controller/occurrence.rs: the occurrence that a change of phase, or a recommendation, calls for.
-- The types of occurrences are those of the crate false-protocol, which may refuse an occurrence's
-- type. Occurrences/File is the file that they are written to.
pub mod File
use Prim.Native.String.{◌++◌}
use kulta.Prelude.{
  ℕ, String, Bool, true, ◌||◌, Option, none, some, List, [], ◌∷◌, ◌≡◌, refl, unwrap_or, and_then,
  length, codes, str_eq, show_nat, if◌then◌else◌,
}
use kulta.Prelude.Int.{ℤ, pos, ◌+ℤ◌, wrap_i32, show_int}
use kulta.Prelude.Parse.{contains}
use kulta.Crd.{Phase, paused, concluded, completed, failed, Rollout, Recommendation, CanaryStrategy}

pub data Severity : Type 0 where
  error warning info : Severity

pub data OccurrenceOutcome : Type 0 where
  failure success in_progress : OccurrenceOutcome

pub record OccurrenceError : Type 0 where
  pub code : String
  pub what_failed : String
  pub why_it_matters : Option String
  pub possible_causes : List String
  pub suggested_fix : Option String

pub record RolloutData : Type 0 where
  pub name : String
  pub namespace : String
  pub strategy : String
  pub replicas : ℤ
  pub current_weight : Option ℤ
  pub phase : Phase

pub record AdvisorData : Type 0 where
  pub recommendation : Recommendation
  pub threshold_healthy : Bool
  pub threshold_prevails : Bool

pub data OccurrenceData : Type 0 where
  of_rollout : RolloutData → OccurrenceData
  of_advisor : AdvisorData → OccurrenceData

-- `Entity::from_k8s("rollout", …)`, and the observation's time.
pub record Entity (Moment : Type 0) : Type 0 where
  pub uid : String
  pub name : String
  pub namespace : String
  pub resource_version : String
  pub observed_at : Moment

-- Correlated with the deployment and the namespace by the entity's name and namespace.
pub record Occurrence (Moment : Type 0) : Type 0 where
  pub occurrence_type : String
  pub timestamp : Moment
  pub severity : Severity
  pub outcome : OccurrenceOutcome
  pub entity : Entity Moment
  pub data_of : OccurrenceData
  pub cluster : Option String
  pub error : Option OccurrenceError

abbrev pub phase_to_occurrence_suffix : Phase → String
phase_to_occurrence_suffix failed = "failed"
phase_to_occurrence_suffix completed = "completed"
phase_to_occurrence_suffix concluded = "completed"
phase_to_occurrence_suffix paused = "paused"
phase_to_occurrence_suffix _ = "progressing"

unfoldable pub prefix_of : String → String
prefix_of strategy =
    if str_eq strategy "blue_green"
    then "bluegreen"
    else if str_eq strategy "ab_testing"
    then "abtesting"
    else if str_eq strategy "simple"
    then "rolling"
    else strategy

unfoldable pub build_occurrence_type : String → Phase → String
build_occurrence_type strategy new_phase =
    prefix_of strategy ++ ".rollout." ++ phase_to_occurrence_suffix new_phase

abbrev pub phase_to_severity : Phase → Severity
phase_to_severity failed = error
phase_to_severity paused = warning
phase_to_severity _ = info

abbrev pub phase_to_outcome : Phase → OccurrenceOutcome
phase_to_outcome failed = failure
phase_to_outcome completed = success
phase_to_outcome concluded = success
phase_to_outcome _ = in_progress

abbrev mentions : String → String → Bool
mentions message pattern = contains (codes message) (codes pattern)

abbrev total_steps : Option CanaryStrategy → ℕ
total_steps none = 0
total_steps (some canary) = length canary.steps

-- The step is counted from one: an `i32` that may overflow.
abbrev pub what_failed : String → String → String → ℕ → Option ℤ → Option ℤ → String
what_failed message name strategy steps (some weight) (some step) =
    message
    ++ " for "
    ++ name
    ++ " "
    ++ strategy
    ++ " at step "
    ++ show_int (wrap_i32 (step +ℤ pos 1))
    ++ "/"
    ++ show_nat steps
    ++ " ("
    ++ show_int weight
    ++ "% traffic)"
what_failed message name strategy steps _ _ =
    "Rollout " ++ name ++ " failed during " ++ strategy ++ " deployment"

abbrev metric_causes : String → String → List String → List String
metric_causes message name rest =
    if mentions message "metrics exceeded" || mentions message "error rate"
    then ("New code path in " ++ name ++ " handlers") ∷ "Downstream service degradation" ∷ rest
    else rest

abbrev deadline_causes : String → List String
deadline_causes message =
    if mentions message "deadline exceeded"
    then "Pods failing readiness probes" ∷ "Image pull failures or resource constraints" ∷ []
    else []

unfoldable pub possible_causes : String → String → List String
possible_causes message name = message ∷ metric_causes message name (deadline_causes message)

unfoldable pub suggested_fix : String → String → String
suggested_fix message name =
    if mentions message "metrics exceeded"
    then "Rollback " ++ name ++ " to stable, check dependent service health, review recent changes"
    else "Check metrics and pod logs for " ++ name ++ ", consider manual rollback"

-- The message, the weight and the step are those of the rollout's old status.
unfoldable pub failure_of : Rollout → String → String → String → OccurrenceError
failure_of rollout name namespace strategy =
    let message = unwrap_or (and_then rollout.status (λ s. s.message)) "Rollout failed" in
    let current_weight = and_then rollout.status (λ s. s.current_weight) in
    let current_step = and_then rollout.status (λ s. s.current_step_index) in
    record {
      code = "ROLLOUT_FAILED";
      what_failed =
          what_failed message name strategy (total_steps rollout.spec.strategy.canary)
            current_weight current_step;
      why_it_matters = some (
          "Service "
          ++ name
          ++ " in namespace "
          ++ namespace
          ++ " may be serving degraded traffic to "
          ++ show_int (unwrap_or current_weight (pos 0))
          ++ "% of requests");
      possible_causes = possible_causes message name;
      suggested_fix = some (suggested_fix message name);
    }

abbrev error_of : Rollout → Phase → String → String → String → Option OccurrenceError
error_of rollout failed name namespace strategy = some (failure_of rollout name namespace strategy)
error_of rollout _ name namespace strategy = none

-- `accepts` is whether `Occurrence::new` takes a type, and `cluster` the environment's variable.
module _ {Moment : Type 0} (accepts : String → Bool) (cluster : Option String) where
  abbrev entity_of : Rollout → String → String → Moment → Entity Moment
  entity_of rollout name namespace now = record {
    uid = unwrap_or rollout.metadata.uid "";
    name = name;
    namespace = namespace;
    resource_version = unwrap_or rollout.metadata.resource_version "0";
    observed_at = now;
  }

  abbrev if_accepted : Occurrence Moment → Option (Occurrence Moment)
  if_accepted o = if accepts o.occurrence_type then some o else none

  unfoldable pub build_occurrence : Rollout → Phase → String → Moment → Option (Occurrence Moment)
  build_occurrence rollout new_phase strategy now =
      let name = unwrap_or rollout.metadata.name "unknown" in
      let namespace = unwrap_or rollout.metadata.namespace "unknown" in
      if_accepted (record {
        occurrence_type = build_occurrence_type strategy new_phase;
        timestamp = now;
        severity = phase_to_severity new_phase;
        outcome = phase_to_outcome new_phase;
        entity = entity_of rollout name namespace now;
        data_of = of_rollout (record {
          name = name;
          namespace = namespace;
          strategy = strategy;
          replicas = rollout.spec.replicas;
          current_weight = and_then rollout.status (λ s. s.current_weight);
          phase = new_phase;
        });
        cluster = cluster;
        error = error_of rollout new_phase name namespace strategy;
      })

  -- The occurrence that is written: none without a name and a namespace.
  unfoldable pub emit_occurrence : Rollout → Phase → String → Moment → Option (Occurrence Moment)
  emit_occurrence rollout new_phase strategy now = and_then rollout.metadata.name (λ name.
      and_then rollout.metadata.namespace
        (λ namespace. build_occurrence rollout new_phase strategy now))

  unfoldable pub emit_advisor_occurrence :
      Rollout → String → Recommendation → Bool → Moment → Option (Occurrence Moment)
  emit_advisor_occurrence rollout strategy recommendation threshold_healthy now =
      and_then rollout.metadata.name (λ name. and_then rollout.metadata.namespace (λ namespace.
        if_accepted (record {
          occurrence_type = prefix_of strategy ++ ".advisor.recommendation";
          timestamp = now;
          severity = info;
          outcome = in_progress;
          entity = entity_of rollout name namespace now;
          data_of = of_advisor (record {
            recommendation = recommendation;
            threshold_healthy = threshold_healthy;
            threshold_prevails = true;
          });
          cluster = cluster;
          error = none;
        })))

-- The handler's own name has a dash, and passes through.
blue_green_type : build_occurrence_type "blue-green" completed ≡ "blue-green.rollout.completed"
unfolding build_occurrence_type prefix_of
blue_green_type = refl

its_causes :
    possible_causes "Rollback triggered: metrics exceeded thresholds" "app"
    ≡ "Rollback triggered: metrics exceeded thresholds" ∷ "New code path in app handlers"
      ∷ "Downstream service degradation" ∷ []
unfolding possible_causes
its_causes = refl
