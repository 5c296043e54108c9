-- ===== src/Crd/Spec.antt =====
-- crd/rollout.rs: the specification, and the resource as a whole. The pod template and the selector
-- are Kubernetes types: the model keeps what the controller reads of them, and the rest as text.
use kulta.Prelude.{String, Option, List}
use kulta.Prelude.Int.{ℤ}
use kulta.Crd.Analysis.{AdvisorConfig}
use kulta.Crd.Strategy.{RolloutStrategy}
use kulta.Crd.Status.{RolloutStatus}

-- A `BTreeMap<String, String>` of Kubernetes metadata.
abbrev pub StringMap : Type 0
StringMap = List (String × String)

pub record LabelSelector : Type 0 where
  pub match_labels : Option StringMap
  pub match_expressions : String

pub record Container : Type 0 where
  pub image : Option String

-- `containers` are those of the pod's specification, if there is one.
pub record PodTemplateSpec : Type 0 where
  pub labels : Option StringMap
  pub containers : Option (List Container)
  pub rest : String

pub record ObjectMeta : Type 0 where
  pub name : Option String
  pub namespace : Option String
  pub annotations : Option StringMap
  pub labels : Option StringMap
  pub uid : Option String
  pub resource_version : Option String
  pub generation : Option ℤ

pub record RolloutSpec : Type 0 where
  pub replicas : ℤ
  pub selector : LabelSelector
  pub template : PodTemplateSpec
  pub strategy : RolloutStrategy
  pub max_surge : Option String
  pub max_unavailable : Option String
  pub progress_deadline_seconds : Option ℤ
  pub advisor : AdvisorConfig

pub record Rollout : Type 0 where
  pub metadata : ObjectMeta
  pub spec : RolloutSpec
  pub status : Option RolloutStatus
