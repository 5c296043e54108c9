-- ===== src/Conversion.antt =====
-- crd/conversion.rs: the two versions of the specification. v1alpha1 is Crd.RolloutSpec.
pub mod RoundTrip
use kulta.Prelude.{String, Option, none, some}
use kulta.Prelude.Int.{ℤ, pos}
use kulta.Crd.{LabelSelector, PodTemplateSpec, RolloutStrategy, RolloutSpec, default_advisor_config}

-- `v1beta1::RolloutSpec`.
pub record RolloutSpecV1beta1 : Type 0 where
  pub replicas : ℤ
  pub selector : LabelSelector
  pub template : PodTemplateSpec
  pub strategy : RolloutStrategy
  pub max_surge : Option String
  pub max_unavailable : Option String
  pub progress_deadline_seconds : Option ℤ

abbrev pub default_max_surge : String
default_max_surge = "25%"

abbrev pub default_max_unavailable : String
default_max_unavailable = "0"

abbrev pub default_progress_deadline_seconds : ℤ
default_progress_deadline_seconds = pos 600

-- `Option::or`, and `or_else` of a constant.
abbrev pub or {ℓ} : {A : Type ℓ} → Option A → A → Option A
or (some a) d = some a
or none d = some d

unfoldable pub convert_to_v1beta1 : RolloutSpec → RolloutSpecV1beta1
convert_to_v1beta1 spec = record {
  replicas = spec.replicas;
  selector = spec.selector;
  template = spec.template;
  strategy = spec.strategy;
  max_surge = or spec.max_surge default_max_surge;
  max_unavailable = or spec.max_unavailable default_max_unavailable;
  progress_deadline_seconds = or spec.progress_deadline_seconds default_progress_deadline_seconds;
}

unfoldable pub convert_to_v1alpha1 : RolloutSpecV1beta1 → RolloutSpec
convert_to_v1alpha1 spec = record {
  replicas = spec.replicas;
  selector = spec.selector;
  template = spec.template;
  strategy = spec.strategy;
  max_surge = spec.max_surge;
  max_unavailable = spec.max_unavailable;
  progress_deadline_seconds = spec.progress_deadline_seconds;
  advisor = default_advisor_config;
}
