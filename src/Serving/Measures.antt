-- ===== src/Serving/Measures.antt =====
-- server/metrics.rs: what the controller tells its Prometheus registry, as the calls in their order.
use kulta.Prelude.{String, Bool, Option, none, and_then, if◌then◌else◌, List, [], ◌∷◌}
use kulta.Prelude.Int.{ℤ}
use kulta.Crd.{F64}

-- A call on one of the four vectors, with the values of its labels.
pub data Measurement : Type 0 where
  inc_reconciliations : String → Measurement
  observe_duration : String → F64 → Measurement
  set_active : String → String → ℤ → Measurement
  set_weight : String → String → ℤ → Measurement

abbrev pub record_reconciliation_success : String → F64 → List Measurement
record_reconciliation_success strategy duration_secs =
    inc_reconciliations "success" ∷ observe_duration strategy duration_secs ∷ []

abbrev pub record_reconciliation_error : String → F64 → List Measurement
record_reconciliation_error strategy duration_secs =
    inc_reconciliations "error" ∷ observe_duration strategy duration_secs ∷ []

abbrev pub record_reconciliation_skipped : List Measurement
record_reconciliation_skipped = inc_reconciliations "skipped" ∷ []

abbrev pub set_traffic_weight : String → String → ℤ → List Measurement
set_traffic_weight namespace rollout weight = set_weight namespace rollout weight ∷ []

abbrev pub set_rollouts_active : String → String → ℤ → List Measurement
set_rollouts_active phase strategy count = set_active phase strategy count ∷ []

pub data Kind : Type 0 where
  counter gauge : Kind
  -- With the bounds of its buckets.
  histogram : List F64 → Kind

pub record Vector : Type 0 where
  pub kind : Kind
  pub name : String
  pub help : String
  pub labels : List String

-- 0.01, 0.05, 0.1, 0.25, 0.5, 1.0, 2.5, 5.0 and 10.0.
abbrev pub buckets : List F64
buckets =
    0x3F847AE147AE147B ∷ 0x3FA999999999999A ∷ 0x3FB999999999999A ∷ 0x3FD0000000000000
    ∷ 0x3FE0000000000000 ∷ 0x3FF0000000000000 ∷ 0x4004000000000000 ∷ 0x4014000000000000
    ∷ 0x4024000000000000 ∷ []

abbrev pub reconciliations_total : Vector
reconciliations_total = record {
  kind = counter;
  name = "kulta_reconciliations_total";
  help = "Total number of reconciliations";
  labels = "result" ∷ [];
}

abbrev pub reconciliation_duration_seconds : Vector
reconciliation_duration_seconds = record {
  kind = histogram buckets;
  name = "kulta_reconciliation_duration_seconds";
  help = "Duration of reconciliation in seconds";
  labels = "strategy" ∷ [];
}

abbrev pub rollouts_active : Vector
rollouts_active = record {
  kind = gauge;
  name = "kulta_rollouts_active";
  help = "Number of active rollouts by phase";
  labels = "phase" ∷ "strategy" ∷ [];
}

abbrev pub traffic_weight : Vector
traffic_weight = record {
  kind = gauge;
  name = "kulta_traffic_weight";
  help = "Current canary traffic weight percentage";
  labels = "namespace" ∷ "rollout" ∷ [];
}

-- The crate prometheus makes a vector and registers it, or refuses to.
module _ {Registry : Type 0} (empty : Registry) (makes : Vector → Bool)
    (register : Registry → Vector → Option Registry) where
  abbrev add : Vector → Registry → Option Registry
  add vector registry = if makes vector then register registry vector else none

  -- `ControllerMetrics::new`.
  unfoldable pub new_registry : Option Registry
  new_registry = and_then (add reconciliations_total empty) (λ r.
      and_then (add reconciliation_duration_seconds r)
        (λ r. and_then (add rollouts_active r) (λ r. add traffic_weight r)))
