-- ===== src/Kube/Context.antt =====
-- What a reconciliation is given (`Context` of reconcile.rs), with the operations of other libraries
-- that it calls.
use kulta.Prelude.{ℕ, String, Bool, Option, List, [], ◌∷◌, if◌then◌else◌}
use kulta.Prelude.Int.{ℤ}
use kulta.Crd.{F64, PodTemplateSpec, ObjectMeta}
use kulta.Clock.{Chrono}
use kulta.Experiment.{Doubles}
use kulta.Kube.{Server, Log, read_clock, measure}
use kulta.Serving.Measures.{Measurement}
use kulta.Kube.Run.{Run, returned, pure, tell, ◌>>◌}

pub record Context : Type 1 where
  pub server : Server
  pub chrono : Chrono
  -- What the injected clock and the system's show, after so many requests.
  pub now : Log → chrono.DateTime
  pub utc_now : Log → chrono.DateTime
  pub doubles : Doubles
  -- `count as i64` of a double.
  pub as_i64 : F64 → ℤ
  -- `serde_json::to_string`, in bytes.
  pub to_json : PodTemplateSpec → Option (List ℕ)
  -- kube's `name_any` and the creation timestamp.
  pub name_any : ObjectMeta → String
  -- Whether there is a registry of the controller's own metrics.
  pub has_metrics : Bool
  -- `start_time.elapsed().as_secs_f64()`, after so many requests.
  pub elapsed : Log → F64
  pub created_at : ObjectMeta → Option chrono.DateTime

abbrev pub tell_all : List Measurement → Run (Unit {0})
tell_all [] = pure tt
tell_all (m ∷ measurements) = tell (measure m) >> tell_all measurements

module _ (ctx : Context) where
  open ctx use {chrono, now}
  open chrono use {DateTime}

  abbrev pub ask_clock : Run DateTime
  ask_clock log = (returned (now log), read_clock ∷ log)

  -- `if let Some(ref metrics) = ctx.metrics`.
  abbrev pub recorded : List Measurement → Run (Unit {0})
  recorded measurements = if ctx.has_metrics then tell_all measurements else pure tt
