-- ===== src/Kube/Sent.antt =====
-- The statuses that a run has sent, the newest first, the reconciliations that it has counted, and
-- runs that do neither.
use kulta.Prelude.{
  String, ◌≡◌, refl, ◌∙◌, ap, Option, none, some, List, [], ◌∷◌, Exec, done, panic, Bool, true,
  false, if◌then◌else◌,
}
use kulta.Crd.{RolloutStatus}
use kulta.Leader.Api.{Response, ok, api_error, failure}
use kulta.Kube.{Request, send_status, measure, Log}
use kulta.Kube.Context.{Context, tell_all, recorded}
use kulta.Serving.Measures.{Measurement, inc_reconciliations}
use kulta.Kube.Run.{
  Outcome, returned, raised, panicked, Run, next, of_exec, ok_or, map_err, rename, ReconcileError,
  pure, ◌>>=◌, or_kube_error,
}

abbrev pub sent_by : Request → List RolloutStatus → List RolloutStatus
sent_by (send_status namespace name status) before = status ∷ before
sent_by _ before = before

abbrev pub sent : Log → List RolloutStatus
sent [] = []
sent (request ∷ log) = sent_by request (sent log)

abbrev pub counted_by : Request → List String → List String
counted_by (measure (inc_reconciliations result)) before = result ∷ before
counted_by _ before = before

-- The results of the reconciliations that have been counted in the controller's own metrics, the
-- newest first.
abbrev pub counted : Log → List String
counted [] = []
counted (request ∷ log) = counted_by request (counted log)

abbrev pub seen : Log → List RolloutStatus × List String
seen log = (sent log, counted log)

-- A run that leaves a view of the log as it is.
abbrev pub Keeps : {V A : Type 0} → (Log → V) → Run A → Type 0
Keeps view m = (log : Log) → view (m log).1 ≡ view log

module _ {V : Type 0} (view : Log → V) where
  module _ {A B : Type 0} where
    next-Keeps :
        (o : Outcome A × Log) (f : A → Run B) (log : Log)
        → view o.1 ≡ view log
        → ((a : A) → Keeps view (f a))
        → view (next o f).1 ≡ view log
    next-Keeps (returned a, after) f log h each = each a after ∙ h
    next-Keeps (raised e, after) f log h each = h
    next-Keeps (panicked, after) f log h each = h

    pub bind-Keeps :
        (m : Run A) (f : A → Run B)
        → Keeps view m
        → ((a : A) → Keeps view (f a))
        → Keeps view (m >>= f)
    bind-Keeps m f h each log = next-Keeps (m log) f log (h log) each

    -- What is there before a run that leaves the view as it is.
    pub next-view :
        (o : Outcome A × Log) (f : A → Run B)
        → ((a : A) → Keeps view (f a))
        → view (next o f).1 ≡ view o.1
    next-view (returned a, log) f each = each a log
    next-view (raised e, log) f each = refl
    next-view (panicked, log) f each = refl

  module _ {A : Type 0} where
    pub of_exec-Keeps : (x : Exec A) → Keeps view (of_exec x)
    of_exec-Keeps (done a) log = refl
    of_exec-Keeps panic log = refl

    pub if-Keeps :
        (b : Bool) (m k : Run A) → Keeps view m → Keeps view k → Keeps view (if b then m else k)
    if-Keeps true m k h i = h
    if-Keeps false m k h i = i

-- A run that sends no status and counts no reconciliation.
abbrev pub Quiet : {A : Type 0} → Run A → Type 0
Quiet m = Keeps seen m

module _ {A : Type 0} where
  pub of_exec-Quiet : (x : Exec A) → Quiet (of_exec x)
  of_exec-Quiet = of_exec-Keeps seen

  pub ok_or-Quiet : (o : Option A) (e : ReconcileError) → Quiet (ok_or o e)
  ok_or-Quiet none e log = refl
  ok_or-Quiet (some a) e log = refl

  rename-log : (e : ReconcileError) (o : Outcome A × Log) → (rename e o).1 ≡ o.1
  rename-log e (returned a, log) = refl
  rename-log e (raised f, log) = refl
  rename-log e (panicked, log) = refl

  pub map_err-Quiet : (e : ReconcileError) (m : Run A) → Quiet m → Quiet (map_err e m)
  map_err-Quiet e m h log = ap seen (rename-log e (m log)) ∙ h log

  pub if-Quiet : (b : Bool) (m k : Run A) → Quiet m → Quiet k → Quiet (if b then m else k)
  if-Quiet = if-Keeps seen

  pub Quiet-sent : (m : Run A) → Quiet m → Keeps sent m
  Quiet-sent m h log = ap (λ (p : List RolloutStatus × List String). p.0) (h log)

  pub Quiet-counted : (m : Run A) → Quiet m → Keeps counted m
  Quiet-counted m h log = ap (λ (p : List RolloutStatus × List String). p.1) (h log)

pub or_kube_error-Quiet : (r : Response (Unit {0})) → Quiet (or_kube_error r)
or_kube_error-Quiet (ok u) log = refl
or_kube_error-Quiet (api_error code) log = refl
or_kube_error-Quiet failure log = refl

module _ {A B : Type 0} where
  pub bind-Quiet : (m : Run A) (f : A → Run B) → Quiet m → ((a : A) → Quiet (f a)) → Quiet (m >>= f)
  bind-Quiet = bind-Keeps seen

  -- A run goes on from what it has returned.
  pub bind-returned :
      (m : Run A) (f : A → Run B) (a : A) (log after : Log)
      → m log ≡ (returned a, after)
      → (m >>= f) log ≡ f a after
  bind-returned m f a log after e = ap (λ o. next o f) e

-- Metrics are no statuses.
pub tell_all-sent : (measurements : List Measurement) → Keeps sent (tell_all measurements)
tell_all-sent [] log = refl
tell_all-sent (m ∷ measurements) log = tell_all-sent measurements (measure m ∷ log)

pub recorded-sent :
    (ctx : Context) (measurements : List Measurement) → Keeps sent (recorded ctx measurements)
recorded-sent ctx measurements =
    if-Keeps sent ctx.has_metrics (tell_all measurements) (pure tt) (tell_all-sent measurements)
      (λ log. refl)
