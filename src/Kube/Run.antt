-- ===== src/Kube/Run.antt =====
-- Code that asks the world, and that may fail or panic: the log so far goes in, the outcome and the
-- log afterwards come out.
use kulta.Prelude.{String, ◌∷◌, Exec, done, panic, Option, none, some}
use kulta.Crd.{Recommendation}
use kulta.Leader.Api.{Response, ok}
use kulta.Kube.{
  Request, get_replicaset, query_instant, advise, Log, Server, ReplicaSet, QueryResult,
  AnalysisContext,
}

-- controller/strategies/mod.rs. The texts of other libraries' errors are left out.
pub data StrategyError : Type 0 where
  replicaset_reconciliation_failed traffic_reconciliation_failed : StrategyError
  missing_field : String → StrategyError

-- controller/rollout/reconcile.rs.
pub data ReconcileError : Type 0 where
  kube_error missing_namespace missing_name replicaset_missing_name : ReconcileError
  serialization_error metrics_evaluation_failed : ReconcileError
  validation_error : String → ReconcileError
  strategy_error : StrategyError → ReconcileError

pub data Outcome (A : Type 0) : Type 0 where
  returned : A → Outcome A
  raised : ReconcileError → Outcome A
  panicked : Outcome A

abbrev pub Run : Type 0 → Type 0
Run A = Log → Outcome A × Log

module _ {A : Type 0} where
  abbrev pub pure : A → Run A
  pure a log = (returned a, log)

  abbrev pub raise : ReconcileError → Run A
  raise e log = (raised e, log)

  abbrev pub of_exec : Exec A → Run A
  of_exec (done a) log = (returned a, log)
  of_exec panic log = (panicked, log)

  -- `ok_or`.
  abbrev pub ok_or : Option A → ReconcileError → Run A
  ok_or none e log = (raised e, log)
  ok_or (some a) e log = (returned a, log)

  abbrev pub rename : ReconcileError → Outcome A × Log → Outcome A × Log
  rename e (returned a, log) = (returned a, log)
  rename e (raised f, log) = (raised e, log)
  rename e (panicked, log) = (panicked, log)

  -- `map_err` to one error.
  abbrev pub map_err : ReconcileError → Run A → Run A
  map_err e m log = rename e (m log)

module _ {A B : Type 0} where
  abbrev pub next : Outcome A × Log → (A → Run B) → Outcome B × Log
  next (returned a, log) f = f a log
  next (raised e, log) f = (raised e, log)
  next (panicked, log) f = (panicked, log)

infixl 5 ◌>>=◌ ◌>>◌
abbrev pub ◌>>=◌ : {A B : Type 0} → Run A → (A → Run B) → Run B
(m >>= f) log = next (m log) f

abbrev pub ◌>>◌ : {B : Type 0} → Run (Unit {0}) → Run B → Run B
m >> k = m >>= λ _. k

module _ (server : Server) where
  -- A request to the API, with its response.
  abbrev pub ask : Request → Run (Response Unit)
  ask request log = (returned (server.written log request), request ∷ log)

  abbrev pub ask_replicaset : String → String → Run (Response ReplicaSet)
  ask_replicaset namespace name log =
      (returned (server.found log namespace name), get_replicaset namespace name ∷ log)

  abbrev pub ask_query : String → Run QueryResult
  ask_query query log = (returned (server.queried log query), query_instant query ∷ log)

  abbrev pub ask_advice : AnalysisContext → Run (Option Recommendation)
  ask_advice context log = (returned (server.advised log context), advise context ∷ log)

-- `?` on the response of the API.
abbrev pub or_kube_error : Response Unit → Run (Unit {0})
or_kube_error (ok u) = pure tt
or_kube_error _ = raise kube_error

-- An event or an occurrence: whether it could be sent changes nothing.
abbrev pub tell : Request → Run (Unit {0})
tell request log = (returned tt, request ∷ log)
