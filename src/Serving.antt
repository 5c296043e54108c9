-- ===== src/Serving.antt =====
-- server/health.rs: the routes of the controller's HTTP server and the probes among them. axum, which
-- picks the route and reads the requests, is another library: a path that has no route is not found,
-- and a route takes one method only.
pub mod Measures
use Prim.Native.String.{◌++◌}
use kulta.Prelude.{ℕ, String, Bool, true, false, Option, none, some, str_eq, if◌then◌else◌}

-- `ReadinessState`, an atomic flag.
abbrev pub ReadinessState : Type 0
ReadinessState = Bool

abbrev pub new : ReadinessState
new = false

abbrev pub set_ready : ReadinessState → ReadinessState
set_ready readiness = true

abbrev pub set_not_ready : ReadinessState → ReadinessState
set_not_ready readiness = false

abbrev pub is_ready : ReadinessState → Bool
is_ready readiness = readiness

pub record Answer : Type 0 where
  pub code : ℕ
  pub content_type : Option String
  pub body : String

-- An answer that is a `StatusCode`.
abbrev pub bare : ℕ → Answer
bare code = record { code = code; content_type = none; body = "" }

pub data Method : Type 0 where
  get post other_method : Method

pub data Route : Type 0 where
  healthz readyz metrics convert validate not_found : Route

unfoldable pub route_of : String → Route
route_of path =
    if str_eq path "/healthz"
    then healthz
    else if str_eq path "/readyz"
    then readyz
    else if str_eq path "/metrics"
    then metrics
    else if str_eq path "/convert"
    then convert
    else if str_eq path "/validate"
    then validate
    else not_found

-- `metrics.encode()`: the text, or the error as text.
pub data Encoded : Type 0 where
  text : String → Encoded
  encoding_error : String → Encoded

abbrev pub metrics_answer : Encoded → Answer
metrics_answer (text body) = record {
  code = 200;
  content_type = some "text/plain; version=0.0.4; charset=utf-8";
  body = body;
}
metrics_answer (encoding_error e) = record {
  code = 500;
  content_type = none;
  body = "Failed to encode metrics: " ++ e;
}

abbrev pub readyz_answer : ReadinessState → Answer
readyz_answer readiness = if is_ready readiness then bare 200 else bare 503

-- `build_router`; `webhook` is what the handlers of the two webhooks answer.
module _ (webhook : Route → Answer) where
  unfoldable pub answer : ReadinessState → Encoded → Route → Method → Answer
  answer readiness encoded healthz get = bare 200
  answer readiness encoded readyz get = readyz_answer readiness
  answer readiness encoded metrics get = metrics_answer encoded
  answer readiness encoded convert post = webhook convert
  answer readiness encoded validate post = webhook validate
  answer readiness encoded not_found method = bare 404
  answer readiness encoded healthz method = bare 405
  answer readiness encoded readyz method = bare 405
  answer readiness encoded metrics method = bare 405
  answer readiness encoded convert method = bare 405
  answer readiness encoded validate method = bare 405
