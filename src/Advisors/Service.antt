-- ===== src/Advisors/Service.antt =====
-- controller/advisor.rs: what an advisor makes of a question. The HTTP client and serde_json are other
-- libraries: their outcome is an argument.
use Prim.Native.String.{String, ◌++◌}
use kulta.Prelude.{ℕ, Bool, zero, suc, leb, ltb, ◌&&◌, if◌then◌else◌}
use kulta.Crd.{Recommendation, RecommendedAction}

pub data AdvisorError : Type 0 where
  unreachable : String → AdvisorError
  invalid_response : String → AdvisorError
  timeout : ℕ → AdvisorError

pub data Advice : Type 0 where
  advised : Recommendation → Advice
  no_advice : AdvisorError → Advice

-- `NoOpAdvisor`. The bits of 0.0 are 0.
abbrev pub no_op_advice : Advice
no_op_advice = advised (record {
  action = RecommendedAction.continue;
  confidence = 0;
  reasoning = "no advisor configured";
})

-- What `response.json()` gives.
pub data Decoded : Type 0 where
  decoded : Recommendation → Decoded
  undecodable : String → Decoded

-- The outcome of the request: the time is over, another error, or a response with its status, its
-- text if it can be read, and what its text decodes to.
pub data Reply : Type 0 where
  timed_out : Reply
  broken : String → Reply
  answered : ℕ → String → Decoded → Reply

-- `body.chars().take(n)`.
unfoldable pub first_chars : ℕ → String → String
first_chars zero s = ""
first_chars (suc n) String.[] = ""
first_chars (suc n) (String.◌∷◌ c s) = String.◌∷◌ c (first_chars n s)

abbrev pub is_success : ℕ → Bool
is_success status = leb 200 status && ltb status 300

abbrev pub of_decoded : Decoded → Advice
of_decoded (decoded recommendation) = advised recommendation
of_decoded (undecodable e) = no_advice (invalid_response e)

-- `HttpAdvisor`, with its timeout in seconds. `show_status` is how the library prints a status.
unfoldable pub http_advice : (ℕ → String) → ℕ → Reply → Advice
http_advice show_status seconds timed_out = no_advice (timeout seconds)
http_advice show_status seconds (broken e) = no_advice (unreachable e)
http_advice show_status seconds (answered status body body_decoded) =
    if is_success status
    then of_decoded body_decoded
    else no_advice
        (invalid_response ("HTTP " ++ show_status status ++ ": " ++ first_chars 200 body))
