-- ===== src/Webhook/Admission.antt =====
-- server/webhook.rs: the admission of an object. The reading of a Rollout from JSON is serde_json's.
use Prim.Native.String.{◌++◌}
use kulta.Prelude.{
  String, Bool, true, false, ◌||◌, not, Option, none, some, str_eq, if◌then◌else◌, Exec, done,
  ◌>>=◌,
}
use kulta.Prelude.Int.{ℤ, pos}
use kulta.Crd.{Rollout}
use kulta.Validation.{Verdict, valid, invalid, validate_rollout}
use kulta.Webhook.{Json}

pub record GroupVersionKind : Type 0 where
  pub group : String
  pub version : String
  pub kind : String

pub record AdmissionRequest : Type 0 where
  pub uid : String
  pub kind : GroupVersionKind
  pub name : Option String
  pub namespace : Option String
  pub operation : String
  pub object : Json

pub record AdmissionStatus : Type 0 where
  pub code : Option ℤ
  pub message : Option String

pub record AdmissionResponse : Type 0 where
  pub uid : String
  pub allowed : Bool
  pub status : Option AdmissionStatus

-- `Result` of `serde_json::from_value`, the error as text.
pub data Parsed : Type 0 where
  rollout : Rollout → Parsed
  unreadable : String → Parsed

abbrev pub allowed_response : String → AdmissionResponse
allowed_response uid = record { uid = uid; allowed = true; status = none }

abbrev pub admission_of : String → Verdict → AdmissionResponse
admission_of uid valid = allowed_response uid
admission_of uid (invalid e) = record {
  uid = uid;
  allowed = false;
  status = some (record { code = some (pos 400); message = some e });
}

abbrev pub verdict_of : Parsed → Exec Verdict
verdict_of (rollout r) = validate_rollout r
verdict_of (unreadable e) = done (invalid ("Failed to parse Rollout: " ++ e))

module _ (from_value : Json → Parsed) where
  unfoldable pub validate_rollout_from_json : Json → Exec Verdict
  validate_rollout_from_json obj = verdict_of (from_value obj)

  unfoldable pub validate_admission : AdmissionRequest → Exec AdmissionResponse
  validate_admission request =
      if not (str_eq request.kind.kind "Rollout") || not (str_eq request.kind.group "kulta.io")
      then done (allowed_response request.uid)
      else do
        verdict ← validate_rollout_from_json request.object
        done (admission_of request.uid verdict)
