-- ===== src/Webhook/Admitted.antt =====
-- What is admitted is what a reconciliation accepts.
use kulta.Prelude.{
  ◌≡◌, refl, sym, ap, subst, ◌∙◌, ◌↔◌, String, Bool, true, false, ◌||◌, not, str_eq, Exec, done,
  panic, ◌>>=◌, if◌then◌else◌,
}
use kulta.Crd.{Rollout}
use kulta.Validation.{Verdict, valid, invalid, validate_rollout}
use kulta.Webhook.{Json}
use kulta.Webhook.Admission.{
  AdmissionRequest, AdmissionResponse, Parsed, rollout, allowed_response, admission_of, verdict_of,
  validate_rollout_from_json, validate_admission,
}

-- The response is there, and it admits the object.
abbrev pub Admitted : Exec AdmissionResponse → Type 0
Admitted answer =
    (response : AdmissionResponse) × (answer ≡ done response) × (response.allowed ≡ true)

abbrev answered : String → Exec Verdict → Exec AdmissionResponse
answered uid verdict = verdict >>= λ v. done (admission_of uid v)

abbrev allowed_of : Exec AdmissionResponse → Bool
allowed_of (done response) = response.allowed
allowed_of panic = false

Admitted-allowed_of : (answer : Exec AdmissionResponse) → Admitted answer → allowed_of answer ≡ true
Admitted-allowed_of answer (response, e, a) = ap allowed_of e ∙ a

answered-Admitted :
    (uid : String) (verdict : Exec Verdict)
    → Admitted (answered uid verdict) ↔ (verdict ≡ done valid)
answered-Admitted uid (done valid) = (λ a. refl, λ e. (allowed_response uid, refl, refl))
answered-Admitted uid (done (invalid m)) =
    (λ a. absurd (cc (Admitted-allowed_of _ a)), λ e. absurd (cc e))
answered-Admitted uid panic = (λ a. absurd (cc (Admitted-allowed_of _ a)), λ e. absurd (cc e))

-- A request for a Rollout of kulta.io whose object can be read is admitted exactly if the rollout
-- passes the validation, the one that a reconciliation makes.
pub validate_admission-Admitted :
    (from_value : Json → Parsed) (request : AdmissionRequest) (r : Rollout)
    → str_eq request.kind.kind "Rollout" ≡ true
    → str_eq request.kind.group "kulta.io" ≡ true
    → from_value request.object ≡ rollout r
    → Admitted (validate_admission from_value request) ↔ (validate_rollout r ≡ done valid)
unfolding validate_admission validate_rollout_from_json
validate_admission-Admitted from_value request r k g e =
    let same : validate_admission from_value request ≡ answered request.uid (validate_rollout r) =
      ap
        (λ b.
          if not b || not (str_eq request.kind.group "kulta.io")
          then done (allowed_response request.uid)
          else answered request.uid (verdict_of (from_value request.object)))
        k
      ∙ ap
          (λ b.
            if not b
            then done (allowed_response request.uid)
            else answered request.uid (verdict_of (from_value request.object)))
          g
      ∙ ap (λ p. answered request.uid (verdict_of p)) e in
    let core = answered-Admitted request.uid (validate_rollout r) in
    (λ a. core.0 (subst Admitted same a), λ v. subst Admitted (sym same) (core.1 v))
