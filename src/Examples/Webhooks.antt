-- ===== src/Examples/Webhooks.antt =====
-- The theorems on the webhook, at an object and at a request.
use kulta.Prelude.{◌≡◌, refl, done, ◌↔◌, none, some, [], ◌∷◌}
use kulta.Validation.{valid, validate_rollout}
use kulta.Webhook.Admission.{AdmissionRequest, rollout, validate_admission}
use kulta.Webhook.Admitted.{Admitted, validate_admission-Admitted}
use kulta.Examples.{plain_canary, rollout_of}
use kulta.Webhook.{
  text, object, Members, nil, field, find, converted, convert_object, extract_version,
  convert_rollout, convert_objects, object_context,
}
use kulta.Webhook.Handlers.{
  ConversionReview, ConversionReviewResponse, Answers, handle_convert, handle_convert-Answers,
}
use kulta.Webhook.Lost.{Defaulted, convert_object-Defaulted}

abbrev half_surge : Members
half_surge = field "maxSurge" (text "50%") nil

abbrev stored : Members
stored = field "apiVersion" (text "kulta.io/v1beta1") (field "spec" (object half_surge) nil)

convert_object-Defaulted_example :
    (between : Members) × (after : Members) × (convert_object (object stored) "v1alpha1"
      ≡ done (converted (object between)))
    × (convert_object (object between) "v1beta1" ≡ done (converted (object after)))
    × Defaulted after
unfolding find
convert_object-Defaulted_example = convert_object-Defaulted stored half_surge refl refl

abbrev creation : AdmissionRequest
creation = record {
  uid = "7";
  kind = record { group = "kulta.io"; version = "v1beta1"; kind = "Rollout" };
  name = none;
  namespace = none;
  operation = "CREATE";
  object = object stored;
}

validate_admission-Admitted_example :
    Admitted (validate_admission (λ json. rollout (rollout_of plain_canary none)) creation)
    ↔ (validate_rollout (rollout_of plain_canary none) ≡ done valid)
validate_admission-Admitted_example =
    validate_admission-Admitted (λ json. rollout (rollout_of plain_canary none)) creation
      (rollout_of plain_canary none) refl refl refl

abbrev review : ConversionReview
review = record {
  api_version = "apiextensions.k8s.io/v1";
  kind = "ConversionReview";
  request = record {
    uid = "7";
    desired_api_version = "kulta.io/v1beta1";
    objects = object stored ∷ text "no object" ∷ [];
  };
}

abbrev refusal : ConversionReviewResponse
refusal = record {
  api_version = "apiextensions.k8s.io/v1";
  kind = "ConversionReview";
  response = record { uid = "7"; message = some "Missing apiVersion"; converted_objects = [] };
}

refused_review : handle_convert review ≡ done refusal
unfolding handle_convert convert_rollout convert_objects convert_object find extract_version
    object_context
refused_review = refl

handle_convert-Answers_example :
    Answers "7"
      (extract_version "kulta.io/v1beta1")
      (object stored ∷ text "no object" ∷ [])
      refusal.response
handle_convert-Answers_example = handle_convert-Answers review refusal refused_review
