-- ===== src/Webhook/Handlers.antt =====
-- server/webhook.rs: the reviews around the conversion and the admission, and what a conversion of
-- several objects makes of them.
use Prim.Native.String.{◌++◌}
use kulta.Prelude.{
  ◌≡◌, refl, sym, ap, subst, ◌⊎◌, inl, inr, arith, String, ◌&&◌, not, Option, none, some, List, [],
  ◌∷◌, Exec, done, panic, ◌>>=◌, Bool-cases, str_eq, is_some, if◌then◌else◌,
}
use kulta.Webhook.{
  Json, Conversion, converted, refused, convert_object, ConversionRequest, ConversionResponse,
  failed, prepend, with_object, convert_objects, convert_rollout, extract_version,
}
use kulta.Webhook.Admission.{AdmissionRequest, AdmissionResponse, Parsed, validate_admission}

pub record ConversionReview : Type 0 where
  pub api_version : String
  pub kind : String
  pub request : ConversionRequest

pub record ConversionReviewResponse : Type 0 where
  pub api_version : String
  pub kind : String
  pub response : ConversionResponse

pub record AdmissionReview : Type 0 where
  pub api_version : String
  pub kind : String
  pub request : AdmissionRequest

pub record AdmissionReviewResponse : Type 0 where
  pub api_version : String
  pub kind : String
  pub response : AdmissionResponse

-- The handlers answer with the status 200.
unfoldable pub handle_convert : ConversionReview → Exec ConversionReviewResponse
handle_convert review = convert_rollout review.request >>= λ response. done (record {
  api_version = "apiextensions.k8s.io/v1";
  kind = "ConversionReview";
  response = response;
})

unfoldable pub handle_validate : (Json → Parsed) → AdmissionReview → Exec AdmissionReviewResponse
handle_validate from_value review = validate_admission from_value review.request >>= λ response.
    done (record {
      api_version = "admission.k8s.io/v1";
      kind = "AdmissionReview";
      response = response;
    })

-- Every object has been converted to the version, in the order of the objects.
pub data AllConverted (version : String) : List Json → List Json → Type 0 where
  none_left : AllConverted version [] []
  one_more :
      {obj new : Json} {objs news : List Json}
      → convert_object obj version ≡ done (converted new)
      → AllConverted version objs news
      → AllConverted version (obj ∷ objs) (new ∷ news)

-- All of the objects, or a message and none.
abbrev pub AllOrNothing : String → List Json → ConversionResponse → Type 0
AllOrNothing version objs response =
    ((response.message ≡ none) × AllConverted version objs response.converted_objects)
    ⊎ ((message : String) × (response.message ≡ some message) × (response.converted_objects ≡ []))

abbrev pub Answers : String → String → List Json → ConversionResponse → Type 0
Answers uid version objs response = (response.uid ≡ uid) × AllOrNothing version objs response

module _ (uid version : String) where
  failed-Answers :
      (message : String) (objs : List Json) (response : ConversionResponse)
      → failed uid message ≡ response
      → Answers uid version objs response
  failed-Answers message objs response e =
      subst (Answers uid version objs) e (refl, inr (message, refl, refl))

  prepend-Answers :
      (obj new : Json) (objs : List Json) (later : ConversionResponse)
      → convert_object obj version ≡ done (converted new)
      → Answers uid version objs later
      → Answers uid version (obj ∷ objs) (prepend new later)
  prepend-Answers obj new objs later e (u, inl (n, all)) =
      let whole = record later { converted_objects = new ∷ later.converted_objects } in
      subst (Answers uid version (obj ∷ objs))
        (sym (ap (λ (o : Option String). if is_some o then later else whole) n))
        (u, inl (n, one_more e all))
  prepend-Answers obj new objs later e (u, inr (message, m, empty)) =
      let whole = record later { converted_objects = new ∷ later.converted_objects } in
      subst (Answers uid version (obj ∷ objs))
        (sym (ap (λ (o : Option String). if is_some o then later else whole) m))
        (u, inr (message, m, empty))

  rest-Answers :
      (obj new : Json) (objs : List Json) (rest : Exec ConversionResponse)
      (response : ConversionResponse)
      → convert_object obj version ≡ done (converted new)
      → ((later : ConversionResponse) → rest ≡ done later → Answers uid version objs later)
      → (rest >>= λ later. done (prepend new later)) ≡ done response
      → Answers uid version (obj ∷ objs) response
  rest-Answers obj new objs (done later) response e each h =
      let same : prepend new later ≡ response = cc h in
      subst (Answers uid version (obj ∷ objs)) same
        (prepend-Answers obj new objs later e (each later refl))
  rest-Answers obj new objs panic response e each h = cc

  object-Answers :
      (obj : Json) (objs : List Json) (c : Exec Conversion) (rest : Exec ConversionResponse)
      (response : ConversionResponse)
      → convert_object obj version ≡ c
      → ((later : ConversionResponse) → rest ≡ done later → Answers uid version objs later)
      → (c >>= λ conversion. with_object uid conversion rest) ≡ done response
      → Answers uid version (obj ∷ objs) response
  object-Answers obj objs (done (converted new)) rest response e each h =
      rest-Answers obj new objs rest response e each h
  object-Answers obj objs (done (refused message)) rest response e each h =
      failed-Answers message (obj ∷ objs) response (cc h)
  object-Answers obj objs panic rest response e each h = cc

  convert_objects-Answers :
      (objs : List Json) (response : ConversionResponse)
      → convert_objects uid version objs ≡ done response
      → Answers uid version objs response
  unfolding convert_objects
  convert_objects-Answers [] response h =
      let empty : ConversionResponse = record {
        uid = uid;
        message = none;
        converted_objects = [];
      } in
      let same : empty ≡ response = cc h in
      subst (Answers uid version []) same (refl, inl (refl, none_left))
  convert_objects-Answers (obj ∷ objs) response h =
      object-Answers obj objs (convert_object obj version) (convert_objects uid version objs)
        response refl (convert_objects-Answers objs) h

convert_rollout-Answers :
    (request : ConversionRequest) (response : ConversionResponse)
    → convert_rollout request ≡ done response
    → Answers request.uid (extract_version request.desired_api_version) request.objects response
unfolding convert_rollout
convert_rollout-Answers request response h =
    let version = extract_version request.desired_api_version in
    elim (Bool-cases (not (str_eq version "v1alpha1") && not (str_eq version "v1beta1"))) [
      | inl p ↦
          failed-Answers request.uid version ("Unsupported API version: " ++ version)
            request.objects response (cc (rw p at h))
      | inr n ↦ convert_objects-Answers request.uid version request.objects response (rw n at h)
    ]

-- A review that is answered carries the identifier of its request, and either every object, in its
-- order, converted to the version that was asked for, or a message and no object.
pub handle_convert-Answers :
    (review : ConversionReview) (answer : ConversionReviewResponse)
    → handle_convert review ≡ done answer
    → Answers review.request.uid
        (extract_version review.request.desired_api_version)
        review.request.objects
        answer.response
unfolding handle_convert
handle_convert-Answers review answer h = answered (convert_rollout review.request) refl h
  where
    answered :
        (x : Exec ConversionResponse)
        → convert_rollout review.request ≡ x
        → (x >>= λ response. done (record {
          api_version = "apiextensions.k8s.io/v1";
          kind = "ConversionReview";
          response = response;
        }))
          ≡ done answer
        → Answers review.request.uid
            (extract_version review.request.desired_api_version)
            review.request.objects
            answer.response
    answered (done response) e g =
        let same : response ≡ answer.response = ground arith in
        subst
          (Answers review.request.uid (extract_version review.request.desired_api_version)
            review.request.objects)
          same (convert_rollout-Answers review.request response e)
    answered panic e g = cc
