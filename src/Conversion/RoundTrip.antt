-- ===== src/Conversion/RoundTrip.antt =====
-- Converting a specification there and back.
use kulta.Prelude.{◌≡◌, refl, sym, ◌∙◌, ap, ◌≢◌, ◌↔◌, arith, Option, none, some}
use kulta.Prelude.Int.{pos}
use kulta.Crd.{RolloutSpec, Rollout, default_advisor_config}
use kulta.Validation.Sound.{IsValid, SurgeIsValid, DeadlineIsValid}
use kulta.Prelude.Parse.{split_last, parse_i32, scan_digits}
use kulta.Conversion.{
  RolloutSpecV1beta1, or, convert_to_v1beta1, convert_to_v1alpha1, default_max_surge,
  default_max_unavailable, default_progress_deadline_seconds,
}

or-some {ℓ} : {A : Type ℓ} (o : Option A) (d : A) → (or o d ≡ o) ↔ (o ≢ none)
or-some none d = (λ h. cc, λ h. absurd (h refl))
or-some (some a) d = (λ h. λ e. cc, λ h. refl)

-- A v1beta1 specification comes back unchanged from v1alpha1 exactly if its three optional fields
-- are set.
convert_to_v1beta1-convert_to_v1alpha1 :
    (spec : RolloutSpecV1beta1)
    → (convert_to_v1beta1 (convert_to_v1alpha1 spec) ≡ spec) ↔ (
        (spec.max_surge ≢ none)
        × (spec.max_unavailable ≢ none)
        × (spec.progress_deadline_seconds ≢ none))
unfolding convert_to_v1beta1 convert_to_v1alpha1
convert_to_v1beta1-convert_to_v1alpha1 spec = (
  λ h. (
    (or-some spec.max_surge _).0 (ap (λ s. s.max_surge) h),
    (or-some spec.max_unavailable _).0 (ap (λ s. s.max_unavailable) h),
    (or-some spec.progress_deadline_seconds _).0 (ap (λ s. s.progress_deadline_seconds) h),
  ),
  λ (a, b, c).
      rw
        (
          (or-some spec.max_surge _).1 a,
          (or-some spec.max_unavailable _).1 b,
          (or-some spec.progress_deadline_seconds _).1 c,
        )
        refl,
)

or_twice {ℓ} : {A : Type ℓ} (o : Option A) (d : A) → or (or o d) d ≡ or o d
or_twice none d = refl
or_twice (some a) d = refl

or-IsValid {ℓ κ} :
    {A : Type ℓ} (P : Option A → Type κ) (o : Option A) {d : A} → P o → P (some d) → P (or o d)
or-IsValid P none v w = w
or-IsValid P (some a) v w = v

pub percent_default : SurgeIsValid (some default_max_surge)
unfolding split_last parse_i32 scan_digits
percent_default = (pos 25, refl, ground arith)

absolute_default : SurgeIsValid (some default_max_unavailable)
unfolding split_last parse_i32 scan_digits
absolute_default = (pos 0, refl, ground arith)

-- What is left of a v1alpha1 specification that goes to v1beta1 and back.
abbrev pub stored : RolloutSpec → RolloutSpec
stored spec = convert_to_v1alpha1 (convert_to_v1beta1 spec)

stored_lem :
    (spec : RolloutSpec)
    → stored spec ≡ record spec {
      max_surge = or spec.max_surge default_max_surge;
      max_unavailable = or spec.max_unavailable default_max_unavailable;
      progress_deadline_seconds =
          or spec.progress_deadline_seconds default_progress_deadline_seconds;
      advisor = default_advisor_config;
    }
unfolding convert_to_v1beta1 convert_to_v1alpha1
stored_lem spec = refl

stored_twice : (spec : RolloutSpec) → stored (stored spec) ≡ stored spec
unfolding convert_to_v1beta1 convert_to_v1alpha1
stored_twice spec =
    rw
      (
        or_twice spec.max_surge default_max_surge,
        or_twice spec.max_unavailable default_max_unavailable,
        or_twice spec.progress_deadline_seconds default_progress_deadline_seconds,
      )
      refl

-- A v1alpha1 specification that goes to v1beta1 and back is unchanged exactly if its surge, its
-- unavailability and its deadline are set and its advisor is the default one. In any case everything
-- else is kept, those of the three that are set too, and the others have their defaults; and a second
-- round changes nothing.
pub convert_to_v1alpha1-convert_to_v1beta1 :
    (spec : RolloutSpec)
    → ((stored spec ≡ spec) ↔ (
        (spec.max_surge ≢ none)
        × (spec.max_unavailable ≢ none)
        × (spec.progress_deadline_seconds ≢ none)
        × (spec.advisor ≡ default_advisor_config)))
      × (stored spec ≡ record spec {
        max_surge = or spec.max_surge default_max_surge;
        max_unavailable = or spec.max_unavailable default_max_unavailable;
        progress_deadline_seconds =
            or spec.progress_deadline_seconds default_progress_deadline_seconds;
        advisor = default_advisor_config;
      })
      × (stored (stored spec) ≡ stored spec)
convert_to_v1alpha1-convert_to_v1beta1 spec = (
  (
    λ h.
        let same = sym (stored_lem spec) ∙ h in
        (
          (or-some spec.max_surge _).0 (ap (λ s. s.max_surge) same),
          (or-some spec.max_unavailable _).0 (ap (λ s. s.max_unavailable) same),
          (or-some spec.progress_deadline_seconds _).0 (ap (λ s. s.progress_deadline_seconds) same),
          sym (ap (λ s. s.advisor) same),
        ),
    λ (a, b, c, d).
        stored_lem spec
        ∙ rw
            (
              (or-some spec.max_surge default_max_surge).1 a,
              (or-some spec.max_unavailable default_max_unavailable).1 b,
              (or-some spec.progress_deadline_seconds default_progress_deadline_seconds).1 c,
            )
            (ap (λ x. record spec { advisor = x }) (sym d)),
  ),
  stored_lem spec,
  stored_twice spec,
)

-- Converting a specification to v1beta1 and back keeps a valid rollout valid.
pub stored-IsValid :
    (rollout : Rollout) → IsValid rollout → IsValid (record rollout { spec = stored rollout.spec })
unfolding convert_to_v1beta1 convert_to_v1alpha1
stored-IsValid rollout v = record {
  replicas_valid = v.replicas_valid;
  canary_valid = v.canary_valid;
  max_surge_valid =
      or-IsValid SurgeIsValid rollout.spec.max_surge v.max_surge_valid percent_default;
  max_unavailable_valid =
      or-IsValid SurgeIsValid rollout.spec.max_unavailable v.max_unavailable_valid absolute_default;
  deadline_valid =
      or-IsValid DeadlineIsValid rollout.spec.progress_deadline_seconds v.deadline_valid
        (ground arith);
}
