-- ===== src/Webhook/Lost.antt =====
-- What the conversion loses.
use package.text.Mathlib.TextEquality.{eq_iff}
use kulta.Prelude.{
  ◌≡◌, refl, ap, ◌∙◌, String, true, false, none, some, and_then, str_eq, inl, inr, Bool-cases, done,
  ◌>>=◌, if◌then◌else◌,
}
use kulta.Webhook.{
  Json, text, other, object, Members, nil, field, find, put, remove, converted, convert_object,
  extract_version, change_found, add_defaults, drop_fields, convert_versioned, as_str,
}

module _ (key : String) where
  same_key : str_eq key key ≡ true
  same_key = (eq_iff key key).1 refl

  find-put : (value : Json) (m : Members) → find key (put key value m) ≡ some value
  unfolding find put
  find-put value nil = rw same_key refl
  find-put value (field k v m) = elim (Bool-cases (str_eq k key)) [
    | inl same ↦ rw same (rw same refl)
    | inr differs ↦ rw (differs, differs) (find-put value m)
  ]

  find-remove : (m : Members) → find key (remove key m) ≡ none
  unfolding find remove
  find-remove nil = refl
  find-remove (field k v m) = elim (Bool-cases (str_eq k key)) [
    | inl same ↦ rw same (find-remove m)
    | inr differs ↦ rw (differs, differs) (find-remove m)
  ]

  -- Another key is left alone.
  module _ (asked : String) (differ : str_eq key asked ≡ false) where
    apart : (k : String) → str_eq k key ≡ true → str_eq k asked ≡ false
    apart k same = rw ((eq_iff k key).0 same) differ

    find-put_other : (value : Json) (m : Members) → find asked (put key value m) ≡ find asked m
    unfolding find put
    find-put_other value nil = rw differ refl
    find-put_other value (field k v m) = elim (Bool-cases (str_eq k key)) [
      | inl same ↦ rw same (rw (apart k same) refl)
      | inr differs ↦
          rw differs (ap (λ o. if str_eq k asked then some v else o) (find-put_other value m))
    ]

    find-remove_other : (m : Members) → find asked (remove key m) ≡ find asked m
    unfolding find remove
    find-remove_other nil = refl
    find-remove_other (field k v m) = elim (Bool-cases (str_eq k key)) [
      | inl same ↦ rw (same, apart k same) (find-remove_other m)
      | inr differs ↦
          rw differs (ap (λ o. if str_eq k asked then some v else o) (find-remove_other m))
    ]

-- The specification after the fields are dropped, and after the defaults are added.
abbrev dropped : Members → Members
dropped spec = remove "progressDeadlineSeconds" (remove "maxUnavailable" (remove "maxSurge" spec))

abbrev defaulted : Members → Members
defaulted spec =
    put "progressDeadlineSeconds" (other "600")
      (put "maxUnavailable" (text "0") (put "maxSurge" (text "25%") spec))

abbrev moved : String → Members → Members → Members
moved api_version spec m = put "spec" (object spec) (put "apiVersion" (text api_version) m)

module _ (s : Members) where
  no_surge : find "maxSurge" (dropped s) ≡ none
  no_surge =
      find-remove_other "progressDeadlineSeconds" "maxSurge" refl
        (remove "maxUnavailable" (remove "maxSurge" s))
      ∙ find-remove_other "maxUnavailable" "maxSurge" refl (remove "maxSurge" s)
      ∙ find-remove "maxSurge" s

  no_unavailable : find "maxUnavailable" (put "maxSurge" (text "25%") (dropped s)) ≡ none
  no_unavailable =
      find-put_other "maxSurge" "maxUnavailable" refl (text "25%") (dropped s)
      ∙ find-remove_other "progressDeadlineSeconds" "maxUnavailable" refl
          (remove "maxUnavailable" (remove "maxSurge" s))
      ∙ find-remove "maxUnavailable" (remove "maxSurge" s)

  no_deadline :
      find "progressDeadlineSeconds"
        (put "maxUnavailable" (text "0") (put "maxSurge" (text "25%") (dropped s)))
      ≡ none
  no_deadline =
      find-put_other "maxUnavailable" "progressDeadlineSeconds" refl (text "0")
        (put "maxSurge" (text "25%") (dropped s))
      ∙ find-put_other "maxSurge" "progressDeadlineSeconds" refl (text "25%") (dropped s)
      ∙ find-remove "progressDeadlineSeconds" (remove "maxUnavailable" (remove "maxSurge" s))

  add_defaults-dropped : add_defaults (object (dropped s)) ≡ done (object (defaulted (dropped s)))
  add_defaults-dropped = rw no_surge (rw no_unavailable (rw no_deadline refl))

module _ (m s : Members) where
  down :
      find "apiVersion" m ≡ some (text "kulta.io/v1beta1")
      → find "spec" m ≡ some (object s)
      → convert_object (object m) "v1alpha1"
        ≡ done (converted (object (moved "kulta.io/v1alpha1" (dropped s) m)))
  unfolding convert_object extract_version
  down v e =
      let found = find-put_other "apiVersion" "spec" refl (text "kulta.io/v1alpha1") m ∙ e in
      let renamed = put "apiVersion" (text "kulta.io/v1alpha1") m in
      ap (λ o. convert_versioned m "v1alpha1" (and_then o as_str)) v
      ∙ ap
          (λ o. change_found (λ spec. done (drop_fields spec)) renamed o >>= λ after.
            done (converted (object after)))
          found

  up :
      find "apiVersion" m ≡ some (text "kulta.io/v1alpha1")
      → find "spec" m ≡ some (object (dropped s))
      → convert_object (object m) "v1beta1"
        ≡ done (converted (object (moved "kulta.io/v1beta1" (defaulted (dropped s)) m)))
  unfolding convert_object extract_version
  up v e =
      let found = find-put_other "apiVersion" "spec" refl (text "kulta.io/v1beta1") m ∙ e in
      let renamed = put "apiVersion" (text "kulta.io/v1beta1") m in
      ap (λ o. convert_versioned m "v1beta1" (and_then o as_str)) v
      ∙ ap (λ o. change_found add_defaults renamed o >>= λ after. done (converted (object after)))
          found
      ∙ ap
          (λ x.
            (x >>= (λ new. done (put "spec" new renamed)))
            >>= (λ after. done (converted (object after))))
          (add_defaults-dropped s)

-- The object of version v1beta1, after the two conversions.
abbrev pub there_and_back : Members → Members → Members
there_and_back m s =
    moved "kulta.io/v1beta1" (defaulted (dropped s)) (moved "kulta.io/v1alpha1" (dropped s) m)

-- The three fields of the specification have their defaults.
abbrev pub Defaulted : Members → Type 0
Defaulted m =
    (spec : Members) × (find "spec" m ≡ some (object spec))
    × (find "maxSurge" spec ≡ some (text "25%"))
    × (find "maxUnavailable" spec ≡ some (text "0"))
    × (find "progressDeadlineSeconds" spec ≡ some (other "600"))

defaulted-Defaulted : (s m : Members) → Defaulted (put "spec" (object (defaulted s)) m)
defaulted-Defaulted s m = (
  defaulted s,
  find-put "spec" (object (defaulted s)) m,
  find-put_other "progressDeadlineSeconds" "maxSurge" refl (other "600") _
      ∙ find-put_other "maxUnavailable" "maxSurge" refl (text "0") _
      ∙ find-put "maxSurge" (text "25%") s,
  find-put_other "progressDeadlineSeconds" "maxUnavailable" refl (other "600") _
      ∙ find-put "maxUnavailable" (text "0") _,
  find-put "progressDeadlineSeconds" (other "600") _,
)

-- An object of version v1beta1 that has an object for a specification is converted to v1alpha1 and
-- back without an error or a panic, and whatever its surge, its unavailability and its deadline were,
-- they are the defaults afterwards.
pub convert_object-Defaulted :
    (m s : Members)
    → find "apiVersion" m ≡ some (text "kulta.io/v1beta1")
    → find "spec" m ≡ some (object s)
    → (between : Members) × (after : Members) × (convert_object (object m) "v1alpha1"
        ≡ done (converted (object between)))
      × (convert_object (object between) "v1beta1" ≡ done (converted (object after)))
      × Defaulted after
convert_object-Defaulted m s v e =
    let between = moved "kulta.io/v1alpha1" (dropped s) m in
    let version =
      find-put_other "spec" "apiVersion" refl (object (dropped s)) _
      ∙ find-put "apiVersion" (text "kulta.io/v1alpha1") m in
    (
      between,
      there_and_back m s,
      down m s v e,
      up between s version (find-put "spec" (object (dropped s)) _),
      defaulted-Defaulted (dropped s) _,
    )
