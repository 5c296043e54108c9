-- ===== src/Tls/Startup.antt =====
-- What a replica that starts up serves, and what the cluster then holds.
use kulta.Prelude.{String, ◌≡◌, refl, sym, ap, subst, ◌∙◌, none, some, inl, inr, Bool-cases, ◌==◌}
use kulta.Leader.Api.{Response, ok, api_error, failure}
use kulta.Tls.Api.{Secret, TlsLibraries, TlsApi}
use kulta.Tls.{
  CertificateBundle, Fallible, gave, ◌then◌, bundle_of, ca_bundle_base64, load_from_secret,
  save_to_secret, publish, patched_with, obtain, generate_and_save, generate_certificate_bundle,
  initialize_tls, rollouts_crd, validating_webhook, ca_bundle_path,
}
use kulta.Tls.Kept.{Keeps, then-gave, Fallible-cases, bundle_of-Holds, save_to_secret-Keeps}

module _ (libraries : TlsLibraries) (api : TlsApi libraries) where
  open api use {
    State, stored, ca_bundle, get, patch_crd, patch_webhook, get-ok, patch_crd-ok, patch_crd-stored,
    patch_webhook-stored, patch_webhook-ca_bundle,
  }

  -- What is published of a bundle.
  pub record Published (bundle : CertificateBundle) (s after : State) : Type 0 where
    pub published : String
    pub is_bundle : ca_bundle_base64 libraries bundle ≡ gave published
    pub patches :
        after
        ≡ (patch_webhook validating_webhook ca_bundle_path published
            (patch_crd rollouts_crd published s).1).1

  publish-gave :
      (bundle b : CertificateBundle) (s : State)
      → (publish libraries api bundle s).0 ≡ gave b
      → (bundle ≡ b) × Published bundle s (publish libraries api bundle s).1
  unfolding publish
  publish-gave bundle b s h =
      let (v, e, f) =
        then-gave (ca_bundle_base64 libraries bundle, s) (patched_with libraries api bundle) h in
      (cc, record { published = v; is_bundle = e; patches = ap (λ m. m.1) f })

  pub publish_again :
      (bundle : CertificateBundle) {before after : State} (s : State)
      → Published bundle before after
      → (publish libraries api bundle s).0 ≡ gave bundle
  unfolding publish
  publish_again bundle s p = rw p.is_bundle refl

  pub publish-stored :
      (bundle : CertificateBundle) (s : State) (namespace name : String)
      → stored namespace name (publish libraries api bundle s).1 ≡ stored namespace name s
  unfolding publish
  publish-stored bundle s namespace name =
      elim (Fallible-cases (ca_bundle_base64 libraries bundle)) [
        | inl (v, e) ↦ rw e (
            patch_webhook-stored validating_webhook ca_bundle_path v namespace name
              (patch_crd rollouts_crd v s).1
            ∙ patch_crd-stored rollouts_crd v namespace name s)
        | inr (error, e) ↦ rw e refl
      ]

  bundle_of-some :
      (r : Response (Secret libraries.Bytes)) {b : CertificateBundle}
      → bundle_of libraries r ≡ gave (some b)
      → (secret : Secret libraries.Bytes) × (r ≡ ok secret)
  unfolding bundle_of
  bundle_of-some (ok secret) h = (secret, refl)
  bundle_of-some (api_error code) h = elim (Bool-cases (code == 404)) [
    | inl p ↦ absurd (cc (rw p at h))
    | inr n ↦ absurd (cc (rw n at h))
  ]
  bundle_of-some failure h = cc

  -- How an initialisation that succeeds has come by its bundle.
  pub data Origin (service namespace name : String) (read_at write_at : State)
      (b : CertificateBundle) (before : State) : Type 0 where
    loaded :
        load_from_secret libraries api namespace name read_at ≡ gave (some b)
        → before ≡ write_at
        → Origin service namespace name read_at write_at b before
    generated :
        load_from_secret libraries api namespace name read_at ≡ gave none
        → Keeps libraries api namespace name b before
        → Origin service namespace name read_at write_at b before

  module _ (service namespace name : String) where
    abbrev saved : CertificateBundle → State → Fallible CertificateBundle × State
    saved g s = save_to_secret libraries api namespace name g s then λ u after. (gave g, after)

    saved-Keeps :
        (g : CertificateBundle) (s : State) (b : CertificateBundle)
        → (saved g s).0 ≡ gave b
        → Keeps libraries api namespace name b (saved g s).1
    saved-Keeps g s b h =
        let (u, e, f) = then-gave (save_to_secret libraries api namespace name g s) _ h in
        let same : gave g ≡ gave b = sym (ap (λ m. m.0) f) ∙ h in
        let g-eq-b : g ≡ b = cc same in
        subst (λ c. Keeps libraries api namespace name c (saved g s).1) g-eq-b
          (subst (Keeps libraries api namespace name g) (sym (ap (λ m. m.1) f))
            (save_to_secret-Keeps libraries api namespace name g s u e))

    generated-Keeps :
        (s : State) (b : CertificateBundle)
        → (generate_and_save libraries api service namespace name s).0 ≡ gave b
        → Keeps libraries api namespace name b
            (generate_and_save libraries api service namespace name s).1
    generated-Keeps s b h =
        let (g, e, f) =
          then-gave (generate_certificate_bundle libraries api service namespace s) saved h in
        let after = (generate_certificate_bundle libraries api service namespace s).1 in
        subst (λ m. Keeps libraries api namespace name b m.1) (sym f)
          (saved-Keeps g after b (sym (ap (λ m. m.0) f) ∙ h))

    -- What the bundle was before it was published.
    abbrev pub obtained : State → State → Fallible CertificateBundle × State
    obtained read_at write_at =
        (load_from_secret libraries api namespace name read_at, write_at)
        then obtain libraries api service namespace name

    obtained-Origin :
        (read_at write_at : State) (b : CertificateBundle)
        → (obtained read_at write_at).0 ≡ gave b
        → Origin service namespace name read_at write_at b (obtained read_at write_at).1
    obtained-Origin read_at write_at b h =
        elim (Fallible-cases (load_from_secret libraries api namespace name read_at)) [
          | inl (some c, e) ↦
              let same : gave c ≡ gave b = rw e at h in
              let c-eq-b : c ≡ b = cc same in
              loaded (e ∙ ap (λ x. gave (some x)) c-eq-b) (rw e refl)
          | inl (none, e) ↦ generated e (rw e (generated-Keeps write_at b (rw e at h)))
          | inr (error, e) ↦ absurd (cc (rw e at h))
        ]

    -- An initialisation that succeeds: where its bundle is from, and that it is published.
    pub initialize_tls-Origin :
        (read_at write_at : State) (b : CertificateBundle)
        → (initialize_tls libraries api service namespace name read_at write_at).0 ≡ gave b
        → Origin service namespace name read_at write_at b (obtained read_at write_at).1
          × Published b
              (obtained read_at write_at).1
              (initialize_tls libraries api service namespace name read_at write_at).1
    unfolding initialize_tls
    initialize_tls-Origin read_at write_at b h =
        let (c, e, f) = then-gave (obtained read_at write_at) (publish libraries api) h in
        let (c-eq-b, p) =
          publish-gave c b (obtained read_at write_at).1 (sym (ap (λ m. m.0) f) ∙ h) in
        (
          obtained-Origin read_at write_at b (e ∙ ap gave c-eq-b),
          subst (λ m. Published b (obtained read_at write_at).1 m.1) (sym f)
              (subst
                (λ d.
                  Published d (obtained read_at write_at).1
                    (publish libraries api c (obtained read_at write_at).1).1)
                c-eq-b p),
        )

    pub Published-stored :
        {b : CertificateBundle} {before after : State}
        → Published b before after
        → (other_namespace other : String)
        → stored other_namespace other after ≡ stored other_namespace other before
    Published-stored {before} p other_namespace other =
        ap (stored other_namespace other) p.patches
        ∙ patch_webhook-stored validating_webhook ca_bundle_path p.published other_namespace other
            (patch_crd rollouts_crd p.published before).1
        ∙ patch_crd-stored rollouts_crd p.published other_namespace other before

    -- A read that answers finds what is kept.
    pub load-Keeps :
        (b : CertificateBundle) (s : State) {secret : Secret libraries.Bytes}
        → Keeps libraries api namespace name b s
        → get namespace name s ≡ ok secret
        → load_from_secret libraries api namespace name s ≡ gave (some b)
    unfolding load_from_secret
    load-Keeps b s {secret} (kept, e, h) g =
        let same : kept ≡ secret = cc (e, get-ok g) in
        ap (bundle_of libraries) g
        ∙ ap (λ k. bundle_of libraries (ok k)) (sym same)
        ∙ bundle_of-Holds libraries kept b h

    -- A state that stores what another stores is read alike.
    pub load-same :
        (s t : State) {b : CertificateBundle} {later : Secret libraries.Bytes}
        → stored namespace name t ≡ stored namespace name s
        → load_from_secret libraries api namespace name s ≡ gave (some b)
        → get namespace name t ≡ ok later
        → load_from_secret libraries api namespace name t ≡ gave (some b)
    unfolding load_from_secret
    load-same s t {later} same h g =
        let (secret, e) = bundle_of-some (get namespace name s) h in
        let secret-eq-later : secret ≡ later = cc (get-ok e, get-ok g, same) in
        ap (bundle_of libraries) g
        ∙ ap (λ k. bundle_of libraries (ok k)) (sym secret-eq-later)
        ∙ sym (ap (bundle_of libraries) e)
        ∙ h
