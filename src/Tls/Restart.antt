-- ===== src/Tls/Restart.antt =====
-- A replica that starts again, and two that start at once.
use kulta.Prelude.{String, ◌≡◌, refl, sym, ap, subst, ◌∙◌, ◌⊎◌, inl, inr, none, some}
use kulta.Leader.Api.{Response, ok, api_error, failure}
use kulta.Tls.Api.{Secret, TlsLibraries, TlsApi}
use kulta.Tls.{
  CertificateBundle, gave, ca_bundle_base64, load_from_secret, initialize_tls, rollouts_crd,
  validating_webhook, ca_bundle_path,
}
use kulta.Tls.Kept.{Keeps}
use kulta.Tls.Startup.{
  Published, loaded, generated, publish_again, publish-stored, Published-stored, load-Keeps,
  load-same, initialize_tls-Origin,
}

abbrev pub IsRefused : Response (Unit {0}) → Type 0
IsRefused (ok u) = ⊥
IsRefused (api_error code) = Unit
IsRefused failure = Unit

module _ (libraries : TlsLibraries) (api : TlsApi libraries) where
  open api use {
    State, stored, ca_bundle, get, patch_crd, patch_webhook, patch_crd-ok, patch_webhook-ca_bundle,
  }

  module _ (service namespace name : String) where
    served_again :
        (s : State) (b : CertificateBundle) {later : Secret libraries.Bytes}
        → (initialize_tls libraries api service namespace name s s).0 ≡ gave b
        → get namespace name (initialize_tls libraries api service namespace name s s).1 ≡ ok later
        → load_from_secret libraries api namespace name
            (initialize_tls libraries api service namespace name s s).1
          ≡ gave (some b)
    served_again s b h g =
        let (origin, p) = initialize_tls-Origin libraries api service namespace name s s b h in
        let after = (initialize_tls libraries api service namespace name s s).1 in
        let same = Published-stored libraries api service namespace name p namespace name in
        elim origin [
          | loaded e f ↦
              load-same libraries api service namespace name s after
                (same ∙ ap (stored namespace name) f) e g
          | generated e (kept, i, held) ↦
              load-Keeps libraries api service namespace name b after (kept, same ∙ i, held) g
        ]

    -- A replica that starts where the secret holds a bundle, whatever the moment, serves it and
    -- leaves every secret as it is.
    initialize_tls-loaded :
        (read_at t : State) (b : CertificateBundle) {before after : State}
        → load_from_secret libraries api namespace name read_at ≡ gave (some b)
        → Published libraries api b before after
        → ((initialize_tls libraries api service namespace name read_at t).0 ≡ gave b)
          × ((other_namespace other : String)
              → stored other_namespace other
                  (initialize_tls libraries api service namespace name read_at t).1
                ≡ stored other_namespace other t)
    unfolding initialize_tls
    initialize_tls-loaded read_at t b e p = rw e (
      publish_again libraries api b t p,
      λ other_namespace other. publish-stored libraries api b t other_namespace other,
    )

    -- A replica that has started, where nobody else wrote meanwhile, has its certificates kept: if
    -- the secret can be read afterwards, a replica that starts then serves the same ones, whatever
    -- has happened since it has read them, and changes no secret.
    pub initialize_tls-again :
        (s t : State) (b : CertificateBundle) {later : Secret libraries.Bytes}
        → (initialize_tls libraries api service namespace name s s).0 ≡ gave b
        → get namespace name (initialize_tls libraries api service namespace name s s).1 ≡ ok later
        → let restarted =
            initialize_tls libraries api service namespace name
              (initialize_tls libraries api service namespace name s s).1
              t in
          (restarted.0 ≡ gave b)
          × ((other_namespace other : String)
              → stored other_namespace other restarted.1 ≡ stored other_namespace other t)
    initialize_tls-again s t b h g =
        initialize_tls-loaded (initialize_tls libraries api service namespace name s s).1 t b
          (served_again s b h g)
          (initialize_tls-Origin libraries api service namespace name s s b h).1

    -- The bundle's authority was published: the definition of the resource has it, or the API
    -- server refused that patch. `before` is the state in which it was sent.
    abbrev pub Announced : CertificateBundle → State → Type 0
    Announced b after =
        (v : String) × (before : State) × (ca_bundle_base64 libraries b ≡ gave v)
        × (after
            ≡ (patch_webhook validating_webhook ca_bundle_path v
                (patch_crd rollouts_crd v before).1).1)
        × ((ca_bundle rollouts_crd after ≡ some v) ⊎ IsRefused (patch_crd rollouts_crd v before).0)

    announced_by :
        (v : String) (before : State) (r : Response (Unit {0}))
        → (patch_crd rollouts_crd v before).0 ≡ r
        → (ca_bundle rollouts_crd (patch_crd rollouts_crd v before).1 ≡ some v)
          ⊎ IsRefused (patch_crd rollouts_crd v before).0
    announced_by v before (ok u) e = inl (patch_crd-ok e)
    announced_by v before (api_error code) e = inr (subst IsRefused (sym e) tt)
    announced_by v before failure e = inr (subst IsRefused (sym e) tt)

    Published-Announced :
        {b : CertificateBundle} {before after : State}
        → Published libraries api b before after
        → Announced b after
    Published-Announced {before} p = (
      p.published,
      before,
      p.is_bundle,
      p.patches,
      elim (announced_by p.published before (patch_crd rollouts_crd p.published before).0 refl) [
        | inl e ↦ inl (
            ap (ca_bundle rollouts_crd) p.patches
            ∙ patch_webhook-ca_bundle validating_webhook ca_bundle_path p.published rollouts_crd
                (patch_crd rollouts_crd p.published before).1
            ∙ e)
        | inr refused ↦ inr refused
      ],
    )

    generated_kept :
        (read_at write_at : State) (b : CertificateBundle)
        → load_from_secret libraries api namespace name read_at ≡ gave none
        → (initialize_tls libraries api service namespace name read_at write_at).0 ≡ gave b
        → Keeps libraries api namespace name b
            (initialize_tls libraries api service namespace name read_at write_at).1
    generated_kept read_at write_at b e h =
        let (origin, p) =
          initialize_tls-Origin libraries api service namespace name read_at write_at b h in
        elim origin [
          | loaded f g ↦ absurd (cc (e, f))
          | generated f (kept, i, held) ↦ (
            kept,
            Published-stored libraries api service namespace name p namespace name ∙ i,
            held,
          )
        ]

    -- Of two replicas that start up and both find no secret, the first keeps the bundle that it
    -- serves, and the second, which writes later, puts its own in its place: the secret holds the
    -- second's, while the first still serves its own. The definition of the resource has the
    -- authority of the second's, unless the API server refuses that patch, which fails neither.
    pub initialize_tls-race :
        (first_read second_read s : State) (first second : CertificateBundle)
        → load_from_secret libraries api namespace name first_read ≡ gave none
        → load_from_secret libraries api namespace name second_read ≡ gave none
        → let one = initialize_tls libraries api service namespace name first_read s in
          let other = initialize_tls libraries api service namespace name second_read one.1 in
          one.0 ≡ gave first
          → other.0 ≡ gave second
          → Keeps libraries api namespace name first one.1
            × Keeps libraries api namespace name second other.1
            × Announced second other.1
    initialize_tls-race first_read second_read s first second e f g h = (
      generated_kept first_read s first e g,
      generated_kept second_read _ second f h,
      Published-Announced
          (initialize_tls-Origin libraries api service namespace name second_read _ second h).1,
    )
