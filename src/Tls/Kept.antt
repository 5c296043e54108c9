-- ===== src/Tls/Kept.antt =====
-- What the Secret holds once a replica has its certificates.
use kulta.Prelude.{
  String, ◌≡◌, refl, ap, ◌∙◌, Option, none, some, List, [], lookup, unwrap_or, and_then, ◌⊎◌, inl,
  inr, Bool-cases, ◌==◌,
}
use kulta.Leader.Api.{Response, ok, api_error, failure}
use kulta.Tls.Api.{Secret, entry, TlsLibraries, TlsApi}
use kulta.Tls.{
  CertificateBundle, TlsError, Fallible, gave, failed, secret_ca_cert_key, secret_server_cert_key,
  secret_server_key_key, ◌then◌, or_kube_in, read_bundle, bundle_of, secret_of, after_create,
  save_to_secret,
}

pub Fallible-cases :
    {A : Type 0} (m : Fallible A) → ((a : A) × (m ≡ gave a)) ⊎ ((e : TlsError) × (m ≡ failed e))
Fallible-cases (gave a) = inl (a, refl)
Fallible-cases (failed e) = inr (e, refl)

module _ {State A B : Type 0} where
  -- Inversion of a step that succeeds.
  pub then-gave :
      (m : Fallible A × State) (f : A → State → Fallible B × State) {b : B}
      → (m then f).0 ≡ gave b
      → (a : A) × (m.0 ≡ gave a) × ((m then f) ≡ f a m.1)
  then-gave (gave a, s) f h = (a, refl, refl)
  then-gave (failed e, s) f h = cc

module _ {State : Type 0} where
  or_kube_in-gave :
      (m : Response (Unit {0}) × State) (u : Unit {0})
      → (or_kube_in m).0 ≡ gave u
      → (v : Unit {0}) × (m.0 ≡ ok v) × ((or_kube_in m).1 ≡ m.1)
  or_kube_in-gave (ok v, s) u h = (v, refl, refl)
  or_kube_in-gave (api_error code, s) u h = cc
  or_kube_in-gave (failure, s) u h = cc

module _ (libraries : TlsLibraries) where
  open libraries use {Bytes, as_bytes, from_utf8_lossy, from_utf8_lossy-as_bytes}

  -- A secret holds a bundle.
  pub record Holds (secret : Secret Bytes) (bundle : CertificateBundle) : Type 0 where
    pub ca_held : entry secret_ca_cert_key secret ≡ some (as_bytes bundle.ca_cert_pem)
    pub cert_held : entry secret_server_cert_key secret ≡ some (as_bytes bundle.server_cert_pem)
    pub key_held : entry secret_server_key_key secret ≡ some (as_bytes bundle.server_key_pem)

  texts_back :
      (bundle : CertificateBundle)
      → record {
        ca_cert_pem = from_utf8_lossy (as_bytes bundle.ca_cert_pem);
        server_cert_pem = from_utf8_lossy (as_bytes bundle.server_cert_pem);
        server_key_pem = from_utf8_lossy (as_bytes bundle.server_key_pem);
      }
        ≡ bundle
  texts_back bundle i = record {
    ca_cert_pem = from_utf8_lossy-as_bytes bundle.ca_cert_pem i;
    server_cert_pem = from_utf8_lossy-as_bytes bundle.server_cert_pem i;
    server_key_pem = from_utf8_lossy-as_bytes bundle.server_key_pem i;
  }

  entries-Holds :
      (entries : Option (List (String × Bytes))) (bundle : CertificateBundle)
      → and_then entries (lookup secret_ca_cert_key) ≡ some (as_bytes bundle.ca_cert_pem)
      → and_then entries (lookup secret_server_cert_key) ≡ some (as_bytes bundle.server_cert_pem)
      → and_then entries (lookup secret_server_key_key) ≡ some (as_bytes bundle.server_key_pem)
      → read_bundle libraries (unwrap_or entries []) ≡ gave bundle
  entries-Holds none bundle h i j = cc
  entries-Holds (some entries) bundle h i j = rw (h, i, j) (ap gave (texts_back bundle))

  pub bundle_of-Holds :
      (secret : Secret Bytes) (bundle : CertificateBundle)
      → Holds secret bundle
      → bundle_of libraries (ok secret) ≡ gave (some bundle)
  unfolding bundle_of
  bundle_of-Holds secret bundle h =
      rw (entries-Holds secret.entries bundle h.ca_held h.cert_held h.key_held) refl

  module _ (api : TlsApi libraries) where
    open api use {
      State, stored, get, create, patch, get-ok, create-ok, patch-ok, patch_crd-stored,
      patch_webhook-stored,
    }

    -- The state stores a secret that holds the bundle.
    abbrev pub Keeps : String → String → CertificateBundle → State → Type 0
    Keeps namespace name bundle s =
        (secret : Secret Bytes) × (stored namespace name s ≡ some secret) × Holds secret bundle

    module _ (namespace name : String) (bundle : CertificateBundle) where
      patch-Keeps :
          (s : State) (u : Unit {0})
          → (or_kube_in (patch namespace name (secret_of libraries namespace name bundle) s)).0
            ≡ gave u
          → Keeps namespace name bundle
              (or_kube_in (patch namespace name (secret_of libraries namespace name bundle) s)).1
      patch-Keeps s u h =
          let (v, e, f) =
            or_kube_in-gave (patch namespace name (secret_of libraries namespace name bundle) s) u
              h in
          let (old, new, before, after, merged) = patch-ok e in
          (
            new,
            ap (stored namespace name) f ∙ after,
            record {
              ca_held = merged secret_ca_cert_key;
              cert_held = merged secret_server_cert_key;
              key_held = merged secret_server_key_key;
            },
          )

      after_create-Keeps :
          (m : Response (Unit {0}) × State) (u : Unit {0})
          → ((v : Unit {0}) → m.0 ≡ ok v → Keeps namespace name bundle m.1)
          → (after_create libraries api namespace name
              (secret_of libraries namespace name bundle)
              m).0
            ≡ gave u
          → Keeps namespace name bundle
              (after_create libraries api namespace name
                (secret_of libraries namespace name bundle)
                m).1
      after_create-Keeps (ok v, s) u keep h = keep v refl
      after_create-Keeps (api_error code, s) u keep h = elim (Bool-cases (code == 409)) [
        | inl p ↦ rw p (patch-Keeps s u (rw p at h))
        | inr n ↦ absurd (cc (rw n at h))
      ]
      after_create-Keeps (failure, s) u keep h = cc

      -- A secret that has been saved holds the bundle.
      pub save_to_secret-Keeps :
          (s : State) (u : Unit {0})
          → (save_to_secret libraries api namespace name bundle s).0 ≡ gave u
          → Keeps namespace name bundle (save_to_secret libraries api namespace name bundle s).1
      unfolding save_to_secret
      save_to_secret-Keeps s u h =
          after_create-Keeps (create namespace (secret_of libraries namespace name bundle) s) u
            (λ v e.
              let (new, after, same) = create-ok refl e in
              (
                new,
                after,
                record {
                  ca_held = ap (λ o. and_then o (lookup secret_ca_cert_key)) same;
                  cert_held = ap (λ o. and_then o (lookup secret_server_cert_key)) same;
                  key_held = ap (λ o. and_then o (lookup secret_server_key_key)) same;
                },
              ))
            h
