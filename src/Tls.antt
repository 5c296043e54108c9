-- ===== src/Tls.antt =====
-- server/tls.rs: the certificates of the webhook, kept in a Secret. An operation takes the state of
-- the cluster and gives its result with the state afterwards.
pub mod Api
pub mod Kept
pub mod Startup
pub mod Restart
use Prim.Native.String.{◌++◌}
use kulta.Prelude.{
  ℕ, String, Bool, true, false, Option, none, some, List, [], ◌∷◌, lookup, unwrap_or, ◌==◌,
  if◌then◌else◌,
}
use kulta.Leader.Api.{Response, ok, api_error, failure}
use kulta.Tls.Api.{
  Secret, Attempt, made, refused, CertificateParams, KeyUsage, key_cert_sign, crl_sign,
  digital_signature, key_encipherment, ExtendedKeyUsage, server_auth, TlsLibraries, TlsApi,
}

abbrev pub ca_validity_days : ℕ
ca_validity_days = 3650

abbrev pub server_validity_days : ℕ
server_validity_days = 365

-- The texts of an `rcgen::Error` and of a `kube::Error` are left out.
pub data TlsError : Type 0 where
  key_generation : TlsError
  serialization : String → TlsError
  parse : String → TlsError
  kube : TlsError
  invalid_pem : TlsError

pub record CertificateBundle : Type 0 where
  pub ca_cert_pem : String
  pub server_cert_pem : String
  pub server_key_pem : String

abbrev pub secret_ca_cert_key : String
secret_ca_cert_key = "ca.crt"

abbrev pub secret_server_cert_key : String
secret_server_cert_key = "tls.crt"

abbrev pub secret_server_key_key : String
secret_server_key_key = "tls.key"

abbrev pub default_tls_secret_name : String
default_tls_secret_name = "kulta-webhook-tls"

abbrev pub rollouts_crd : String
rollouts_crd = "rollouts.kulta.io"

abbrev pub validating_webhook : String
validating_webhook = "kulta-validating-webhook"

abbrev pub ca_bundle_path : String
ca_bundle_path = "/webhooks/0/clientConfig/caBundle"

-- `Result<A, TlsError>`.
pub data Fallible (A : Type 0) : Type 0 where
  gave : A → Fallible A
  failed : TlsError → Fallible A

infixl 5 ◌>>=◌
abbrev pub ◌>>=◌ : {A B : Type 0} → Fallible A → (A → Fallible B) → Fallible B
gave a >>= f = f a
failed e >>= f = failed e

module _ {A : Type 0} where
  -- `map_err` with `?`.
  abbrev pub or_fail : (String → TlsError) → Attempt A → Fallible A
  or_fail error (made a) = gave a
  or_fail error (refused text) = failed (error text)

  -- `ok_or`.
  abbrev pub ok_or : TlsError → Option A → Fallible A
  ok_or error none = failed error
  ok_or error (some a) = gave a

  -- `filter_map(|r| r.ok())`.
  unfoldable pub made_ones : List (Attempt A) → List A
  made_ones [] = []
  made_ones (made a ∷ attempts) = a ∷ made_ones attempts
  made_ones (refused text ∷ attempts) = made_ones attempts

  abbrev pub nonempty : List A → Fallible (List A)
  nonempty [] = failed invalid_pem
  nonempty (a ∷ rest) = gave (a ∷ rest)

-- `?` on a response.
abbrev pub or_kube : Response Unit → Fallible (Unit {0})
or_kube (ok u) = gave tt
or_kube (api_error code) = failed kube
or_kube failure = failed kube

-- The other operations change the state, or read the clock.
module _ {State : Type 0} where
  infixl 5 ◌then◌
  abbrev pub ◌then◌ :
      {A B : Type 0} → Fallible A × State → (A → State → Fallible B × State) → Fallible B × State
  (gave a, s) then f = f a s
  (failed e, s) then f = (failed e, s)

abbrev pub or_kube_in : {State : Type 0} → Response Unit × State → Fallible (Unit {0}) × State
or_kube_in (r, s) = (or_kube r, s)

module _ (libraries : TlsLibraries) where
  open libraries use {
    Bytes, Moment, add_days, KeyPair, Certificate, self_signed, signed_by, pem_of, serialize_pem,
    dns_name, parse_pem, base64, CertificateDer, ServerConfig, certs, private_key, Builder,
    with_safe_default_protocol_versions, with_single_cert, as_bytes, from_utf8_lossy,
  }

  unfoldable pub ca_bundle_base64 : CertificateBundle → Fallible String
  ca_bundle_base64 bundle =
      or_fail (λ e. parse ("Failed to parse CA PEM: " ++ e)) (parse_pem bundle.ca_cert_pem)
      >>= λ contents. gave (base64 contents)

  abbrev pub ca_params : Moment → CertificateParams Moment
  ca_params now = record {
    common_name = "kulta-webhook-ca";
    organization_name = "kulta";
    is_ca = true;
    subject_alt_names = [];
    key_usages = key_cert_sign ∷ crl_sign ∷ [];
    extended_key_usages = [];
    not_before = now;
    not_after = add_days now ca_validity_days;
  }

  abbrev pub server_params : String → List String → Moment → CertificateParams Moment
  server_params service_name names now = record {
    common_name = service_name;
    organization_name = "kulta";
    is_ca = false;
    subject_alt_names = names;
    key_usages = digital_signature ∷ key_encipherment ∷ [];
    extended_key_usages = server_auth ∷ [];
    not_before = now;
    not_after = add_days now server_validity_days;
  }

  abbrev pub dns_of : String → Fallible String
  dns_of name = or_fail (λ e. serialization ("Invalid DNS name: " ++ e)) (dns_name name)

  -- "DNS names for the service".
  unfoldable pub service_names : String → String → Fallible (List String)
  service_names service_name namespace = do
    service ← or_fail (λ e. serialization ("Invalid service name: " ++ e)) (dns_name service_name)
    in_namespace ← dns_of (service_name ++ "." ++ namespace)
    svc ← dns_of (service_name ++ "." ++ namespace ++ ".svc")
    local ← dns_of (service_name ++ "." ++ namespace ++ ".svc.cluster.local")
    gave (service ∷ in_namespace ∷ svc ∷ local ∷ [])

  -- The text of a secret under a key.
  abbrev pub text_at : String → String → List (String × Bytes) → Fallible String
  text_at key missing entries =
      ok_or (parse missing) (lookup key entries) >>= λ bytes. gave (from_utf8_lossy bytes)

  abbrev pub read_bundle : List (String × Bytes) → Fallible CertificateBundle
  read_bundle entries = do
    ca_cert_pem ← text_at secret_ca_cert_key "Missing ca.crt in secret" entries
    server_cert_pem ← text_at secret_server_cert_key "Missing tls.crt in secret" entries
    server_key_pem ← text_at secret_server_key_key "Missing tls.key in secret" entries
    gave record {
      ca_cert_pem = ca_cert_pem;
      server_cert_pem = server_cert_pem;
      server_key_pem = server_key_pem;
    }

  unfoldable pub bundle_of : Response (Secret Bytes) → Fallible (Option CertificateBundle)
  bundle_of (ok secret) = read_bundle (unwrap_or secret.entries []) >>= λ bundle. gave (some bundle)
  bundle_of (api_error code) = if code == 404 then gave none else failed kube
  bundle_of failure = failed kube

  abbrev pub bundle_entries : CertificateBundle → List (String × Bytes)
  bundle_entries bundle =
      (secret_ca_cert_key, as_bytes bundle.ca_cert_pem)
      ∷ (secret_server_cert_key, as_bytes bundle.server_cert_pem)
      ∷ (secret_server_key_key, as_bytes bundle.server_key_pem)
      ∷ []

  abbrev pub secret_of : String → String → CertificateBundle → Secret Bytes
  secret_of namespace secret_name bundle = record {
    name = some secret_name;
    namespace = some namespace;
    labels = some (("app.kubernetes.io/managed-by", "kulta") ∷ []);
    type_ = some "kubernetes.io/tls";
    entries = some (bundle_entries bundle);
  }

  unfoldable pub build_rustls_config : CertificateBundle → Fallible ServerConfig
  build_rustls_config bundle = do
    cert_chain ← nonempty (made_ones (certs (as_bytes bundle.server_cert_pem)))
    found ←
        or_fail (λ e. parse ("Failed to parse private key: " ++ e))
          (private_key (as_bytes bundle.server_key_pem))
    key ← ok_or invalid_pem found
    builder ←
        or_fail (λ e. parse ("Failed to set protocol versions: " ++ e))
          with_safe_default_protocol_versions
    or_fail (λ e. parse ("Failed to build TLS config: " ++ e))
        (with_single_cert builder cert_chain key)

  module _ (api : TlsApi libraries) where
    open api use {State, now_utc, generate_key, get, create, patch, patch_crd, patch_webhook}

    abbrev pub fresh_key : State → Fallible KeyPair × State
    fresh_key s = let (key, after) = generate_key s in (or_fail (λ e. key_generation) key, after)

    unfoldable pub generate_ca : State → Fallible (Certificate × KeyPair) × State
    generate_ca s = fresh_key s then λ key_pair after. (
      or_fail (λ e. key_generation) (self_signed (ca_params (now_utc s)) key_pair) >>= λ cert.
          gave (cert, key_pair),
      after,
    )

    abbrev pub sign_server :
        Certificate → KeyPair → String → List String → State → Fallible (String × String) × State
    sign_server ca_cert ca_key service_name names s = fresh_key s then λ key_pair after. (
      or_fail (λ e. key_generation)
            (signed_by (server_params service_name names (now_utc s)) key_pair ca_cert ca_key)
          >>= λ cert. gave (pem_of cert, serialize_pem key_pair),
      after,
    )

    unfoldable pub generate_server_cert :
        Certificate → KeyPair → String → String → State → Fallible (String × String) × State
    generate_server_cert ca_cert ca_key service_name namespace s =
        (service_names service_name namespace, s) then sign_server ca_cert ca_key service_name

    unfoldable pub generate_certificate_bundle :
        String → String → State → Fallible CertificateBundle × State
    generate_certificate_bundle service_name namespace s =
        generate_ca s then λ (ca_cert, ca_key) after.
        generate_server_cert ca_cert ca_key service_name namespace after
        then λ (server_cert_pem, server_key_pem) last. (
          gave record {
            ca_cert_pem = pem_of ca_cert;
            server_cert_pem = server_cert_pem;
            server_key_pem = server_key_pem;
          },
          last,
        )

    unfoldable pub load_from_secret : String → String → State → Fallible (Option CertificateBundle)
    load_from_secret namespace secret_name s = bundle_of (get namespace secret_name s)

    -- "Already exists, patch it".
    abbrev pub after_create :
        String → String → Secret Bytes → Response Unit × State → Fallible (Unit {0}) × State
    after_create namespace secret_name secret (ok u, s) = (gave tt, s)
    after_create namespace secret_name secret (api_error code, s) =
        if code == 409 then or_kube_in (patch namespace secret_name secret s) else (failed kube, s)
    after_create namespace secret_name secret (failure, s) = (failed kube, s)

    unfoldable pub save_to_secret :
        String → String → CertificateBundle → State → Fallible (Unit {0}) × State
    save_to_secret namespace secret_name bundle s =
        let secret = secret_of namespace secret_name bundle in
        after_create namespace secret_name secret (create namespace secret s)

    abbrev pub patch_crd_ca_bundle : String → State → Fallible (Unit {0}) × State
    patch_crd_ca_bundle ca_bundle_base64 s =
        let (r, after) = patch_crd rollouts_crd ca_bundle_base64 s in (or_kube r, after)

    abbrev pub patch_validating_webhook_ca_bundle : String → State → Fallible (Unit {0}) × State
    patch_validating_webhook_ca_bundle ca_bundle_base64 s =
        let (r, after) = patch_webhook validating_webhook ca_bundle_path ca_bundle_base64 s in
        (or_kube r, after)

    -- Both patches are sent, and whether they succeed is only logged.
    abbrev pub patched_with :
        CertificateBundle → String → State → Fallible CertificateBundle × State
    patched_with bundle ca_bundle s = (
      gave bundle,
      (patch_validating_webhook_ca_bundle ca_bundle (patch_crd_ca_bundle ca_bundle s).1).1,
    )

    -- "Patch webhook configurations with CA bundle".
    unfoldable pub publish : CertificateBundle → State → Fallible CertificateBundle × State
    publish bundle s = (ca_bundle_base64 bundle, s) then patched_with bundle

    abbrev pub generate_and_save :
        String → String → String → State → Fallible CertificateBundle × State
    generate_and_save service_name namespace secret_name s =
        generate_certificate_bundle service_name namespace s then λ bundle generated.
        save_to_secret namespace secret_name bundle generated then λ u saved. (gave bundle, saved)

    abbrev pub obtain :
        String
        → String
        → String
        → Option CertificateBundle
        → State
        → Fallible CertificateBundle × State
    obtain service_name namespace secret_name (some bundle) s = (gave bundle, s)
    obtain service_name namespace secret_name none s =
        generate_and_save service_name namespace secret_name s

    -- The Secret is read in one state and written in another: other replicas may write in between.
    unfoldable pub initialize_tls :
        String → String → String → State → State → Fallible CertificateBundle × State
    initialize_tls service_name namespace secret_name read_at write_at =
        (load_from_secret namespace secret_name read_at, write_at)
        then obtain service_name namespace secret_name
        then publish
