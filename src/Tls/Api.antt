-- ===== src/Tls/Api.antt =====
-- What server/tls.rs uses of other libraries: the Kubernetes API for Secrets and webhooks, and rcgen,
-- pem, base64 and rustls, with the documented behaviour of the API server as laws.
use kulta.Prelude.{ℕ, ◌≡◌, String, Bool, Option, some, List, lookup, and_then}
use kulta.Leader.Api.{Response, ok, over}
use kulta.Crd.{StringMap}

-- `k8s_openapi::api::core::v1::Secret`, the fields that are set or read, over the strings of bytes.
pub record Secret (Bytes : Type 0) : Type 0 where
  pub name : Option String
  pub namespace : Option String
  pub labels : Option StringMap
  pub type_ : Option String
  pub entries : Option (List (String × Bytes))

-- The bytes under a key.
abbrev pub entry : {Bytes : Type 0} → String → Secret Bytes → Option Bytes
entry key secret = and_then secret.entries (lookup key)

-- `Result<A, E>` of a library, the error as its text.
pub data Attempt (A : Type 0) : Type 0 where
  made : A → Attempt A
  refused : String → Attempt A

pub data KeyUsage : Type 0 where
  key_cert_sign crl_sign digital_signature key_encipherment : KeyUsage

pub data ExtendedKeyUsage : Type 0 where
  server_auth : ExtendedKeyUsage

-- `rcgen::CertificateParams`; `is_ca` is `Ca(Unconstrained)` or the default, `NoCa`.
pub record CertificateParams (Moment : Type 0) : Type 0 where
  pub common_name : String
  pub organization_name : String
  pub is_ca : Bool
  pub subject_alt_names : List String
  pub key_usages : List KeyUsage
  pub extended_key_usages : List ExtendedKeyUsage
  pub not_before : Moment
  pub not_after : Moment

pub record TlsLibraries : Type 1 where
  pub Bytes : Type 0
  -- `time`, `rcgen`.
  pub Moment : Type 0
  pub add_days : Moment → ℕ → Moment
  pub KeyPair : Type 0
  pub Certificate : Type 0
  pub self_signed : CertificateParams Moment → KeyPair → Attempt Certificate
  pub signed_by : CertificateParams Moment → KeyPair → Certificate → KeyPair → Attempt Certificate
  pub pem_of : Certificate → String
  pub serialize_pem : KeyPair → String
  -- `Ia5String::try_from`.
  pub dns_name : String → Attempt String
  pub parse_pem : String → Attempt (Bytes)
  pub base64 : Bytes → String
  -- `rustls_pemfile` and `rustls`.
  pub CertificateDer : Type 0
  pub PrivateKeyDer : Type 0
  pub ServerConfig : Type 0
  pub certs : Bytes → List (Attempt CertificateDer)
  pub private_key : Bytes → Attempt (Option PrivateKeyDer)
  pub Builder : Type 0
  pub with_safe_default_protocol_versions : Attempt Builder
  pub with_single_cert : Builder → List CertificateDer → PrivateKeyDer → Attempt ServerConfig
  -- A text in UTF-8, and its reading with replacements.
  pub as_bytes : String → Bytes
  pub from_utf8_lossy : Bytes → String
  pub from_utf8_lossy-as_bytes : (s : String) → from_utf8_lossy (as_bytes s) ≡ s

-- The state of the cluster, of the clock and of the source of random numbers.
pub record TlsApi (libraries : TlsLibraries) : Type 1 where
  pub State : Type 0
  pub now_utc : State → libraries.Moment
  pub generate_key : State → Attempt libraries.KeyPair × State
  -- The secret of a namespace and a name that a state stores, and the bundle in the definition
  -- of a resource.
  pub stored : String → String → State → Option (Secret libraries.Bytes)
  pub ca_bundle : String → State → Option String
  pub get : String → String → State → Response (Secret libraries.Bytes)
  pub create : String → Secret libraries.Bytes → State → Response Unit × State
  -- A merge patch.
  pub patch : String → String → Secret libraries.Bytes → State → Response Unit × State
  -- A merge patch of `spec.conversion.webhook.clientConfig.caBundle` in the definition of a name.
  pub patch_crd : String → String → State → Response Unit × State
  -- A JSON patch that replaces what is at a path in the webhook configuration of a name.
  pub patch_webhook : String → String → String → State → Response Unit × State
  pub get-ok :
      {namespace name : String} {s : State} {secret : Secret libraries.Bytes}
      → get namespace name s ≡ ok secret
      → stored namespace name s ≡ some secret
  pub create-ok :
      {namespace name : String} {secret : Secret libraries.Bytes} {s : State} {u : Unit}
      → secret.name ≡ some name
      → (create namespace secret s).0 ≡ ok u
      → (new : Secret libraries.Bytes) × (stored namespace name (create namespace secret s).1
          ≡ some new)
        × (new.entries ≡ secret.entries)
  pub patch-ok :
      {namespace name : String} {secret : Secret libraries.Bytes} {s : State} {u : Unit}
      → (patch namespace name secret s).0 ≡ ok u
      → (old : Secret libraries.Bytes) × (new : Secret libraries.Bytes) × (stored namespace name s
          ≡ some old)
        × (stored namespace name (patch namespace name secret s).1 ≡ some new)
        × ((key : String) → entry key new ≡ over (entry key secret) (entry key old))
  pub patch_crd-ok :
      {crd v : String} {s : State} {u : Unit}
      → (patch_crd crd v s).0 ≡ ok u
      → ca_bundle crd (patch_crd crd v s).1 ≡ some v
  pub patch_crd-stored :
      (crd v namespace name : String) (s : State)
      → stored namespace name (patch_crd crd v s).1 ≡ stored namespace name s
  pub patch_webhook-stored :
      (webhook path v namespace name : String) (s : State)
      → stored namespace name (patch_webhook webhook path v s).1 ≡ stored namespace name s
  pub patch_webhook-ca_bundle :
      (webhook path v crd : String) (s : State)
      → ca_bundle crd (patch_webhook webhook path v s).1 ≡ ca_bundle crd s
