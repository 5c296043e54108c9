-- ===== src/Examples/Certificates.antt =====
-- A cluster with at most one secret, and the theorems on the certificates there.
use kulta.Prelude.{
  ℕ, ◌+◌, String, ◌≡◌, refl, arith, Option, none, some, List, [], ◌∷◌, ◌++◌, lookup, and_then,
  str_eq, Bool-cases, inl, inr,
}
use kulta.Leader.Api.{Response, ok, api_error, over}
use kulta.Tls.Api.{Secret, entry, made, TlsLibraries, TlsApi}
use kulta.Tls.{
  CertificateBundle, gave, ca_bundle_base64, initialize_tls, load_from_secret, bundle_of, publish,
  generate_certificate_bundle, generate_ca, generate_server_cert, service_names, save_to_secret,
}
use kulta.Tls.Kept.{Keeps}
use kulta.Tls.Restart.{Announced, initialize_tls-again, initialize_tls-race}

-- Texts for bytes and certificates, numbers for keys.
abbrev pub plain : TlsLibraries
plain = record {
  Bytes = String;
  Moment = ℕ;
  add_days = λ t days. t + days;
  KeyPair = String;
  Certificate = String;
  self_signed = λ params key. made key;
  signed_by = λ params key ca_cert ca_key. made key;
  pem_of = λ cert. cert;
  serialize_pem = λ key. key;
  dns_name = λ name. made name;
  parse_pem = λ text. made text;
  base64 = λ bytes. bytes;
  CertificateDer = String;
  PrivateKeyDer = String;
  ServerConfig = String;
  certs = λ bytes. made bytes ∷ [];
  private_key = λ bytes. made (some bytes);
  Builder = String;
  with_safe_default_protocol_versions = made "";
  with_single_cert = λ builder chain key. made key;
  as_bytes = λ s. s;
  from_utf8_lossy = λ bytes. bytes;
  from_utf8_lossy-as_bytes = λ s. refl;
}

-- A key is as many strokes as there were keys before.
pub record Cluster : Type 0 where
  pub secret : Option (Secret String)
  pub trusted : Option String
  pub keys : String

lookup-append :
    (key : String) (a b : List (String × String))
    → lookup key (a ++ b) ≡ over (lookup key a) (lookup key b)
lookup-append key [] b = refl
lookup-append key ((k, v) ∷ a) b = elim (Bool-cases (str_eq k key)) [
  | inl p ↦ rw p refl
  | inr n ↦ rw n (lookup-append key a b)
]

abbrev pub Entries : Type 0
Entries = Option (List (String × String))

abbrev pub merged : Entries → Entries → Entries
merged none old = old
merged (some new) none = some new
merged (some new) (some old) = some (new ++ old)

merged-over :
    (key : String) (new old : Entries)
    → and_then (merged new old) (lookup key)
      ≡ over (and_then new (lookup key)) (and_then old (lookup key))
merged-over key none old = refl
merged-over key (some new) none = ground arith
merged-over key (some new) (some old) = lookup-append key new old

abbrev pub read : Option (Secret String) → Response (Secret String)
read none = api_error 404
read (some secret) = ok secret

pub read-ok :
    (o : Option (Secret String)) (secret : Secret String) → read o ≡ ok secret → o ≡ some secret
read-ok none secret h = cc
read-ok (some kept) secret h = cc

abbrev pub creates :
    Secret String → Option (Secret String) → Cluster → Response (Unit {0}) × Cluster
creates new none s = (ok tt, record s { secret = some new })
creates new (some old) s = (api_error 409, s)

abbrev pub Creates : Secret String → Response (Unit {0}) × Cluster → Type 0
Creates secret m = (new : Secret String) × (m.1.secret ≡ some new) × (new.entries ≡ secret.entries)

pub creates-Creates :
    (secret : Secret String) (o : Option (Secret String)) (s : Cluster) (u : Unit {0})
    → (creates secret o s).0 ≡ ok u
    → Creates secret (creates secret o s)
creates-Creates secret none s u h = (secret, refl, refl)
creates-Creates secret (some old) s u h = cc

abbrev pub patches :
    Secret String → Option (Secret String) → Cluster → Response (Unit {0}) × Cluster
patches new none s = (api_error 404, s)
patches new (some old) s =
    (ok tt, record s { secret = some (record old { entries = merged new.entries old.entries }) })

abbrev pub Patches : Secret String → Option (Secret String) → Response (Unit {0}) × Cluster → Type 0
Patches secret before m =
    (old : Secret String) × (new : Secret String) × (before ≡ some old)
    × (m.1.secret ≡ some new)
    × ((key : String) → entry key new ≡ over (entry key secret) (entry key old))

pub patches-Patches :
    (secret : Secret String) (o : Option (Secret String)) (s : Cluster) (u : Unit {0})
    → (patches secret o s).0 ≡ ok u
    → Patches secret o (patches secret o s)
patches-Patches secret none s u h = cc
patches-Patches secret (some old) s u h = (
  old,
  record old { entries = merged secret.entries old.entries },
  refl,
  refl,
  λ key. merged-over key secret.entries old.entries,
)

abbrev pub cluster : TlsApi plain
cluster = record {
  State = Cluster;
  now_utc = λ s. 0;
  generate_key = λ s. (made s.keys, record s { keys = String.◌∷◌ "|" s.keys });
  stored = λ namespace name s. s.secret;
  ca_bundle = λ crd s. s.trusted;
  get = λ namespace name s. read s.secret;
  create = λ namespace secret s. creates secret s.secret s;
  patch = λ namespace name secret s. patches secret s.secret s;
  patch_crd = λ crd v s. (ok tt, record s { trusted = some v });
  patch_webhook = λ webhook path v s. (ok tt, s);
  get-ok = λ {namespace} {name} {s} {secret} e. read-ok s.secret secret e;
  create-ok = λ {namespace} {name} {secret} {s} {u} n e. creates-Creates secret s.secret s u e;
  patch-ok = λ {namespace} {name} {secret} {s} {u} e. patches-Patches secret s.secret s u e;
  patch_crd-ok = λ {crd} {v} {s} {u} e. refl;
  patch_crd-stored = λ crd v namespace name s. refl;
  patch_webhook-stored = λ webhook path v namespace name s. refl;
  patch_webhook-ca_bundle = λ webhook path v crd s. refl;
}

abbrev pub empty : Cluster
empty = record { secret = none; trusted = none; keys = "" }

abbrev bundle_with : String → String → CertificateBundle
bundle_with ca server = record {
  ca_cert_pem = ca;
  server_cert_pem = server;
  server_key_pem = server;
}

first_served :
    (initialize_tls plain cluster "kulta" "system" "tls" empty empty).0 ≡ gave (bundle_with "" "|")
unfolding initialize_tls load_from_secret bundle_of publish ca_bundle_base64
    generate_certificate_bundle generate_ca generate_server_cert service_names save_to_secret
first_served = refl

abbrev first_state : Cluster
first_state = (initialize_tls plain cluster "kulta" "system" "tls" empty empty).1

abbrev first_bundle : CertificateBundle
first_bundle = bundle_with "" "|"

abbrev second_bundle : CertificateBundle
second_bundle = bundle_with "||" "|||"

second_served :
    (initialize_tls plain cluster "kulta" "system" "tls" empty first_state).0 ≡ gave second_bundle
unfolding initialize_tls load_from_secret bundle_of publish ca_bundle_base64
    generate_certificate_bundle generate_ca generate_server_cert service_names save_to_secret
second_served = refl

kept_first : (later : Secret String) × (cluster.get "system" "tls" first_state ≡ ok later)
unfolding initialize_tls load_from_secret bundle_of publish ca_bundle_base64
    generate_certificate_bundle generate_ca generate_server_cert service_names save_to_secret
kept_first = (_, refl)

none_read : load_from_secret plain cluster "system" "tls" empty ≡ gave none
unfolding load_from_secret bundle_of
none_read = refl

initialize_tls-again_example :
    ((initialize_tls plain cluster "kulta" "system" "tls" first_state first_state).0
      ≡ gave first_bundle)
    × ((other_namespace other : String)
        → cluster.stored other_namespace other
            (initialize_tls plain cluster "kulta" "system" "tls" first_state first_state).1
          ≡ cluster.stored other_namespace other first_state)
initialize_tls-again_example =
    initialize_tls-again plain cluster "kulta" "system" "tls" empty first_state first_bundle
      first_served (kept_first.1)

initialize_tls-race_example :
    let last = (initialize_tls plain cluster "kulta" "system" "tls" empty first_state).1 in
    Keeps plain cluster "system" "tls" first_bundle first_state
    × Keeps plain cluster "system" "tls" second_bundle last
    × Announced plain cluster "kulta" "system" "tls" second_bundle last
initialize_tls-race_example =
    initialize_tls-race plain cluster "kulta" "system" "tls" empty empty empty first_bundle
      second_bundle none_read none_read first_served second_served
