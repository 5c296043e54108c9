-- ===== src/Leader/Api.antt =====
-- What server/leader.rs uses of the Kubernetes Lease API (`kube::Api<Lease>`) and of moments in time:
-- an interface, with the documented behaviour of the API server as laws.
use kulta.Prelude.{ℕ, ◌≡◌, ◌≢◌, ◌⊎◌, String, Bool, Option, none, some, and_then}
use kulta.Prelude.Int.{ℤ}

pub record LeaseSpec (Moment : Type 0) : Type 0 where
  pub holder_identity : Option String
  pub acquire_time : Option Moment
  pub renew_time : Option Moment
  pub lease_duration_seconds : Option ℤ
  pub lease_transitions : Option ℤ

pub record Lease (Moment : Type 0) : Type 0 where
  pub name : Option String
  pub namespace : Option String
  pub resource_version : Option String
  pub spec : Option (LeaseSpec Moment)

-- A JSON merge patch: a field that is `none` is not in the patch, but `resource_version`, which is
-- always there, and null if it is `none`.
pub record LeasePatch (Moment : Type 0) : Type 0 where
  pub resource_version : Option String
  pub holder_identity : Option String
  pub acquire_time : Option Moment
  pub renew_time : Moment
  pub lease_duration_seconds : ℤ
  pub lease_transitions : Option ℤ

-- `Result<A, kube::Error>`: an answer, `Error::Api` with its code, or another error.
pub data Response (A : Type 0) : Type 0 where
  ok : A → Response A
  api_error : ℕ → Response A
  failure : Response A

-- The field `now` of a patch over the one of the object.
abbrev pub over {ℓ} : {A : Type ℓ} → Option A → Option A → Option A
over none old = old
over (some a) old = some a

-- What a patch makes of a specification, its holder, renewal and duration.
pub record Merged {Moment : Type 0} (p : LeasePatch Moment) (old : Lease Moment)
    (new : Lease Moment) : Type 0 where
  pub spec : LeaseSpec Moment
  pub spec_there : new.spec ≡ some spec
  pub holder_merged :
      spec.holder_identity ≡ over p.holder_identity (and_then old.spec (λ s. s.holder_identity))
  pub renew_merged : spec.renew_time ≡ some p.renew_time
  pub duration_merged : spec.lease_duration_seconds ≡ some p.lease_duration_seconds

pub record LeaseApi : Type 1 where
  pub Moment : Type 0
  pub add_seconds : Moment → ℤ → Moment
  pub after : Moment → Moment → Bool
  -- The state of the API server, and whether a state may follow another.
  pub State : Type 0
  pub Later : State → State → Type 0
  -- The lease of a name that a state stores.
  pub stored : String → State → Option (Lease Moment)
  pub get : String → State → Response (Lease Moment)
  pub patch : String → LeasePatch Moment → State → Response Unit × State
  pub create : Lease Moment → State → Response Unit × State
  -- A read returns what is stored, and every stored object has a version.
  pub get-ok :
      {name : String} {s : State} {l : Lease Moment}
      → get name s ≡ ok l
      → (stored name s ≡ some l) × (l.resource_version ≢ none)
  -- A patch that succeeds has found the version that it names, if any, and is merged.
  pub patch-ok :
      {name : String} {p : LeasePatch Moment} {s : State} {u : Unit}
      → (patch name p s).0 ≡ ok u
      → (old : Lease Moment) × (new : Lease Moment) × (stored name s ≡ some old)
        × (stored name (patch name p s).1 ≡ some new)
        × ((p.resource_version ≡ none) ⊎ (old.resource_version ≡ p.resource_version))
        × Merged p old new
  -- A creation that succeeds has found nothing of the name, and stores the specification.
  pub create-ok :
      {name : String} {l : Lease Moment} {s : State} {u : Unit}
      → l.name ≡ some name
      → (create l s).0 ≡ ok u
      → (new : Lease Moment) × (stored name s ≡ none)
        × (stored name (create l s).1 ≡ some new)
        × (new.spec ≡ l.spec)
  -- An object changes only together with its version.
  pub same_version :
      {name : String} {s t : State} {l m : Lease Moment}
      → Later s t
      → stored name s ≡ some l
      → stored name t ≡ some m
      → l.resource_version ≡ m.resource_version
      → l ≡ m
  -- The version before a patch never comes back.
  pub moved_on :
      {name : String} {p : LeasePatch Moment} {s t : State} {u : Unit} {old m : Lease Moment}
      → (patch name p s).0 ≡ ok u
      → stored name s ≡ some old
      → Later (patch name p s).1 t
      → stored name t ≡ some m
      → m.resource_version ≢ old.resource_version
