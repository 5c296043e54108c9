-- ===== src/Examples/Board.antt =====
-- A Lease API with one lease on it, for the theorems on leader election.
use Prim.Native.String.{String}
use text.Mathlib.TextEquality.{eq_iff}
use kulta.Prelude.{
  ℕ, ◌+◌, ◌≤◌, ◌≡◌, refl, sym, ap, subst, ◌∙◌, ◌≢◌, ◌⊎◌, inl, inr, arith, Bool, true, false, Option,
  none, some, and_then, str_eq, codes, length, ltb, Bool-cases,
}
use kulta.Prelude.Int.{pos_part}
use mathlib.Core.Option.{some-injective}
use kulta.Leader.Api.{
  LeaseSpec, Lease, LeasePatch, Response, ok, api_error, failure, Merged, over, LeaseApi,
}

abbrev Board : Type 0
Board = Option (Lease ℕ)

abbrev strokes_of : Option String → ℕ
strokes_of none = 0
strokes_of (some v) = length (codes v)

-- Every change adds a stroke to the version.
abbrev one_more : Option String → String
one_more none = "|"
one_more (some v) = String.◌∷◌ "|" v

abbrev merge_spec : LeasePatch ℕ → Option (LeaseSpec ℕ) → LeaseSpec ℕ
merge_spec p old = record {
  holder_identity = over p.holder_identity (and_then old (λ s. s.holder_identity));
  acquire_time = over p.acquire_time (and_then old (λ s. s.acquire_time));
  renew_time = some p.renew_time;
  lease_duration_seconds = some p.lease_duration_seconds;
  lease_transitions = over p.lease_transitions (and_then old (λ s. s.lease_transitions));
}

abbrev merge : LeasePatch ℕ → Lease ℕ → Lease ℕ
merge p l = record l {
  resource_version = some (one_more l.resource_version);
  spec = some (merge_spec p l.spec);
}

-- Does the version that a patch names allow it?
abbrev fits : Option String → Option String → Bool
fits none found = true
fits (some v) none = false
fits (some v) (some w) = str_eq w v

abbrev write : Bool → LeasePatch ℕ → Lease ℕ → Response Unit × Board
write true p l = (ok tt, some (merge p l))
write false p l = (api_error 409, some l)

abbrev board_patch : LeasePatch ℕ → Board → Response Unit × Board
board_patch p none = (api_error 404, none)
board_patch p (some l) = write (fits p.resource_version l.resource_version) p l

abbrev read : Option String → Lease ℕ → Response (Lease ℕ)
read none l = failure
read (some v) l = ok l

abbrev board_get : Board → Response (Lease ℕ)
board_get none = api_error 404
board_get (some l) = read l.resource_version l

abbrev board_create : Lease ℕ → Board → Response Unit × Board
board_create l none = (ok tt, some (record l { resource_version = some "|" }))
board_create l (some m) = (api_error 409, some m)

abbrev Follows : Board → Board → Type 0
Follows none t = Unit {0}
Follows (some l) none = Unit {0}
Follows (some l) (some m) =
    (l.resource_version ≡ m.resource_version → l ≡ m)
    × (strokes_of l.resource_version ≤ strokes_of m.resource_version)

pub Follows-self : (s : Board) → Follows s s
Follows-self none = ground arith
Follows-self (some l) = ((λ e. refl), omega arith)

fits_lem : (v w : Option String) → fits v w ≡ true → (v ≡ none) ⊎ (w ≡ v)
fits_lem none w h = inl refl
fits_lem (some v) none h = cc
fits_lem (some v) (some w) h = inr (ap some ((eq_iff w v).0 h))

read-ok :
    (o : Option String) (m : Lease ℕ) {l : Lease ℕ}
    → o ≡ m.resource_version
    → read o m ≡ ok l
    → (m ≡ l) × (l.resource_version ≢ none)
read-ok none m e h = cc
read-ok (some v) m {l} e h =
    let same : m ≡ l = cc h in (same, λ n. cc (e, n, ap (λ l. l.resource_version) same))

pub board_get-ok :
    (s : Board) {l : Lease ℕ} → board_get s ≡ ok l → (s ≡ some l) × (l.resource_version ≢ none)
board_get-ok none h = cc
board_get-ok (some m) {l} h =
    let (same, there) = read-ok m.resource_version m refl h in (ap some same, there)

pub board_patch-ok :
    (p : LeasePatch ℕ) (s : Board) {u : Unit {0}}
    → (board_patch p s).0 ≡ ok u
    → (old : Lease ℕ) × (new : Lease ℕ) × (s ≡ some old)
      × ((board_patch p s).1 ≡ some new)
      × ((p.resource_version ≡ none) ⊎ (old.resource_version ≡ p.resource_version))
      × Merged p old new
      × (new ≡ merge p old)
board_patch-ok p none h = cc
board_patch-ok p (some l) h = elim (Bool-cases (fits p.resource_version l.resource_version)) [
  | inl y ↦ (
    l,
    merge p l,
    refl,
    rw y refl,
    fits_lem p.resource_version l.resource_version y,
    record {
      spec = merge_spec p l.spec;
      spec_there = refl;
      holder_merged = refl;
      renew_merged = refl;
      duration_merged = refl;
    },
    refl,
  )
  | inr n ↦ absurd (cc (rw n at h))
]

pub board_create-ok :
    (l : Lease ℕ) (s : Board) {u : Unit {0}}
    → (board_create l s).0 ≡ ok u
    → (new : Lease ℕ) × (s ≡ none) × ((board_create l s).1 ≡ some new) × (new.spec ≡ l.spec)
board_create-ok l none h = (_, refl, refl, refl)
board_create-ok l (some m) h = cc

one_more_lem : (o : Option String) → strokes_of (some (one_more o)) ≡ 1 + strokes_of o
one_more_lem none = refl
one_more_lem (some v) = omega arith

pub same_version-Follows :
    (s t : Board) {l m : Lease ℕ}
    → Follows s t
    → s ≡ some l
    → t ≡ some m
    → l.resource_version ≡ m.resource_version
    → l ≡ m
same_version-Follows s t {l} {m} f e g v =
    (subst (Follows (some l)) g (subst (λ r. Follows r t) e f)).0 v

pub board_moved :
    (p : LeasePatch ℕ) (s t : Board) {u : Unit {0}} {old m : Lease ℕ}
    → (board_patch p s).0 ≡ ok u
    → s ≡ some old
    → Follows (board_patch p s).1 t
    → t ≡ some m
    → m.resource_version ≢ old.resource_version
board_moved p s t {u} {old} {m} h e f g k =
    let (found, new, at, next, v, merged, same) = board_patch-ok p s h in
    let after : Follows (some new) (some m) =
      subst (Follows (some new)) g (subst (λ r. Follows r t) next f) in
    let first : found ≡ old = some-injective found old (sym at ∙ e) in
    let grown : strokes_of new.resource_version ≡ 1 + strokes_of old.resource_version =
      ap (λ l. strokes_of l.resource_version) same
      ∙ one_more_lem found.resource_version
      ∙ ap (λ l. 1 + strokes_of l.resource_version) first in
    omega (arith, after.1, grown, ap strokes_of k)

abbrev pub board : LeaseApi
board = record {
  Moment = ℕ;
  add_seconds = λ n d. n + pos_part d;
  after = λ a b. ltb b a;
  State = Board;
  Later = Follows;
  stored = λ name s. s;
  get = λ name s. board_get s;
  patch = λ name p s. board_patch p s;
  create = board_create;
  get-ok = λ {name} {s} {l} h. board_get-ok s h;
  patch-ok = λ {name} {p} {s} {u} h.
      let (old, new, a, b, c, d, e) = board_patch-ok p s h in (old, new, a, b, c, d);
  create-ok = λ {name} {l} {s} {u} n h. board_create-ok l s h;
  same_version = λ {name} {s} {t} {l} {m} f e g v. same_version-Follows s t f e g v;
  moved_on = λ {name} {p} {s} {t} {u} {old} {m} h e f g. board_moved p s t h e f g;
}
