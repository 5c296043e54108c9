-- ===== src/Leader/Election.antt =====
-- What an attempt that leads has sent to the API.
use text.Mathlib.TextEquality.{eq_iff}
use kulta.Prelude.{
  ℕ, ◌≡◌, refl, ap, ◌∙◌, ◌⊎◌, inl, inr, arith, String, true, Option, none, some, Bool-cases, ◌==◌,
}
use kulta.Leader.Api.{Lease, Response, ok, api_error, failure, LeaseApi}
use kulta.Leader.{
  LeaderConfig, leads, is_holder, settle, holder, expired, renewal, acquisition, new_lease, decide,
  act, try_acquire_or_renew,
}

settle-leads : (r : Response Unit) → settle r ≡ leads true → (u : Unit) × (r ≡ ok u)
settle-leads (ok u) h = (u, refl)
settle-leads (api_error code) h = elim (Bool-cases (code == 409)) [
  | inl p ↦ absurd (cc (rw p at h))
  | inr n ↦ absurd (cc (rw n at h))
]
settle-leads failure h = cc

is_holder_lem : (o : Option String) (id : String) → is_holder o id ≡ true → o ≡ some id
is_holder_lem none id h = cc
is_holder_lem (some v) id h = ap some ((eq_iff v id).0 h)

eq404 : (c : ℕ) → c == 404 ≡ true → c ≡ 404
eq404 c p = ground arith

module _ (api : LeaseApi) where
  open api use {
    Moment, State, Later, stored, get, patch, create, patch-ok, create-ok, get-ok, same_version,
    moved_on,
  }

  -- An attempt that leads has sent a patch or a new lease, with success.
  pub data Sent (config : LeaderConfig) (now : Moment) (read_at write_at : State) : Type 0 where
    renewed :
        (lease : Lease Moment) (u : Unit)
        → get config.lease_name read_at ≡ ok lease
        → holder api lease ≡ some config.holder_id
        → (patch config.lease_name (renewal api config lease.resource_version now) write_at).0
          ≡ ok u
        → (try_acquire_or_renew api config now read_at write_at).1
          ≡ (patch config.lease_name (renewal api config lease.resource_version now) write_at).1
        → Sent config now read_at write_at
    acquired :
        (lease : Lease Moment) (u : Unit)
        → get config.lease_name read_at ≡ ok lease
        → expired api lease now ≡ true
        → (patch config.lease_name (acquisition api config lease now) write_at).0 ≡ ok u
        → (try_acquire_or_renew api config now read_at write_at).1
          ≡ (patch config.lease_name (acquisition api config lease now) write_at).1
        → Sent config now read_at write_at
    created :
        (u : Unit)
        → get config.lease_name read_at ≡ api_error 404
        → (create (new_lease api config now) write_at).0 ≡ ok u
        → (try_acquire_or_renew api config now read_at write_at).1
          ≡ (create (new_lease api config now) write_at).1
        → Sent config now read_at write_at

  Response-cases :
      (r : Response (Lease Moment))
      → ((l : Lease Moment) × (r ≡ ok l)) ⊎ (((c : ℕ) × (r ≡ api_error c)) ⊎ (r ≡ failure))
  Response-cases (ok l) = inl (l, refl)
  Response-cases (api_error c) = inr (inl (c, refl))
  Response-cases failure = inr (inr refl)

  pub leads-Sent :
      (config : LeaderConfig) (now : Moment) (read_at write_at : State)
      → (try_acquire_or_renew api config now read_at write_at).0 ≡ leads true
      → Sent config now read_at write_at
  unfolding try_acquire_or_renew decide act
  leads-Sent config now read_at write_at h = elim (Response-cases (get config.lease_name read_at)) [
    | inl (l, e) ↦ elim (Bool-cases (is_holder (holder api l) config.holder_id)) [
      | inl p ↦
          let (u, f) = settle-leads _ (rw (e, p) at h) in
          renewed l u e (is_holder_lem _ _ p) f (rw (e, p) refl)
      | inr n ↦ elim (Bool-cases (expired api l now)) [
        | inl p ↦
            let (u, f) = settle-leads _ (rw (e, n, p) at h) in
            acquired l u e p f (rw (e, n, p) refl)
        | inr m ↦ absurd (cc (rw (e, n, m) at h))
      ]
    ]
    | inr (inl (c, e)) ↦ elim (Bool-cases (c == 404)) [
      | inl p ↦
          let (u, f) = settle-leads _ (rw (e, p) at h) in
          created u (e ∙ ap api_error (eq404 c p)) f (rw (e, p) refl)
      | inr n ↦ absurd (cc (rw (e, n) at h))
    ]
    | inr (inr e) ↦ absurd (cc (rw e at h))
  ]
