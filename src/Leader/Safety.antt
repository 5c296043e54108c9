-- ===== src/Leader/Safety.antt =====
-- Who holds the lease after an attempt to lead, and what two attempts do to each other.
use kulta.Prelude.{
  ◌≡◌, refl, sym, ap, subst, ◌∙◌, ◌≢◌, ◌⊎◌, inl, inr, String, Option, none, some, true,
}
use kulta.Leader.Api.{LeaseSpec, Lease, LeasePatch, ok, LeaseApi}
use kulta.Leader.{LeaderConfig, leads, holder, expired, try_acquire_or_renew}
use kulta.Leader.Election.{Sent, renewed, acquired, created, leads-Sent}

module _ (api : LeaseApi) where
  open api use {
    Moment, State, Later, stored, get, patch, patch-ok, create-ok, get-ok, same_version, moved_on,
  }

  -- Why a replica may write the lease at that moment.
  pub data MayTake (config : LeaderConfig) (now : Moment) : Option (Lease Moment) → Type 0 where
    absent : MayTake config now none
    own :
        {lease : Lease Moment}
        → holder api lease ≡ some config.holder_id
        → MayTake config now (some lease)
    stale : {lease : Lease Moment} → expired api lease now ≡ true → MayTake config now (some lease)

  -- The lease names the replica, from that moment on for the configured time.
  pub record Holds (config : LeaderConfig) (now : Moment) (s : State) : Type 0 where
    pub lease : Lease Moment
    pub spec : LeaseSpec Moment
    pub lease_there : stored config.lease_name s ≡ some lease
    pub spec_there : lease.spec ≡ some spec
    pub held : spec.holder_identity ≡ some config.holder_id
    pub renewed : spec.renew_time ≡ some now
    pub lasting : spec.lease_duration_seconds ≡ some config.lease_duration_seconds

  pinned : {a b c : Option String} → c ≢ none → b ≡ c → (b ≡ none) ⊎ (a ≡ b) → a ≡ c
  pinned n e (inl f) = absurd (n (sym e ∙ f))
  pinned n e (inr f) = f ∙ e

  -- The object that a patch finds is the one that was read.
  unchanged :
      (name : String) (read_at write_at : State) (l old : Lease Moment)
      → Later read_at write_at
      → get name read_at ≡ ok l
      → stored name write_at ≡ some old
      → (l.resource_version ≡ none) ⊎ (old.resource_version ≡ l.resource_version)
      → l ≡ old
  unchanged name read_at write_at l old later e at v =
      let (there, versioned) = get-ok e in
      same_version later there at (sym (pinned versioned refl v))

  -- A replica that is told that it leads holds the lease from that moment on, and has taken it only
  -- from nobody, from itself, or from a holder whose time was over, whatever other replicas wrote
  -- between its read and its write.
  pub try_acquire_or_renew-Holds :
      (config : LeaderConfig) (now : Moment) (read_at write_at : State)
      → Later read_at write_at
      → (try_acquire_or_renew api config now read_at write_at).0 ≡ leads true
      → MayTake config now (stored config.lease_name write_at)
        × Holds config now (try_acquire_or_renew api config now read_at write_at).1
  try_acquire_or_renew-Holds config now read_at write_at later h =
      taken (leads-Sent api config now read_at write_at h)
    where
      taken :
          Sent api config now read_at write_at
          → MayTake config now (stored config.lease_name write_at)
            × Holds config now (try_acquire_or_renew api config now read_at write_at).1
      taken (renewed l u e mine f w) =
          let (old, new, at1, at2, v, m) = patch-ok f in
          let same = unchanged config.lease_name read_at write_at l old later e at1 v in
          (
            subst (MayTake config now) (ap some same ∙ sym at1) (own mine),
            record {
              lease = new;
              spec = m.spec;
              lease_there = ap (stored config.lease_name) w ∙ at2;
              spec_there = m.spec_there;
              held = m.holder_merged ∙ ap (holder api) (sym same) ∙ mine;
              renewed = m.renew_merged;
              lasting = m.duration_merged;
            },
          )
      taken (acquired l u e late f w) =
          let (old, new, at1, at2, v, m) = patch-ok f in
          let same = unchanged config.lease_name read_at write_at l old later e at1 v in
          (
            subst (MayTake config now) (ap some same ∙ sym at1) (stale late),
            record {
              lease = new;
              spec = m.spec;
              lease_there = ap (stored config.lease_name) w ∙ at2;
              spec_there = m.spec_there;
              held = m.holder_merged;
              renewed = m.renew_merged;
              lasting = m.duration_merged;
            },
          )
      taken (created u e f w) =
          let (new, at1, at2, m) = create-ok refl f in
          (
            subst (MayTake config now) (sym at1) absent,
            record {
              lease = new;
              spec = _;
              lease_there = ap (stored config.lease_name) w ∙ at2;
              spec_there = m;
              held = refl;
              renewed = refl;
              lasting = refl;
            },
          )

  -- A patch at the version that was read, with success.
  abbrev Patched : LeaderConfig → Lease Moment → Moment → State → State → Type 0
  Patched config lease now read_at write_at =
      (p : LeasePatch Moment) × (u : Unit {0}) × (p.resource_version ≡ lease.resource_version)
      × ((patch config.lease_name p write_at).0 ≡ ok u)
      × ((try_acquire_or_renew api config now read_at write_at).1
          ≡ (patch config.lease_name p write_at).1)

  leads-Patched :
      (config : LeaderConfig) (now : Moment) (read_at write_at : State) (lease : Lease Moment)
      → get config.lease_name read_at ≡ ok lease
      → (try_acquire_or_renew api config now read_at write_at).0 ≡ leads true
      → Patched config lease now read_at write_at
  leads-Patched config now read_at write_at lease e h =
      elim (leads-Sent api config now read_at write_at h) [
        | renewed l u f mine g w ↦ (_, u, ap (λ l. l.resource_version) (same l f), g, w)
        | acquired l u f late g w ↦ (_, u, ap (λ l. l.resource_version) (same l f), g, w)
        | created u f g w ↦ absurd (cc (e, f))
      ]
    where
      same : (l : Lease Moment) → get config.lease_name read_at ≡ ok l → l ≡ lease
      same l f = cc (e, f)

  -- Of two attempts that have read the same lease, the one that writes later is not told that it
  -- leads once the other is.
  pub try_acquire_or_renew-race :
      (first second : LeaderConfig) (now later : Moment) (s t write_at write_later : State)
      (lease : Lease Moment)
      → second.lease_name ≡ first.lease_name
      → get first.lease_name s ≡ ok lease
      → get second.lease_name t ≡ ok lease
      → (try_acquire_or_renew api first now s write_at).0 ≡ leads true
      → Later (try_acquire_or_renew api first now s write_at).1 write_later
      → (try_acquire_or_renew api second later t write_later).0 ≢ leads true
  try_acquire_or_renew-race first second now later s t write_at write_later lease n e f h after k =
      let (p, u, v, g, w) = leads-Patched first now s write_at lease e h in
      let (q, x, y, i, z) = leads-Patched second later t write_later lease f k in
      let (old, new, at, at_next, found, m) = patch-ok g in
      let (old2, new2, at2, at_next2, found2, m2) = patch-ok i in
      let versioned = (get-ok e).1 in
      moved_on g at (subst (λ r. Later r write_later) w after)
        (ap (λ o. stored o write_later) (sym n) ∙ at2)
        (pinned versioned y found2 ∙ sym (pinned versioned v found))
