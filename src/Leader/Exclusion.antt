-- ===== src/Leader/Exclusion.antt =====
-- A lease that runs keeps other replicas out, and the flag that the election loop keeps.
use text.Mathlib.TextEquality.{eq_iff}
use kulta.Prelude.{
  ◌≡◌, refl, sym, ap, ◌∙◌, ◌≢◌, ◌↔◌, String, some, and_then, Bool, true, false, List, [], ◌∷◌, ◌++◌,
  arith, Bool-cases, inl, inr,
}
use mathlib.Core.Option.{some-injective}
use kulta.Leader.Api.{Lease, ok, LeaseApi}
use kulta.Leader.{
  LeaderConfig, Outcome, leads, error, is_holder, is_lease_expired, holder, expired, decide, act,
  try_acquire_or_renew, set_leader, run_leader_election,
}
use kulta.Leader.Safety.{Holds}

is_holder-other : (held id : String) → held ≢ id → is_holder (some held) id ≡ false
is_holder-other held id n = elim (Bool-cases (is_holder (some held) id)) [
  | inl p ↦ absurd (n ((eq_iff held id).0 p))
  | inr q ↦ q
]

module _ (api : LeaseApi) where
  open api use {Moment, add_seconds, after, State, get, get-ok}

  -- While the time of a lease runs, a replica of another name that reads it is told that it does not
  -- lead, and writes nothing.
  pub try_acquire_or_renew-excluded :
      (first second : LeaderConfig) (now later : Moment) (s write_at : State) (lease : Lease Moment)
      → Holds api first now s
      → second.lease_name ≡ first.lease_name
      → first.holder_id ≢ second.holder_id
      → get second.lease_name s ≡ ok lease
      → after later (add_seconds now first.lease_duration_seconds) ≡ false
      → try_acquire_or_renew api second later s write_at ≡ (leads false, write_at)
  unfolding try_acquire_or_renew decide act is_lease_expired
  try_acquire_or_renew-excluded first second now later s write_at lease h n other e runs =
      rw (e, not_mine, not_expired) refl
    where
      same : h.lease ≡ lease
      same =
          some-injective h.lease lease
            (sym h.lease_there ∙ ap (λ name. api.stored name s) (sym n) ∙ (get-ok e).0)

      there : lease.spec ≡ some h.spec
      there = ap (λ l. l.spec) (sym same) ∙ h.spec_there

      not_mine : is_holder (holder api lease) second.holder_id ≡ false
      not_mine =
          ap (λ o. is_holder (and_then o (λ x. x.holder_identity)) second.holder_id) there
          ∙ ap (λ o. is_holder o second.holder_id) h.held
          ∙ is_holder-other first.holder_id second.holder_id other

      not_expired : expired api lease later ≡ false
      not_expired = rw (there, h.renewed, h.lasting) runs

-- After any number of ticks of the loop the replica counts as the leader exactly if the last attempt
-- was told that it leads; an error counts as a loss.
pub run_leader_election-last :
    (was_leader : Bool) (outcomes : List Outcome) (last : Outcome)
    → (run_leader_election was_leader (outcomes ++ last ∷ []) ≡ true) ↔ (last ≡ leads true)
unfolding run_leader_election set_leader
run_leader_election-last was_leader [] (leads b) = ground arith
run_leader_election-last was_leader [] error = ground arith
run_leader_election-last was_leader (outcome ∷ outcomes) last =
    run_leader_election-last (set_leader was_leader outcome) outcomes last
