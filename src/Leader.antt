-- ===== src/Leader.antt =====
-- server/leader.rs: leader election with a Lease. The Kubernetes API is a parameter, Leader/Api.
pub mod Api
pub mod Election
pub mod Safety
pub mod Exclusion
use Prim.Native.String.{◌++◌}
use kulta.Prelude.{
  ℕ, String, Bool, true, false, Option, none, some, List, [], ◌∷◌, unwrap_or, and_then, str_eq,
  ◌==◌, if◌then◌else◌,
}
use kulta.Prelude.Int.{ℤ, pos, ◌+ℤ◌, wrap_i32}
use kulta.Leader.Api.{Lease, LeasePatch, Response, ok, api_error, failure, LeaseApi}

-- Seconds.
abbrev default_lease_ttl : ℕ
default_lease_ttl = 15

abbrev default_renew_interval : ℕ
default_renew_interval = 5

pub record LeaderConfig : Type 0 where
  pub holder_id : String
  pub lease_name : String
  pub lease_namespace : String
  pub lease_duration_seconds : ℤ
  pub renew_interval : ℕ

-- `std::env::var`, and the fallback after it.
abbrev or_else : Option String → Option String → Option String
or_else none o = o
or_else (some v) o = some v

unfoldable pub from_env : (String → Option String) → String → LeaderConfig
from_env env new_v4 = record {
  holder_id = unwrap_or (or_else (env "POD_NAME") (env "HOSTNAME")) ("kulta-" ++ new_v4);
  lease_name = "kulta-controller-leader";
  lease_namespace = unwrap_or (env "POD_NAMESPACE") "kulta-system";
  lease_duration_seconds = pos default_lease_ttl;
  renew_interval = default_renew_interval;
}

-- `Result<bool, kube::Error>`.
pub data Outcome : Type 0 where
  leads : Bool → Outcome
  error : Outcome

-- `current_holder == Some(&config.holder_id)`.
abbrev pub is_holder : Option String → String → Bool
is_holder none holder_id = false
is_holder (some holder) holder_id = str_eq holder holder_id

-- The match on the response to a patch or a creation.
abbrev pub settle : Response Unit → Outcome
settle (ok u) = leads true
settle (api_error code) = if code == 409 then leads false else error
settle failure = error

module _ (api : LeaseApi) where
  open api use {Moment, add_seconds, after, State, get, patch, create}

  unfoldable pub is_lease_expired : Option Moment → Option ℤ → Moment → Bool
  is_lease_expired (some renew) (some duration) now = after now (add_seconds renew duration)
  is_lease_expired _ _ now = true

  abbrev pub holder : Lease Moment → Option String
  holder lease = and_then lease.spec (λ s. s.holder_identity)

  abbrev pub expired : Lease Moment → Moment → Bool
  expired lease now =
      is_lease_expired (and_then lease.spec (λ s. s.renew_time))
        (and_then lease.spec (λ s. s.lease_duration_seconds)) now

  abbrev pub renewal : LeaderConfig → Option String → Moment → LeasePatch Moment
  renewal config resource_version now_micro = record {
    resource_version = resource_version;
    holder_identity = none;
    acquire_time = none;
    renew_time = now_micro;
    lease_duration_seconds = config.lease_duration_seconds;
    lease_transitions = none;
  }

  abbrev pub acquisition : LeaderConfig → Lease Moment → Moment → LeasePatch Moment
  acquisition config existing now_micro = record {
    resource_version = existing.resource_version;
    holder_identity = some config.holder_id;
    acquire_time = some now_micro;
    renew_time = now_micro;
    lease_duration_seconds = config.lease_duration_seconds;
    lease_transitions =
        some (
          wrap_i32
            (unwrap_or (and_then existing.spec (λ s. s.lease_transitions)) (pos 0) +ℤ pos 1));
  }

  abbrev pub new_lease : LeaderConfig → Moment → Lease Moment
  new_lease config now_micro = record {
    name = some config.lease_name;
    namespace = some config.lease_namespace;
    resource_version = none;
    spec = some record {
      holder_identity = some config.holder_id;
      acquire_time = some now_micro;
      renew_time = some now_micro;
      lease_duration_seconds = some config.lease_duration_seconds;
      lease_transitions = some (pos 0);
    };
  }

  -- What the replica does after it has read the lease.
  pub data Action : Type 0 where
    answer : Outcome → Action
    send_patch : LeasePatch Moment → Action
    send_lease : Lease Moment → Action

  unfoldable pub decide : LeaderConfig → Moment → Response (Lease Moment) → Action
  decide config now (ok existing) =
      if is_holder (holder existing) config.holder_id
      then send_patch (renewal config existing.resource_version now)
      else if expired existing now
      then send_patch (acquisition config existing now)
      else answer (leads false)
  decide config now (api_error code) =
      if code == 404 then send_lease (new_lease config now) else answer error
  decide config now failure = answer error

  abbrev pub settled : Response Unit × State → Outcome × State
  settled (response, s) = (settle response, s)

  unfoldable pub act : LeaderConfig → Action → State → Outcome × State
  act config (answer outcome) s = (outcome, s)
  act config (send_patch p) s = settled (patch config.lease_name p s)
  act config (send_lease lease) s = settled (create lease s)

  -- The lease is read in one state and written in another: other replicas may write in between.
  unfoldable pub try_acquire_or_renew : LeaderConfig → Moment → State → State → Outcome × State
  try_acquire_or_renew config now read_at write_at =
      act config (decide config now (get config.lease_name read_at)) write_at

-- `LeaderState` after one tick of the loop.
unfoldable pub set_leader : Bool → Outcome → Bool
set_leader was_leader (leads is_leader) = is_leader
set_leader was_leader error = if was_leader then false else was_leader

-- The loop, over the outcomes of its ticks.
unfoldable pub run_leader_election : Bool → List Outcome → Bool
run_leader_election was_leader [] = was_leader
run_leader_election was_leader (outcome ∷ outcomes) =
    run_leader_election (set_leader was_leader outcome) outcomes
