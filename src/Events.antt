-- ===== src/Events.antt =====
-- controller/cdevents.rs: which events a change of status calls for, in the order in which they are
-- sent. `emit_status_change_event`, which builds and sends them, is `delivered` of Build.
pub mod Build
pub mod Delivery
pub mod Kinds
pub mod Completion
use kulta.Prelude.{Bool, true, false, ◌&&◌, not, Option, none, some, List, [], ◌∷◌, if◌then◌else◌}
use kulta.Prelude.Int.{ℤ, ◌==ℤ◌}
use kulta.Crd.{
  Phase, progressing, preview, experimenting, concluded, completed, failed, RolloutStatus,
}

pub data EventKind : Type 0 where
  service_deployed service_upgraded service_rolledback service_published : EventKind
  experiment_concluded : EventKind

abbrev pub starts : Option Phase → Bool
starts (some progressing) = true
starts (some completed) = true
starts (some preview) = true
starts (some experimenting) = true
starts _ = false

abbrev pub is_initialization : Option RolloutStatus → RolloutStatus → Bool
is_initialization none new_status = starts new_status.phase
is_initialization (some old) new_status = false

abbrev concludes : Option Phase → Option Phase → Bool
concludes (some experimenting) (some concluded) = true
concludes _ _ = false

abbrev pub is_experiment_concluded : Option RolloutStatus → RolloutStatus → Bool
is_experiment_concluded none new_status = false
is_experiment_concluded (some old) new_status = concludes old.phase new_status.phase

abbrev both_progress : Option Phase → Option Phase → Bool
both_progress (some progressing) (some progressing) = true
both_progress _ _ = false

-- `==` of two optional step indices.
abbrev pub same_index : Option ℤ → Option ℤ → Bool
same_index none none = true
same_index (some i) (some j) = i ==ℤ j
same_index _ _ = false

abbrev pub is_step_progression : Option RolloutStatus → RolloutStatus → Bool
is_step_progression none new_status = false
is_step_progression (some old) new_status =
    both_progress old.phase new_status.phase
    && not (same_index old.current_step_index new_status.current_step_index)

abbrev pub is_rollback : Option Phase → Bool
is_rollback (some failed) = true
is_rollback _ = false

abbrev pub is_completion : Option Phase → Bool
is_completion (some completed) = true
is_completion _ = false

-- The kinds that `emit_status_change_event` builds and sends, as a list.
unfoldable pub emit_status_change_event : Option RolloutStatus → RolloutStatus → List EventKind
emit_status_change_event old_status new_status =
    if is_initialization old_status new_status
    then if is_completion new_status.phase
      then service_deployed ∷ service_published ∷ []
      else service_deployed ∷ []
    else if is_step_progression old_status new_status
    then service_upgraded ∷ []
    else if is_rollback new_status.phase
    then service_rolledback ∷ []
    else if is_experiment_concluded old_status new_status
    then experiment_concluded ∷ []
    else if is_completion new_status.phase
    then service_published ∷ []
    else []
