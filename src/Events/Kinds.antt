-- ===== src/Events/Kinds.antt =====
-- Which kinds of event a change of status calls for, said without the order of the tests of
-- `emit_status_change_event` in controller/cdevents.rs.
use kulta.Prelude.{◌≤◌, ◌≡◌, ◌≢◌, ◌↔◌, ◌⊎◌, arith, false, Option, none, some, List, [], ◌∷◌, length}
use kulta.Prelude.Int.{ℤ, pos, negsuc}
use kulta.Crd.{
  Phase, progressing, preview, experimenting, concluded, completed, failed, RolloutStatus,
}
use kulta.Events.{
  EventKind, service_deployed, service_upgraded, service_rolledback, service_published,
  experiment_concluded, emit_status_change_event, same_index,
}

-- The kind is in the list.
abbrev pub In : EventKind → List EventKind → Type 0
In kind [] = ⊥
In kind (other ∷ kinds) = (kind ≡ other) ⊎ In kind kinds

-- There was a status, and it had the phase.
abbrev pub Was : Phase → Option RolloutStatus → Type 0
Was phase none = ⊥
Was phase (some old) = old.phase ≡ some phase

-- The step index changes.
abbrev pub Moves : Option RolloutStatus → RolloutStatus → Type 0
Moves none new_status = ⊥
Moves (some old) new_status = old.current_step_index ≢ new_status.current_step_index

pub record CallsFor (old_status : Option RolloutStatus) (new_status : RolloutStatus)
    (kinds : List EventKind) : Type 0 where
  pub deploys : In service_deployed kinds ↔ (
      (old_status ≡ none)
      × ((new_status.phase ≡ some progressing)
          ⊎ (new_status.phase ≡ some completed)
          ⊎ (new_status.phase ≡ some preview)
          ⊎ (new_status.phase ≡ some experimenting)))
  pub upgrades : In service_upgraded kinds ↔ (
      Was progressing old_status
      × (new_status.phase ≡ some progressing)
      × Moves old_status new_status)
  pub rolls_back : In service_rolledback kinds ↔ (new_status.phase ≡ some failed)
  pub concludes :
      In experiment_concluded kinds
      ↔ (Was experimenting old_status × (new_status.phase ≡ some concluded))
  pub publishes : In service_published kinds ↔ (new_status.phase ≡ some completed)
  pub at_most : (length kinds ≤ 1) ⊎ (kinds ≡ service_deployed ∷ service_published ∷ [])

same_index_lem : (i j : Option ℤ) → (same_index i j ≡ false) ↔ (i ≢ j)
same_index_lem none none = ground arith
same_index_lem none (some j) = ground arith
same_index_lem (some i) none = ground arith
same_index_lem (some (pos m)) (some (pos n)) = ground arith
same_index_lem (some (pos m)) (some (negsuc n)) = ground arith
same_index_lem (some (negsuc m)) (some (pos n)) = ground arith
same_index_lem (some (negsuc m)) (some (negsuc n)) = ground arith

pub emit_status_change_event-CallsFor :
    (old_status : Option RolloutStatus) (new_status : RolloutStatus)
    → CallsFor old_status new_status (emit_status_change_event old_status new_status)
unfolding emit_status_change_event
emit_status_change_event-CallsFor none new_status = record {
  deploys = ground arith;
  upgrades = ground arith;
  rolls_back = ground arith;
  concludes = ground arith;
  publishes = ground arith;
  at_most = ground arith;
}
emit_status_change_event-CallsFor (some old) new_status = record {
  deploys = ground arith;
  upgrades = ground (arith, same_index_lem old.current_step_index new_status.current_step_index);
  rolls_back = ground arith;
  concludes = ground arith;
  publishes = ground arith;
  at_most = ground arith;
}
