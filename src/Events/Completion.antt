-- ===== src/Events/Completion.antt =====
-- When the completion of a rollout is published.
use kulta.Prelude.{
  ℕ, suc, ◌+◌, ◌^◌, ◌<◌, ◌≡◌, sym, ap, ◌∙◌, ◌≢◌, ◌↔◌, arith, Bool, true, false, ◌||◌, Option, none,
  some, List, [], ◌∷◌, length, get_elem?, get_elem?-some, unwrap_or, done,
}
use kulta.Prelude.Int.{pos, pos_part}
use kulta.Crd.{completed, RolloutStatus, Rollout, CanaryStep, CanaryStrategy}
use kulta.Clock.{Chrono}
use kulta.Status.{compute_desired_status, advanced_status}
use kulta.Status.Advance.{past_end, advance_canary-OnTrack}
use kulta.Status.Complete.{advance_unpaused}
use kulta.Events.{EventKind, service_published, emit_status_change_event}

abbrev is_published : EventKind → Bool
is_published service_published = true
is_published _ = false

abbrev pub publishes : List EventKind → Bool
publishes [] = false
publishes (e ∷ es) = is_published e || publishes es

-- The completion is published on every change of status to the phase Completed, and on no other.
pub emit_status_change_event-publishes :
    (old_status : Option RolloutStatus) (new_status : RolloutStatus)
    → (publishes (emit_status_change_event old_status new_status) ≡ true)
      ↔ (new_status.phase ≡ some completed)
unfolding emit_status_change_event
emit_status_change_event-publishes none new_status = ground arith
emit_status_change_event-publishes (some old) new_status = ground arith

-- A canary rollout that is Completed at its last step, one without a pause, changes its status once
-- more at the next reconciliation, to the index after the last step, so that its completion is
-- published a second time.
published_twice :
    (chrono : Chrono) (rollout : Rollout) (status : RolloutStatus) (canary : CanaryStrategy) (i : ℕ)
    (now : chrono.DateTime) (step : CanaryStep)
    → rollout.status ≡ some status
    → rollout.spec.strategy.canary ≡ some canary
    → status.phase ≡ some completed
    → status.current_step_index ≡ some (pos i)
    → get_elem? canary.steps i ≡ some step
    → step.pause ≡ none
    → i + 1 ≡ length canary.steps
    → length canary.steps < 2 ^ 31
    → (next : RolloutStatus) × (compute_desired_status chrono rollout now ≡ done next)
      × (next ≢ status)
      × (publishes (emit_status_change_event (some status) next) ≡ true)
published_twice chrono rollout status canary i now step e c f a s p last b =
    let next = advanced_status chrono (some canary) status now in
    let track =
      advance_canary-OnTrack chrono canary i status now a (get_elem?-some canary.steps i s) b in
    (
      next,
      advance_unpaused chrono rollout status canary i now step e c a s p (λ q. cc),
      λ same. later (sym track.at_step ∙ ap (λ t. t.current_step_index) same ∙ a),
      (emit_status_change_event-publishes (some status) next).1
          (past_end canary (suc i) next track (omega arith)),
    )
  where
    later : Option.some (pos (suc i)) ≢ some (pos i)
    later h = omega (arith, ap (λ o. pos_part (unwrap_or o (pos 0))) h)
