-- ===== src/Reconcile/Changes.antt =====
-- How often reconciling changes the status of a canary rollout before it is complete.
use kulta.Prelude.{
  ℕ, suc, ◌≡◌, refl, sym, subst, ◌≢◌, inl, inr, Bool, Option, none, some, List, ◌∷◌,
}
use kulta.Crd.{RolloutStatus, CanaryStrategy, Rollout, RolloutSpec, failed}
use kulta.Status.Advance.{OnTrack}
use kulta.Status.Patch.{patch_status, merge_status-OnTrack}
use kulta.Status.Reach.{compute-OnTrack}
use kulta.Strategy.{compute_next_status}
use kulta.Kube.{Log}
use kulta.Kube.Context.{Context}
use kulta.Kube.Sent.{sent}
use kulta.Reconcile.{reconcile}
use kulta.Reconcile.Transitions.{Transition, rolled_back, concluded, overdue, computed}
use kulta.Reconcile.AtMostOne.{reconcile-Sends}
use kulta.Reconcile.Stored.{OnlyCanary, handler, same_status, first-Standing, sent_next}

module _ (ctx : Context) where
  open ctx use {chrono}

  next-OnTrack :
      (rollout : Rollout) (strategy : CanaryStrategy) (i : ℕ) (status : RolloutStatus)
      {before : List RolloutStatus} {next : RolloutStatus}
      → OnlyCanary rollout.spec strategy
      → rollout.status ≡ some status
      → OnTrack strategy i status
      → next ≢ status
      → next.phase ≢ some failed
      → Transition ctx rollout before next
      → OnTrack strategy (suc i) next
  unfolding compute_next_status
  next-OnTrack rollout strategy i status only s track moves lives
        (rolled_back old log after e p m h b) =
      absurd (lives refl)
  next-OnTrack rollout strategy i status only s track moves lives
        (concluded old evaluation log after asked at_log started_at e p h c f b d) =
      absurd (elim track.live [
        | inl q ↦ cc (q, p, same_status ctx rollout strategy only status old s e)
        | inr (q, w) ↦ cc (q, p, same_status ctx rollout strategy only status old s e)
      ])
  next-OnTrack rollout strategy i status only s track moves lives
        (overdue old deadline_seconds at_log e d h b) =
      absurd (lives refl)
  next-OnTrack rollout strategy i status only s track moves lives
        (computed next at_log h changed b) =
      elim (compute-OnTrack chrono rollout status strategy i (ctx.now at_log) only.is_canary s
        only.few_steps track.at_step (rw (handler ctx rollout strategy only) at h)) [
          | inl kept ↦ absurd (moves kept)
          | inr moved ↦ moved
        ]

  -- The status after the first reconciliation and n changes, none of them a failure, where only
  -- reconciling writes it.
  pub data Changed (spec : RolloutSpec) : ℕ → RolloutStatus → Type 0 where
    begin :
        (leader_state : Option Bool) (rollout : Rollout) (log : Log) {next : RolloutStatus}
        → rollout.spec ≡ spec
        → rollout.status ≡ none
        → sent (reconcile ctx leader_state rollout log).1 ≡ next ∷ sent log
        → Changed spec 0 (patch_status next none)
    change :
        (leader_state : Option Bool) (rollout : Rollout) (log : Log) {n : ℕ}
        {status next : RolloutStatus}
        → Changed spec n status
        → rollout.spec ≡ spec
        → rollout.status ≡ some status
        → sent (reconcile ctx leader_state rollout log).1 ≡ next ∷ sent log
        → next ≢ status
        → next.phase ≢ some failed
        → Changed spec (suc n) (patch_status next (some status))

  -- Each reconciliation that changes the status of a canary rollout with steps, no other strategy
  -- being given, and does not make it fail, takes it one step on. After n changes it belongs to step
  -- n, or to the index after the last: so there are at most as many changes as steps, and after as
  -- many it is Completed at a weight of 100.
  pub Changed-OnTrack :
      (spec : RolloutSpec) (canary : CanaryStrategy) {n : ℕ} {status : RolloutStatus}
      → OnlyCanary spec canary
      → Changed spec n status
      → OnTrack canary n status
  unfolding patch_status
  Changed-OnTrack spec canary only (begin leader_state rollout log {next} e n h) =
      first-Standing ctx rollout canary (subst (λ s. OnlyCanary s canary) (sym e) only) n (
        sent_next ctx rollout log (reconcile ctx leader_state rollout log)
          (reconcile-Sends ctx rollout leader_state log) h)
  Changed-OnTrack spec canary only
        (change leader_state rollout log {n} {status} {next} w e s h moves lives) =
      merge_status-OnTrack canary (suc n) next status (
        next-OnTrack rollout canary n status (subst (λ s. OnlyCanary s canary) (sym e) only) s
          (Changed-OnTrack spec canary only w) moves lives
          (sent_next ctx rollout log (reconcile ctx leader_state rollout log)
            (reconcile-Sends ctx rollout leader_state log) h))
