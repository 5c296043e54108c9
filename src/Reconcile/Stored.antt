-- ===== src/Reconcile/Stored.antt =====
-- The statuses that reconciling stores for a canary rollout, from the first on, while the
-- specification stays the same: the steps, the rollback and the deadline.
use kulta.Prelude.{
  ℕ, suc, ◌^◌, ◌<◌, ◌≡◌, refl, sym, subst, ap, ◌∙◌, ◌≢◌, ◌⊎◌, inl, inr, arith, Bool, true, false,
  Option, none, some, String, List, [], ◌∷◌, length, get_elem?, is_some, unwrap_or,
}
use kulta.Prelude.Int.{ℤ, pos}
use kulta.Crd.{
  RolloutStatus, default_status, CanaryStrategy, Rollout, RolloutSpec, progressing, failed,
}
use kulta.Status.{has_pause, is_active, is_progress_deadline_exceeded}
use kulta.Status.Advance.{OnTrack, weight_at, initialize_canary-OnTrack}
use kulta.Status.Patch.{
  patch_status, merge_status, over_self, merge_status_self, merge_status-OnTrack,
}
use kulta.Status.Reach.{compute-OnTrack, initial_lem}
use kulta.Strategy.{Handler, select_strategy, compute_next_status}
use kulta.Strategy.Choice.{select_strategy-Chosen}
use kulta.Kube.{Log}
use kulta.Kube.Run.{Outcome}
use kulta.Kube.Context.{Context}
use kulta.Kube.Sent.{sent}
use kulta.Reconcile.{reconcile}
use kulta.Reconcile.Stages.{failed_status, rollback_message}
use kulta.Reconcile.Texts.{deadline_message}
use kulta.Reconcile.Transitions.{Transition, rolled_back, concluded, overdue, computed}
use kulta.Reconcile.Sends.{Sends, Any}
use kulta.Reconcile.AtMostOne.{reconcile-Sends}

-- A status that has failed at step `i` of the strategy.
pub record Halted (canary : CanaryStrategy) (i : ℕ) (status : RolloutStatus) : Type 0 where
  pub halted_at : status.current_step_index ≡ some (pos i)
  pub before_end : i < length canary.steps
  pub halted_weight : status.current_weight ≡ some (weight_at canary.steps i)
  pub has_failed : status.phase ≡ some failed
  pub still_timed :
      (has_pause (get_elem? canary.steps i) ≡ false) ⊎ (is_some status.pause_start_time ≡ true)

abbrev pub Standing : CanaryStrategy → ℕ → RolloutStatus → Type 0
Standing canary i status = OnTrack canary i status ⊎ Halted canary i status

pub Standing-at_step :
    {canary : CanaryStrategy} {i : ℕ} {status : RolloutStatus}
    → Standing canary i status
    → status.current_step_index ≡ some (pos i)
Standing-at_step (inl track) = track.at_step
Standing-at_step (inr halt) = halt.halted_at

pub Standing-weighted :
    {canary : CanaryStrategy} {i : ℕ} {status : RolloutStatus}
    → Standing canary i status
    → status.current_weight ≡ some (weight_at canary.steps i)
Standing-weighted (inl track) = track.weighted
Standing-weighted (inr halt) = halt.halted_weight

progressing_lt :
    (canary : CanaryStrategy) (i : ℕ) (status : RolloutStatus)
    → OnTrack canary i status
    → status.phase ≡ some progressing
    → i < length canary.steps
progressing_lt canary i status track p = elim track.past [
  | inl lt ↦ lt
  | inr c ↦ absurd (cc (p, c))
]

fail-Halted :
    (canary : CanaryStrategy) (i : ℕ) (status : RolloutStatus) (message : String)
    → OnTrack canary i status
    → status.phase ≡ some progressing
    → Halted canary i (patch_status (failed_status message status) (some status))
unfolding patch_status merge_status
fail-Halted canary i status message track p = record {
  halted_at = over_self status.current_step_index ∙ track.at_step;
  before_end = progressing_lt canary i status track p;
  halted_weight = over_self status.current_weight ∙ track.weighted;
  has_failed = refl;
  still_timed =
      subst (λ o. (has_pause (get_elem? canary.steps i) ≡ false) ⊎ (is_some o ≡ true))
        (sym (over_self status.pause_start_time))
        (elim track.timed [
          | inl le ↦ absurd (omega (arith, progressing_lt canary i status track p))
          | inr t ↦ t
        ]);
}

-- What is stored after a failure, where the rollout was Progressing or Preview.
fail-Standing :
    (canary : CanaryStrategy) (i : ℕ) (status : RolloutStatus) (message : String)
    → Standing canary i status
    → is_active status.phase ≡ true
    → Standing canary i (patch_status (failed_status message status) (some status))
fail-Standing canary i status message (inl track) a = inr (
    fail-Halted canary i status message track
      (elim track.live [ inl p ↦ p | inr (c, w) ↦ absurd (cc (ap is_active c, a)) ]))
fail-Standing canary i status message (inr halt) a = absurd (cc (ap is_active halt.has_failed, a))

kept_or_moved :
    (canary : CanaryStrategy) (i : ℕ) (status next : RolloutStatus)
    → Standing canary i status
    → (next ≡ status) ⊎ OnTrack canary (suc i) next
    → (j : ℕ) × Standing canary j (patch_status next (some status))
unfolding patch_status
kept_or_moved canary i status next stands (inl kept) = (
  i,
  subst (Standing canary i) (sym (ap (λ s. merge_status s status) kept ∙ merge_status_self status))
      stands,
)
kept_or_moved canary i status next stands (inr moved) =
    (suc i, inl (merge_status-OnTrack canary (suc i) next status moved))

-- No other strategy is given.
pub record OnlyCanary (spec : RolloutSpec) (canary : CanaryStrategy) : Type 0 where
  pub no_simple : spec.strategy.simple ≡ none
  pub no_blue_green : spec.strategy.blue_green ≡ none
  pub no_ab_testing : spec.strategy.ab_testing ≡ none
  pub is_canary : spec.strategy.canary ≡ some canary
  pub has_steps : canary.steps ≢ []
  pub few_steps : length canary.steps < 2 ^ 31

module _ (ctx : Context) where
  open ctx use {chrono}

  module _ (rollout : Rollout) (strategy : CanaryStrategy)
      (only : OnlyCanary rollout.spec strategy) where
    pub handler : select_strategy rollout ≡ Handler.canary
    handler =
        (select_strategy-Chosen rollout Handler.canary).1
          (only.no_simple, only.no_blue_green, only.no_ab_testing)

    pub same_status :
        (a b : RolloutStatus) → rollout.status ≡ some a → rollout.status ≡ some b → b ≡ a
    same_status a b e f = ap (λ o. unwrap_or o default_status) (sym f ∙ e)

    active :
        (status : RolloutStatus) (deadline_seconds : ℤ) (now : chrono.DateTime)
        → is_progress_deadline_exceeded chrono status deadline_seconds now ≡ true
        → is_active status.phase ≡ true
    unfolding is_progress_deadline_exceeded
    active status deadline_seconds now h = ground arith

    next-Standing :
        (i : ℕ) (status : RolloutStatus) {before : List RolloutStatus} {next : RolloutStatus}
        → rollout.status ≡ some status
        → Standing strategy i status
        → Transition ctx rollout before next
        → (j : ℕ) × Standing strategy j (patch_status next (some status))
    unfolding compute_next_status
    next-Standing i status s stands (rolled_back old log after e p m h b) = (
      i,
      subst
          (λ o. Standing strategy i (patch_status (failed_status rollback_message o) (some status)))
          (sym (same_status status old s e))
          (fail-Standing strategy i status _ stands (
            ap is_active
              (ap (λ (t : RolloutStatus). t.phase) (sym (same_status status old s e)) ∙ p))),
    )
    next-Standing i status s stands
          (concluded old evaluation log after asked at_log started_at e p h c f b d) =
        absurd (elim stands [
          | inl track ↦ elim track.live [
            | inl q ↦ cc (q, p, same_status status old s e)
            | inr (q, w) ↦ cc (q, p, same_status status old s e)
          ]
          | inr halt ↦ cc (halt.has_failed, p, same_status status old s e)
        ])
    next-Standing i status s stands (overdue old deadline_seconds at_log e d h b) = (
      i,
      subst
          (λ o.
            Standing strategy i
              (patch_status (failed_status (deadline_message deadline_seconds) o) (some status)))
          (sym (same_status status old s e))
          (fail-Standing strategy i status _ stands (
            ap (λ (t : RolloutStatus). is_active t.phase) (sym (same_status status old s e))
            ∙ active old deadline_seconds (ctx.now at_log) h)),
    )
    next-Standing i status s stands (computed next at_log h changed b) =
        kept_or_moved strategy i status next stands (
          compute-OnTrack chrono rollout status strategy i (ctx.now at_log) only.is_canary s
            only.few_steps (Standing-at_step stands) (rw handler at h))

    pub first-Standing :
        {before : List RolloutStatus} {next : RolloutStatus}
        → rollout.status ≡ none
        → Transition ctx rollout before next
        → OnTrack strategy 0 next
    unfolding compute_next_status
    first-Standing n (rolled_back old log after e p m h b) = absurd (cc (n, e))
    first-Standing n (concluded old evaluation log after asked at_log started_at e p h c f b d) =
        absurd (cc (n, e))
    first-Standing n (overdue old deadline_seconds at_log e d h b) = absurd (cc (n, e))
    first-Standing n (computed next at_log h changed b) =
        subst (OnTrack strategy 0)
          (initial_lem chrono rollout strategy (ctx.now at_log) only.no_simple only.no_blue_green
            only.is_canary n (rw handler at h))
          (initialize_canary-OnTrack chrono strategy (ctx.now at_log) only.has_steps)

  -- The statuses that one specification's rollout has, where only reconciling writes them: a
  -- reconciliation sends a status, and the API server merges it into the one that is there.
  pub data Stored (spec : RolloutSpec) : RolloutStatus → Type 0 where
    first :
        (leader_state : Option Bool) (rollout : Rollout) (log : Log) {next : RolloutStatus}
        → rollout.spec ≡ spec
        → rollout.status ≡ none
        → sent (reconcile ctx leader_state rollout log).1 ≡ next ∷ sent log
        → Stored spec (patch_status next none)
    again :
        (leader_state : Option Bool) (rollout : Rollout) (log : Log) {status next : RolloutStatus}
        → Stored spec status
        → rollout.spec ≡ spec
        → rollout.status ≡ some status
        → sent (reconcile ctx leader_state rollout log).1 ≡ next ∷ sent log
        → Stored spec (patch_status next (some status))

  no_shorter : (x : RolloutStatus) (xs : List RolloutStatus) → xs ≢ x ∷ xs
  no_shorter x xs e = omega (arith, ap length e)

  pub sent_next :
      (rollout : Rollout) (log : Log) (o : Outcome ℕ × Log) {next : RolloutStatus}
      → Sends ctx rollout Any log o
      → sent o.1 ≡ next ∷ sent log
      → Transition ctx rollout (sent log) next
  sent_next rollout log (outcome, after) {next} (inl none_sent) e =
      absurd (no_shorter next (sent log) (sym none_sent ∙ e))
  sent_next rollout log (outcome, after) {next} (inr (status, h, t, k)) e =
      subst (Transition ctx rollout (sent log)) (ap head (sym h ∙ e)) t
    where
      head : List RolloutStatus → RolloutStatus
      head [] = default_status
      head (x ∷ xs) = x

  -- Every status that reconciling has stored for a canary strategy with steps, no other strategy
  -- being given, belongs to a step of it, or to the index after the last: it has that step's weight
  -- (100 after the last), and a pause start time where the step has a pause. Its phase is
  -- Progressing; or Completed, at a weight of 100 only, and always after the last step; or Failed,
  -- after a rollback or a deadline, and then it is not after the last step.
  pub Stored-Standing :
      (spec : RolloutSpec) (canary : CanaryStrategy) {status : RolloutStatus}
      → OnlyCanary spec canary
      → Stored spec status
      → (i : ℕ) × Standing canary i status
  unfolding patch_status
  Stored-Standing spec canary only (first leader_state rollout log {next} e n h) = (
    0,
    inl (
        first-Standing rollout canary (subst (λ s. OnlyCanary s canary) (sym e) only) n (
          sent_next rollout log (reconcile ctx leader_state rollout log)
            (reconcile-Sends ctx rollout leader_state log) h)),
  )
  Stored-Standing spec canary only (again leader_state rollout log {status} {next} w e s h) =
      let (i, stands) = Stored-Standing spec canary only w in
      next-Standing rollout canary (subst (λ s. OnlyCanary s canary) (sym e) only) i status s stands
        (sent_next rollout log (reconcile ctx leader_state rollout log)
          (reconcile-Sends ctx rollout leader_state log) h)
