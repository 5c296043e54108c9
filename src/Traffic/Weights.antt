-- ===== src/Traffic/Weights.antt =====
-- The weights that a rollout's traffic gets.
use kulta.Prelude.{
  ℕ, ◌-◌, ◌≤◌, ◌≡◌, refl, sym, ap, subst, ◌∙◌, arith, Option, none, some, List, get_elem?,
  unwrap_or, All, All-get_elem?,
}
use kulta.Prelude.Int.{ℤ, pos, negsuc, wrap_i32-sub, as_usize}
use kulta.Crd.{RolloutStatus, Rollout, CanaryStep, CanaryStrategy}
use kulta.Validation.Sound.{WeightIsValid, StepIsValid}
use kulta.Kube.Context.{Context}
use kulta.Status.Advance.{weight_of}
use kulta.Reconcile.Stored.{
  OnlyCanary, Stored, Stored-Standing, Standing-weighted, Standing-at_step,
}
use kulta.Traffic.{
  step_weights, index_weights, status_index, canary_weights, calculate_traffic_weights,
}

weight_lem : (o : Option ℤ) → WeightIsValid o → (w : ℕ) × (unwrap_or o (pos 0) ≡ pos w) × (w ≤ 100)
weight_lem none h = absurd h
weight_lem (some (pos n)) h = (n, refl, omega arith)
weight_lem (some (negsuc n)) h = absurd (omega arith)

abbrev pub IsSplit : ℤ × ℤ → Type 0
IsSplit weights = (w : ℕ) × (w ≤ 100) × (weights ≡ (pos (100 - w), pos w))

step_weights-IsSplit :
    (o : Option CanaryStep)
    → ((step : CanaryStep) → o ≡ some step → StepIsValid step)
    → IsSplit (step_weights o)
step_weights-IsSplit none h = (100, omega arith, refl)
step_weights-IsSplit (some step) h =
    let (w, e, b) = weight_lem step.set_weight (h step refl).0 in
    (w, b, rw (e, wrap_i32-sub 100 w b (omega arith)))

index_weights_pos :
    (steps : List CanaryStep) (n : ℕ)
    → index_weights steps (pos n) ≡ step_weights (get_elem? steps n)
unfolding as_usize
index_weights_pos steps n = ground arith

canary_weights-IsSplit :
    (o : Option CanaryStrategy) (index : ℤ)
    → ((canary : CanaryStrategy) → o ≡ some canary → All StepIsValid canary.steps)
    → IsSplit (canary_weights o index)
canary_weights-IsSplit none index h = (0, omega arith, refl)
canary_weights-IsSplit (some canary) (negsuc n) h = (0, omega arith, ground arith)
canary_weights-IsSplit (some canary) (pos n) h =
    subst IsSplit (sym (index_weights_pos canary.steps n)) (
      step_weights-IsSplit (get_elem? canary.steps n)
        (λ step e. All-get_elem? StepIsValid canary.steps n (h canary refl) e))

-- Whatever the status says, the two weights of a rollout with valid steps are percentages that
-- add up to 100.
calculate_traffic_weights-IsSplit :
    (rollout : Rollout)
    → ((canary : CanaryStrategy)
        → rollout.spec.strategy.canary ≡ some canary
        → All StepIsValid canary.steps)
    → IsSplit (calculate_traffic_weights rollout)
unfolding calculate_traffic_weights
calculate_traffic_weights-IsSplit rollout h =
    canary_weights-IsSplit rollout.spec.strategy.canary (status_index rollout.status) h

step_weights-weight_of : (o : Option CanaryStep) → (step_weights o).1 ≡ weight_of o
step_weights-weight_of none = refl
step_weights-weight_of (some step) = refl

weights_of_index :
    (rollout : Rollout) (canary : CanaryStrategy) (status : RolloutStatus) (i : ℕ)
    → rollout.spec.strategy.canary ≡ some canary
    → rollout.status ≡ some status
    → status.current_step_index ≡ some (pos i)
    → calculate_traffic_weights rollout ≡ step_weights (get_elem? canary.steps i)
unfolding calculate_traffic_weights
weights_of_index rollout canary status i c e a =
    ap (λ o. canary_weights o (status_index rollout.status)) c
    ∙ ap (λ o. index_weights canary.steps (status_index o)) e
    ∙ ap (λ o. index_weights canary.steps (unwrap_or o (negsuc 0))) a
    ∙ index_weights_pos canary.steps i

-- For every status that reconciling has stored for a canary strategy with steps, a failed one too,
-- and no other strategy being given, the weight that is computed for the canary's traffic is the
-- one that the status records.
pub calculate_traffic_weights-Stored :
    (ctx : Context) (rollout : Rollout) (canary : CanaryStrategy) (status : RolloutStatus)
    → OnlyCanary rollout.spec canary
    → rollout.status ≡ some status
    → Stored ctx rollout.spec status
    → status.current_weight ≡ some (calculate_traffic_weights rollout).1
calculate_traffic_weights-Stored ctx rollout canary status only e w =
    let (i, stands) = Stored-Standing ctx rollout.spec canary only w in
    Standing-weighted stands
    ∙ ap some (
        sym (step_weights-weight_of (get_elem? canary.steps i))
        ∙ sym (
            ap (λ (p : ℤ × ℤ). p.1)
              (weights_of_index rollout canary status i only.is_canary e
                (Standing-at_step stands))))
