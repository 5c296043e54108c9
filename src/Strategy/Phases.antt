-- ===== src/Strategy/Phases.antt =====
-- The phases that a handler's status goes through.
use kulta.Prelude.{
  ◌≡◌, refl, ◌≢◌, inl, inr, Bool, true, false, Option, none, some, String, Bool-cases,
}
use kulta.Crd.{Phase, preview, experimenting, concluded, completed, RolloutStatus, Rollout}
use kulta.Status.{has_promote_annotation}
use kulta.Strategy.{next_blue_green, next_ab_testing, has_ab_promote_annotation, has_conclusion}

-- What a reconciliation may do to the phase of a blue-green rollout.
pub data BlueGreenStep (promoted : Bool) : Option Phase → Phase → Type 0 where
  stay_completed : BlueGreenStep promoted (some completed) completed
  promote : promoted ≡ true → BlueGreenStep promoted (some preview) completed
  wait : promoted ≡ false → BlueGreenStep promoted (some preview) preview
  start :
      {old : Option Phase}
      → old ≢ some completed
      → old ≢ some preview
      → BlueGreenStep promoted old preview

-- Every blue-green status has a phase, and it follows from the old one by the steps of BlueGreenStep:
-- a completed rollout stays completed, a preview is completed exactly when the promote annotation
-- is "true", and any other phase, or none, starts a preview.
pub next_blue_green-step :
    (rollout : Rollout) (old : Option Phase)
    → (new : Phase) × ((next_blue_green rollout old).phase ≡ some new)
      × BlueGreenStep (has_promote_annotation rollout) old new
unfolding next_blue_green
next_blue_green-step rollout (some completed) = (completed, refl, stay_completed)
next_blue_green-step rollout (some preview) = elim (Bool-cases (has_promote_annotation rollout)) [
  | inl p ↦ (completed, rw p, promote p)
  | inr n ↦ (preview, rw n, wait n)
]
next_blue_green-step rollout none = (preview, refl, start (λ e. cc) (λ e. cc))
next_blue_green-step rollout _ = (preview, refl, start (λ e. cc) (λ e. cc))

-- What a reconciliation may do to the phase of an A/B rollout.
pub data AbStep (promoted concluded_now : Bool) : Option Phase → Phase → Type 0 where
  stay_completed : AbStep promoted concluded_now (some completed) completed
  promote : promoted ≡ true → AbStep promoted concluded_now (some concluded) completed
  await : promoted ≡ false → AbStep promoted concluded_now (some concluded) concluded
  conclude : concluded_now ≡ true → AbStep promoted concluded_now (some experimenting) concluded
  go_on : concluded_now ≡ false → AbStep promoted concluded_now (some experimenting) experimenting
  start :
      {old : Option Phase}
      → old ≢ some completed
      → old ≢ some concluded
      → old ≢ some experimenting
      → AbStep promoted concluded_now old experimenting

-- Every status of an A/B rollout has a phase, and it follows from the old one by the steps of AbStep:
-- a completed rollout stays completed, a concluded experiment is completed exactly when the promote
-- annotation is there, a running one is concluded exactly when its status holds a conclusion, and
-- any other phase, or none, starts an experiment.
next_ab_testing-step :
    (rollout : Rollout) (status : Option RolloutStatus) (old : Option Phase) (started_at : String)
    → (new : Phase) × ((next_ab_testing rollout status old started_at).phase ≡ some new)
      × AbStep (has_ab_promote_annotation rollout) (has_conclusion status) old new
unfolding next_ab_testing
next_ab_testing-step rollout status (some completed) started_at = (completed, refl, stay_completed)
next_ab_testing-step rollout status (some concluded) started_at =
    elim (Bool-cases (has_ab_promote_annotation rollout)) [
      | inl p ↦ (completed, rw p, promote p)
      | inr n ↦ (concluded, rw n, await n)
    ]
next_ab_testing-step rollout status (some experimenting) started_at =
    elim (Bool-cases (has_conclusion status)) [
      | inl p ↦ (concluded, rw p, conclude p)
      | inr n ↦ (experimenting, rw n, go_on n)
    ]
next_ab_testing-step rollout status none started_at =
    (experimenting, refl, start (λ e. cc) (λ e. cc) (λ e. cc))
next_ab_testing-step rollout status _ started_at =
    (experimenting, refl, start (λ e. cc) (λ e. cc) (λ e. cc))
