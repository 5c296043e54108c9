-- ===== src/Reconcile/Tally.antt =====
-- What a run counts in the controller's own metrics, and how runs one after the other add up.
use kulta.Prelude.{
  ℕ, ◌≡◌, ap, String, subst, ◌∙◌, ◌⊎◌, inl, Bool, true, false, Option, none, some, List, ◌∷◌,
  if◌then◌else◌,
}
use kulta.Crd.{RolloutStatus, Phase, failed}
use kulta.Kube.{Log}
use kulta.Kube.Run.{Outcome, returned, raised, panicked, Run, next, ◌>>=◌}
use kulta.Kube.Sent.{sent, counted, seen, Keeps, Quiet}
use kulta.Reconcile.Stages.{unless_ended}

abbrev pub View : Type 0
View = List RolloutStatus × List String

-- The last thing that a reconciliation did is to send a status that ends the rollout.
abbrev pub EndsRollout : List RolloutStatus → Log → Type 0
EndsRollout before after =
    (status : RolloutStatus) × (sent after ≡ status ∷ before)
    × ((status.phase ≡ some failed) ⊎ (status.phase ≡ some Phase.concluded))

-- A success is counted; or the rollout ends, and nothing is counted, or an error is where the
-- rollout is past its deadline.
abbrev pub Ended : View → Log → Type 0
Ended v after =
    (counted after ≡ "success" ∷ v.1)
    ⊎ (EndsRollout v.0 after × ((counted after ≡ v.1) ⊎ (counted after ≡ "error" ∷ v.1)))

-- What a run that returns has done by then; one that fails or panics has counted nothing.
abbrev pub Tally : {A : Type 0} → (A → View → Log → Type 0) → View → Outcome A × Log → Type 0
Tally E v (returned a, after) = E a v after
Tally E v (raised e, after) = counted after ≡ v.1
Tally E v (panicked, after) = counted after ≡ v.1

abbrev pub Staged : Option ℕ → View → Log → Type 0
Staged none v after = seen after ≡ v
Staged (some interval) v after = Ended v after

abbrev pub Finished : ℕ → View → Log → Type 0
Finished interval v after = Ended v after

abbrev pub Counted : ℕ → View → Log → Type 0
Counted interval v after = counted after ≡ "success" ∷ v.1

-- What a reconciliation counts that leads, and one that does not.
abbrev pub Accounted : Bool → ℕ → View → Log → Type 0
Accounted true interval v after = Ended v after
Accounted false interval v after = counted after ≡ "skipped" ∷ v.1

module _ {A B : Type 0} (E : B → View → Log → Type 0) (f : A → Run B) where
  Quiet-next :
      (v : View) (o : Outcome A × Log)
      → seen o.1 ≡ v
      → ((a : A) (l : Log) → Tally E (seen l) (f a l))
      → Tally E v (next o f)
  Quiet-next v (returned a, after) q each = subst (λ w. Tally E w (f a after)) q (each a after)
  Quiet-next v (raised e, after) q each = ap (λ (w : View). w.1) q
  Quiet-next v (panicked, after) q each = ap (λ (w : View). w.1) q

  pub Quiet-Tally :
      (m : Run A) (log : Log)
      → Quiet m
      → ((a : A) (l : Log) → Tally E (seen l) (f a l))
      → Tally E (seen log) ((m >>= f) log)
  Quiet-Tally m log quiet = Quiet-next (seen log) (m log) (quiet log)

module _ {A : Type 0} (f : A → Run ℕ) where
  Counted-next :
      (v : View) (o : Outcome A × Log)
      → counted o.1 ≡ v.1
      → ((a : A) (l : Log) → Tally Counted (seen l) (f a l))
      → Tally Counted v (next o f)
  Counted-next v (returned a, after) q each = recount (seen after) v (f a after) q (each a after)
    where
      recount :
          (w v : View) (o : Outcome ℕ × Log) → w.1 ≡ v.1 → Tally Counted w o → Tally Counted v o
      recount w v (returned interval, l) e h = h ∙ ap (λ c. "success" ∷ c) e
      recount w v (raised r, l) e h = h ∙ e
      recount w v (panicked, l) e h = h ∙ e
  Counted-next v (raised e, after) q each = q
  Counted-next v (panicked, after) q each = q

  pub Counted-bind :
      (m : Run A) (log : Log)
      → Keeps counted m
      → ((a : A) (l : Log) → Tally Counted (seen l) (f a l))
      → Tally Counted (seen log) ((m >>= f) log)
  Counted-bind m log keeps = Counted-next (seen log) (m log) (keeps log)

pub Counted-Finished : (v : View) (o : Outcome ℕ × Log) → Tally Counted v o → Tally Finished v o
Counted-Finished v (returned interval, after) h = inl h
Counted-Finished v (raised e, after) h = h
Counted-Finished v (panicked, after) h = h

module _ (rest : Run ℕ) (each : (l : Log) → Tally Finished (seen l) (rest l)) where
  stage-next :
      (v : View) (o : Outcome (Option ℕ) × Log)
      → Tally Staged v o
      → Tally Finished v (next o (unless_ended rest))
  stage-next v (returned none, after) h = subst (λ w. Tally Finished w (rest after)) h (each after)
  stage-next v (returned (some interval), after) h = h
  stage-next v (raised e, after) h = h
  stage-next v (panicked, after) h = h

  pub stage-Tally :
      (m : Run (Option ℕ)) (log : Log)
      → Tally Staged (seen log) (m log)
      → Tally Finished (seen log) ((m >>= unless_ended rest) log)
  stage-Tally m log = stage-next (seen log) (m log)

module _ {A : Type 0} (E : A → View → Log → Type 0) where
  pub if-Tally :
      (b : Bool) (m k : Run A) (log : Log)
      → Tally E (seen log) (m log)
      → Tally E (seen log) (k log)
      → Tally E (seen log) ((if b then m else k) log)
  if-Tally true m k log h i = h
  if-Tally false m k log h i = i
