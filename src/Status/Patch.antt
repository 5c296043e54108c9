-- ===== src/Status/Patch.antt =====
-- controller/rollout/reconcile.rs writes a status by a JSON merge patch (RFC 7386), and the
-- serialization of crd/rollout.rs leaves out a field that is `None` and a list that is empty: what
-- the patch does not name keeps its old value.
use kulta.Prelude.{ℕ, ◌≡◌, refl, ap, inl, inr, true, Option, none, some, List, [], ◌∷◌, is_some}
use kulta.Crd.{RolloutStatus, AbExperimentStatus, CanaryStrategy}
use kulta.Status.Advance.{OnTrack}

module _ {ℓ} {A : Type ℓ} where
  abbrev pub over : Option A → Option A → Option A
  over none old = old
  over (some a) old = some a

  abbrev pub over_list : List A → List A → List A
  over_list [] old = old
  over_list (x ∷ xs) old = x ∷ xs

  pub over_self : (o : Option A) → over o o ≡ o
  over_self none = refl
  over_self (some a) = refl

  over_list_self : (xs : List A) → over_list xs xs ≡ xs
  over_list_self [] = refl
  over_list_self (x ∷ xs) = refl

  over-some : (o old : Option A) {a : A} → o ≡ some a → over o old ≡ some a
  over-some o old e = ap (λ o. over o old) e

  over-is_some : (o old : Option A) → is_some o ≡ true → is_some (over o old) ≡ true
  over-is_some none old h = cc
  over-is_some (some a) old h = refl

abbrev pub merge_experiment : AbExperimentStatus → AbExperimentStatus → AbExperimentStatus
merge_experiment new old = record {
  started_at = new.started_at;
  concluded_at = over new.concluded_at old.concluded_at;
  sample_size_a = over new.sample_size_a old.sample_size_a;
  sample_size_b = over new.sample_size_b old.sample_size_b;
  results = over_list new.results old.results;
  winner = over new.winner old.winner;
  conclusion_reason = over new.conclusion_reason old.conclusion_reason;
}

abbrev pub over_experiment :
    Option AbExperimentStatus → Option AbExperimentStatus → Option AbExperimentStatus
over_experiment none old = old
over_experiment (some new) none = some new
over_experiment (some new) (some old) = some (merge_experiment new old)

unfoldable pub merge_status : RolloutStatus → RolloutStatus → RolloutStatus
merge_status new old = record {
  replicas = new.replicas;
  ready_replicas = new.ready_replicas;
  updated_replicas = new.updated_replicas;
  current_step_index = over new.current_step_index old.current_step_index;
  current_weight = over new.current_weight old.current_weight;
  phase = over new.phase old.phase;
  message = over new.message old.message;
  pause_start_time = over new.pause_start_time old.pause_start_time;
  step_start_time = over new.step_start_time old.step_start_time;
  progress_started_at = over new.progress_started_at old.progress_started_at;
  decisions = over_list new.decisions old.decisions;
  ab_experiment = over_experiment new.ab_experiment old.ab_experiment;
  last_decision_source = over new.last_decision_source old.last_decision_source;
}

-- The status that the API server has after the patch.
unfoldable pub patch_status : RolloutStatus → Option RolloutStatus → RolloutStatus
patch_status new none = new
patch_status new (some old) = merge_status new old

over_experiment_self : (o : Option AbExperimentStatus) → over_experiment o o ≡ o
over_experiment_self none = refl
over_experiment_self (some e) =
    rw
      (
        over_self e.concluded_at,
        over_self e.sample_size_a,
        over_self e.sample_size_b,
        over_list_self e.results,
        over_self e.winner,
        over_self e.conclusion_reason,
      )
      refl

pub merge_status_self : (s : RolloutStatus) → merge_status s s ≡ s
unfolding merge_status
merge_status_self s =
    rw
      (
        over_self s.current_step_index,
        over_self s.current_weight,
        over_self s.phase,
        over_self s.message,
        over_self s.pause_start_time,
        over_self s.step_start_time,
        over_self s.progress_started_at,
        over_list_self s.decisions,
        over_experiment_self s.ab_experiment,
        over_self s.last_decision_source,
      )
      refl

-- A patch keeps a status on track.
pub merge_status-OnTrack :
    (canary : CanaryStrategy) (i : ℕ) (new old : RolloutStatus)
    → OnTrack canary i new
    → OnTrack canary i (merge_status new old)
unfolding merge_status
merge_status-OnTrack canary i new old track = record {
  at_step = over-some _ _ track.at_step;
  within = track.within;
  weighted = over-some _ _ track.weighted;
  live = elim track.live [ inl p ↦ inl (over-some _ _ p) | inr (p, w) ↦ inr (over-some _ _ p, w) ];
  past = elim track.past [ inl lt ↦ inl lt | inr p ↦ inr (over-some _ _ p) ];
  timed = elim track.timed [
    | inl le ↦ inl le
    | inr (inl n) ↦ inr (inl n)
    | inr (inr p) ↦ inr (inr (over-is_some new.pause_start_time old.pause_start_time p))
  ];
}
