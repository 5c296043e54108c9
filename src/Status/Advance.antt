-- ===== src/Status/Advance.antt =====
-- Entering steps: `initialize_rollout_status` and `advance_to_next_step`.
use kulta.Prelude.{
  ℕ, suc, ◌+◌, ◌^◌, ◌≤◌, ◌<◌, ◌≡◌, refl, ap, ◌∙◌, ◌≢◌, ◌⊎◌, inl, inr, arith, Bool, true, false,
  Option, none, some, List, [], ◌∷◌, length, get_elem?, get_elem?-lt, get_elem?-some,
  get_elem?-none, get_elem?-le, unwrap_or, is_some, leb, done, ◌>>=◌, if◌then◌else◌,
}
use kulta.Prelude.Int.{ℤ, pos, wrap_i32-add, as_usize}
use kulta.Crd.{progressing, completed, RolloutStatus, CanaryStep, CanaryStrategy}
use kulta.Clock.{Chrono}
use kulta.Status.{
  next_index, finish, enter, initialize_canary, land, pause_start, has_pause, or_panic,
  advance_canary, advanced_status, first,
}

abbrev pub weight_of : Option CanaryStep → ℤ
weight_of none = pos 100
weight_of (some step) = unwrap_or step.set_weight (pos 0)

-- The weight that belongs to a step index: the step's own, and everything past the last step.
abbrev pub weight_at : List CanaryStep → ℕ → ℤ
weight_at steps i = weight_of (get_elem? steps i)

-- A status that belongs to step `i` of the strategy.
pub record OnTrack (canary : CanaryStrategy) (i : ℕ) (status : RolloutStatus) : Type 0 where
  pub at_step : status.current_step_index ≡ some (pos i)
  pub within : i ≤ length canary.steps
  pub weighted : status.current_weight ≡ some (weight_at canary.steps i)
  pub live :
      (status.phase ≡ some progressing)
      ⊎ ((status.phase ≡ some completed) × (weight_at canary.steps i ≡ pos 100))
  pub past : (i < length canary.steps) ⊎ (status.phase ≡ some completed)
  pub timed :
      (length canary.steps ≤ i)
      ⊎ ((has_pause (get_elem? canary.steps i) ≡ false) ⊎ (is_some status.pause_start_time ≡ true))

pub past_end :
    (canary : CanaryStrategy) (i : ℕ) (status : RolloutStatus)
    → OnTrack canary i status
    → length canary.steps ≤ i
    → status.phase ≡ some completed
past_end canary i status track h = elim track.past [ inl lt ↦ absurd (omega arith) | inr e ↦ e ]

pub next_index_lem : (i : ℕ) → i + 1 < 2 ^ 31 → next_index (some (pos i)) ≡ pos (suc i)
unfolding next_index
next_index_lem i h = ground (arith, wrap_i32-add i 1 h)

pub as_usize_pos : (i : ℕ) → as_usize (pos i) ≡ i
unfolding as_usize
as_usize_pos i = refl

finish-OnTrack :
    (canary : CanaryStrategy) (i : ℕ) (status : RolloutStatus)
    → get_elem? canary.steps (suc i) ≡ none
    → i < length canary.steps
    → OnTrack canary (suc i) (finish (pos (suc i)) status)
unfolding finish
finish-OnTrack canary i status e h = record {
  at_step = refl;
  within = h;
  weighted = rw e;
  live = inr (refl, rw e refl);
  past = inr refl;
  timed = inl (get_elem?-none canary.steps (suc i) e);
}

length_pos : (steps : List CanaryStep) → steps ≢ [] → 0 < length steps
length_pos [] h = absurd (h refl)
length_pos (step ∷ steps) h = omega arith

module _ (chrono : Chrono) where
  open chrono use {DateTime}

  pause_start_lem :
      (b : Bool) (now : DateTime) → (b ≡ false) ⊎ (is_some (pause_start chrono b now) ≡ true)
  pause_start_lem true now = inr refl
  pause_start_lem false now = inl refl

  enter-OnTrack :
      (canary : CanaryStrategy) (i : ℕ) (step : CanaryStep) (status : RolloutStatus)
      (now : DateTime)
      → get_elem? canary.steps i ≡ some step
      → i < length canary.steps
      → OnTrack canary i (enter chrono (pos i) step status now)
  unfolding enter
  enter-OnTrack canary i step status now e h = record {
    at_step = refl;
    within = omega arith;
    weighted = rw e;
    live = rw e (ground arith);
    past = inl h;
    timed = inr (rw e (pause_start_lem (is_some step.pause) now));
  }

  pub initialize_canary-OnTrack :
      (canary : CanaryStrategy) (now : DateTime)
      → canary.steps ≢ []
      → OnTrack canary 0 (initialize_canary chrono (some canary) now)
  unfolding initialize_canary
  initialize_canary-OnTrack canary now h =
      let (step, found) = get_elem?-lt canary.steps 0 (length_pos canary.steps h) in
      record {
        at_step = refl;
        within = omega arith;
        weighted = rw found;
        live = inl refl;
        past = inl (length_pos canary.steps h);
        timed = inr (pause_start_lem (has_pause (first canary.steps)) now);
      }

  land-OnTrack :
      (canary : CanaryStrategy) (i : ℕ) (o : Option CanaryStep) (status : RolloutStatus)
      (now : DateTime)
      → get_elem? canary.steps (suc i) ≡ o
      → i < length canary.steps
      → OnTrack canary (suc i) (land chrono (pos (suc i)) o status now)
  land-OnTrack canary i none status now e h = finish-OnTrack canary i status e h
  land-OnTrack canary i (some step) status now e h =
      enter-OnTrack canary (suc i) step status now e (get_elem?-some canary.steps (suc i) e)

  pub advanced_status_lem :
      (canary : CanaryStrategy) (i : ℕ) (status : RolloutStatus) (now : DateTime)
      → status.current_step_index ≡ some (pos i)
      → i + 1 < 2 ^ 31
      → advanced_status chrono (some canary) status now
        ≡ land chrono (pos (suc i)) (get_elem? canary.steps (suc i)) status now
  unfolding advanced_status
  advanced_status_lem canary i status now e h =
      ap (λ n. land chrono n (get_elem? canary.steps (as_usize n)) status now)
        (ap next_index e ∙ next_index_lem i h)
      ∙ ap (λ k. land chrono (pos (suc i)) (get_elem? canary.steps k) status now)
          (as_usize_pos (suc i))

  -- Advancing a status of one step gives a status of the next step.
  pub advance_canary-OnTrack :
      (canary : CanaryStrategy) (i : ℕ) (status : RolloutStatus) (now : DateTime)
      → status.current_step_index ≡ some (pos i)
      → i < length canary.steps
      → length canary.steps < 2 ^ 31
      → OnTrack canary (suc i) (advanced_status chrono (some canary) status now)
  advance_canary-OnTrack canary i status now e h b =
      rw (advanced_status_lem canary i status now e (omega arith))
        (land-OnTrack canary i (get_elem? canary.steps (suc i)) status now refl h)

  indexed-land :
      (n : ℤ) (past : Bool) (o : Option CanaryStep) (status : RolloutStatus) (now : DateTime)
      → (past ≡ true → o ≡ none)
      → (past ≡ false → (step : CanaryStep) × (o ≡ some step))
      → (if past
          then done (finish n status)
          else or_panic o >>= λ next_step. done (enter chrono n next_step status now))
        ≡ done (land chrono n o status now)
  indexed-land n true none status now h k = refl
  indexed-land n true (some step) status now h k = absurd (cc (h refl))
  indexed-land n false none status now h k = absurd (cc ((k refl).1))
  indexed-land n false (some step) status now h k = refl

  -- The test of the length keeps the indexing from panicking.
  pub advance_canary_lem :
      (o : Option CanaryStrategy) (status : RolloutStatus) (now : DateTime)
      → advance_canary chrono o status now ≡ done (advanced_status chrono o status now)
  unfolding advance_canary advanced_status
  advance_canary_lem none status now = refl
  advance_canary_lem (some canary) status now =
      let n = next_index status.current_step_index in
      indexed-land n (leb (length canary.steps) (as_usize n)) (get_elem? canary.steps (as_usize n))
        status now (λ past. get_elem?-le canary.steps (as_usize n) (ground (arith, past)))
        (λ here. get_elem?-lt canary.steps (as_usize n) (ground (arith, here)))
