-- ===== src/Experiment/Consensus.antt =====
-- When an experiment concludes.
use kulta.Prelude.{
  ℕ, ◌+◌, ◌≤◌, ◌<◌, ◌≡◌, refl, ◌≢◌, ◌↔◌, ◌⊎◌, inl, inr, arith, true, false, Option, none, some,
  List, [], ◌∷◌, length, is_some, if◌then◌else◌, All,
}
use kulta.Prelude.Int.{ℤ, pos, ◌≤ℤ◌}
use kulta.Crd.{
  F64, AbMetricResult, AbMetricDirection, AbVariant, a, b, AbConclusionReason, consensus_reached,
}
use kulta.Experiment.{
  Doubles, significant, a_wins, b_wins, conclude, conclusion_of, determine_experiment_conclusion,
  calculate_ab_significance, win_of_a, win_of_b,
}

abbrev other : AbVariant → AbVariant
other a = b
other b = a

abbrev pub wins : AbVariant → List AbMetricResult → ℕ
wins a rs = a_wins rs
wins b rs = b_wins rs

conclude_lem :
    (x y count : ℕ) (w : AbVariant) (r : AbConclusionReason)
    → x + y ≤ count
    → 0 < count
    → (conclude x y count ≡ some (w, r))
      ↔ ((r ≡ consensus_reached) × (((w ≡ a) × (0 < x) × (y ≡ 0)) ⊎ ((w ≡ b) × (0 < y) × (x ≡ 0))))
unfolding conclude
conclude_lem x y count a r le some_count = ground arith
conclude_lem x y count b r le some_count = ground arith

wins-length : (rs : List AbMetricResult) → a_wins rs + b_wins rs ≤ length rs
unfolding a_wins b_wins
wins-length [] = omega arith
wins-length (r ∷ rs) = ground (arith, wins-length rs)

-- Some result is significant and has that winner.
pub data Favours (w : AbVariant) : List AbMetricResult → Type 0 where
  here :
      {r : AbMetricResult} {rs : List AbMetricResult}
      → r.is_significant ≡ true
      → r.winner ≡ some w
      → Favours w (r ∷ rs)
  there : {r : AbMetricResult} {rs : List AbMetricResult} → Favours w rs → Favours w (r ∷ rs)

-- Nothing significant has the other winner.
abbrev pub Unopposed : AbVariant → AbMetricResult → Type 0
Unopposed w r = (r.is_significant ≡ false) ⊎ (r.winner ≢ some (other w))

abbrev win : AbVariant → Option AbVariant → ℕ
win a o = win_of_a o
win b o = win_of_b o

abbrev vote : AbVariant → AbMetricResult → ℕ
vote w r = if r.is_significant then win w r.winner else 0

wins_none : (w : AbVariant) → wins w [] ≡ 0
unfolding a_wins b_wins
wins_none a = refl
wins_none b = refl

wins_cons :
    (w : AbVariant) (r : AbMetricResult) (rs : List AbMetricResult)
    → wins w (significant (r ∷ rs)) ≡ vote w r + wins w (significant rs)
unfolding significant a_wins b_wins
wins_cons a r rs = ground arith
wins_cons b r rs = ground arith

win_lem : (w : AbVariant) (o : Option AbVariant) → (0 < win w o) ↔ (o ≡ some w)
win_lem a none = ground arith
win_lem a (some a) = ground arith
win_lem a (some b) = ground arith
win_lem b none = ground arith
win_lem b (some a) = ground arith
win_lem b (some b) = ground arith

vote_lem :
    (w : AbVariant) (r : AbMetricResult)
    → (0 < vote w r) ↔ ((r.is_significant ≡ true) × (r.winner ≡ some w))
vote_lem w r = ground (arith, win_lem w r.winner)

vote-Unopposed : (w : AbVariant) (r : AbMetricResult) → (vote (other w) r ≡ 0) ↔ Unopposed w r
vote-Unopposed w r = ground (arith, win_lem (other w) r.winner)

Favours-wins :
    (w : AbVariant) (rs : List AbMetricResult) → Favours w rs → 0 < wins w (significant rs)
Favours-wins w [] f = elim f [ ]
Favours-wins w (r ∷ rs) (here s v) = omega (arith, wins_cons w r rs, (vote_lem w r).1 (s, v))
Favours-wins w (r ∷ rs) (there f) = omega (arith, wins_cons w r rs, Favours-wins w rs f)

wins-Favours :
    (w : AbVariant) (rs : List AbMetricResult) → 0 < wins w (significant rs) → Favours w rs
unfolding significant
wins-Favours w [] h = absurd (omega (arith, wins_none w))
wins-Favours w (r ∷ rs) h =
    elim (positive (vote w r) (wins w (significant rs)) (omega (arith, wins_cons w r rs))) [
      | inl v ↦ let (s, e) = (vote_lem w r).0 v in here s e
      | inr more ↦ there (wins-Favours w rs more)
    ]
  where
    positive : (m n : ℕ) → 0 < m + n → (0 < m) ⊎ (0 < n)
    positive m n h = ground arith

unopposed_lem :
    (w : AbVariant) (rs : List AbMetricResult)
    → (wins (other w) (significant rs) ≡ 0) ↔ All (Unopposed w) rs
unfolding significant
unopposed_lem w [] = (λ h. ground arith, λ h. wins_none (other w))
unopposed_lem w (r ∷ rs) = (
  λ h. (
    (vote-Unopposed w r).0 (omega (arith, wins_cons (other w) r rs)),
    (unopposed_lem w rs).0 (omega (arith, wins_cons (other w) r rs)),
  ),
  λ (u, us).
      omega (arith, wins_cons (other w) r rs, (vote-Unopposed w r).1 u, (unopposed_lem w rs).1 us),
)

conclusion_of_lem :
    (rs : List AbMetricResult) (w : AbVariant) (reason : AbConclusionReason)
    → (conclusion_of rs ≡ some (w, reason))
      ↔ ((reason ≡ consensus_reached) × (0 < wins w rs) × (wins (other w) rs ≡ 0))
conclusion_of_lem [] w reason = (λ h. cc, λ h. absurd (omega (arith, wins_none w, h.1)))
conclusion_of_lem (r ∷ rs) w reason = go w
  where
    go :
        (w : AbVariant)
        → (conclude (a_wins (r ∷ rs)) (b_wins (r ∷ rs)) (length (r ∷ rs)) ≡ some (w, reason))
          ↔ ((reason ≡ consensus_reached) × (0 < wins w (r ∷ rs)) × (wins (other w) (r ∷ rs) ≡ 0))
    go a = ground (
      arith,
      conclude_lem (a_wins (r ∷ rs)) (b_wins (r ∷ rs)) (length (r ∷ rs)) a reason
          (wins-length (r ∷ rs)) (omega arith),
    )
    go b = ground (
      arith,
      conclude_lem (a_wins (r ∷ rs)) (b_wins (r ∷ rs)) (length (r ∷ rs)) b reason
          (wins-length (r ∷ rs)) (omega arith),
    )

-- An experiment concludes for a variant exactly if some significant result has it as the winner and
-- none has the other; the reason is always the consensus.
pub determine_experiment_conclusion_lem :
    (results : List AbMetricResult) (w : AbVariant) (reason : AbConclusionReason)
    → (determine_experiment_conclusion results ≡ some (w, reason))
      ↔ ((reason ≡ consensus_reached) × Favours w results × All (Unopposed w) results)
unfolding determine_experiment_conclusion
determine_experiment_conclusion_lem results w reason =
    let lem = conclusion_of_lem (significant results) w reason in
    (
      λ h. let (r, f, u) = lem.0 h in (r, wins-Favours w results f, (unopposed_lem w results).0 u),
      λ (r, f, u). lem.1 (r, Favours-wins w results f, (unopposed_lem w results).1 u),
    )

-- Whatever the doubles do, the test names a winner exactly if the result is significant, and it is
-- not significant if a variant has fewer than 30 samples.
calculate_ab_significance-winner :
    (doubles : Doubles) (rate_a rate_b : F64) (n_a n_b : ℤ) (confidence_level : F64)
    (direction : AbMetricDirection)
    → let r = calculate_ab_significance doubles rate_a rate_b n_a n_b confidence_level direction in
      (is_some r.winner ≡ r.is_significant)
      × ((r.is_significant ≡ false) ⊎ ((pos 30 ≤ℤ n_a) × (pos 30 ≤ℤ n_b)))
unfolding calculate_ab_significance
calculate_ab_significance-winner doubles rate_a rate_b n_a n_b confidence_level direction =
    ground arith
