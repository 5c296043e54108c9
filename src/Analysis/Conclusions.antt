-- ===== src/Analysis/Conclusions.antt =====
-- Why an experiment ends.
use kulta.Prelude.{
  ℕ, ◌≡◌, refl, sym, subst, ◌⊎◌, inl, inr, String, Bool, true, false, Option, none, some, List, ◌∷◌,
  and_then, Bool-cases,
}
use kulta.Prelude.Int.{ℤ, pos, ltb_ℤ, leb_ℤ}
use kulta.Crd.{
  F64, Rollout, AbAnalysisConfig, AbStrategy, AbVariant, AbConclusionReason, manual_conclusion,
  max_duration_exceeded, AbMetricResult,
}
use kulta.Experiment.{determine_experiment_conclusion}
use kulta.Kube.{QueryResult, value, query_error, Log, read_clock, query_instant}
use kulta.Kube.Run.{Outcome, returned, raised, panicked, ◌>>=◌}
use kulta.Kube.Context.{Context}
use kulta.Metrics.{
  query_ab_error_rate, query_ab_sample_count, build_ab_error_rate_query,
  build_ab_sample_count_query, as_count,
}
use kulta.Analysis.{
  AbExperimentEvaluation, settled, has_conclude_annotation, reached, before, min_samples,
  results_of, judge_b, judge_a, judge_samples, count_b, count_a, from_counts, from_analysis,
  from_timeout, from_annotation, evaluate_strategy, evaluate_ab_experiment, elapsed_since,
  started_at, limit_of,
}
use kulta.Analysis.Limits.{IsLimit, Panics, limit_of-cases}

abbrev Undecided : AbExperimentEvaluation → Type 0
Undecided e = (e.should_conclude ≡ false) × (e.winner ≡ none) × (e.reason ≡ none)

abbrev Ended : AbConclusionReason → AbExperimentEvaluation → Type 0
Ended reason e = (e.should_conclude ≡ true) × (e.winner ≡ none) × (e.reason ≡ some reason)

-- Both samples are large enough, and the results name the winner.
abbrev Decided : Option AbAnalysisConfig → AbExperimentEvaluation → Type 0
Decided none e = ⊥
Decided (some analysis_config) e =
    (winner : AbVariant) × (reason : AbConclusionReason) × (sample_a : ℤ) × (sample_b : ℤ)
    × (e.should_conclude ≡ true)
    × (e.winner ≡ some winner)
    × (e.reason ≡ some reason)
    × (e.sample_size_a ≡ some sample_a)
    × (e.sample_size_b ≡ some sample_b)
    × (ltb_ℤ sample_a (min_samples analysis_config) ≡ false)
    × (ltb_ℤ sample_b (min_samples analysis_config) ≡ false)
    × (determine_experiment_conclusion e.results ≡ some (winner, reason))

abbrev min_duration_of : AbStrategy → Option String
min_duration_of ab_strategy = and_then ab_strategy.analysis (λ a. a.min_duration)

module _ (ctx : Context) where
  open ctx use {chrono}
  open chrono use {DateTime, seconds_since}

  -- The longest duration is given and can be parsed, and what the clock shows after the log is at
  -- least as much past the start.
  abbrev TimedOut : Log → Rollout → AbStrategy → Type 0
  TimedOut log rollout ab_strategy =
      (limit : ℕ) × (start : DateTime) × IsLimit ab_strategy.max_duration (some limit)
      × (started_at ctx rollout ≡ some start)
      × (leb_ℤ (pos limit) (seconds_since (ctx.now log) start) ≡ true)

  abbrev pub Justified : Log → Rollout → AbStrategy → AbExperimentEvaluation → Type 0
  Justified at_log rollout ab_strategy e =
      Undecided e
      ⊎ (Ended manual_conclusion e × (has_conclude_annotation rollout ≡ true))
      ⊎ (Ended max_duration_exceeded e × TimedOut at_log rollout ab_strategy)
      ⊎ Decided ab_strategy.analysis e

  -- The outcome of an evaluation.
  abbrev pub JustifiedOutcome :
      Log → Rollout → AbStrategy → Outcome AbExperimentEvaluation × Log → Type 0
  JustifiedOutcome at_log rollout ab_strategy (returned e, log) =
      Justified at_log rollout ab_strategy e
  JustifiedOutcome at_log rollout ab_strategy (raised e, log) = ⊥
  JustifiedOutcome at_log rollout ab_strategy (panicked, log) =
      Panics ab_strategy.max_duration ⊎ Panics (min_duration_of ab_strategy)

  module _ (at_log : Log) (rollout : Rollout) (ab_strategy : AbStrategy) (c : AbAnalysisConfig)
      (analysis : ab_strategy.analysis ≡ some c) where
    settled-Justified :
        (sample_a sample_b : ℤ) (results : List AbMetricResult)
        (conclusion : Option (AbVariant × AbConclusionReason))
        → ltb_ℤ sample_a (min_samples c) ≡ false
        → ltb_ℤ sample_b (min_samples c) ≡ false
        → determine_experiment_conclusion results ≡ conclusion
        → Justified at_log rollout ab_strategy (settled sample_a sample_b results conclusion)
    settled-Justified sample_a sample_b results none enough_a enough_b e = inl (refl, refl, refl)
    settled-Justified sample_a sample_b results (some (winner, reason)) enough_a enough_b e =
        let by_c : Decided (some c) (settled sample_a sample_b results (some (winner, reason))) = (
          winner, reason, sample_a, sample_b, refl, refl, refl, refl, refl, enough_a, enough_b, e,
        ) in
        inr (
          inr (
            inr (
              subst (λ a. Decided a (settled sample_a sample_b results (some (winner, reason))))
                (sym analysis) by_c)))

    judge_b-Justified :
        (sample_a sample_b : ℤ) (rate_a : F64) (answer : QueryResult) (log : Log)
        → ltb_ℤ sample_a (min_samples c) ≡ false
        → ltb_ℤ sample_b (min_samples c) ≡ false
        → JustifiedOutcome at_log rollout ab_strategy
            (judge_b ctx c sample_a sample_b rate_a answer log)
    judge_b-Justified sample_a sample_b rate_a (value rate_b) log enough_a enough_b =
        settled-Justified sample_a sample_b (results_of ctx c rate_a rate_b sample_a sample_b) _
          enough_a enough_b refl
    judge_b-Justified sample_a sample_b rate_a (query_error e) log enough_a enough_b =
        inl (refl, refl, refl)

    judge_a-Justified :
        (sample_a sample_b : ℤ) (answer : QueryResult) (log : Log)
        → ltb_ℤ sample_a (min_samples c) ≡ false
        → ltb_ℤ sample_b (min_samples c) ≡ false
        → JustifiedOutcome at_log rollout ab_strategy
            (judge_a ctx ab_strategy c sample_a sample_b answer log)
    unfolding query_ab_error_rate
    judge_a-Justified sample_a sample_b (value rate_a) log enough_a enough_b =
        let query = build_ab_error_rate_query ab_strategy.variant_b_service in
        judge_b-Justified sample_a sample_b rate_a (ctx.server.queried log query)
          (query_instant query ∷ log) enough_a enough_b
    judge_a-Justified sample_a sample_b (query_error e) log enough_a enough_b =
        inl (refl, refl, refl)

    judge_samples-Justified :
        (sample_a sample_b : ℤ) (log : Log)
        → JustifiedOutcome at_log rollout ab_strategy
            (judge_samples ctx ab_strategy c sample_a sample_b log)
    unfolding query_ab_error_rate
    judge_samples-Justified sample_a sample_b log =
        let query = build_ab_error_rate_query ab_strategy.variant_a_service in
        elim (Bool-cases (ltb_ℤ sample_a (min_samples c))) [
          | inl few ↦ rw few (inl (refl, refl, refl))
          | inr enough_a ↦ elim (Bool-cases (ltb_ℤ sample_b (min_samples c))) [
            | inl few ↦ rw (enough_a, few) (inl (refl, refl, refl))
            | inr enough_b ↦
                rw (enough_a, enough_b)
                  (judge_a-Justified sample_a sample_b (ctx.server.queried log query)
                    (query_instant query ∷ log) enough_a enough_b)
          ]
        ]

    count_b-Justified :
        (sample_a : ℤ) (count : Option ℤ) (log : Log)
        → JustifiedOutcome at_log rollout ab_strategy (count_b ctx ab_strategy c sample_a count log)
    count_b-Justified sample_a none log = inl (refl, refl, refl)
    count_b-Justified sample_a (some sample_b) log = judge_samples-Justified sample_a sample_b log

    count_a-Justified :
        (count : Option ℤ) (log : Log)
        → JustifiedOutcome at_log rollout ab_strategy (count_a ctx ab_strategy c count log)
    unfolding query_ab_sample_count
    count_a-Justified none log = inl (refl, refl, refl)
    count_a-Justified (some sample_a) log =
        let query = build_ab_sample_count_query ab_strategy.variant_b_service in
        count_b-Justified sample_a (as_count ctx (ctx.server.queried log query))
          (query_instant query ∷ log)

    from_counts-Justified :
        (early : Bool) (log : Log)
        → JustifiedOutcome at_log rollout ab_strategy (from_counts ctx ab_strategy c early log)
    unfolding query_ab_sample_count
    from_counts-Justified true log = inl (refl, refl, refl)
    from_counts-Justified false log =
        let query = build_ab_sample_count_query ab_strategy.variant_a_service in
        count_a-Justified (as_count ctx (ctx.server.queried log query)) (query_instant query ∷ log)

  module _ (at_log : Log) (rollout : Rollout) (ab_strategy : AbStrategy) where
    from_analysis-Justified :
        (elapsed : Option ℤ) (a : Option AbAnalysisConfig) (log : Log)
        → ab_strategy.analysis ≡ a
        → JustifiedOutcome at_log rollout ab_strategy (from_analysis ctx ab_strategy elapsed a log)
    from_analysis-Justified elapsed none log e = inl (refl, refl, refl)
    from_analysis-Justified elapsed (some c) log e =
        limit_of-cases (JustifiedOutcome at_log rollout ab_strategy) _ log c.min_duration
          (λ limit h.
            from_counts-Justified at_log rollout ab_strategy c e (before limit elapsed) log)
          (λ h. inr (subst (λ a. Panics (and_then a (λ a. a.min_duration))) (sym e) h))

    from_timeout-Justified :
        (elapsed : Option ℤ) (late : Bool) (log : Log)
        → (late ≡ true → TimedOut at_log rollout ab_strategy)
        → JustifiedOutcome at_log rollout ab_strategy
            (from_timeout ctx ab_strategy elapsed late log)
    from_timeout-Justified elapsed true log late = inr (inr (inl ((refl, refl, refl), late refl)))
    from_timeout-Justified elapsed false log late =
        from_analysis-Justified elapsed ab_strategy.analysis log refl

    reached-TimedOut :
        (limit : Option ℕ) (start : DateTime)
        → IsLimit ab_strategy.max_duration limit
        → started_at ctx rollout ≡ some start
        → reached limit (some (seconds_since (ctx.now at_log) start)) ≡ true
        → TimedOut at_log rollout ab_strategy
    reached-TimedOut none start l s h = cc
    reached-TimedOut (some limit) start l s h = (limit, start, l, s, h)

    none-reached : (limit : Option ℕ) → reached limit none ≡ false
    none-reached none = refl
    none-reached (some limit) = refl

    from_start-Justified :
        (start : Option DateTime)
        → started_at ctx rollout ≡ start
        → JustifiedOutcome at_log rollout ab_strategy (
            (elapsed_since ctx start >>= λ elapsed. limit_of ab_strategy.max_duration >>= λ limit.
            from_timeout ctx ab_strategy elapsed (reached limit elapsed))
              at_log)
    from_start-Justified none s =
        limit_of-cases (JustifiedOutcome at_log rollout ab_strategy) _ at_log
          ab_strategy.max_duration
          (λ limit h.
            from_timeout-Justified none (reached limit none) at_log
              (λ late. absurd (cc (none-reached limit))))
          (λ h. inl h)
    from_start-Justified (some start) s =
        limit_of-cases (JustifiedOutcome at_log rollout ab_strategy) _ (read_clock ∷ at_log)
          ab_strategy.max_duration
          (λ limit h.
            from_timeout-Justified _ (reached limit (some (seconds_since (ctx.now at_log) start))) _
              (λ late. reached-TimedOut limit start h s late))
          (λ h. inl h)

    from_annotation-Justified :
        (annotated : Bool)
        → has_conclude_annotation rollout ≡ annotated
        → JustifiedOutcome at_log rollout ab_strategy
            (from_annotation ctx rollout ab_strategy annotated at_log)
    from_annotation-Justified true e = inr (inl ((refl, refl, refl), e))
    from_annotation-Justified false e = from_start-Justified (started_at ctx rollout) refl

  -- For a rollout with an A/B strategy, evaluating the experiment fails nowhere, and panics only
  -- where reading the longest or the shortest duration does. The evaluation concludes for one of
  -- three reasons: the annotation asks for it; the longest duration has gone by since the start, by
  -- what the clock shows when the evaluation begins; or both samples are as large as the analysis
  -- demands and the results name a winner. Only the last has a winner, and an evaluation that does
  -- not conclude has neither a winner nor a reason.
  pub evaluate_ab_experiment-Justified :
      (rollout : Rollout) (ab_strategy : AbStrategy) (log : Log)
      → rollout.spec.strategy.ab_testing ≡ some ab_strategy
      → JustifiedOutcome log rollout ab_strategy (evaluate_ab_experiment ctx rollout log)
  unfolding evaluate_ab_experiment
  evaluate_ab_experiment-Justified rollout ab_strategy log e =
      subst (λ o. JustifiedOutcome log rollout ab_strategy (evaluate_strategy ctx rollout o log))
        (sym e)
        (from_annotation-Justified log rollout ab_strategy (has_conclude_annotation rollout) refl)
