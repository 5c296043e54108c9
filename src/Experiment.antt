-- ===== src/Experiment.antt =====
-- controller/prometheus_ab.rs: the significance test of an A/B experiment and its conclusion. The
-- operations on doubles are a parameter.
pub mod Consensus
use kulta.Prelude.{
  ℕ, ◌+◌, String, Bool, false, ◌&&◌, ◌||◌, Option, none, some, List, [], ◌∷◌, map, length, ltb,
  ◌==◌, if◌then◌else◌,
}
use kulta.Prelude.Int.{ℤ, pos, ltb_ℤ, ◌+ℤ◌, wrap_i64}
use kulta.Crd.{
  F64, AbMetricDirection, lower, higher, AbMetricResult, AbVariant, a, b, AbConclusionReason,
  significance_reached, consensus_reached,
}

-- Arithmetic on `f64`, and the conversion of an `i64`.
pub record Doubles : Type 0 where
  pub add : F64 → F64 → F64
  pub sub : F64 → F64 → F64
  pub mul : F64 → F64 → F64
  pub div : F64 → F64 → F64
  pub neg : F64 → F64
  pub sqrt : F64 → F64
  pub exp : F64 → F64
  pub abs : F64 → F64
  pub lt : F64 → F64 → Bool
  pub le : F64 → F64 → Bool
  pub eq : F64 → F64 → Bool
  pub is_nan : F64 → Bool
  pub is_infinite : F64 → Bool
  pub of_i64 : ℤ → F64

-- The constants, as their bits.
abbrev zero : F64
zero = 0  -- 0.0

abbrev half : F64
half = 4602678819172646912  -- 0.5

abbrev one : F64
one = 4607182418800017408  -- 1.0

abbrev minus_one : F64
minus_one = 13830554455654793216  -- -1.0

abbrev two : F64
two = 4611686018427387904  -- 2.0

abbrev sqrt_2 : F64
sqrt_2 = 4609047870845172685  -- 1.4142135623730951

abbrev a1 : F64
a1 = 4598262221740202622  -- 0.254829592

abbrev a2 : F64
a2 = 13822168694349632617  -- -0.284496736

abbrev a3 : F64
a3 = 4609080297566953815  -- 1.421413741

abbrev a4 : F64
a4 = 13832595270954732601  -- -1.453152027

abbrev a5 : F64
a5 = 4607458964267180333  -- 1.061405429

abbrev p_constant : F64
p_constant = 4599572976541465484  -- 0.3275911

pub record AbComparisonResult : Type 0 where
  pub is_significant : Bool
  pub confidence : F64
  pub winner : Option AbVariant
  pub effect_size : F64
  pub sample_size_a : ℤ
  pub sample_size_b : ℤ

-- `results.iter().filter(|r| r.is_significant)`.
unfoldable pub significant : List AbMetricResult → List AbMetricResult
significant [] = []
significant (r ∷ rs) = let rest = significant rs in if r.is_significant then r ∷ rest else rest

abbrev pub win_of_a : Option AbVariant → ℕ
win_of_a (some a) = 1
win_of_a _ = 0

abbrev pub win_of_b : Option AbVariant → ℕ
win_of_b (some b) = 1
win_of_b _ = 0

unfoldable pub a_wins : List AbMetricResult → ℕ
a_wins [] = 0
a_wins (r ∷ rs) = win_of_a r.winner + a_wins rs

unfoldable pub b_wins : List AbMetricResult → ℕ
b_wins [] = 0
b_wins (r ∷ rs) = win_of_b r.winner + b_wins rs

-- From the two early returns on: the counts of the wins, and how many significant results there are.
unfoldable pub conclude : ℕ → ℕ → ℕ → Option (AbVariant × AbConclusionReason)
conclude wins_a wins_b count =
    if ltb 0 wins_a && wins_b == 0
    then some (a, consensus_reached)
    else if ltb 0 wins_b && wins_a == 0
    then some (b, consensus_reached)
    else if wins_a == count || wins_b == count
    then some ((if ltb wins_b wins_a then a else b), significance_reached)
    else none

abbrev pub conclusion_of : List AbMetricResult → Option (AbVariant × AbConclusionReason)
conclusion_of [] = none
conclusion_of (r ∷ rs) = conclude (a_wins (r ∷ rs)) (b_wins (r ∷ rs)) (length (r ∷ rs))

-- No results are no significant results.
unfoldable pub determine_experiment_conclusion :
    List AbMetricResult → Option (AbVariant × AbConclusionReason)
determine_experiment_conclusion results = conclusion_of (significant results)

pub record AbMetric : Type 0 where
  pub name : String
  pub rate_a : F64
  pub rate_b : F64
  pub n_a : ℤ
  pub n_b : ℤ
  pub direction : AbMetricDirection

module _ (doubles : Doubles) where
  open doubles use {
    add, sub, mul, div, neg, sqrt, exp, abs, lt, le, eq, is_nan, is_infinite, of_i64,
  }

  unfoldable pub normal_cdf : F64 → F64
  normal_cdf x =
      let sign = if lt x zero then minus_one else one in
      let x = div (abs x) sqrt_2 in
      let t = div one (add one (mul p_constant x)) in
      let horner = add (mul (add (mul (add (mul (add (mul a5 t) a4) t) a3) t) a2) t) a1 in
      let y = sub one (mul (mul horner t) (exp (mul (neg x) x))) in mul half (add one (mul sign y))

  abbrev pub undecided : ℤ → ℤ → AbComparisonResult
  undecided n_a n_b = record {
    is_significant = false;
    confidence = zero;
    winner = none;
    effect_size = zero;
    sample_size_a = n_a;
    sample_size_b = n_b;
  }

  abbrev pub standard_error : F64 → F64 → ℤ → ℤ → F64
  standard_error rate_a rate_b n_a n_b =
      let p_pooled =
        div (add (mul rate_a (of_i64 n_a)) (mul rate_b (of_i64 n_b)))
          (of_i64 (wrap_i64 (n_a +ℤ n_b))) in
      sqrt
        (mul (mul p_pooled (sub one p_pooled)) (add (div one (of_i64 n_a)) (div one (of_i64 n_b))))

  abbrev pub better : AbMetricDirection → F64 → F64 → AbVariant
  better lower rate_a rate_b = if lt rate_b rate_a then b else a
  better higher rate_a rate_b = if lt rate_a rate_b then b else a

  abbrev pub effect : F64 → F64 → F64
  effect rate_a rate_b =
      if lt zero rate_a
      then div (sub rate_b rate_a) rate_a
      else if lt zero rate_b
      then one
      else zero

  unfoldable pub calculate_ab_significance :
      F64 → F64 → ℤ → ℤ → F64 → AbMetricDirection → AbComparisonResult
  calculate_ab_significance rate_a rate_b n_a n_b confidence_level direction =
      let se = standard_error rate_a rate_b n_a n_b in
      let z_score = div (sub rate_b rate_a) se in
      let p_value = mul two (sub one (normal_cdf (abs z_score))) in
      let achieved_confidence = sub one p_value in
      if ltb_ℤ n_a (pos 30) || ltb_ℤ n_b (pos 30)
      then undecided n_a n_b
      else if eq se zero || is_nan se || is_infinite se
      then undecided n_a n_b
      else record {
        is_significant = le confidence_level achieved_confidence;
        confidence = achieved_confidence;
        winner =
            if le confidence_level achieved_confidence
            then some (better direction rate_a rate_b)
            else none;
        effect_size = effect rate_a rate_b;
        sample_size_a = n_a;
        sample_size_b = n_b;
      }

  abbrev pub evaluate_ab_metric : F64 → AbMetric → AbMetricResult
  evaluate_ab_metric confidence_level m =
      let result =
        calculate_ab_significance m.rate_a m.rate_b m.n_a m.n_b confidence_level m.direction in
      record {
        name = m.name;
        value_a = m.rate_a;
        value_b = m.rate_b;
        confidence = result.confidence;
        is_significant = result.is_significant;
        winner = result.winner;
      }

  unfoldable pub evaluate_ab_metrics : List AbMetric → F64 → List AbMetricResult
  evaluate_ab_metrics metrics confidence_level = map (evaluate_ab_metric confidence_level) metrics
