-- ===== src/Examples/Experiments.antt =====
-- The theorems on A/B experiments, at samples.
use kulta.Prelude.{◌≡◌, ◌↔◌, true, some, [], ◌∷◌, All}
use kulta.Crd.{AbMetricResult, b, consensus_reached}
use kulta.Experiment.{determine_experiment_conclusion}
use kulta.Experiment.Consensus.{Favours, Unopposed, determine_experiment_conclusion_lem}

abbrev error_rate : AbMetricResult
error_rate = record {
  name = "error-rate";
  value_a = 5;
  value_b = 2;
  confidence = 99;
  is_significant = true;
  winner = some b;
}

determine_experiment_conclusion_lem_example :
    (determine_experiment_conclusion (error_rate ∷ []) ≡ some (b, consensus_reached)) ↔ (
      (consensus_reached ≡ consensus_reached)
      × Favours b (error_rate ∷ [])
      × All (Unopposed b) (error_rate ∷ []))
determine_experiment_conclusion_lem_example =
    determine_experiment_conclusion_lem (error_rate ∷ []) b consensus_reached
