-- ===== src/Strategy/Choice.antt =====
-- Which handler `select_strategy` picks.
use kulta.Prelude.{◌≡◌, ◌↔◌, ◌≢◌, arith, none}
use kulta.Crd.{Rollout, RolloutStrategy}
use kulta.Strategy.{Handler, simple, canary, blue_green, ab_testing, select_strategy}

-- The conditions under which a handler is chosen.
abbrev pub Chosen : RolloutStrategy → Handler → Type 0
Chosen s simple = s.simple ≢ none
Chosen s blue_green = (s.simple ≡ none) × (s.blue_green ≢ none)
Chosen s ab_testing = (s.simple ≡ none) × (s.blue_green ≡ none) × (s.ab_testing ≢ none)
Chosen s canary = (s.simple ≡ none) × (s.blue_green ≡ none) × (s.ab_testing ≡ none)

-- The simple strategy comes before blue-green, blue-green before A/B testing, and the canary
-- handler takes what is left, whether or not a canary section is there.
pub select_strategy-Chosen :
    (rollout : Rollout) (handler : Handler)
    → (select_strategy rollout ≡ handler) ↔ Chosen rollout.spec.strategy handler
unfolding select_strategy
select_strategy-Chosen rollout simple = ground arith
select_strategy-Chosen rollout canary = ground arith
select_strategy-Chosen rollout blue_green = ground arith
select_strategy-Chosen rollout ab_testing = ground arith
