-- ===== src/Reconcile/Texts.antt =====
-- The texts that a reconciliation makes of statuses and decisions (`{:?}` is the constructor's name).
use Prim.Native.String.{◌++◌}
use kulta.Prelude.{String, Option, none, some}
use kulta.Prelude.Int.{ℤ, show_int}
use kulta.Crd.{Decision, DecisionAction, AbConclusionReason}

abbrev pub show_action : DecisionAction → String
show_action DecisionAction.initialize = "Initialize"
show_action DecisionAction.step_advance = "StepAdvance"
show_action DecisionAction.promotion = "Promotion"
show_action DecisionAction.rollback = "Rollback"
show_action DecisionAction.pause = "Pause"
show_action DecisionAction.resume = "Resume"
show_action DecisionAction.complete = "Complete"

abbrev pub show_decision : Decision → String
show_decision d = d.timestamp ++ ": " ++ show_action d.action

abbrev pub show_reason : AbConclusionReason → String
show_reason AbConclusionReason.significance_reached = "SignificanceReached"
show_reason AbConclusionReason.max_duration_exceeded = "MaxDurationExceeded"
show_reason AbConclusionReason.manual_conclusion = "ManualConclusion"
show_reason AbConclusionReason.consensus_reached = "ConsensusReached"

abbrev pub show_conclusion : Option AbConclusionReason → String
show_conclusion none = "A/B experiment concluded: None"
show_conclusion (some reason) = "A/B experiment concluded: Some(" ++ show_reason reason ++ ")"

abbrev pub deadline_message : ℤ → String
deadline_message deadline_seconds =
    "Progress deadline exceeded: no progress made in " ++ show_int deadline_seconds ++ " seconds"
