-- ===== src/Crd/Strategy.antt =====
-- crd/rollout.rs: the four deployment strategies and what they are made of.
use kulta.Prelude.{String, Option, List, Bool}
use kulta.Prelude.Int.{ℤ}
use kulta.Crd.Analysis.{AnalysisConfig, AbAnalysisConfig}

pub record PauseDuration : Type 0 where
  pub duration : Option String

pub record CanaryStep : Type 0 where
  pub set_weight : Option ℤ
  pub pause : Option PauseDuration

pub record GatewayApiRouting : Type 0 where
  pub http_route : String

pub record TrafficRouting : Type 0 where
  pub gateway_api : Option GatewayApiRouting

pub record SimpleStrategy : Type 0 where
  pub analysis : Option AnalysisConfig

pub record BlueGreenStrategy : Type 0 where
  pub active_service : String
  pub preview_service : String
  pub port : Option ℤ
  pub auto_promotion_enabled : Option Bool
  pub auto_promotion_seconds : Option ℤ
  pub traffic_routing : Option TrafficRouting
  pub analysis : Option AnalysisConfig

pub record CanaryStrategy : Type 0 where
  pub canary_service : String
  pub stable_service : String
  pub port : Option ℤ
  pub steps : List CanaryStep
  pub traffic_routing : Option TrafficRouting
  pub analysis : Option AnalysisConfig

pub data AbMatchType : Type 0 where
  exact regular_expression : AbMatchType

pub record AbHeaderMatch : Type 0 where
  pub name : String
  pub value : String
  pub match_type : Option AbMatchType

pub record AbCookieMatch : Type 0 where
  pub name : String
  pub value : String

pub record AbMatch : Type 0 where
  pub header : Option AbHeaderMatch
  pub cookie : Option AbCookieMatch

pub record AbStrategy : Type 0 where
  pub variant_a_service : String
  pub variant_b_service : String
  pub port : Option ℤ
  pub variant_b_match : AbMatch
  pub traffic_routing : Option TrafficRouting
  pub max_duration : Option String
  pub analysis : Option AbAnalysisConfig

pub record RolloutStrategy : Type 0 where
  pub simple : Option SimpleStrategy
  pub canary : Option CanaryStrategy
  pub blue_green : Option BlueGreenStrategy
  pub ab_testing : Option AbStrategy
