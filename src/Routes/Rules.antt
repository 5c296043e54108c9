-- ===== src/Routes/Rules.antt =====
-- controller/strategies/ab_testing.rs: the rules that send an experiment's traffic to its variants.
use Prim.Native.String.{◌++◌ as ◌+++◌}
use kulta.Prelude.{String, Option, none, some, List, [], ◌∷◌, ◌++◌}
use kulta.Prelude.Int.{ℤ, pos}
use kulta.Crd.{AbStrategy, AbMatchType, AbHeaderMatch, AbCookieMatch}
use kulta.Traffic.{HttpRouteRule, HeaderMatch, HeaderMatchType, service_ref, default_service_port}

abbrev pub match_type_of : Option AbMatchType → HeaderMatchType
match_type_of (some AbMatchType.regular_expression) = HeaderMatchType.regular_expression
match_type_of (some AbMatchType.exact) = HeaderMatchType.exact
match_type_of none = HeaderMatchType.exact

-- A rule that sends all that it matches to one service.
abbrev pub variant_rule : String → Option HeaderMatch → String → ℤ → HttpRouteRule
variant_rule name matched service port = record {
  name = some name;
  matches = elim matched [
    | none ↦ none
    | some header ↦ some (record { headers = some (header ∷ []); other = none } ∷ [])
  ];
  backend_refs = some (service_ref service port (pos 100) ∷ []);
  filters = none;
  timeouts = none;
}

abbrev pub header_of : AbHeaderMatch → HeaderMatch
header_of header_match = record {
  name = header_match.name;
  value = header_match.value;
  match_type = some (match_type_of header_match.match_type);
}

abbrev pub cookie_of : AbCookieMatch → HeaderMatch
cookie_of cookie_match = record {
  name = "Cookie";
  value = cookie_match.name +++ "=" +++ cookie_match.value;
  match_type = some HeaderMatchType.regular_expression;
}

abbrev pub header_rules : Option AbHeaderMatch → String → ℤ → List HttpRouteRule
header_rules none service port = []
header_rules (some header_match) service port =
    variant_rule "variant-b" (some (header_of header_match)) service port ∷ []

abbrev pub cookie_rules : Option AbCookieMatch → String → ℤ → List HttpRouteRule
cookie_rules none service port = []
cookie_rules (some cookie_match) service port =
    variant_rule "variant-b-cookie" (some (cookie_of cookie_match)) service port ∷ []

unfoldable pub build_ab_testing_httproute_rules : AbStrategy → List HttpRouteRule
unfolding default_service_port
build_ab_testing_httproute_rules ab_strategy =
    let port = default_service_port ab_strategy.port in
    let variant_b = ab_strategy.variant_b_match in
    header_rules variant_b.header ab_strategy.variant_b_service port
    ++ cookie_rules variant_b.cookie ab_strategy.variant_b_service port
    ++ variant_rule "variant-a" none ab_strategy.variant_a_service port ∷ []
