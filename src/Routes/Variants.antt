-- ===== src/Routes/Variants.antt =====
-- Where an experiment's requests go. A rule's matches are alternatives, the headers of a match are
-- all required, a rule without matches takes every request, and the first rule that takes a request
-- serves it.
use kulta.Prelude.{
  arith, ◌≡◌, Bool, true, false, ◌&&◌, ◌||◌, Option, none, some, unwrap_or, List, [], ◌∷◌,
  if◌then◌else◌,
}
use kulta.Prelude.Int.{pos}
use kulta.Crd.{AbStrategy, AbHeaderMatch, AbCookieMatch, AbMatch}
use kulta.Traffic.{
  HttpRouteRule, HeaderMatch, RouteMatch, GatewayBackendRef, service_ref, default_service_port,
}
use kulta.Routes.Rules.{build_ab_testing_httproute_rules, header_of, cookie_of}

-- `holds` says whether a request has a header that satisfies a match.
module _ (holds : HeaderMatch → Bool) where
  abbrev all_hold : List HeaderMatch → Bool
  all_hold [] = true
  all_hold (header ∷ headers) = holds header && all_hold headers

  abbrev any_match : List RouteMatch → Bool
  any_match [] = false
  any_match (m ∷ ms) = all_hold (unwrap_or m.headers []) || any_match ms

  abbrev takes : HttpRouteRule → Bool
  takes rule = elim rule.matches [ none ↦ true | some ms ↦ any_match ms ]

  abbrev pub serve : List HttpRouteRule → Option (List GatewayBackendRef)
  serve [] = none
  serve (rule ∷ rules) = if takes rule then rule.backend_refs else serve rules

  abbrev has_header : Option AbHeaderMatch → Bool
  has_header none = false
  has_header (some header_match) = holds (header_of header_match)

  abbrev has_cookie : Option AbCookieMatch → Bool
  has_cookie none = false
  has_cookie (some cookie_match) = holds (cookie_of cookie_match)

  -- The request is one for variant B.
  abbrev pub selects_b : AbMatch → Bool
  selects_b m = has_header m.header || has_cookie m.cookie

  -- The rules of an experiment send a request that satisfies the header match or the cookie match of
  -- variant B to its service, and every other request to the service of variant A, at the strategy's
  -- port and with all of the weight.
  pub build_ab_testing_httproute_rules-serve :
      (ab_strategy : AbStrategy)
      → serve (build_ab_testing_httproute_rules ab_strategy)
        ≡ some (
            service_ref
              (if selects_b ab_strategy.variant_b_match
                then ab_strategy.variant_b_service
                else ab_strategy.variant_a_service)
              (default_service_port ab_strategy.port)
              (pos 100)
            ∷ [])
  unfolding build_ab_testing_httproute_rules default_service_port
  build_ab_testing_httproute_rules-serve ab_strategy = ground arith
