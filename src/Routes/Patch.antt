-- ===== src/Routes/Patch.antt =====
-- What the weight patch leaves of an HTTPRoute. It is a JSON merge patch (RFC 7386), in which a list
-- takes the place of the old list; traffic.rs has a function that changes the first rule only.
use kulta.Prelude.{◌≡◌, sym, ap, ◌∙◌, ◌↔◌, none, some, unwrap_or, List, [], ◌∷◌}
use kulta.Crd.{Rollout}
use kulta.Traffic.{
  HttpRoute, HttpRouteRule, GatewayBackendRef, set_first, update_httproute_backends,
  build_gateway_api_backend_refs,
}
use kulta.Routes.{weight_rule}

-- A rule with nothing but its references.
abbrev pub Bare : HttpRouteRule → Type 0
Bare rule =
    (rule.name ≡ none) × (rule.matches ≡ none) × (rule.filters ≡ none) × (rule.timeouts ≡ none)

abbrev pub OneBareRule : List HttpRouteRule → Type 0
OneBareRule [] = ⊥
OneBareRule (rule ∷ []) = Bare rule
OneBareRule (rule ∷ other ∷ rules) = ⊥

abbrev head : HttpRouteRule → List HttpRouteRule → HttpRouteRule
head d [] = d
head d (rule ∷ rules) = rule

abbrev tail : List HttpRouteRule → List HttpRouteRule
tail [] = []
tail (rule ∷ rules) = rules

weight_rule-Bare :
    (refs : List GatewayBackendRef) (rules : List HttpRouteRule)
    → weight_rule refs ∷ [] ≡ set_first refs rules
    → OneBareRule rules
weight_rule-Bare refs [] e = cc
weight_rule-Bare refs (rule ∷ []) e =
    let same = ap (head rule) e in
    (
      ap (λ r. r.name) (sym same),
      ap (λ r. r.matches) (sym same),
      ap (λ r. r.filters) (sym same),
      ap (λ r. r.timeouts) (sym same),
    )
weight_rule-Bare refs (rule ∷ other ∷ rules) e = absurd (cc (ap tail e))

Bare-weight_rule :
    (refs : List GatewayBackendRef) (rules : List HttpRouteRule)
    → OneBareRule rules
    → weight_rule refs ∷ [] ≡ set_first refs rules
Bare-weight_rule refs [] h = absurd h
Bare-weight_rule refs (rule ∷ []) (n, m, f, t) = cc
Bare-weight_rule refs (rule ∷ other ∷ rules) h = absurd h

-- What the API server makes of a route by a merge patch of its rules: they take the place of the old
-- ones, and the rest stays.
module _ (patch_route : List HttpRouteRule → HttpRoute → HttpRoute)
    (merges : (rules : List HttpRouteRule) (route : HttpRoute)
      → patch_route rules route ≡ record route { rules = some rules }) where
  update-some :
      (rollout : Rollout) (route : HttpRoute) (rules : List HttpRouteRule)
      → route.rules ≡ some rules
      → update_httproute_backends rollout route
        ≡ patch_route (set_first (build_gateway_api_backend_refs rollout) rules) route
  unfolding update_httproute_backends
  update-some rollout route rules e =
      ap
        (λ o. elim o [
          | none ↦ route
          | some rules ↦ record route {
            rules = some (set_first (build_gateway_api_backend_refs rollout) rules);
          }
        ])
        e
      ∙ sym (merges (set_first (build_gateway_api_backend_refs rollout) rules) route)

  patch_route-same :
      (rules others : List HttpRouteRule) (route : HttpRoute)
      → patch_route rules route ≡ patch_route others route
      → rules ≡ others
  patch_route-same rules others route e =
      ap (λ (r : HttpRoute). unwrap_or r.rules [])
        (sym (merges rules route) ∙ e ∙ merges others route)

  -- For a route that has rules, where the API server's merge patch puts the new rules in the place
  -- of the old ones: the weight patch does what the update of the first rule's references does
  -- exactly if the route has one rule, and that rule has nothing but its references: no name, no
  -- matches, no filters and no timeouts.
  pub patch_route-update :
      (rollout : Rollout) (route : HttpRoute) (rules : List HttpRouteRule)
      → route.rules ≡ some rules
      → (patch_route (weight_rule (build_gateway_api_backend_refs rollout) ∷ []) route
          ≡ update_httproute_backends rollout route)
        ↔ OneBareRule rules
  patch_route-update rollout route rules e =
      let refs = build_gateway_api_backend_refs rollout in
      let updated = update-some rollout route rules e in
      (
        λ same. weight_rule-Bare refs rules (patch_route-same _ _ route (same ∙ updated)),
        λ bare. ap (λ r. patch_route r route) (Bare-weight_rule refs rules bare) ∙ sym updated,
      )
