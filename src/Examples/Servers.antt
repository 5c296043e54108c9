-- ===== src/Examples/Servers.antt =====
-- A cluster with one ReplicaSet, a context around it, and the theorems on ReplicaSets and routes there.
use kulta.Prelude.{
  ◌≡◌, refl, ◌^◌, ◌<◌, ◌↔◌, ◌+◌, ◌-◌, ◌*◌, ◌/◌, true, false, none, some, List, [], ◌∷◌, ltb, leb,
  ◌==◌,
}
use kulta.Prelude.Int.{pos, pos_part}
use kulta.Crd.{AbStrategy}
use kulta.Experiment.{Doubles}
use kulta.Leader.Api.{Response, ok, api_error}
use kulta.Kube.{
  ReplicaSet, Request, get_replicaset, scale_replicaset, create_replicaset, Log, Server, value,
}
use kulta.Kube.Run.{returned, panicked}
use kulta.Kube.Context.{Context}
use kulta.Traffic.{
  HttpRoute, HttpRouteRule, update_httproute_backends, build_gateway_api_backend_refs, service_ref,
  default_service_port,
}
use kulta.ReplicaSets.{ensure_replicaset_exists}
use kulta.ReplicaSets.Hash.{
  compute_pod_template_hash, fnv_1a, offset_basis, compute_pod_template_hash-panicked,
}
use kulta.ReplicaSets.Ensure.{Keeps, Scaled, ensure_replicaset_exists-again}
use kulta.Routes.{weight_rule}
use kulta.Routes.Rules.{build_ab_testing_httproute_rules}
use kulta.Routes.Patch.{OneBareRule, patch_route-update}
use kulta.Routes.Variants.{serve, build_ab_testing_httproute_rules-serve}
use kulta.Examples.{strokes, plain_canary, rollout_of}

abbrev pub web : ReplicaSet
web = record {
  name = some "web";
  namespace = some "default";
  labels = none;
  replicas = some (pos 3);
  selector = record { match_labels = none; match_expressions = "" };
  template = record { labels = none; containers = none; rest = "" };
}

abbrev answer : Request → Response ReplicaSet → Response ReplicaSet
answer (create_replicaset namespace rs) before = ok rs
answer (scale_replicaset namespace name replicas) before =
    ok (record web { replicas = some replicas })
answer _ before = before

abbrev found_in : Log → Response ReplicaSet
found_in [] = api_error 404
found_in (request ∷ log) = answer request (found_in log)

-- Every query is answered by 3.
abbrev pub cluster : Server
cluster = record {
  found = λ log namespace name. found_in log;
  written = λ log request. ok tt;
  queried = λ log query. value 3;
  advised = λ log context. none;
}

cluster-Keeps : Keeps cluster
cluster-Keeps = record {
  scale-ok =
      λ log namespace name replicas u w. (record web { replicas = some replicas }, refl, refl);
  create-ok = λ log namespace name new u n w. (new, refl, refl);
  read-same = λ log namespace name. refl;
}

-- Whole numbers in place of doubles.
abbrev pub whole_numbers : Doubles
whole_numbers = record {
  add = λ x y. x + y;
  sub = λ x y. x - y;
  mul = λ x y. x * y;
  div = λ x y. x / y;
  neg = λ x. x;
  sqrt = λ x. x;
  exp = λ x. x;
  abs = λ x. x;
  lt = λ x y. ltb x y;
  le = λ x y. leb x y;
  eq = λ x y. x == y;
  is_nan = λ x. false;
  is_infinite = λ x. false;
  of_i64 = pos_part;
}

abbrev pub sample_context : Context
sample_context = record {
  server = cluster;
  chrono = strokes;
  now = λ log. "|||||||||";
  utc_now = λ log. "|||||||||";
  doubles = whole_numbers;
  as_i64 = λ v. pos v;
  to_json = λ template. some (b'a' ∷ []);
  name_any = λ metadata. "app";
  has_metrics = true;
  elapsed = λ log. 0;
  created_at = λ metadata. none;
}

abbrev first_time : Log
first_time = create_replicaset "default" web ∷ get_replicaset "default" "web" ∷ []

brought_about :
    ensure_replicaset_exists sample_context.to_json cluster "default" web (pos 3) []
    ≡ (returned tt, first_time)
unfolding ensure_replicaset_exists
brought_about = refl

ensure_replicaset_exists-again_example :
    Scaled sample_context.to_json cluster first_time "default" "web" (pos 3)
    × (ensure_replicaset_exists sample_context.to_json cluster "default" web (pos 3) first_time
        ≡ (returned tt, get_replicaset "default" "web" ∷ first_time))
ensure_replicaset_exists-again_example =
    ensure_replicaset_exists-again sample_context.to_json cluster "default" "web" web (pos 3) []
      first_time cluster-Keeps refl refl brought_about

abbrev bare : HttpRouteRule
bare = weight_rule []

abbrev matching : HttpRouteRule
matching = record bare { matches = some (record { headers = none; other = some "/api" } ∷ []) }

abbrev route : HttpRoute
route = record { rules = some (matching ∷ bare ∷ []); rest = "" }

abbrev patch_rules : List HttpRouteRule → HttpRoute → HttpRoute
patch_rules rules route = record route { rules = some rules }

patch_route-update_example :
    (patch_rules
        (weight_rule (build_gateway_api_backend_refs (rollout_of plain_canary none)) ∷ [])
        route
      ≡ update_httproute_backends (rollout_of plain_canary none) route)
    ↔ OneBareRule (matching ∷ bare ∷ [])
patch_route-update_example =
    patch_route-update patch_rules (λ rules route. refl) (rollout_of plain_canary none) route
      (matching ∷ bare ∷ []) refl

abbrev pub shop_test : AbStrategy
shop_test = record {
  variant_a_service = "shop-a";
  variant_b_service = "shop-b";
  port = none;
  variant_b_match = record {
    header = some (record { name = "X-Variant"; value = "b"; match_type = none });
    cookie = none;
  };
  traffic_routing = none;
  max_duration = some "2s";
  analysis = none;
}

build_ab_testing_httproute_rules-serve_example :
    serve (λ m. true) (build_ab_testing_httproute_rules shop_test)
    ≡ some (service_ref "shop-b" (default_service_port none) (pos 100) ∷ [])
build_ab_testing_httproute_rules-serve_example =
    build_ab_testing_httproute_rules-serve (λ m. true) shop_test

compute_pod_template_hash-panicked_example :
    ((compute_pod_template_hash sample_context.to_json web.template []).0 ≡ panicked)
    ↔ (fnv_1a offset_basis (b'a' ∷ []) < 16 ^ 9)
compute_pod_template_hash-panicked_example =
    compute_pod_template_hash-panicked sample_context.to_json web.template (b'a' ∷ []) [] refl

abbrev new_web : ReplicaSet
new_web = record web {
  template = record {
    labels = none;
    containers = some (record { image = some "web:2" } ∷ []);
    rest = "";
  };
}
