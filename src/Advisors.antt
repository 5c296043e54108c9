-- ===== src/Advisors.antt =====
-- controller/advisor.rs: which advisor a rollout's configuration calls for, and the cache of the HTTP
-- advisors. An HTTP advisor is its endpoint and its timeout; Advisors/Service is what it answers.
pub mod Cached
pub mod Service
use kulta.Prelude.{
  ℕ, String, Bool, ◌&&◌, Option, none, some, List, [], ◌∷◌, str_eq, ◌==◌, if◌then◌else◌,
}
use kulta.Crd.{AdvisorConfig, AdvisorLevel}

pub data Advisor : Type 0 where
  no_op : Advisor
  http : String → ℕ → Advisor
  -- What a test puts in the context.
  mock : Advisor

abbrev pub AdvisorCache : Type 0
AdvisorCache = List ((String × ℕ) × Advisor)

abbrev pub same_key : String × ℕ → String × ℕ → Bool
same_key (endpoint, timeout) (e, t) = str_eq e endpoint && (t == timeout)

unfoldable pub find : String × ℕ → AdvisorCache → Option Advisor
find key [] = none
find key ((k, advisor) ∷ cache) =
    let rest = find key cache in if same_key key k then some advisor else rest

-- `HashMap::insert` of a key that is not there.
abbrev pub insert : String × ℕ → Advisor → AdvisorCache → AdvisorCache
insert key advisor cache = (key, advisor) ∷ cache

-- What the lookup gave.
abbrev pub cached : String → ℕ → Option Advisor → AdvisorCache → Advisor × AdvisorCache
cached endpoint timeout (some advisor) cache = (advisor, cache)
cached endpoint timeout none cache =
    (http endpoint timeout, insert (endpoint, timeout) (http endpoint timeout) cache)

-- `cache` is `none` if its lock is poisoned.
abbrev pub through_cache : String → ℕ → Option AdvisorCache → Advisor × Option AdvisorCache
through_cache endpoint timeout none = (http endpoint timeout, none)
through_cache endpoint timeout (some cache) =
    let (advisor, after) = cached endpoint timeout (find (endpoint, timeout) cache) cache in
    (advisor, some after)

abbrev pub by_endpoint : Option String → ℕ → Option AdvisorCache → Advisor × Option AdvisorCache
by_endpoint none timeout cache = (no_op, cache)
by_endpoint (some endpoint) timeout cache = through_cache endpoint timeout cache

abbrev pub by_level :
    AdvisorLevel → Option String → ℕ → Option AdvisorCache → Advisor × Option AdvisorCache
by_level AdvisorLevel.off endpoint timeout cache = (no_op, cache)
by_level AdvisorLevel.context endpoint timeout cache = (no_op, cache)
by_level AdvisorLevel.advised endpoint timeout cache = by_endpoint endpoint timeout cache
by_level AdvisorLevel.planned endpoint timeout cache = by_endpoint endpoint timeout cache
by_level AdvisorLevel.driven endpoint timeout cache = by_endpoint endpoint timeout cache

unfoldable pub resolve_advisor :
    AdvisorConfig → Advisor → Option AdvisorCache → Advisor × Option AdvisorCache
resolve_advisor config no_op cache =
    by_level config.level config.endpoint config.timeout_seconds cache
resolve_advisor config (http endpoint timeout) cache = (http endpoint timeout, cache)
resolve_advisor config mock cache = (mock, cache)
