-- ===== src/Advisors/Cached.antt =====
-- The cache changes nothing but the number of clients.
use text.Mathlib.TextEquality.{eq_iff}
use kulta.Prelude.{
  ℕ, String, Bool, true, ◌&&◌, Option, none, some, [], ◌∷◌, ◌≡◌, refl, arith, All, Bool-cases, inl,
  inr, ==_iff, str_eq, ◌==◌,
}
use kulta.Crd.{AdvisorConfig, AdvisorLevel}
use kulta.Advisors.{
  Advisor, no_op, http, mock, AdvisorCache, same_key, find, cached, by_endpoint, by_level,
  resolve_advisor,
}

-- Every advisor of the cache is the one that its key describes.
abbrev Keyed : (String × ℕ) × Advisor → Type 0
Keyed ((endpoint, timeout), advisor) = advisor ≡ http endpoint timeout

abbrev pub Faithful : Option AdvisorCache → Type 0
Faithful none = Unit
Faithful (some cache) = All Keyed cache

both_true : (a b : Bool) → (a && b) ≡ true → (a ≡ true) × (b ≡ true)
both_true a b h = ground arith

same_key-http :
    (endpoint : String) (timeout : ℕ) (e : String) (t : ℕ)
    → same_key (endpoint, timeout) (e, t) ≡ true
    → http e t ≡ http endpoint timeout
same_key-http endpoint timeout e t h =
    let (first, second) = both_true (str_eq e endpoint) (t == timeout) h in
    let named : e ≡ endpoint = (eq_iff e endpoint).0 first in
    let timed : t ≡ timeout = (==_iff t timeout).0 second in cc

find-Keyed :
    (endpoint : String) (timeout : ℕ) (cache : AdvisorCache) (advisor : Advisor)
    → All Keyed cache
    → find (endpoint, timeout) cache ≡ some advisor
    → advisor ≡ http endpoint timeout
unfolding find
find-Keyed endpoint timeout [] advisor all h = cc
find-Keyed endpoint timeout (((e, t), a) ∷ cache) advisor (keyed, all) h =
    elim (Bool-cases (same_key (endpoint, timeout) (e, t))) [
      | inl same ↦
          let found : some a ≡ some advisor = rw same at h in
          let one = same_key-http endpoint timeout e t same in cc
      | inr other ↦ find-Keyed endpoint timeout cache advisor all (rw other at h)
    ]

abbrev pub Transparent : Advisor → Advisor × Option AdvisorCache → Type 0
Transparent expected (advisor, cache) = (advisor ≡ expected) × Faithful cache

cached-Transparent :
    (endpoint : String) (timeout : ℕ) (cache : AdvisorCache) (found : Option Advisor)
    → All Keyed cache
    → find (endpoint, timeout) cache ≡ found
    → Transparent
        (http endpoint timeout)
        ((cached endpoint timeout found cache).0, some (cached endpoint timeout found cache).1)
cached-Transparent endpoint timeout cache none all h = (refl, (refl, all))
cached-Transparent endpoint timeout cache (some advisor) all h =
    (find-Keyed endpoint timeout cache advisor all h, all)

by_endpoint-Transparent :
    (endpoint : Option String) (timeout : ℕ) (cache : Option AdvisorCache)
    → Faithful cache
    → Transparent (by_endpoint endpoint timeout none).0 (by_endpoint endpoint timeout cache)
by_endpoint-Transparent none timeout cache all = (refl, all)
by_endpoint-Transparent (some endpoint) timeout none all = (refl, tt)
by_endpoint-Transparent (some endpoint) timeout (some cache) all =
    cached-Transparent endpoint timeout cache (find (endpoint, timeout) cache) all refl

by_level-Transparent :
    (level : AdvisorLevel) (endpoint : Option String) (timeout : ℕ) (cache : Option AdvisorCache)
    → Faithful cache
    → Transparent (by_level level endpoint timeout none).0 (by_level level endpoint timeout cache)
by_level-Transparent AdvisorLevel.off endpoint timeout cache all = (refl, all)
by_level-Transparent AdvisorLevel.context endpoint timeout cache all = (refl, all)
by_level-Transparent AdvisorLevel.advised endpoint timeout cache all =
    by_endpoint-Transparent endpoint timeout cache all
by_level-Transparent AdvisorLevel.planned endpoint timeout cache all =
    by_endpoint-Transparent endpoint timeout cache all
by_level-Transparent AdvisorLevel.driven endpoint timeout cache all =
    by_endpoint-Transparent endpoint timeout cache all

-- If every advisor of the cache is the one that its key describes, then an advisor is resolved to the
-- same one as without a cache, and the cache afterwards is of that kind again.
pub resolve_advisor-Transparent :
    (config : AdvisorConfig) (ctx_advisor : Advisor) (cache : Option AdvisorCache)
    → Faithful cache
    → Transparent
        (resolve_advisor config ctx_advisor none).0
        (resolve_advisor config ctx_advisor cache)
unfolding resolve_advisor
resolve_advisor-Transparent config no_op cache all =
    by_level-Transparent config.level config.endpoint config.timeout_seconds cache all
resolve_advisor-Transparent config (http endpoint timeout) cache all = (refl, all)
resolve_advisor-Transparent config mock cache all = (refl, all)
