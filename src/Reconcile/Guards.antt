-- ===== src/Reconcile/Guards.antt =====
-- What a reconciliation does before it asks anything.
use kulta.Prelude.{
  ◌≡◌, refl, ◌⊎◌, inl, inr, true, false, Option, none, some, String, done, Bool, ℕ, [], ◌∷◌,
}
use kulta.Crd.{Rollout}
use kulta.Validation.{invalid, validate_rollout}
use kulta.Kube.{Log, Request, measure}
use kulta.Kube.Sent.{bind-Keeps, if-Keeps}
use kulta.Serving.Measures.{record_reconciliation_skipped}
use kulta.Kube.Run.{pure, ok_or, ◌>>=◌, missing_namespace}
use kulta.Kube.Context.{Context, recorded, tell_all}
use kulta.Reconcile.{reconcile, reconcile_in, should_reconcile}

abbrev pub asked_by : Request → Log → Log
asked_by (measure m) before = before
asked_by request before = request ∷ before

-- The requests but for the controller's own metrics.
abbrev pub asked : Log → Log
asked [] = []
asked (request ∷ log) = asked_by request (asked log)

-- Why a reconciliation asks nothing.
abbrev pub Barred : Option Bool → Rollout → Type 0
Barred leader_state rollout =
    (leader_state ≡ some false)
    ⊎ (rollout.metadata.namespace ≡ none)
    ⊎ ((e : String) × (validate_rollout rollout ≡ done (invalid e)))

module _ (ctx : Context) (rollout : Rollout) where
  invalid-idle :
      (namespace e : String) (log : Log)
      → validate_rollout rollout ≡ done (invalid e)
      → asked (reconcile_in ctx rollout namespace log).1 ≡ asked log
  invalid-idle namespace e log h = rw h refl

  led-idle :
      (namespace : Option String) (log : Log)
      → (namespace ≡ none) ⊎ ((e : String) × (validate_rollout rollout ≡ done (invalid e)))
      → asked ((ok_or namespace missing_namespace >>= reconcile_in ctx rollout) log).1 ≡ asked log
  led-idle none log why = refl
  led-idle (some namespace) log (inl n) = cc
  led-idle (some namespace) log (inr (e, h)) = invalid-idle namespace e log h

  skipped-idle :
      (log : Log)
      → asked ((recorded ctx record_reconciliation_skipped >>= λ u. pure {A = ℕ} 5) log).1
        ≡ asked log
  skipped-idle =
      bind-Keeps asked (recorded ctx record_reconciliation_skipped) (λ u. pure {A = ℕ} 5)
        (if-Keeps asked ctx.has_metrics (tell_all record_reconciliation_skipped) (pure tt)
          (λ l. refl) (λ l. refl))
        (λ u l. refl)

  -- A controller that has not been elected, a rollout without a namespace and a rollout that is
  -- refused by the validation have nothing asked of the cluster, of Prometheus or of an advisor, and
  -- no event or occurrence sent.
  pub reconcile-Barred :
      (leader_state : Option Bool) (log : Log)
      → Barred leader_state rollout
      → asked (reconcile ctx leader_state rollout log).1 ≡ asked log
  unfolding reconcile should_reconcile
  reconcile-Barred (some false) log why = skipped-idle log
  reconcile-Barred (some true) log (inl h) = cc
  reconcile-Barred (some true) log (inr why) = led-idle rollout.metadata.namespace log why
  reconcile-Barred none log (inl h) = cc
  reconcile-Barred none log (inr why) = led-idle rollout.metadata.namespace log why
