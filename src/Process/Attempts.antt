-- ===== src/Process/Attempts.antt =====
-- How often an attempt at a rollout is counted in the controller's own metrics, and as what.
use kulta.Prelude.{ℕ, ◌≡◌, refl, sym, ap, subst, Bool, true, Option, ◌∷◌}
use kulta.Crd.{Rollout}
use kulta.Kube.{Log}
use kulta.Kube.Run.{Outcome, returned, raised, panicked, pure, ◌>>=◌}
use kulta.Kube.Context.{Context, tell_all}
use kulta.Kube.Sent.{seen, counted}
use kulta.Reconcile.{reconcile, should_reconcile}
use kulta.Reconcile.Tally.{View, Tally, Accounted}
use kulta.Reconcile.Counts.{reconcile-Tally}
use kulta.Process.{error_policy, handle, attempt}

-- What an attempt has counted, going by how the reconciliation ended and whether it led.
abbrev pub Accounts : Bool → View → Outcome ℕ × Log → Outcome ℕ × Log → Type 0
Accounts leads v (returned interval, log) o =
    (o ≡ (returned interval, log)) × Accounted leads interval v log
Accounts leads v (raised e, log) (returned interval, after) = counted after ≡ "error" ∷ v.1
Accounts leads v (raised e, log) _ = ⊥
Accounts leads v (panicked, log) o = (o ≡ (panicked, log)) × (counted log ≡ v.1)

module _ (ctx : Context) (rollout : Rollout) (has : ctx.has_metrics ≡ true) where
  handle-Accounts :
      (leads : Bool) (v : View) (o : Outcome ℕ × Log)
      → Tally (Accounted leads) v o
      → Accounts leads v o (handle ctx rollout o)
  unfolding error_policy
  handle-Accounts leads v (returned interval, log) h = (refl, h)
  handle-Accounts leads v (raised e, log) h =
      subst
        (λ b.
          let (measurements, interval) = error_policy rollout b in
          Accounts leads v (raised e, log) ((tell_all measurements >>= λ u. pure interval) log))
        (sym has) (ap (λ c. "error" ∷ c) h)
  handle-Accounts leads v (panicked, log) h = (refl, h)

  -- Where there is a registry of metrics, what an attempt counts goes by how the reconciliation
  -- ends. One that fails is counted once, as an error. One that panics is not counted. One that
  -- returns is counted once, as skipped, if it does not lead. If it leads, it is counted once as a
  -- success, or its last status sent is in the phase Failed or Concluded and it is counted once as an
  -- error or not at all.
  pub attempt-Tally :
      (leader_state : Option Bool) (log : Log)
      → Accounts
          (should_reconcile leader_state)
          (seen log)
          (reconcile ctx leader_state rollout log)
          (attempt ctx leader_state rollout log)
  unfolding attempt
  attempt-Tally leader_state log =
      handle-Accounts (should_reconcile leader_state) (seen log)
        (reconcile ctx leader_state rollout log) (reconcile-Tally ctx rollout has leader_state log)
