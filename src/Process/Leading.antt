-- ===== src/Process/Leading.antt =====
-- Which controllers reconcile, once they run.
use kulta.Prelude.{
  ◌≡◌, refl, sym, subst, ◌↔◌, ◌⊎◌, inl, inr, String, Bool, true, false, List, [], ◌∷◌, ◌++◌,
  Bool-cases,
}
use kulta.Leader.{Outcome, leads}
use kulta.Leader.Exclusion.{run_leader_election-last}
use kulta.Reconcile.{should_reconcile}
use kulta.Tls.Api.{TlsLibraries, TlsApi}
use kulta.Process.{
  Process, Listener, Environment, running, is_leader_election_enabled, is_webhook_tls_enabled,
  launch, context_leader, live, start,
}
use kulta.Process.Probes.{launched, start_needs}

module _ (env : Environment) (new_v4 : String) (listener : Listener) where
  launch-leads :
      (outcomes : List Outcome) (last : Outcome)
      → (should_reconcile
            (context_leader (live (launch env new_v4 listener) (outcomes ++ last ∷ [])))
          ≡ true)
        ↔ ((is_leader_election_enabled env ≡ false) ⊎ (last ≡ leads true))
  unfolding context_leader live should_reconcile
  launch-leads outcomes last = elim (Bool-cases (is_leader_election_enabled env)) [
    | inl on ↦
        let core = run_leader_election-last false outcomes last in
        rw on
          (λ e. inr (core.0 e), λ why. elim why [ inl off ↦ absurd (cc off) | inr e ↦ core.1 e ])
    | inr off ↦ rw off (λ e. inl refl, λ why. refl)
  ]

module _ (libraries : TlsLibraries) (api : TlsApi libraries) where
  open api use {State}

  -- A controller that runs reconciles, after some attempts of its elector and a last one, exactly if
  -- the election is off or the last attempt was told that it leads.
  pub start-should_reconcile :
      (env : Environment) (new_v4 : String) (has_metrics has_client : Bool)
      (read_at write_at : State) (p : Process) (outcomes : List Outcome) (last : Outcome)
      → start libraries api env new_v4 has_metrics has_client read_at write_at ≡ running p
      → (should_reconcile (context_leader (live p (outcomes ++ last ∷ []))) ≡ true)
        ↔ ((is_leader_election_enabled env ≡ false) ⊎ (last ≡ leads true))
  start-should_reconcile env new_v4 has_metrics has_client read_at write_at p outcomes last e =
      subst
        (λ q.
          (should_reconcile (context_leader (live q (outcomes ++ last ∷ []))) ≡ true)
          ↔ ((is_leader_election_enabled env ≡ false) ⊎ (last ≡ leads true)))
        (sym (start_needs libraries api env new_v4 has_metrics has_client read_at write_at p e).1)
        (launched-leads (is_webhook_tls_enabled env))
    where
      launched-leads :
          (on : Bool)
          → (should_reconcile (
                context_leader
                  (live (launched libraries api env new_v4 on) (outcomes ++ last ∷ [])))
              ≡ true)
            ↔ ((is_leader_election_enabled env ≡ false) ⊎ (last ≡ leads true))
      launched-leads true = launch-leads env new_v4 _ outcomes last
      launched-leads false = launch-leads env new_v4 _ outcomes last
