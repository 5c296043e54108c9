-- ===== src/Reconcile/Sends.antt =====
-- A reconciliation sends one status at most, and it is one that the rollout calls for.
use kulta.Prelude.{
  ◌≡◌, refl, sym, ap, subst, ◌∙◌, ◌⊎◌, inl, inr, ℕ, Bool, true, false, Option, none, some, ◌∷◌,
  String, if◌then◌else◌,
}
use kulta.Crd.{Rollout, RolloutStatus, Phase}
use kulta.Leader.Api.{Response, ok, api_error, failure}
use kulta.Strategy.{Handler, name}
use kulta.Kube.{Log, send_status, emit_events, emit_occurrence}
use kulta.Kube.Run.{
  ReconcileError, Outcome, returned, raised, panicked, Run, pure, next, ◌>>=◌, or_kube_error,
}
use kulta.Kube.Context.{Context}
use kulta.Kube.Sent.{sent, Quiet, Quiet-sent, Keeps, next-view}
use kulta.Reconcile.Stages.{end_with, ended_in_30, unless_ended}
use kulta.Reconcile.Transitions.{Transition}

pub Quiet-after :
    {A : Type 0} (m : Run A) (log : Log) {outcome : Outcome A} {after : Log}
    → Quiet m
    → m log ≡ (outcome, after)
    → sent after ≡ sent log
Quiet-after {A} m log quiet e =
    sym (ap (λ (o : Outcome A × Log). sent o.1) e) ∙ Quiet-sent m quiet log

-- A stage that sends a status ends the reconciliation, or fails.
abbrev pub Ends : Outcome (Option ℕ) → Type 0
Ends (returned none) = ⊥
Ends _ = Unit

abbrev pub Any : {A : Type 0} → Outcome A → Type 0
Any outcome = Unit

module _ (ctx : Context) (rollout : Rollout) where
  -- No status is sent, or one, and then the outcome is of a certain kind.
  abbrev pub Sends : {A : Type 0} → (Outcome A → Type 0) → Log → Outcome A × Log → Type 0
  Sends E before (outcome, after) =
      (sent after ≡ sent before)
      ⊎ ((status : RolloutStatus) × (sent after ≡ status ∷ sent before)
          × Transition ctx rollout (sent before) status
          × E outcome)

  module _ {A : Type 0} (E : Outcome A → Type 0) where
    shift :
        (before between : Log) (o : Outcome A × Log)
        → sent between ≡ sent before
        → Sends E between o
        → Sends E before o
    shift before between (outcome, after) e (inl h) = inl (h ∙ e)
    shift before between (outcome, after) e (inr (status, h, t, k)) =
        inr
          (status, h ∙ ap (λ l. status ∷ l) e, subst (λ b. Transition ctx rollout b status) e t, k)

    pub if-Sends :
        (b : Bool) (m k : Run A) (log : Log)
        → (b ≡ true → Sends E log (m log))
        → (b ≡ false → Sends E log (k log))
        → Sends E log ((if b then m else k) log)
    if-Sends true m k log h i = h refl
    if-Sends false m k log h i = i refl

  module _ {A B : Type 0} (E : Outcome B → Type 0) (m : Run A) (f : A → Run B) where
    Quiet-next :
        (log : Log) (o : Outcome A × Log)
        → m log ≡ o
        → Keeps sent m
        → ((a : A) (after : Log) → m log ≡ (returned a, after) → Sends E after (f a after))
        → Sends E log (next o f)
    Quiet-next log (returned a, after) e quiet each =
        shift E log after (f a after) (sym (ap (λ (o : Outcome A × Log). sent o.1) e) ∙ quiet log)
          (each a after e)
    Quiet-next log (raised r, after) e quiet each =
        inl (sym (ap (λ (o : Outcome A × Log). sent o.1) e) ∙ quiet log)
    Quiet-next log (panicked, after) e quiet each =
        inl (sym (ap (λ (o : Outcome A × Log). sent o.1) e) ∙ quiet log)

    -- A run that sends nothing, before one that may.
    pub Quiet-Sends :
        (log : Log)
        → Quiet m
        → ((a : A) (after : Log) → m log ≡ (returned a, after) → Sends E after (f a after))
        → Sends E log ((m >>= f) log)
    Quiet-Sends log quiet = Quiet-next log (m log) refl (Quiet-sent m quiet)

  module _ {A B : Type 0} (f : A → Run B) where
    then-next :
        (log : Log) (o : Outcome A × Log)
        → Sends Any log o
        → ((a : A) → Keeps sent (f a))
        → Sends Any log (next o f)
    then-next log (returned a, after) (inl h) quiet = inl (quiet a after ∙ h)
    then-next log (returned a, after) (inr (status, h, t, k)) quiet =
        inr (status, quiet a after ∙ h, t, tt)
    then-next log (raised r, after) (inl h) quiet = inl h
    then-next log (raised r, after) (inr (status, h, t, k)) quiet = inr (status, h, t, tt)
    then-next log (panicked, after) (inl h) quiet = inl h
    then-next log (panicked, after) (inr (status, h, t, k)) quiet = inr (status, h, t, tt)

    -- A run that may send a status, before one that sends none.
    pub then-Sends :
        (m : Run A) (log : Log)
        → Sends Any log (m log)
        → ((a : A) → Keeps sent (f a))
        → Sends Any log ((m >>= f) log)
    then-Sends m log = then-next log (m log)

  module _ (tail : Run (Unit {0})) where
    after-next :
        (ended : Option ℕ) (o : Outcome (Unit {0}) × Log)
        → (Ends (returned ended))
        → Ends (next o (λ u. pure ended)).0
    after-next ended (returned u, log) k = k
    after-next ended (raised e, log) k = tt
    after-next ended (panicked, log) k = tt

    tail-next :
        (log : Log) (o : Outcome (Option ℕ) × Log)
        → Sends Ends log o
        → Keeps sent tail
        → Sends Ends log (next o (λ ended. tail >>= λ u. pure ended))
    tail-next log (returned ended, after) (inl h) quiet =
        inl (next-view sent (tail after) (λ u. pure ended) (λ u l. refl) ∙ quiet after ∙ h)
    tail-next log (returned ended, after) (inr (status, h, t, k)) quiet = inr (
      status,
      next-view sent (tail after) (λ u. pure ended) (λ u l. refl) ∙ quiet after ∙ h,
      t,
      after-next ended (tail after) k,
    )
    tail-next log (raised r, after) sends quiet = sends
    tail-next log (panicked, after) sends quiet = sends

    -- A stage with a run after it that sends nothing.
    pub tail-Sends :
        (m : Run (Option ℕ)) (log : Log)
        → Sends Ends log (m log)
        → Keeps sent tail
        → Sends Ends log ((m >>= λ ended. tail >>= λ u. pure ended) log)
    tail-Sends m log = tail-next log (m log)

  module _ (rest : Run ℕ) (each : (log : Log) → Sends Any log (rest log)) where
    stage-next :
        (log : Log) (o : Outcome (Option ℕ) × Log)
        → Sends Ends log o
        → Sends Any log (next o (unless_ended rest))
    stage-next log (returned none, after) (inl h) = shift Any log after (rest after) h (each after)
    stage-next log (returned none, after) (inr (status, h, t, k)) = absurd k
    stage-next log (returned (some interval), after) (inl h) = inl h
    stage-next log (returned (some interval), after) (inr (status, h, t, k)) =
        inr (status, h, t, tt)
    stage-next log (raised r, after) (inl h) = inl h
    stage-next log (raised r, after) (inr (status, h, t, k)) = inr (status, h, t, tt)
    stage-next log (panicked, after) (inl h) = inl h
    stage-next log (panicked, after) (inr (status, h, t, k)) = inr (status, h, t, tt)

    -- A stage, and what follows it unless it ends the reconciliation.
    pub stage-Sends :
        (m : Run (Option ℕ)) (log : Log)
        → Sends Ends log (m log)
        → Sends Any log ((m >>= unless_ended rest) log)
    stage-Sends m log = stage-next log (m log)

  -- The patch of a status that the rollout calls for, and a run that sends nothing after it.
  module _ {A : Type 0} (E : Outcome A → Type 0) (rest : Run A) where
    pub stored-next :
        (status : RolloutStatus) (before log : Log) (r : Response (Unit {0}))
        → Transition ctx rollout (sent before) status
        → sent log ≡ status ∷ sent before
        → Keeps sent rest
        → ((l : Log) → E (rest l).0)
        → ((e : ReconcileError) → E (raised e))
        → Sends E before ((or_kube_error r >>= λ u. rest) log)
    stored-next status before log (ok u) t h quiet good bad =
        inr (status, quiet log ∙ h, t, good log)
    stored-next status before log (api_error code) t h quiet good bad = inr (status, h, t, bad _)
    stored-next status before log failure t h quiet good bad = inr (status, h, t, bad _)

  pub end_with-Sends :
      (namespace : String) (strategy : Handler) (old : Option Phase) (new : Phase)
      (status : RolloutStatus) (log : Log)
      → Transition ctx rollout (sent log) status
      → Sends Ends log (end_with ctx rollout namespace strategy old new status log)
  end_with-Sends namespace strategy old new status log t =
      let told =
        emit_occurrence old new (name strategy) ∷ emit_events rollout.status status ∷ log in
      let request = send_status namespace (ctx.name_any rollout.metadata) status in
      stored-next Ends ended_in_30 status log (request ∷ told) (ctx.server.written told request) t
        refl (λ l. refl) (λ l. tt) (λ e. tt)
