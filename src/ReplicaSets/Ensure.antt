-- ===== src/ReplicaSets/Ensure.antt =====
-- Bringing a ReplicaSet about twice.
use kulta.Prelude.{
  ◌≡◌, refl, sym, ap, ◌∙◌, ◌≢◌, ◌⊎◌, inl, inr, arith, String, true, Option, some, ◌∷◌, unwrap_or,
  Bool-cases, ◌==◌,
}
use kulta.Prelude.Int.{ℤ, pos, negsuc, ◌==ℤ◌}
use kulta.Leader.Api.{Response, ok, api_error, failure}
use kulta.Kube.{ReplicaSet, get_replicaset, scale_replicaset, create_replicaset, Log, Server}
use kulta.Kube.Run.{
  Outcome, returned, ask_replicaset, ok_or, replicaset_missing_name, or_kube_error, ◌>>=◌,
}
use kulta.ReplicaSets.{ensure_from, ensure_replicaset_exists, Bytes}
use kulta.Crd.{PodTemplateSpec}

-- An API server that nothing else writes to: what a write has set is found afterwards, and a read
-- changes nothing.
pub record Keeps (server : Server) : Type 0 where
  pub scale-ok :
      (log : Log) (namespace name : String) (replicas : ℤ) (u : Unit {0})
      → server.written log (scale_replicaset namespace name replicas) ≡ ok u
      → (rs : ReplicaSet) × (server.found
            (scale_replicaset namespace name replicas ∷ log)
            namespace
            name
          ≡ ok rs)
        × (rs.replicas ≡ some replicas)
  pub create-ok :
      (log : Log) (namespace name : String) (new : ReplicaSet) (u : Unit {0})
      → new.name ≡ some name
      → server.written log (create_replicaset namespace new) ≡ ok u
      → (rs : ReplicaSet) × (server.found (create_replicaset namespace new ∷ log) namespace name
          ≡ ok rs)
        × (rs.replicas ≡ new.replicas)
  pub read-same :
      (log : Log) (namespace name : String)
      → server.found (get_replicaset namespace name ∷ log) namespace name
        ≡ server.found log namespace name

answered :
    (r : Response (Unit {0})) (log after : Log)
    → or_kube_error r log ≡ (returned tt, after)
    → (u : Unit {0}) × (r ≡ ok u) × (after ≡ log)
answered (ok u) log after h = (u, refl, sym (ap (λ (p : Outcome (Unit {0}) × Log). p.1) h))
answered (api_error code) log after h = cc
answered failure log after h = cc

same_ℤ : (a b : ℤ) → (a ==ℤ b) ≡ true → a ≡ b
same_ℤ (pos m) (pos n) h = ground arith
same_ℤ (pos m) (negsuc n) h = ground arith
same_ℤ (negsuc m) (pos n) h = ground arith
same_ℤ (negsuc m) (negsuc n) h = ground arith

same_ℤ_refl : (a : ℤ) → (a ==ℤ a) ≡ true
same_ℤ_refl a = ground arith

module _ (to_json : PodTemplateSpec → Option Bytes) (server : Server) where
  -- A ReplicaSet with the right replicas is there.
  abbrev pub Scaled : Log → String → String → ℤ → Type 0
  Scaled log namespace name replicas =
      (rs : ReplicaSet) × (server.found log namespace name ≡ ok rs)
      × (unwrap_or rs.replicas (pos 0) ≡ replicas)

  ensure_from-Scaled :
      (namespace name : String) (rs : ReplicaSet) (replicas : ℤ) (r : Response ReplicaSet)
      (log after : Log)
      → Keeps server
      → rs.name ≡ some name
      → rs.replicas ≡ some replicas
      → server.found log namespace name ≡ r
      → ensure_from to_json server namespace name rs replicas r log ≡ (returned tt, after)
      → Scaled after namespace name replicas
  ensure_from-Scaled namespace name rs replicas (ok existing) log after keeps n s f h =
      elim (Bool-cases (unwrap_or existing.replicas (pos 0) ==ℤ replicas)) [
        | inl same ↦
            let kept : after ≡ log =
              sym (ap (λ (p : Outcome (Unit {0}) × Log). p.1) (rw same at h)) in
            (existing, ap (λ l. server.found l namespace name) kept ∙ f, same_ℤ _ _ same)
        | inr other ↦
            let (u, w, e) =
              answered (server.written log (scale_replicaset namespace name replicas)) _ after
                (rw other at h) in
            let (new, there, scaled) = keeps.scale-ok log namespace name replicas u w in
            (
              new,
              ap (λ l. server.found l namespace name) e ∙ there,
              ap (λ o. unwrap_or o (pos 0)) scaled,
            )
      ]
  ensure_from-Scaled namespace name rs replicas (api_error code) log after keeps n s f h =
      elim (Bool-cases (code == 404)) [
        | inl missing ↦
            let (u, w, e) =
              answered (server.written log (create_replicaset namespace rs)) _ after
                (rw missing at h) in
            let (new, there, created) = keeps.create-ok log namespace name rs u n w in
            (
              new,
              ap (λ l. server.found l namespace name) e ∙ there,
              ap (λ o. unwrap_or o (pos 0)) (created ∙ s),
            )
        | inr other ↦ absurd (cc (rw other at h))
      ]
  ensure_from-Scaled namespace name rs replicas failure log after keeps n s f h = cc

  ensure-named :
      (namespace name : String) (rs : ReplicaSet) (replicas : ℤ) (log : Log)
      → rs.name ≡ some name
      → ensure_replicaset_exists to_json server namespace rs replicas log
        ≡ ensure_from to_json server namespace name rs replicas
            (server.found log namespace name)
            (get_replicaset namespace name ∷ log)
  unfolding ensure_replicaset_exists
  ensure-named namespace name rs replicas log n =
      ap
        (λ o.
          (ok_or o replicaset_missing_name >>= λ rs_name.
          ask_replicaset server namespace rs_name
          >>= ensure_from to_json server namespace rs_name rs replicas)
            log)
        n

  ensure_Scaled :
      (namespace name : String) (rs : ReplicaSet) (replicas : ℤ) (log : Log)
      → rs.name ≡ some name
      → Scaled log namespace name replicas
      → ensure_replicaset_exists to_json server namespace rs replicas log
        ≡ (returned tt, get_replicaset namespace name ∷ log)
  ensure_Scaled namespace name rs replicas log n (there, f, e) =
      ensure-named namespace name rs replicas log n ∙ rw (f, e, same_ℤ_refl replicas) refl

  -- Where nothing else writes: a ReplicaSet that has been brought about once is there with its
  -- replicas (none count as 0), and doing it again reads it and writes nothing.
  pub ensure_replicaset_exists-again :
      (namespace name : String) (rs : ReplicaSet) (replicas : ℤ) (log after : Log)
      → Keeps server
      → rs.name ≡ some name
      → rs.replicas ≡ some replicas
      → ensure_replicaset_exists to_json server namespace rs replicas log ≡ (returned tt, after)
      → Scaled after namespace name replicas
        × (ensure_replicaset_exists to_json server namespace rs replicas after
            ≡ (returned tt, get_replicaset namespace name ∷ after))
  ensure_replicaset_exists-again namespace name rs replicas log after keeps n s h =
      let scaled =
        ensure_from-Scaled namespace name rs replicas (server.found log namespace name)
          (get_replicaset namespace name ∷ log) after keeps n s (keeps.read-same log namespace name)
          (sym (ensure-named namespace name rs replicas log n) ∙ h) in
      (scaled, ensure_Scaled namespace name rs replicas after n scaled)

  -- The ReplicaSet has the replicas and nothing is written, or it has others and the one write is
  -- the patch of their number.
  abbrev pub OnlyScales : Log → String → String → ReplicaSet → ℤ → Outcome (Unit {0}) × Log → Type 0
  OnlyScales log namespace name existing replicas o =
      ((unwrap_or existing.replicas (pos 0) ≡ replicas)
        × (o ≡ (returned tt, get_replicaset namespace name ∷ log)))
      ⊎ ((unwrap_or existing.replicas (pos 0) ≢ replicas)
          × (o
              ≡ or_kube_error
                  (server.written (get_replicaset namespace name ∷ log)
                    (scale_replicaset namespace name replicas))
                  (scale_replicaset namespace name replicas ∷ get_replicaset namespace name ∷ log)))
