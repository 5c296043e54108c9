-- ===== src/Analysis/Limits.antt =====
-- A run that reads a duration, one case after the other.
use kulta.Prelude.{ℕ, ◌≡◌, refl, String, Option, none, some, Exec, done, panic}
use kulta.Duration.{parse_duration}
use kulta.Kube.{Log}
use kulta.Kube.Run.{Outcome, panicked, Run, of_exec, ◌>>=◌}
use kulta.Analysis.{limit_of}

abbrev pub IsLimit : Option String → Option ℕ → Type 0
IsLimit none limit = limit ≡ none
IsLimit (some duration_str) limit = parse_duration duration_str ≡ done limit

-- Reading the duration panics.
abbrev pub Panics : Option String → Type 0
Panics none = ⊥
Panics (some duration_str) = parse_duration duration_str ≡ panic

module _ {A : Type 0} (P : Outcome A × Log → Type 0) (f : Option ℕ → Run A) (log : Log) where
  parsed-cases :
      (duration_str : String) (x : Exec (Option ℕ))
      → parse_duration duration_str ≡ x
      → ((limit : Option ℕ) → parse_duration duration_str ≡ done limit → P (f limit log))
      → (parse_duration duration_str ≡ panic → P (panicked, log))
      → P ((of_exec x >>= f) log)
  parsed-cases duration_str (done limit) e returns panics = returns limit e
  parsed-cases duration_str panic e returns panics = panics e

  pub limit_of-cases :
      (duration : Option String)
      → ((limit : Option ℕ) → IsLimit duration limit → P (f limit log))
      → (Panics duration → P (panicked, log))
      → P ((limit_of duration >>= f) log)
  limit_of-cases none returns panics = returns none refl
  limit_of-cases (some duration_str) returns panics =
      parsed-cases duration_str (parse_duration duration_str) refl returns panics
