-- ===== src/Clock.antt =====
-- Time: controller/clock.rs hands every operation the present moment, and the crate chrono reads and
-- prints moments. chrono is not part of the repository, so it is a parameter.
use kulta.Prelude.{String, Option, some, ◌≡◌}
use kulta.Prelude.Int.{ℤ}

pub record Chrono : Type 1 where
  pub DateTime : Type 0
  -- `DateTime::parse_from_rfc3339(s).ok()`, at UTC.
  pub parse_from_rfc3339 : String → Option DateTime
  pub to_rfc3339 : DateTime → String
  -- `now.signed_duration_since(start).num_seconds()`, an `i64`.
  pub seconds_since : DateTime → DateTime → ℤ
  -- A printed moment can be read back.
  pub parse-to_rfc3339 : (t : DateTime) → parse_from_rfc3339 (to_rfc3339 t) ≡ some t
