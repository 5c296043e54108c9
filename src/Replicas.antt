-- ===== src/Replicas.antt =====
-- controller/rollout/replicaset.rs: how many pods each ReplicaSet gets. `i32` results wrap, as in a
-- release build. The product of two `i32`, divided by 100 and rounded up in `f64`, is computed
-- exactly here: below 2 ^ 53 the double is exact enough for the ceiling, above it the cast saturates.
pub mod Split
pub mod Surge
use kulta.Prelude.{
  ℕ, ◌+◌, ◌*◌, ◌/◌, String, Option, none, some, List, ◌≡◌, refl, codes, ◌==◌, unwrap_or,
  if◌then◌else◌,
}
use kulta.Prelude.Int.{
  ℤ, pos, pos_part, neg_part, sub_ℕ, ◌+ℤ◌, ◌-ℤ◌, leb_ℤ, ltb_ℤ, ◌==ℤ◌, max_ℤ, min_ℤ, min_i32,
  max_i32, wrap_i32,
}
use kulta.Prelude.Parse.{split_last, strip_last, parse_i32}
use kulta.Validation.{in_percent_range}

-- `as i32` of a double that is a whole number.
abbrev saturate : ℤ → ℤ
saturate a = max_ℤ min_i32 (min_ℤ a max_i32)

-- `((a as f64 * b as f64) / 100.0).ceil() as i32`.
unfoldable pub percent_ceil : ℤ → ℤ → ℤ
percent_ceil a b =
    let up = pos_part a * pos_part b + neg_part a * neg_part b in
    let down = pos_part a * neg_part b + neg_part a * pos_part b in
    saturate (if down == 0 then pos ((up + 99) / 100) else sub_ℕ 0 (down / 100))

-- The canary's share of the replicas, the same code in both functions below.
unfoldable pub ideal_canary : ℤ → ℤ → ℤ
ideal_canary total_replicas canary_weight =
    if canary_weight ==ℤ pos 0
    then pos 0
    else if canary_weight ==ℤ pos 100
    then total_replicas
    else percent_ceil total_replicas canary_weight

unfoldable pub calculate_replica_split : ℤ → ℤ → ℤ × ℤ
calculate_replica_split total_replicas canary_weight =
    let canary_replicas = ideal_canary total_replicas canary_weight in
    (wrap_i32 (total_replicas -ℤ canary_replicas), canary_replicas)

abbrev pub percent_of : ℤ → Option ℤ → ℤ
percent_of total_replicas none = pos 0
percent_of total_replicas (some percent) =
    if in_percent_range percent then percent_ceil total_replicas percent else pos 0

abbrev pub absolute_of : Option ℤ → ℤ
absolute_of none = pos 0
absolute_of (some abs) = if leb_ℤ (pos 0) abs then abs else pos 0

abbrev pub surge_value : ℤ → List ℕ → Option (List ℕ) → ℤ
surge_value total_replicas value (some percent_str) =
    percent_of total_replicas (parse_i32 percent_str)
surge_value total_replicas value none = absolute_of (parse_i32 value)

unfoldable pub parse_surge_value : String → ℤ → ℤ
parse_surge_value value total_replicas =
    surge_value total_replicas (codes value) (strip_last b'%' (split_last (codes value)))

-- Taking `excess` pods away: from the canary first, then from the stable set.
unfoldable pub reduce : ℤ → ℤ × ℤ → ℤ × ℤ
reduce excess (stable, canary) =
    let reduction = min_ℤ canary excess in
    let left = wrap_i32 (excess -ℤ reduction) in
    (
      if ltb_ℤ (pos 0) left then max_ℤ (wrap_i32 (stable -ℤ left)) (pos 0) else stable,
      wrap_i32 (canary -ℤ reduction),
    )

-- Scaling down to `max_total`.
unfoldable pub scale_down : ℤ → ℤ × ℤ → ℤ × ℤ
scale_down max_total (stable, canary) =
    let total = wrap_i32 (stable +ℤ canary) in
    if ltb_ℤ max_total total
    then reduce (wrap_i32 (total -ℤ max_total)) (stable, canary)
    else (stable, canary)

-- Scaling the stable set up to `min_total`.
unfoldable pub scale_up : ℤ → ℤ × ℤ → ℤ × ℤ
scale_up min_total (stable, canary) =
    let total = wrap_i32 (stable +ℤ canary) in
    if ltb_ℤ total min_total
    then (wrap_i32 (stable +ℤ wrap_i32 (min_total -ℤ total)), canary)
    else (stable, canary)

unfoldable pub calculate_replica_split_with_surge : ℤ → ℤ → Option String → Option String → ℤ × ℤ
calculate_replica_split_with_surge total_replicas canary_weight max_surge max_unavailable =
    let surge = parse_surge_value (unwrap_or max_surge "25%") total_replicas in
    let unavailable = parse_surge_value (unwrap_or max_unavailable "0") total_replicas in
    let ideal = ideal_canary total_replicas canary_weight in
    let max_total = wrap_i32 (total_replicas +ℤ surge) in
    let min_total = max_ℤ (wrap_i32 (total_replicas -ℤ unavailable)) (pos 0) in
    let stable = max_ℤ (wrap_i32 (total_replicas -ℤ ideal)) (pos 0) in
    scale_up min_total (scale_down max_total (stable, ideal))

pub quarter : parse_surge_value "25%" (pos 10) ≡ pos 3
unfolding parse_surge_value split_last parse_i32 percent_ceil
quarter = refl

half_of_three : calculate_replica_split (pos 3) (pos 50) ≡ (pos 1, pos 2)
unfolding calculate_replica_split ideal_canary percent_ceil wrap_i32 ◌-ℤ◌
half_of_three = refl
