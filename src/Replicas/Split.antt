-- ===== src/Replicas/Split.antt =====
-- The split of the replicas by weight.
use kulta.Prelude.{ℕ, ◌+◌, ◌-◌, ◌*◌, ◌/◌, ◌^◌, ◌≤◌, ◌<◌, ◌≡◌, ap, arith}
use kulta.Prelude.Int.{pos, wrap_i32-sub}
use kulta.Replicas.{percent_ceil, ideal_canary, calculate_replica_split}

-- `weight` percent of `total`, rounded up.
abbrev pub share : ℕ → ℕ → ℕ
share total weight = (total * weight + 99) / 100

pub share-le : (total weight : ℕ) → weight ≤ 100 → share total weight ≤ total
share-le total weight h = omega (arith, mul_bound)
  where
    mul_bound : total * weight ≤ total * 100
    mul_bound = grind arith

pub percent_ceil_lem :
    (total weight : ℕ)
    → total < 2 ^ 31
    → weight ≤ 100
    → percent_ceil (pos total) (pos weight) ≡ pos (share total weight)
unfolding percent_ceil
percent_ceil_lem total weight t w = ground (arith, share-le total weight w)

pub ideal_canary_lem :
    (total weight : ℕ)
    → total < 2 ^ 31
    → weight ≤ 100
    → ideal_canary (pos total) (pos weight) ≡ pos (share total weight)
unfolding ideal_canary
ideal_canary_lem total weight t w = ground (arith, percent_ceil_lem total weight t w)

pub calculate_replica_split_lem :
    (total weight : ℕ)
    → total < 2 ^ 31
    → weight ≤ 100
    → calculate_replica_split (pos total) (pos weight)
      ≡ (pos (total - share total weight), pos (share total weight))
unfolding calculate_replica_split
calculate_replica_split_lem total weight t w = rw (ideal_canary_lem total weight t w) (
    ap (λ s. (s, pos (share total weight)))
      (wrap_i32-sub total (share total weight) (share-le total weight w) t))

-- With a weight of at most 100 both sets get some number of pods: together they are the replicas,
-- and the canary's part is the weight's percentage of them, rounded up.
pub calculate_replica_split-ceil :
    (total weight : ℕ)
    → total < 2 ^ 31
    → weight ≤ 100
    → (stable canary : ℕ) × (calculate_replica_split (pos total) (pos weight)
        ≡ (pos stable, pos canary))
      × (stable + canary ≡ total)
      × (total * weight ≤ canary * 100)
      × (canary * 100 < total * weight + 100)
calculate_replica_split-ceil total weight t w = (
  total - share total weight,
  share total weight,
  calculate_replica_split_lem total weight t w,
  omega (arith, share-le total weight w),
  omega arith,
  omega arith,
)
