-- ===== src/Replicas/Surge.antt =====
-- The split with surge, against the split without.
use kulta.Prelude.{
  ℕ, ◌+◌, ◌-◌, ◌^◌, ◌≤◌, ◌<◌, ◌≡◌, refl, arith, String, Option, none, some, List, [], ◌∷◌, codes,
  unwrap_or, leb, leb→le, Bool-cases, inl, inr,
}
use kulta.Prelude.Int.{
  ℤ, pos, negsuc, ◌+ℤ◌, ◌-ℤ◌, ◌≤ℤ◌, max_ℤ, max_i32, wrap_i32, wrap_i32-add, wrap_i32-sub,
}
use kulta.Prelude.Parse.{split_last, strip_last, parse_i32}
use kulta.Replicas.{
  percent_of, absolute_of, surge_value, parse_surge_value, calculate_replica_split, scale_down,
  scale_up, calculate_replica_split_with_surge,
}
use kulta.Replicas.Split.{
  share, share-le, percent_ceil_lem, ideal_canary_lem, calculate_replica_split_lem,
}

parse_i32_bound : (cs : List ℕ) {n : ℕ} → parse_i32 cs ≡ some (pos n) → n < 2 ^ 31
unfolding parse_i32
parse_i32_bound [] h = cc
parse_i32_bound (c ∷ cs) h = ground arith

percent_value_lem :
    (total : ℕ) (o : Option ℤ)
    → total < 2 ^ 31
    → (k : ℕ) × (percent_of (pos total) o ≡ pos k) × (k < 2 ^ 31)
percent_value_lem total none t = (0, refl, omega arith)
percent_value_lem total (some (pos n)) t = elim (Bool-cases (leb n 100)) [
  | inl e ↦ (
    share total n,
    ground (arith, percent_ceil_lem total n t),
    omega (arith, share-le total n (leb→le n 100 e)),
  )
  | inr e ↦ (0, ground arith, omega arith)
]
percent_value_lem total (some (negsuc n)) t = (0, ground arith, omega arith)

absolute_value_lem :
    (value : List ℕ) → (k : ℕ) × (absolute_of (parse_i32 value) ≡ pos k) × (k < 2 ^ 31)
absolute_value_lem value = go (parse_i32 value) (λ n e. parse_i32_bound value e)
  where
    go :
        (o : Option ℤ)
        → ((n : ℕ) → o ≡ some (pos n) → n < 2 ^ 31)
        → (k : ℕ) × (absolute_of o ≡ pos k) × (k < 2 ^ 31)
    go none h = (0, refl, omega arith)
    go (some (pos n)) h = (n, ground arith, h n refl)
    go (some (negsuc n)) h = (0, ground arith, omega arith)

-- A surge value is a number of pods that an `i32` holds.
surge_value_lem :
    (total : ℕ) (value : List ℕ) (o : Option (List ℕ))
    → total < 2 ^ 31
    → (k : ℕ) × (surge_value (pos total) value o ≡ pos k) × (k < 2 ^ 31)
surge_value_lem total value (some percent_str) t = percent_value_lem total (parse_i32 percent_str) t
surge_value_lem total value none t = absolute_value_lem value

scale_down_lem :
    (stable canary max_total : ℕ)
    → stable + canary ≤ max_total
    → max_total < 2 ^ 31
    → scale_down (pos max_total) (pos stable, pos canary) ≡ (pos stable, pos canary)
unfolding scale_down
scale_down_lem stable canary max_total h b =
    rw (wrap_i32-add stable canary (omega arith)) (ground arith)

scale_up_lem :
    (stable canary min_total : ℕ)
    → min_total ≤ stable + canary
    → stable + canary < 2 ^ 31
    → scale_up (pos min_total) (pos stable, pos canary) ≡ (pos stable, pos canary)
unfolding scale_up
scale_up_lem stable canary min_total h b = rw (wrap_i32-add stable canary b) (ground arith)

sum_lem : (a b : ℕ) → pos a +ℤ pos b ≤ℤ max_i32 → a + b < 2 ^ 31
unfolding ◌+ℤ◌
sum_lem a b h = ground arith

min_total_lem :
    (total u : ℕ)
    → total < 2 ^ 31
    → u < 2 ^ 31
    → max_ℤ (wrap_i32 (pos total -ℤ pos u)) (pos 0) ≡ pos (total - u)
unfolding wrap_i32 ◌-ℤ◌
min_total_lem total u t h = ground arith

max_ℤ_self : (n : ℕ) → max_ℤ (pos n) (pos 0) ≡ pos n
max_ℤ_self n = ground arith

-- The last line of the function, on the numbers that the lines above it come to.
clamp_lem :
    (total weight k u : ℕ)
    → total < 2 ^ 31
    → weight ≤ 100
    → total + k < 2 ^ 31
    → scale_up
        (pos (total - u))
        (scale_down (pos (total + k)) (pos (total - share total weight), pos (share total weight)))
      ≡ (pos (total - share total weight), pos (share total weight))
clamp_lem total weight k u t w h =
    let whole : total - share total weight + share total weight ≡ total =
      omega (arith, share-le total weight w) in
    rw
      (scale_down_lem (total - share total weight) (share total weight) (total + k) (omega arith) h)
      (scale_up_lem (total - share total weight) (share total weight) (total - u) (omega arith)
        (omega arith))

-- For a weight of at most 100, and unless `total_replicas + surge` overflows, neither limit ever
-- binds: the split with surge is the split without, and no pod is added.
pub calculate_replica_split_with_surge-eq-split :
    (total weight : ℕ) (max_surge max_unavailable : Option String)
    → total < 2 ^ 31
    → weight ≤ 100
    → pos total +ℤ parse_surge_value (unwrap_or max_surge "25%") (pos total) ≤ℤ max_i32
    → calculate_replica_split_with_surge (pos total) (pos weight) max_surge max_unavailable
      ≡ calculate_replica_split (pos total) (pos weight)
unfolding calculate_replica_split_with_surge
calculate_replica_split_with_surge-eq-split total weight max_surge max_unavailable t w fits =
    let (k, ek, bk) = surge_of (unwrap_or max_surge "25%") in
    let (u, eu, bu) = surge_of (unwrap_or max_unavailable "0") in
    let small : total + k < 2 ^ 31 = sum_lem total k (rw ek at fits) in
    rw
      (
        ek,
        eu,
        ideal_canary_lem total weight t w,
        wrap_i32-add total k small,
        min_total_lem total u t bu,
        wrap_i32-sub total (share total weight) (share-le total weight w) t,
        max_ℤ_self (total - share total weight),
        calculate_replica_split_lem total weight t w,
      )
      (clamp_lem total weight k u t w small)
  where
    surge_of : (s : String) → (k : ℕ) × (parse_surge_value s (pos total) ≡ pos k) × (k < 2 ^ 31)
    surge_of s =
        unfold parse_surge_value in
        surge_value_lem total (codes s) (strip_last b'%' (split_last (codes s))) t
