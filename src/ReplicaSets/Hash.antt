-- ===== src/ReplicaSets/Hash.antt =====
-- controller/rollout/replicaset.rs: `compute_pod_template_hash`, FNV-1a on the bytes of the JSON.
use Prim.Native.Nat.{bit_xor}
use Prim.Native.String.{◌++◌}
use kulta.Prelude.{
  ℕ, zero, suc, ◌+◌, ◌*◌, ◌/◌, ◌%◌, ◌^◌, ◌≤◌, ◌<◌, ◌≡◌, refl, ◌↔◌, arith, String, Option, some,
  List, [], ◌∷◌, length, show_nat, inl, inr, Bool-cases, ltb, ◌==◌, if◌then◌else◌, Exec, done,
  panic,
}
use kulta.Crd.{PodTemplateSpec}
use kulta.Kube.Run.{Run, ok_or, of_exec, ◌>>=◌, serialization_error, panicked}
use kulta.Kube.{Log}

abbrev pub offset_basis : ℕ
offset_basis = 0xcbf29ce484222325

abbrev fnv_prime : ℕ
fnv_prime = 0x100000001b3

-- The loop over `json.as_bytes()`. The hash is a `u64`.
unfoldable pub fnv_1a : ℕ → List ℕ → ℕ
fnv_1a hash [] = hash
fnv_1a hash (byte ∷ bytes) = fnv_1a (bit_xor hash byte * fnv_prime % 2 ^ 64) bytes

-- The hexadecimal digits of a number below 16 ^ fuel, the highest first, before `rest`.
unfoldable pub hex_digits : ℕ → ℕ → List ℕ → List ℕ
hex_digits zero n rest = rest
hex_digits (suc fuel) n rest =
    let more = hex_digits fuel (n / 16) (n % 16 ∷ rest) in if ltb n 16 then n ∷ rest else more

abbrev hex_digit : ℕ → String
hex_digit n =
    if n == 10
    then "a"
    else if n == 11
    then "b"
    else if n == 12
    then "c"
    else if n == 13
    then "d"
    else if n == 14
    then "e"
    else if n == 15
    then "f"
    else show_nat n

abbrev put_first : ℕ → Exec String → Exec String
put_first d panic = panic
put_first d (done s) = done (hex_digit d ++ s)

-- `[..count]` of the text that the digits make, one byte each: it panics if there are too few.
unfoldable pub slice : ℕ → List ℕ → Exec String
slice zero ds = done ""
slice (suc count) [] = panic
slice (suc count) (d ∷ ds) = put_first d (slice count ds)

module _ (to_json : PodTemplateSpec → Option (List ℕ)) where
  unfoldable pub compute_pod_template_hash : PodTemplateSpec → Run String
  compute_pod_template_hash template = do
    json ← ok_or (to_json template) serialization_error
    of_exec (slice 10 (hex_digits 16 (fnv_1a offset_basis json) []))

-- The FNV-1a test vector of the empty text's successor, "a".
fnv_of_a : fnv_1a offset_basis (b'a' ∷ []) ≡ 0xaf63dc4c8601ec8c
unfolding fnv_1a
fnv_of_a = refl

hex_of_a : slice 10 (hex_digits 16 0xaf63dc4c8601ec8c []) ≡ done "af63dc4c86"
unfolding slice hex_digits show_nat
hex_of_a = refl

fnv_1a_bound : (hash : ℕ) (bytes : List ℕ) → hash < 2 ^ 64 → fnv_1a hash bytes < 2 ^ 64
unfolding fnv_1a
fnv_1a_bound hash [] h = h
fnv_1a_bound hash (byte ∷ bytes) h =
    fnv_1a_bound (bit_xor hash byte * fnv_prime % 2 ^ 64) bytes (omega arith)

sixteen_pow : (k : ℕ) → 16 ^ suc k ≡ 16 * 16 ^ k
sixteen_pow k = omega arith

sixteen_pos : (k : ℕ) → 1 ≤ 16 ^ k
sixteen_pos zero = omega arith
sixteen_pos (suc k) = omega (arith, sixteen_pow k, sixteen_pos k)

hex_digits_longer : (fuel n : ℕ) (rest : List ℕ) → length rest ≤ length (hex_digits fuel n rest)
unfolding hex_digits
hex_digits_longer zero n rest = omega arith
hex_digits_longer (suc fuel) n rest =
    ground (arith, hex_digits_longer fuel (n / 16) (n % 16 ∷ rest))

-- How long the digits are.
length-hex_digits :
    (fuel k n : ℕ) (rest : List ℕ)
    → n < 16 ^ fuel
    → 1 ≤ n
    → (length rest + k < length (hex_digits fuel n rest)) ↔ (16 ^ k ≤ n)
unfolding hex_digits
length-hex_digits zero k n rest b h = absurd (omega arith)
length-hex_digits (suc fuel) zero n rest b h =
    ground (arith, hex_digits_longer fuel (n / 16) (n % 16 ∷ rest))
length-hex_digits (suc fuel) (suc k) n rest b h = elim (Bool-cases (ltb n 16)) [
  | inl lt ↦ rw lt (ground (arith, sixteen_pow k, sixteen_pos k))
  | inr ge ↦ rw ge (
      ground (
        arith,
        sixteen_pow k,
        length-hex_digits fuel k (n / 16) (n % 16 ∷ rest) (ground (arith, sixteen_pow fuel))
            (ground arith),
      ))
]

-- All fuel that is enough for a number gives the same digits.
hex_digits_enough :
    (fuel more n : ℕ) (rest : List ℕ)
    → n < 16 ^ suc fuel
    → n < 16 ^ suc more
    → hex_digits (suc fuel) n rest ≡ hex_digits (suc more) n rest
unfolding hex_digits
hex_digits_enough zero zero n rest b c = refl
hex_digits_enough zero (suc more) n rest b c = ground arith
hex_digits_enough (suc fuel) zero n rest b c = ground arith
hex_digits_enough (suc fuel) (suc more) n rest b c = elim (Bool-cases (ltb n 16)) [
  | inl lt ↦ rw lt refl
  | inr ge ↦ rw ge (
      hex_digits_enough fuel more (n / 16) (n % 16 ∷ rest) (ground (arith, sixteen_pow (suc fuel)))
        (ground (arith, sixteen_pow (suc more))))
]

put_first-panic : (d : ℕ) (m : Exec String) → (put_first d m ≡ panic) ↔ (m ≡ panic)
put_first-panic d panic = ground arith
put_first-panic d (done s) = (λ h. cc, λ h. cc)

slice-panic : (count : ℕ) (ds : List ℕ) → (slice count ds ≡ panic) ↔ (length ds < count)
unfolding slice
slice-panic zero ds = (λ h. cc, λ h. absurd (omega arith))
slice-panic (suc count) [] = (λ h. omega arith, λ h. refl)
slice-panic (suc count) (d ∷ ds) =
    ground (arith, slice-panic count ds, put_first-panic d (slice count ds))

hash_short : (n : ℕ) → n < 2 ^ 64 → (slice 10 (hex_digits 16 n []) ≡ panic) ↔ (n < 16 ^ 9)
unfolding hex_digits
hash_short zero b = ground (arith, slice-panic 10 (hex_digits 16 0 []))
hash_short (suc n) b = ground (
  arith,
  slice-panic 10 (hex_digits 16 (suc n) []),
  length-hex_digits 16 9 (suc n) [] b (omega arith),
)

-- The hash of a template that has a JSON text panics exactly when its FNV-1a value has fewer than ten
-- hexadecimal digits, that is, is below 16 ^ 9.
pub compute_pod_template_hash-panicked :
    (to_json : PodTemplateSpec → Option (List ℕ)) (template : PodTemplateSpec) (json : List ℕ)
    (log : Log)
    → to_json template ≡ some json
    → ((compute_pod_template_hash to_json template log).0 ≡ panicked)
      ↔ (fnv_1a offset_basis json < 16 ^ 9)
unfolding compute_pod_template_hash
compute_pod_template_hash-panicked to_json template json log e =
    ground (
      arith,
      e,
      hash_short (fnv_1a offset_basis json) (fnv_1a_bound offset_basis json (omega arith)),
    )
