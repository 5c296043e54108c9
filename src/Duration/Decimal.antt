-- ===== src/Duration/Decimal.antt =====
-- `parse_duration` on a decimal number with a unit.
use native.Mathlib.Nat.{pow-suc}
use kulta.Prelude.{
  ℕ, ◌+◌, ◌-◌, ◌*◌, ◌^◌, ◌≤◌, ◌<◌, ◌++◌, ◌≡◌, refl, ap, sym, ◌∙◌, true, false, ◌&&◌, none, some,
  String, List, [], ◌∷◌, map, codes, arith, length, All, ltb, leb, ◌==◌, inl, inr, Bool-cases,
  if◌then◌else◌, done,
}
use kulta.Prelude.Parse.{
  is_whitespace, trim_start, trim_end, trim, is_digit, scan_digits, parse_u64,
}
use kulta.Duration.{read_number, parse_trimmed, parse_duration}
use kulta.Duration.Bounds.{split_last-append}

-- The units of a duration: the letter, the seconds in one, and the largest number allowed.
pub data DurationUnit : Type 0 where
  seconds minutes hours : DurationUnit

abbrev pub letter : DurationUnit → ℕ
letter seconds = b's'
letter minutes = b'm'
letter hours = b'h'

abbrev pub scale : DurationUnit → ℕ
scale seconds = 1
scale minutes = 60
scale hours = 3600

abbrev pub limit : DurationUnit → ℕ
limit seconds = 86400
limit minutes = 1440
limit hours = 168

-- The number that decimal digits stand for, and their characters.
abbrev pub value : List ℕ → ℕ
value [] = 0
value (d ∷ ds) = d * 10 ^ length ds + value ds

abbrev pub digit_codes : List ℕ → List ℕ
digit_codes = map (λ d. b'0' + d)

is_digit_lem : (d : ℕ) → d < 10 → is_digit (b'0' + d) ≡ true
is_digit_lem d h = ground arith

add_sub : (d : ℕ) → b'0' + d - b'0' ≡ d
add_sub d = omega arith

shift_value : (n d p v : ℕ) → (n * 10 + d) * p + v ≡ n * (p * 10) + (d * p + v)
shift_value n d p v = omega arith

scan_digits-value :
    (n : ℕ) (ds : List ℕ)
    → All (λ d. d < 10) ds
    → scan_digits n (digit_codes ds) ≡ some (n * 10 ^ length ds + value ds)
unfolding scan_digits
scan_digits-value n [] h = ap some (omega arith)
scan_digits-value n (d ∷ ds) h =
    rw (is_digit_lem d h.0, add_sub d, scan_digits-value (n * 10 + d) ds h.1)
      (ap some (
        shift_value n d (10 ^ length ds) (value ds)
        ∙ ap (λ p. n * p + (d * 10 ^ length ds + value ds)) (sym (pow-suc 10 (length ds)))))

trim_end-append :
    (cs : List ℕ) (u : ℕ) → is_whitespace u ≡ false → trim_end (cs ++ u ∷ []) ≡ cs ++ u ∷ []
unfolding trim_end
trim_end-append [] u h = rw h
trim_end-append (c ∷ []) u h = rw h
trim_end-append (c ∷ d ∷ cs) u h = cc (trim_end-append (d ∷ cs) u h)

read_number_lem :
    (u : DurationUnit) (v : ℕ)
    → read_number (letter u) (some v)
      ≡ (if leb 1 v && leb v (limit u) then some (v * scale u) else none)
unfolding read_number
read_number_lem seconds v = ground arith
read_number_lem minutes v = ground arith
read_number_lem hours v = ground arith

plus_lem : (d : ℕ) → (b'0' + d == b'+') ≡ false
plus_lem d = ground arith

zero_mul : (p v : ℕ) → 0 * p + v ≡ v
zero_mul p v = omega arith

read_number-none :
    (u : DurationUnit) (v : ℕ)
    → 2 ^ 64 ≤ v
    → read_number (letter u) none
      ≡ (if leb 1 v && leb v (limit u) then some (v * scale u) else none)
unfolding read_number
read_number-none seconds v h = ground arith
read_number-none minutes v h = ground arith
read_number-none hours v h = ground arith

parse_u64-decimal :
    (d : ℕ) (ds : List ℕ)
    → All (λ d. d < 10) (d ∷ ds)
    → parse_u64 (digit_codes (d ∷ ds))
      ≡ (if ltb (value (d ∷ ds)) (2 ^ 64) then some (value (d ∷ ds)) else none)
unfolding parse_u64
parse_u64-decimal d ds h =
    rw (plus_lem d, scan_digits-value 0 (d ∷ ds) h)
      (ap (λ n. if ltb n (2 ^ 64) then some n else none)
        (zero_mul (10 ^ length (d ∷ ds)) (value (d ∷ ds))))

letter_lem : (u : DurationUnit) → (is_whitespace (letter u) ≡ false) × (ltb (letter u) 128 ≡ true)
unfolding is_whitespace
letter_lem seconds = (refl, refl)
letter_lem minutes = (refl, refl)
letter_lem hours = (refl, refl)

digit-whitespace : (d : ℕ) → d < 10 → is_whitespace (b'0' + d) ≡ false
unfolding is_whitespace
digit-whitespace d h = ground arith

trim-decimal :
    (d : ℕ) (ds : List ℕ) (u : DurationUnit)
    → d < 10
    → trim (digit_codes (d ∷ ds) ++ letter u ∷ []) ≡ digit_codes (d ∷ ds) ++ letter u ∷ []
unfolding trim trim_start
trim-decimal d ds u h =
    rw (digit-whitespace d h) (trim_end-append (digit_codes (d ∷ ds)) (letter u) (letter_lem u).0)

read_number-decimal :
    (u : DurationUnit) (v : ℕ)
    → read_number (letter u) (if ltb v (2 ^ 64) then some v else none)
      ≡ (if leb 1 v && leb v (limit u) then some (v * scale u) else none)
read_number-decimal u v = elim (Bool-cases (ltb v (2 ^ 64))) [
  | inl e ↦ rw e (read_number_lem u v)
  | inr e ↦ rw e (read_number-none u v (ground arith))
]

-- A number with a unit is read as that many units, from one up to the unit's limit.
pub parse_duration-decimal :
    (s : String) (d : ℕ) (ds : List ℕ) (u : DurationUnit)
    → All (λ d. d < 10) (d ∷ ds)
    → codes s ≡ digit_codes (d ∷ ds) ++ letter u ∷ []
    → let v = value (d ∷ ds) in
      parse_duration s ≡ done (if leb 1 v && leb v (limit u) then some (v * scale u) else none)
unfolding parse_duration parse_trimmed
parse_duration-decimal s d ds u h e =
    rw
      (
        e,
        trim-decimal d ds u h.0,
        split_last-append (digit_codes (d ∷ ds)) (letter u),
        (letter_lem u).1,
        parse_u64-decimal d ds h,
      )
      (ap done (read_number-decimal u (value (d ∷ ds))))
