-- ===== src/Duration.antt =====
-- controller/rollout/validation.rs: `parse_duration`. A `Duration` is its whole seconds.
pub mod Bounds
pub mod Decimal
use kulta.Prelude.{
  ℕ, ◌*◌, ◌^◌, String, Option, none, some, ◌≡◌, refl, List, codes, ltb, leb, ◌==◌, if◌then◌else◌,
  Exec, done, panic,
}
use kulta.Prelude.Parse.{trim, split_last, parse_u64}

abbrev checked_mul : ℕ → ℕ → Option ℕ
checked_mul n k = if ltb (n * k) (2 ^ 64) then some (n * k) else none

-- The `match unit`, with the limit of each unit.
convert : ℕ → ℕ → Option ℕ
convert unit number =
    if unit == b's'
    then (if leb number 86400 then some number else none)
    else if unit == b'm'
    then (if leb number 1440 then checked_mul number 60 else none)
    else if unit == b'h'
    then (if leb number 168 then checked_mul number 3600 else none)
    else none

-- `number_str.parse().ok()?`, the zero test and the conversion.
pub read_number : ℕ → Option ℕ → Option ℕ
unfolding convert
read_number unit none = none
read_number unit (some number) = if number == 0 then none else convert unit number

-- `&duration_str[..duration_str.len() - 1]` cuts off one byte: it panics inside a longer character.
pub parse_trimmed : Option (List ℕ × ℕ) → Exec (Option ℕ)
parse_trimmed none = done none
parse_trimmed (some (number_str, unit)) =
    if ltb unit 128 then done (read_number unit (parse_u64 number_str)) else panic

unfoldable pub parse_duration : String → Exec (Option ℕ)
parse_duration duration_str = parse_trimmed (split_last (trim (codes duration_str)))

five_minutes : parse_duration " 5m" ≡ done (some 300)
unfolding parse_duration parse_trimmed read_number trim split_last parse_u64
five_minutes = refl

a_year : parse_duration "8760h" ≡ done none
unfolding parse_duration parse_trimmed read_number trim split_last parse_u64
a_year = refl

micro_sign : parse_duration "5µ" ≡ panic
unfolding parse_duration parse_trimmed read_number trim split_last parse_u64
micro_sign = refl
