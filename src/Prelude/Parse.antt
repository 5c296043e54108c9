-- ===== src/Prelude/Parse.antt =====
-- What the program uses of Rust's `str`: `trim`, the last character, `strip_suffix`, and `parse`
-- into `u64` and `i32`, over the code points of a text.
use kulta.Prelude.{
  ℕ, ◌+◌, ◌-◌, ◌*◌, ◌^◌, Bool, true, false, ◌&&◌, ◌||◌, Option, none, some, List, [], ◌∷◌, ltb, leb,
  ◌==◌, if◌then◌else◌, and_then,
}
use kulta.Prelude.Int.{ℤ, pos, sub_ℕ}

-- `char::is_whitespace`.
unfoldable pub is_whitespace : ℕ → Bool
is_whitespace c =
    leb 9 c && leb c 13
    || c == 32
    || c == 0x85
    || c == 0xa0
    || c == 0x1680
    || leb 0x2000 c && leb c 0x200a
    || c == 0x2028
    || c == 0x2029
    || c == 0x202f
    || c == 0x205f
    || c == 0x3000

unfoldable pub trim_start : List ℕ → List ℕ
trim_start [] = []
trim_start (c ∷ cs) = if is_whitespace c then trim_start cs else c ∷ cs

-- A space is dropped if only spaces follow it.
abbrev pub cons_trimmed : ℕ → List ℕ → List ℕ
cons_trimmed c [] = if is_whitespace c then [] else c ∷ []
cons_trimmed c (d ∷ ds) = c ∷ d ∷ ds

unfoldable pub trim_end : List ℕ → List ℕ
trim_end [] = []
trim_end (c ∷ cs) = cons_trimmed c (trim_end cs)

unfoldable pub trim : List ℕ → List ℕ
unfolding trim_start trim_end is_whitespace
trim cs = trim_end (trim_start cs)

abbrev pub cons_init : ℕ → Option (List ℕ × ℕ) → List ℕ × ℕ
cons_init c none = ([], c)
cons_init c (some (front, last)) = (c ∷ front, last)

-- All but the last character, and the last.
unfoldable pub split_last : List ℕ → Option (List ℕ × ℕ)
split_last [] = none
split_last (c ∷ cs) = some (cons_init c (split_last cs))

abbrev pub is_digit : ℕ → Bool
is_digit c = leb b'0' c && leb c b'9'

-- Decimal digits after those that make up `n`.
unfoldable pub scan_digits : ℕ → List ℕ → Option ℕ
scan_digits n [] = some n
scan_digits n (c ∷ cs) =
    let rest = scan_digits (n * 10 + (c - b'0')) cs in if is_digit c then rest else none

abbrev pub parse_digits : List ℕ → Option ℕ
parse_digits [] = none
parse_digits (c ∷ cs) = scan_digits 0 (c ∷ cs)

abbrev below : ℕ → ℕ → Option ℕ
below bound n = if ltb n bound then some n else none

-- `str::parse::<u64>`: an optional plus, then digits. An overflow on the way is one at the end.
unfoldable pub parse_u64 : List ℕ → Option ℕ
unfolding scan_digits
parse_u64 [] = none
parse_u64 (c ∷ cs) =
    and_then (if c == b'+' then parse_digits cs else parse_digits (c ∷ cs)) (below (2 ^ 64))

-- `str::parse::<i32>`: an optional sign, then digits.
unfoldable pub parse_i32 : List ℕ → Option ℤ
unfolding scan_digits
parse_i32 [] = none
parse_i32 (c ∷ cs) =
    if c == b'-'
    then and_then (and_then (parse_digits cs) (below (2 ^ 31 + 1))) (λ n. some (sub_ℕ 0 n))
    else and_then
        (and_then (if c == b'+' then parse_digits cs else parse_digits (c ∷ cs)) (below (2 ^ 31)))
        (λ n. some (pos n))

-- `str::strip_suffix` with one character.
abbrev pub strip_last : ℕ → Option (List ℕ × ℕ) → Option (List ℕ)
strip_last c none = none
strip_last c (some (front, last)) = if last == c then some front else none

abbrev starts_with : List ℕ → List ℕ → Bool
starts_with [] cs = true
starts_with (p ∷ ps) [] = false
starts_with (p ∷ ps) (c ∷ cs) = (p == c) && starts_with ps cs

-- `str::contains`.
abbrev pub contains : List ℕ → List ℕ → Bool
contains [] pattern = starts_with pattern []
contains (c ∷ cs) pattern = starts_with pattern (c ∷ cs) || contains cs pattern
