-- ===== src/Prelude/Text.antt =====
-- Texts: code points, equality, decimal printing, and dictionaries with text keys.
use Prim.Native.Nat.{ℕ, zero, suc, ◌*◌, ◌/◌, ◌%◌, ◌^◌, ◌<◌}
use native.Mathlib.Omega.{arith}
use Prim.Native.Char.{code}
use Prim.Native.String.{String, ◌++◌}
use mathlib.Core.Bool.{Bool, true, false}
use mathlib.Core.List.{List, [], ◌∷◌}
use mathlib.Core.Option.{Option, none, some}
use mathlib.Core.Path.{◌≡◌, refl, ap}
use text.Mathlib.Text.{◌==◌ as str_eq_native}
use kulta.Prelude.Tests.{ltb, if◌then◌else◌}

-- The code points of a text.
abbrev pub codes : String → List ℕ
codes String.[] = []
codes (String.◌∷◌ c s) = code c ∷ codes s

abbrev pub str_eq : String → String → Bool
str_eq = str_eq_native

unfoldable pub is_empty : String → Bool
is_empty String.[] = true
is_empty (String.◌∷◌ c s) = false

abbrev digit : ℕ → String
digit zero = "0"
digit (suc zero) = "1"
digit (suc (suc zero)) = "2"
digit (suc (suc (suc zero))) = "3"
digit (suc (suc (suc (suc zero)))) = "4"
digit (suc (suc (suc (suc (suc zero))))) = "5"
digit (suc (suc (suc (suc (suc (suc zero)))))) = "6"
digit (suc (suc (suc (suc (suc (suc (suc zero))))))) = "7"
digit (suc (suc (suc (suc (suc (suc (suc (suc zero)))))))) = "8"
digit _ = "9"

show_digits : ℕ → ℕ → String
show_digits zero n = ""
show_digits (suc fuel) n =
    let high = show_digits fuel (n / 10) ++ digit (n % 10) in if ltb n 10 then digit n else high

-- A number below 10 ^ 20 in decimal.
unfoldable pub show_nat : ℕ → String
unfolding show_digits
show_nat n = show_digits 20 n

show_nat_test : show_nat 1205 ≡ "1205"
unfolding show_nat
show_nat_test = refl

ten_pow : (k : ℕ) → 10 ^ suc k ≡ 10 * 10 ^ k
ten_pow k = omega arith

-- All fuel that is enough for a number prints the same text.
show_digits_enough :
    (fuel more n : ℕ)
    → n < 10 ^ suc fuel
    → n < 10 ^ suc more
    → show_digits (suc fuel) n ≡ show_digits (suc more) n
unfolding show_digits
show_digits_enough zero zero n b c = refl
show_digits_enough zero (suc more) n b c = ground arith
show_digits_enough (suc fuel) zero n b c = ground arith
show_digits_enough (suc fuel) (suc more) n b c =
    ap (λ s. if ltb n 10 then digit n else s ++ digit (n % 10))
      (show_digits_enough fuel more (n / 10) (ground (arith, ten_pow (suc fuel)))
        (ground (arith, ten_pow (suc more))))

module _ {ℓ} {V : Type ℓ} where
  abbrev pub lookup : String → List (String × V) → Option V
  lookup k [] = none
  lookup k ((j, v) ∷ m) = if str_eq j k then some v else lookup k m
