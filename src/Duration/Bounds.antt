-- ===== src/Duration/Bounds.antt =====
-- What `parse_duration` can return.
use kulta.Prelude.{
  ℕ, ◌++◌, ◌≤◌, ◌≡◌, refl, ap, ◌↔◌, String, Option, none, some, List, [], ◌∷◌, codes, arith, done,
  panic,
}
use kulta.Prelude.Parse.{trim, cons_init, split_last, parse_u64}
use kulta.Duration.{read_number, parse_trimmed, parse_duration}

read_number_bounds :
    (unit : ℕ) (o : Option ℕ) (d : ℕ) → read_number unit o ≡ some d → (1 ≤ d) × (d ≤ 604800)
unfolding read_number
read_number_bounds unit none d h = ground arith
read_number_bounds unit (some number) d h = ground arith

parse_trimmed_bounds :
    (o : Option (List ℕ × ℕ)) {d : ℕ} → parse_trimmed o ≡ done (some d) → (1 ≤ d) × (d ≤ 604800)
unfolding parse_trimmed
parse_trimmed_bounds none h = cc
parse_trimmed_bounds (some (number_str, unit)) {d} h =
    ground (arith, read_number_bounds unit (parse_u64 number_str) d)

-- A parsed duration lies between one second and one week.
pub parse_duration_bounds :
    (s : String) {d : ℕ} → parse_duration s ≡ done (some d) → (1 ≤ d) × (d ≤ 604800)
unfolding parse_duration
parse_duration_bounds s h = parse_trimmed_bounds (split_last (trim (codes s))) h

pub split_last-append : (cs : List ℕ) (u : ℕ) → split_last (cs ++ u ∷ []) ≡ some (cs, u)
unfolding split_last
split_last-append [] u = refl
split_last-append (c ∷ cs) u = rw (split_last-append cs u)

split_last-cons :
    (c : ℕ) (cs : List ℕ)
    → (front : List ℕ) × (u : ℕ) × (split_last (c ∷ cs) ≡ some (front, u))
      × (c ∷ cs ≡ front ++ u ∷ [])
unfolding split_last
split_last-cons c [] = ([], c, refl, refl)
split_last-cons c (d ∷ cs) =
    let (front, u, e, f) = split_last-cons d cs in
    (c ∷ front, u, ap (λ o. some (cons_init c o)) e, ap (λ l. c ∷ l) f)

-- The text's last character is not ASCII.
abbrev pub EndsWide : List ℕ → Type 0
EndsWide cs = (front : List ℕ) × (u : ℕ) × (cs ≡ front ++ u ∷ []) × (128 ≤ u)

parse_trimmed-wide : (front : List ℕ) (u : ℕ) → 128 ≤ u → parse_trimmed (some (front, u)) ≡ panic
unfolding parse_trimmed
parse_trimmed-wide front u h = ground arith

parse_trimmed-panic : (front : List ℕ) (u : ℕ) → parse_trimmed (some (front, u)) ≡ panic → 128 ≤ u
unfolding parse_trimmed
parse_trimmed-panic front u h = ground arith

wide_of_panic : (cs : List ℕ) → parse_trimmed (split_last cs) ≡ panic → EndsWide cs
wide_of_panic [] h = absurd (unfold parse_trimmed split_last in cc h)
wide_of_panic (c ∷ cs) h =
    let (front, u, e, f) = split_last-cons c cs in
    (front, u, f, parse_trimmed-panic front u (rw e at h))

panic_of_wide : (cs : List ℕ) → EndsWide cs → parse_trimmed (split_last cs) ≡ panic
panic_of_wide cs (front, u, e, h) = rw (e, split_last-append front u) (parse_trimmed-wide front u h)

-- Parsing a duration panics exactly when the text, trimmed, ends in a character outside ASCII.
pub parse_duration-panic : (s : String) → (parse_duration s ≡ panic) ↔ EndsWide (trim (codes s))
unfolding parse_duration
parse_duration-panic s = (wide_of_panic (trim (codes s)), panic_of_wide (trim (codes s)))
