-- ===== src/Cli/Numbers/Sizes.antt =====
-- Which sizes and durations the parsers accept, and the value that they take them for.
use Prim.Native.String.{◌++◌ as ◌<>◌}
use native.Mathlib.Nat.{le-div_iff_mul-le, mod-eq_of_lt}
use fast_clone.Prelude.{
  ℕ, ◌-◌, ◌*◌, ◌/◌, ◌%◌, ◌^◌, ◌≤◌, ◌<◌, ◌≡◌, refl, sym, ap, ◌∙◌, true, false, ◌==◌, ltb, ltb→ge,
  List, [], ◌∷◌, ◌++◌, append-nil, Option, none, some, String, arith, Bool-cases, inl, inr, length,
  map, Result, ok, throw, ◌↔◌, ltb→lt,
}
use fast_clone.Cli.Numbers.{
  starts_with_digit, stoull, to_lower, size_unit, duration_unit, scaled, parse_with_unit,
  parse_size_bytes_strict, parse_duration_ms_strict,
}
use fast_clone.Cli.Numbers.Decimal.{
  print, stoull-print, stoull-print_large, stoull-negative, starts_with_digit-print,
}

abbrev pub Throws {ℓ} : {A : Type ℓ} → Result A → Type ℓ
Throws r = (message : String) × (r ≡ throw message)

-- A number behind its multiplier: within 64 bits it is the product, above them an error.
abbrev pub Scales : Result ℕ → ℕ → ℕ → Type 0
Scales r n multiplier =
    (n * multiplier < 2 ^ 64 → r ≡ ok (n * multiplier)) × (2 ^ 64 ≤ n * multiplier → Throws r)

scaled-Scales :
    (n multiplier : ℕ) (name expected : String)
    → 0 < multiplier
    → Scales (scaled n (some multiplier) name expected) n multiplier
unfolding scaled
scaled-Scales n multiplier name expected positive =
    let bound : (n ≤ (2 ^ 64 - 1) / multiplier) ↔ (n * multiplier ≤ 2 ^ 64 - 1) =
      le-div_iff_mul-le positive in
    (
      λ fits.
          let within = bound.1 (omega arith) in
          let test : ltb ((2 ^ 64 - 1) / multiplier) n ≡ false = ground (arith, within) in
          rw (test, scaled, mod-eq_of_lt fits) refl,
      λ large.
          let test : ltb ((2 ^ 64 - 1) / multiplier) n ≡ true =
            elim (Bool-cases (ltb ((2 ^ 64 - 1) / multiplier) n)) [
              | inl e ↦ e
              | inr e ↦
                  let within = bound.0 (ltb→ge ((2 ^ 64 - 1) / multiplier) n e) in
                  absurd (omega arith)
            ] in
          rw (test, scaled) (name <> " is too large", refl),
    )

has_length : (s : List ℕ) → starts_with_digit s ≡ true → (length s == 0) ≡ false
has_length [] h = cc
has_length (c ∷ s) h = ground arith

le-mul : (n m : ℕ) → 0 < m → n ≤ n * m
le-mul n m h = grind arith

-- A decimal number and a suffix with a multiplier.
parse_with_unit-print :
    (unit : List ℕ → Option ℕ) (expected name : String) (n multiplier : ℕ) (suffix : List ℕ)
    → starts_with_digit suffix ≡ false
    → unit (map to_lower suffix) ≡ some multiplier
    → 0 < multiplier
    → Scales (parse_with_unit unit expected (print n ++ suffix) name) n multiplier
unfolding parse_with_unit
parse_with_unit-print unit expected name n multiplier suffix no_digit known positive =
    let some_text = has_length (print n ++ suffix) (starts_with_digit-print n suffix) in
    let grows = le-mul n multiplier positive in
    elim (Bool-cases (ltb n (2 ^ 64))) [
      | inl small ↦
          let number = stoull-print n suffix (ltb→lt n (2 ^ 64) small) no_digit in
          rw (some_text, number, known, parse_with_unit)
            (scaled-Scales n multiplier name expected positive)
      | inr large ↦
          let big = ltb→ge n (2 ^ 64) large in
          let number = stoull-print_large n suffix big no_digit in
          rw (some_text, number, parse_with_unit)
            (λ fits. absurd (omega arith), λ h. ("Invalid " <> name, refl))
    ]

-- A suffix without a multiplier.
parse_with_unit-unknown :
    (unit : List ℕ → Option ℕ) (expected name : String) (n : ℕ) (suffix : List ℕ)
    → starts_with_digit suffix ≡ false
    → unit (map to_lower suffix) ≡ none
    → Throws (parse_with_unit unit expected (print n ++ suffix) name)
unfolding parse_with_unit scaled
parse_with_unit-unknown unit expected name n suffix no_digit unknown =
    let some_text = has_length (print n ++ suffix) (starts_with_digit-print n suffix) in
    elim (Bool-cases (ltb n (2 ^ 64))) [
      | inl small ↦
          let number = stoull-print n suffix (ltb→lt n (2 ^ 64) small) no_digit in
          rw (some_text, number, unknown, parse_with_unit) (("Invalid " <> name) <> expected, refl)
      | inr large ↦
          let number = stoull-print_large n suffix (ltb→ge n (2 ^ 64) large) no_digit in
          rw (some_text, number, parse_with_unit) ("Invalid " <> name, refl)
    ]

size_unit-pos : (s : List ℕ) (m : ℕ) → size_unit s ≡ some m → 0 < m
unfolding size_unit
size_unit-pos s m h = ground arith

duration_unit-pos : (s : List ℕ) (m : ℕ) → duration_unit s ≡ some m → 0 < m
unfolding duration_unit
duration_unit-pos s m h = ground arith

-- A size in decimal with a suffix that starts with no digit: the suffix is looked up without
-- regard to case; with a known one the result is the product where that fits 64 bits, and an
-- error where it does not; any other suffix is an error.
pub parse_size_bytes_strict_lem :
    (n : ℕ) (suffix : List ℕ) (name : String)
    → starts_with_digit suffix ≡ false
    → ((multiplier : ℕ)
        → size_unit (map to_lower suffix) ≡ some multiplier
        → Scales (parse_size_bytes_strict (print n ++ suffix) name) n multiplier)
      × (size_unit (map to_lower suffix) ≡ none
          → Throws (parse_size_bytes_strict (print n ++ suffix) name))
unfolding parse_size_bytes_strict
parse_size_bytes_strict_lem n suffix name no_digit = (
  λ multiplier known.
      parse_with_unit-print size_unit ", expected suffix [K|M|G]" name n multiplier suffix no_digit
        known (size_unit-pos (map to_lower suffix) multiplier known),
  parse_with_unit-unknown size_unit ", expected suffix [K|M|G]" name n suffix no_digit,
)

-- A duration in decimal with a suffix: as for sizes, in milliseconds; no suffix means seconds.
pub parse_duration_ms_strict_lem :
    (n : ℕ) (suffix : List ℕ) (name : String)
    → starts_with_digit suffix ≡ false
    → ((multiplier : ℕ)
        → duration_unit (map to_lower suffix) ≡ some multiplier
        → Scales (parse_duration_ms_strict (print n ++ suffix) name) n multiplier)
      × (duration_unit (map to_lower suffix) ≡ none
          → Throws (parse_duration_ms_strict (print n ++ suffix) name))
unfolding parse_duration_ms_strict
parse_duration_ms_strict_lem n suffix name no_digit = (
  λ multiplier known.
      parse_with_unit-print duration_unit ", expected suffix [s|m|h]" name n multiplier suffix
        no_digit known (duration_unit-pos (map to_lower suffix) multiplier known),
  parse_with_unit-unknown duration_unit ", expected suffix [s|m|h]" name n suffix no_digit,
)

-- The strict parser accepts a positive size below 2^64 with a minus sign before it: the result
-- is 2^64 less the size.
pub parse_size_bytes_strict_negative :
    (n : ℕ) (name : String)
    → 0 < n
    → n < 2 ^ 64
    → parse_size_bytes_strict (b'-' ∷ print n) name ≡ ok (2 ^ 64 - n)
unfolding parse_size_bytes_strict parse_with_unit scaled size_unit
parse_size_bytes_strict_negative n name positive small =
    let number : stoull (b'-' ∷ print n) ≡ some ((2 ^ 64 - n) % 2 ^ 64, []) =
      ap (λ s. stoull (b'-' ∷ s)) (sym (append-nil (print n))) ∙ stoull-negative n [] small refl in
    rw (number, parse_size_bytes_strict) (ground arith)
