-- ===== src/Cli/Numbers.antt =====
-- The strict parsers of numbers, sizes and durations of FastClone/cli.cpp, over the bytes of a
-- text, with what they use of `strtol` and `stoull`.
pub mod Decimal
pub mod Sizes
use Prim.Native.String.{◌++◌ as ◌<>◌}
use Prim.Native.Char.{code}
use fast_clone.Prelude.{
  ℕ, zero, suc, ◌+◌, ◌-◌, ◌*◌, ◌/◌, ◌%◌, ◌^◌, Bool, true, false, not, ◌&&◌, ◌||◌, if◌then◌else◌,
  ◌==◌, ltb, leb, List, [], ◌∷◌, Option, none, some, String, ℤ, pos, negsuc, length, bytes_eq,
  Result, ok, throw, ◌>>=◌, map,
}

unfoldable pub codes : String → List ℕ
codes String.[] = []
codes (String.◌∷◌ first rest) = code first ∷ codes rest

abbrev pub is_digit : ℕ → Bool
is_digit c = leb b'0' c && leb c b'9'

abbrev pub is_space : ℕ → Bool
is_space c = (c == 32) || (leb 9 c && leb c 13)

unfoldable pub skip_spaces : List ℕ → List ℕ
skip_spaces [] = []
skip_spaces (c ∷ s) = let rest = skip_spaces s in if is_space c then rest else c ∷ s

-- The value of the digits at the front, on top of those read, and what follows them.
unfoldable pub read_digits : ℕ → List ℕ → ℕ × List ℕ
read_digits n [] = (n, [])
read_digits n (c ∷ s) =
    let rest = read_digits (10 * n + (c - b'0')) s in if is_digit c then rest else (n, c ∷ s)

abbrev pub starts_with_digit : List ℕ → Bool
starts_with_digit [] = false
starts_with_digit (c ∷ s) = is_digit c

-- The sign, the magnitude and the rest; nothing where no digit follows.
unfoldable pub read_unsigned : Bool → List ℕ → Option (Bool × ℕ × List ℕ)
unfolding read_digits
read_unsigned negative s =
    let (n, rest) = read_digits 0 s in
    if starts_with_digit s then some (negative, n, rest) else none

unfoldable pub read_sign : List ℕ → Option (Bool × ℕ × List ℕ)
unfolding read_unsigned
read_sign [] = none
read_sign (c ∷ s) =
    if c == b'-'
    then read_unsigned true s
    else if c == b'+'
    then read_unsigned false s
    else read_unsigned false (c ∷ s)

unfoldable pub read_integer : List ℕ → Option (Bool × ℕ × List ℕ)
unfolding read_sign skip_spaces
read_integer s = read_sign (skip_spaces s)

-- The ends of a `long` of 64 bits.
unfoldable pub saturate : Bool → ℕ → ℤ
saturate false n = if ltb n (2 ^ 63) then pos n else pos (2 ^ 63 - 1)
saturate true n =
    if n == 0 then pos 0 else if leb n (2 ^ 63) then negsuc (n - 1) else negsuc (2 ^ 63 - 1)

-- Without a number, `strtol` gives 0 and reads nothing.
unfoldable pub strtol : List ℕ → ℤ × List ℕ
unfolding read_integer saturate
strtol s = elim (read_integer s) [
  | some (negative, n, rest) ↦ (saturate negative n, rest)
  | none ↦ (pos 0, s)
]

-- `none` where `stoull` throws; a minus sign negates modulo 2^64.
unfoldable pub stoull : List ℕ → Option (ℕ × List ℕ)
unfolding read_integer
stoull s = elim (read_integer s) [
  | some (negative, n, rest) ↦
      if ltb n (2 ^ 64) then some (if negative then (2 ^ 64 - n) % 2 ^ 64 else n, rest) else none
  | none ↦ none
]

unfoldable pub parse_long_strict : List ℕ → String → Result ℤ
unfolding strtol
parse_long_strict value name =
    let (parsed, rest) = strtol value in
    if length value == 0
    then throw (name <> " is empty")
    else if length rest == 0
    then ok parsed
    else throw ("Invalid " <> name)

abbrev pub to_lower : ℕ → ℕ
to_lower c = if leb b'A' c && leb c b'Z' then c + 32 else c

unfoldable pub size_unit : List ℕ → Option ℕ
size_unit s =
    if bytes_eq s [] || bytes_eq s (b'b' ∷ [])
    then some 1
    else if bytes_eq s (b'k' ∷ []) || bytes_eq s (b'k' ∷ b'b' ∷ [])
    then some 1024
    else if bytes_eq s (b'm' ∷ []) || bytes_eq s (b'm' ∷ b'b' ∷ [])
    then some (1024 * 1024)
    else if bytes_eq s (b'g' ∷ []) || bytes_eq s (b'g' ∷ b'b' ∷ [])
    then some (1024 * 1024 * 1024)
    else none

unfoldable pub duration_unit : List ℕ → Option ℕ
duration_unit s =
    if bytes_eq s [] || (bytes_eq s (b's' ∷ []) || bytes_eq s (b's' ∷ b'e' ∷ b'c' ∷ []))
    then some 1000
    else if bytes_eq s (b'm' ∷ []) || bytes_eq s (b'm' ∷ b'i' ∷ b'n' ∷ [])
    then some (60 * 1000)
    else if bytes_eq s (b'h' ∷ []) || bytes_eq s (b'h' ∷ b'r' ∷ [])
    then some (60 * 60 * 1000)
    else none

-- What the two parsers do with a number and the multiplier of its suffix.
unfoldable pub scaled : ℕ → Option ℕ → String → String → Result ℕ
scaled base none name expected = throw (("Invalid " <> name) <> expected)
scaled base (some multiplier) name expected =
    if ltb ((2 ^ 64 - 1) / multiplier) base
    then throw (name <> " is too large")
    else ok ((base * multiplier) % 2 ^ 64)

unfoldable pub parse_with_unit : (List ℕ → Option ℕ) → String → List ℕ → String → Result ℕ
unfolding stoull scaled
parse_with_unit unit expected value name =
    let number = elim (stoull value) as (λ _. Result ℕ) [
      | some (base, rest) ↦ scaled base (unit (map to_lower rest)) name expected
      | none ↦ throw ("Invalid " <> name)
    ] in
    if length value == 0 then throw (name <> " is empty") else number

unfoldable pub parse_size_bytes_strict : List ℕ → String → Result ℕ
unfolding parse_with_unit size_unit
parse_size_bytes_strict = parse_with_unit size_unit ", expected suffix [K|M|G]"

unfoldable pub parse_duration_ms_strict : List ℕ → String → Result ℕ
unfolding parse_with_unit duration_unit
parse_duration_ms_strict = parse_with_unit duration_unit ", expected suffix [s|m|h]"
