-- ===== src/Cli/Numbers/Decimal.antt =====
-- Numbers in decimal, to compare the parsers with.
use fast_clone.Prelude.{
  ℕ, zero, suc, ◌+◌, ◌-◌, ◌*◌, ◌/◌, ◌%◌, ◌^◌, ◌≤◌, ◌<◌, ◌≡◌, refl, Bool, true, false, if◌then◌else◌,
  ltb, List, [], ◌∷◌, ◌++◌, none, some, All, arith, Bool-cases, inl, inr, lt→ltb,
}
use fast_clone.Cli.Numbers.{
  is_digit, skip_spaces, read_digits, starts_with_digit, read_unsigned, read_sign, read_integer,
  stoull,
}

-- The decimal digits of a number; its own size is enough rounds.
print_loop : ℕ → ℕ → List ℕ
print_loop zero n = []
print_loop (suc rounds) n =
    let rest = print_loop rounds (n / 10) in
    if ltb n 10 then (b'0' + n) ∷ [] else rest ++ ((b'0' + n % 10) ∷ [])

unfoldable pub print : ℕ → List ℕ
unfolding print_loop
print n = print_loop (suc n) n

abbrev AreDigits : List ℕ → Type 0
AreDigits = All (λ c. is_digit c ≡ true)

-- The value of digits on top of those read before.
value_from : ℕ → List ℕ → ℕ
value_from n [] = n
value_from n (c ∷ s) = value_from (10 * n + (c - b'0')) s

value_from-snoc :
    (n : ℕ) (s : List ℕ) (c : ℕ) → value_from n (s ++ (c ∷ [])) ≡ 10 * value_from n s + (c - b'0')
unfolding value_from
value_from-snoc n [] c = refl
value_from-snoc n (x ∷ s) c = value_from-snoc (10 * n + (x - b'0')) s c

AreDigits-snoc : (s : List ℕ) (c : ℕ) → AreDigits s → is_digit c ≡ true → AreDigits (s ++ (c ∷ []))
AreDigits-snoc [] c h e = (e, tt)
AreDigits-snoc (x ∷ s) c h e = (h.0, AreDigits-snoc s c h.1 e)

snoc-digit :
    (s : List ℕ) (c : ℕ) → starts_with_digit s ≡ true → starts_with_digit (s ++ (c ∷ [])) ≡ true
snoc-digit [] c h = cc
snoc-digit (x ∷ s) c h = h

record Prints (n : ℕ) (s : List ℕ) : Type 0 where
  digits : AreDigits s
  value : value_from 0 s ≡ n
  some_digit : starts_with_digit s ≡ true

print_loop-Prints : (rounds n : ℕ) → n < rounds → Prints n (print_loop rounds n)
unfolding print_loop value_from
print_loop-Prints zero n h = absurd (omega arith)
print_loop-Prints (suc rounds) n h = elim (Bool-cases (ltb n 10)) [
  | inl single ↦
      rw (single, print_loop)
        (record { digits = (ground arith, tt); value = omega arith; some_digit = ground arith })
  | inr more ↦
      let big : 10 ≤ n = ground arith in
      let p = print_loop-Prints rounds (n / 10) (omega arith) in
      let d = b'0' + n % 10 in
      let last : is_digit d ≡ true = ground arith in
      let sum = value_from-snoc 0 (print_loop rounds (n / 10)) d in
      rw (more, print_loop)
        (record {
          digits = AreDigits-snoc (print_loop rounds (n / 10)) d p.digits last;
          value = omega (arith, sum, p.value);
          some_digit = snoc-digit (print_loop rounds (n / 10)) d p.some_digit;
        })
]

-- Digits are read up to what follows, if that does not start with a digit.
read_digits-append :
    (n : ℕ) (s rest : List ℕ)
    → AreDigits s
    → starts_with_digit rest ≡ false
    → read_digits n (s ++ rest) ≡ (value_from n s, rest)
unfolding read_digits value_from
read_digits-append n [] [] h e = refl
read_digits-append n [] (c ∷ rest) h e = rw (e, read_digits) refl
read_digits-append n (c ∷ s) rest h e =
    rw (h.0, read_digits) (read_digits-append (10 * n + (c - b'0')) s rest h.1 e)

read_unsigned-digits :
    (negative : Bool) (s rest : List ℕ)
    → AreDigits s
    → starts_with_digit s ≡ true
    → starts_with_digit rest ≡ false
    → read_unsigned negative (s ++ rest) ≡ some (negative, value_from 0 s, rest)
unfolding read_unsigned
read_unsigned-digits negative [] rest h some_digit e = cc
read_unsigned-digits negative (c ∷ s) rest h some_digit e =
    rw (read_digits-append 0 (c ∷ s) rest h e, some_digit) refl

read_integer-digits :
    (s rest : List ℕ)
    → AreDigits s
    → starts_with_digit s ≡ true
    → starts_with_digit rest ≡ false
    → read_integer (s ++ rest) ≡ some (false, value_from 0 s, rest)
unfolding read_integer read_sign skip_spaces
read_integer-digits [] rest h some_digit e = cc
read_integer-digits (c ∷ s) rest h some_digit e =
    let number = read_unsigned-digits false (c ∷ s) rest h some_digit e in ground (arith, number)

read_integer-negative :
    (s rest : List ℕ)
    → AreDigits s
    → starts_with_digit s ≡ true
    → starts_with_digit rest ≡ false
    → read_integer (b'-' ∷ (s ++ rest)) ≡ some (true, value_from 0 s, rest)
unfolding read_integer read_sign skip_spaces
read_integer-negative s rest h some_digit e = read_unsigned-digits true s rest h some_digit e

-- A number in decimal is read as it is, with no further digit behind it.
pub stoull-print :
    (n : ℕ) (rest : List ℕ)
    → n < 2 ^ 64
    → starts_with_digit rest ≡ false
    → stoull (print n ++ rest) ≡ some (n, rest)
unfolding stoull print
stoull-print n rest small e =
    let p = print_loop-Prints (suc n) n (omega arith) in
    let r = read_integer-digits (print n) rest p.digits p.some_digit e in
    rw (r, p.value, stoull) (rw (lt→ltb n (2 ^ 64) small) refl)

pub stoull-print_large :
    (n : ℕ) (rest : List ℕ)
    → 2 ^ 64 ≤ n
    → starts_with_digit rest ≡ false
    → stoull (print n ++ rest) ≡ none
unfolding stoull print
stoull-print_large n rest large e =
    let p = print_loop-Prints (suc n) n (omega arith) in
    let r = read_integer-digits (print n) rest p.digits p.some_digit e in
    rw (r, p.value, stoull) (ground arith)

-- With a minus sign it is read modulo 2^64.
pub stoull-negative :
    (n : ℕ) (rest : List ℕ)
    → n < 2 ^ 64
    → starts_with_digit rest ≡ false
    → stoull (b'-' ∷ (print n ++ rest)) ≡ some ((2 ^ 64 - n) % 2 ^ 64, rest)
unfolding stoull print
stoull-negative n rest small e =
    let p = print_loop-Prints (suc n) n (omega arith) in
    let r = read_integer-negative (print n) rest p.digits p.some_digit e in
    rw (r, p.value, stoull) (rw (lt→ltb n (2 ^ 64) small) refl)

pub starts_with_digit-print : (n : ℕ) (rest : List ℕ) → starts_with_digit (print n ++ rest) ≡ true
unfolding print
starts_with_digit-print n rest = go (print n) (print_loop-Prints (suc n) n (omega arith)).some_digit
  where
    go : (s : List ℕ) → starts_with_digit s ≡ true → starts_with_digit (s ++ rest) ≡ true
    go [] h = cc
    go (c ∷ s) h = h
