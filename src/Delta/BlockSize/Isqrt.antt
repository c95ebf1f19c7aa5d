-- ===== src/Delta/BlockSize/Isqrt.antt =====
-- `Isqrt64` is the integer square root on every 64-bit value.
use native.Mathlib.Nat.{pow-suc, one-le-pow}
use fast_clone.Prelude.{
  ℕ, zero, suc, ◌+◌, ◌-◌, ◌*◌, ◌/◌, ◌^◌, ◌≤◌, ◌<◌, ◌≡◌, refl, false, arith, ltb→lt, lt→ltb, ap, ◌∙◌,
  ltb, leb, leb→le, ◌==◌, Bool-cases, inl, inr,
}
use fast_clone.Delta.BlockSize.{lower_bit, sqrt_loop, isqrt64, isqrt_rounds}

abbrev pub IsRoot : ℕ → ℕ → Type 0
IsRoot r value = (r * r ≤ value) × (value < (r + 1) * (r + 1))

sqrt_loop_stop : (fuel v result : ℕ) → sqrt_loop fuel 0 v result ≡ result
unfolding sqrt_loop
sqrt_loop_stop zero v result = refl
sqrt_loop_stop (suc fuel) v result = refl

pow_pos : (k : ℕ) → 0 < 2 ^ k
pow_pos k = one-le-pow k 2 (omega arith)

-- The square of a power of two is four times the square of the one below it.
quarter_back : (k : ℕ) → 2 ^ suc k * 2 ^ suc k ≡ 4 * (2 ^ k * 2 ^ k)
quarter_back k = rw (pow-suc 2 k) (omega arith)

-- One round, given that the rounds after it find the root: `a` is the root found so far, and
-- `bit` is the square of `p`.
sqrt_round :
    (p q a v value fuel : ℕ)
    → 0 < p
    → p * p / 4 ≡ q * q
    → v + a * a ≡ value
    → value < (a + 2 * p) * (a + 2 * p)
    → ((b w : ℕ)
        → w + b * b ≡ value
        → value < (b + p) * (b + p)
        → IsRoot (sqrt_loop fuel (q * q) w (b * p)) value)
    → IsRoot (sqrt_loop (suc fuel) (p * p) v (2 * (a * p))) value
unfolding sqrt_loop
sqrt_round p q a v value fuel pos quarter s u later =
    let half : 2 * (a * p) / 2 ≡ a * p = omega arith in
    let step : a * p + p * p ≡ (a + p) * p = omega arith in
    let nz : (p * p == 0) ≡ false = grind arith in
    elim (Bool-cases (leb (2 * (a * p) + p * p) v)) [
      | inl fits ↦
          let le : 2 * (a * p) + p * p ≤ v = leb→le _ _ fits in
          rw (nz, fits, quarter, half, step)
            (later (a + p) (v - (2 * (a * p) + p * p)) (omega arith) (omega arith))
      | inr over ↦
          let lt : v < 2 * (a * p) + p * p = ground arith in
          rw (nz, over, quarter, half) (later a v s (omega arith))
    ]

sqrt_loop_lem :
    (k a v value fuel : ℕ)
    → k < fuel
    → v + a * a ≡ value
    → value < (a + 2 * 2 ^ k) * (a + 2 * 2 ^ k)
    → IsRoot (sqrt_loop fuel (2 ^ k * 2 ^ k) v (2 * (a * 2 ^ k))) value
sqrt_loop_lem k a v value zero f s u = absurd (omega arith)
sqrt_loop_lem zero a v value (suc fuel) f s u =
    sqrt_round 1 0 a v value fuel (omega arith) refl s u
      (λ b w e l. rw (sqrt_loop_stop fuel w (b * 1)) (omega arith))
sqrt_loop_lem (suc k) a v value (suc fuel) f s u =
    let e = pow-suc 2 k in
    let quarter : 2 ^ suc k * 2 ^ suc k / 4 ≡ 2 ^ k * 2 ^ k = rw e (omega arith) in
    sqrt_round (2 ^ suc k) (2 ^ k) a v value fuel (pow_pos (suc k)) quarter s u (λ b w s' l.
      let r : b * 2 ^ suc k ≡ 2 * (b * 2 ^ k) = rw e (omega arith) in
      let l' : value < (b + 2 * 2 ^ k) * (b + 2 * 2 ^ k) =
        let d : 2 * 2 ^ k ≡ 2 ^ suc k = omega (arith, e) in rw d l in
      rw r (sqrt_loop_lem k b w value fuel (omega arith) s' l'))

lower_bit_go :
    (fuel bit value : ℕ)
    → value < bit
    → lower_bit (suc fuel) bit value ≡ lower_bit fuel (bit / 4) value
unfolding lower_bit
lower_bit_go fuel bit value h = rw (lt→ltb _ _ h)

-- The first loop stops at a power of four that is at most four times too small.
lower_bit_lem :
    (k fuel value : ℕ)
    → 0 < value
    → k < fuel
    → value < 4 * (2 ^ k * 2 ^ k)
    → (j : ℕ) × (j ≤ k)
      × (lower_bit fuel (2 ^ k * 2 ^ k) value ≡ 2 ^ j * 2 ^ j)
      × (value < 4 * (2 ^ j * 2 ^ j))
unfolding lower_bit
lower_bit_lem k zero value p f u = absurd (omega arith)
lower_bit_lem zero (suc fuel) value p f u = (0, omega arith, ground arith, u)
lower_bit_lem (suc k) (suc fuel) value p f u =
    let e = pow-suc 2 k in
    let quarter : 2 ^ suc k * 2 ^ suc k / 4 ≡ 2 ^ k * 2 ^ k = rw e (omega arith) in
    elim (Bool-cases (ltb value (2 ^ suc k * 2 ^ suc k))) [
      | inl above ↦
          let lt : value < 2 ^ suc k * 2 ^ suc k = ltb→lt _ _ above in
          let (j, le, same, less) =
            lower_bit_lem k fuel value p (omega arith) (omega (arith, quarter_back k)) in
          (
            j,
            omega arith,
            lower_bit_go fuel _ value lt ∙ ap (λ (b : ℕ). lower_bit fuel b value) quarter ∙ same,
            less,
          )
      | inr enough ↦ (suc k, omega arith, rw enough, u)
    ]

isqrt64_run :
    (value : ℕ)
    → 0 < value
    → isqrt64 value
      ≡ sqrt_loop isqrt_rounds (lower_bit isqrt_rounds (2 ^ 62) value) value (2 * (0 * 1))
unfolding isqrt64
isqrt64_run value p = ground arith

isqrt64_pos : (value : ℕ) → 0 < value → value < 2 ^ 64 → IsRoot (isqrt64 value) value
isqrt64_pos value p h =
    let (j, le, e, u) = lower_bit_lem 31 isqrt_rounds value p (omega arith) (omega arith) in
    let zero_root : 2 * (0 * 1) ≡ 2 * (0 * 2 ^ j) = omega arith in
    rw (isqrt64_run value p, e, zero_root)
      (sqrt_loop_lem j 0 value value isqrt_rounds (omega arith) (omega arith) (omega arith))

-- On every 64-bit value the result is the integer square root: its square is at most the value,
-- and the next square is above it.
pub isqrt64-IsRoot : (value : ℕ) → value < 2 ^ 64 → IsRoot (isqrt64 value) value
isqrt64-IsRoot zero h = unfold isqrt64 in omega arith
isqrt64-IsRoot (suc n) h = isqrt64_pos (suc n) (omega arith) h
