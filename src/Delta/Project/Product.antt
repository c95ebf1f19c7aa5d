-- ===== src/Delta/Project/Product.antt =====
-- The portable `Mul64` is the full product, and `LessEqual128` is the order of the numbers.
use native.Mathlib.Nat.{mul-le-mul}
use mathlib.Core.Path.{ap₂}
use fast_clone.Prelude.{ℕ, ◌+◌, ◌*◌, ◌-◌, ◌/◌, ◌%◌, ◌^◌, ◌≤◌, ◌<◌, ◌≡◌, ◌∙◌, ◌↔◌, true, arith}
use fast_clone.Delta.Project.{U128, mul64, less_equal128}

abbrev pub to_nat : U128 → ℕ
to_nat x = x.hi * 2 ^ 64 + x.lo

-- A product of two 32-bit numbers leaves room for two more of them in 64 bits.
product_bound : (x y : ℕ) → x < 2 ^ 32 → y < 2 ^ 32 → x * y + 2 ^ 33 ≤ 2 ^ 64 + 1
product_bound x y h k =
    let step : x * y ≤ (2 ^ 32 - 1) * (2 ^ 32 - 1) =
      mul-le-mul {n₂ = 2 ^ 32 - 1} {m₂ = 2 ^ 32 - 1} (omega arith) (omega arith) in
    omega arith

product_fits : (x y : ℕ) → x < 2 ^ 32 → y < 2 ^ 32 → x * y % 2 ^ 64 ≡ x * y
product_fits x y h k = let bound = product_bound x y h k in omega arith

-- The school method on 32-bit halves, as the code combines it.
halves_lem :
    (lolo lohi hilo hihi : ℕ)
    → lolo + 2 ^ 33 ≤ 2 ^ 64 + 1
    → lohi + 2 ^ 33 ≤ 2 ^ 64 + 1
    → hilo + 2 ^ 33 ≤ 2 ^ 64 + 1
    → hihi + 2 ^ 33 ≤ 2 ^ 64 + 1
    → let cross = (lolo / 2 ^ 32 + lohi % 2 ^ 32 + hilo % 2 ^ 32) % 2 ^ 64 in
      (hihi + lohi / 2 ^ 32 + hilo / 2 ^ 32 + cross / 2 ^ 32) % 2 ^ 64 * 2 ^ 64
        + (lolo % 2 ^ 32 + cross * 2 ^ 32 % 2 ^ 64)
      ≡ hihi * 2 ^ 64 + (lohi + hilo) * 2 ^ 32 + lolo
halves_lem lolo lohi hilo hihi a b c d = omega arith

-- The product is a bilinear sum of the halves' products.
split_product :
    (a_lo a_hi b_lo b_hi : ℕ)
    → a_hi * b_hi * 2 ^ 64 + (a_lo * b_hi + a_hi * b_lo) * 2 ^ 32 + a_lo * b_lo
      ≡ (a_lo + a_hi * 2 ^ 32) * (b_lo + b_hi * 2 ^ 32)
split_product a_lo a_hi b_lo b_hi = omega arith

-- The portable multiplication by halves gives the whole 128-bit product of two 64-bit numbers.
pub mul64_lem : (a b : ℕ) → a < 2 ^ 64 → b < 2 ^ 64 → to_nat (mul64 a b) ≡ a * b
unfolding mul64
mul64_lem a b h k =
    let low : (x : ℕ) → x % 2 ^ 32 < 2 ^ 32 = λ x. omega arith in
    let a_top : a / 2 ^ 32 < 2 ^ 32 = omega arith in
    let b_top : b / 2 ^ 32 < 2 ^ 32 = omega arith in
    let halves_a : a % 2 ^ 32 + a / 2 ^ 32 * 2 ^ 32 ≡ a = omega arith in
    let halves_b : b % 2 ^ 32 + b / 2 ^ 32 * 2 ^ 32 ≡ b = omega arith in
    rw
      (
        product_fits _ _ (low a) (low b),
        product_fits _ _ (low a) b_top,
        product_fits _ _ a_top (low b),
        product_fits _ _ a_top b_top,
      )
      (halves_lem _ _ _ _ (product_bound _ _ (low a) (low b)) (product_bound _ _ (low a) b_top)
          (product_bound _ _ a_top (low b)) (product_bound _ _ a_top b_top)
        ∙ split_product (a % 2 ^ 32) (a / 2 ^ 32) (b % 2 ^ 32) (b / 2 ^ 32)
        ∙ ap₂ ◌*◌ halves_a halves_b)

pub less_equal128_lem :
    (x y : U128)
    → x.lo < 2 ^ 64
    → y.lo < 2 ^ 64
    → (less_equal128 x y ≡ true) ↔ (to_nat x ≤ to_nat y)
unfolding less_equal128
less_equal128_lem x y h k = ((λ e. ground arith), (λ e. ground arith))

pub mul64_low : (a b : ℕ) → (mul64 a b).lo < 2 ^ 64
unfolding mul64
mul64_low a b = omega arith
