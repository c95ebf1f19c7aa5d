-- ===== src/Delta/BlockSize.antt =====
-- The block-size heuristic of FastClone/delta.cpp. The loops of `Isqrt64` divide `bit` by four, so
-- 32 rounds take any 64-bit value of it to zero.
pub mod Isqrt
pub mod Bounds
use fast_clone.Prelude.{ℕ, zero, suc, ◌+◌, ◌-◌, ◌*◌, ◌/◌, ◌%◌, ◌^◌, ltb, leb, ◌==◌, if◌then◌else◌}

-- `while (bit > value) bit >>= 2;`
unfoldable pub lower_bit : ℕ → ℕ → ℕ → ℕ
lower_bit zero bit value = bit
lower_bit (suc fuel) bit value =
    let rest = lower_bit fuel (bit / 4) value in if ltb value bit then rest else bit

-- `while (bit != 0) …`
unfoldable pub sqrt_loop : ℕ → ℕ → ℕ → ℕ → ℕ
sqrt_loop zero bit v result = result
sqrt_loop (suc fuel) bit v result =
    let taken = sqrt_loop fuel (bit / 4) (v - (result + bit)) (result / 2 + bit) in
    let passed = sqrt_loop fuel (bit / 4) v (result / 2) in
    if bit == 0 then result else if leb (result + bit) v then taken else passed

abbrev isqrt_rounds : ℕ
isqrt_rounds = 32

unfoldable pub isqrt64 : ℕ → ℕ
isqrt64 value =
    if value == 0 then 0 else sqrt_loop isqrt_rounds (lower_bit isqrt_rounds (2 ^ 62) value) value 0

abbrev pub min_block : ℕ
min_block = 2048

abbrev pub max_block : ℕ
max_block = 131072

abbrev pub block_align : ℕ
block_align = 1024

align_block : ℕ → ℕ
align_block raw = (raw + block_align - 1) / block_align * block_align

clamp_block : ℕ → ℕ
clamp_block aligned =
    let low = if ltb aligned min_block then min_block else aligned in
    if ltb max_block low then max_block else low

unfoldable pub choose_block_size : ℕ → ℕ
unfolding align_block clamp_block
choose_block_size file_size = clamp_block (align_block (isqrt64 file_size))

unfoldable pub choose_strong_len : ℕ → ℕ
choose_strong_len block_count =
    if leb block_count (2 ^ 16) then 8 else if leb block_count (2 ^ 22) then 12 else 16
