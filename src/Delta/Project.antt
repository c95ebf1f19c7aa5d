-- ===== src/Delta/Project.antt =====
-- The benefit tests of FastClone/delta.cpp: the 128-bit product, the early-stop prefix and
-- projection, and the final rejection. `uint64_t` products wrap at 2^64 where they can.
pub mod Product
pub mod Tests
use fast_clone.Prelude.{
  ℕ, ◌+◌, ◌*◌, ◌/◌, ◌%◌, ◌^◌, Bool, false, ◌&&◌, ◌||◌, ltb, leb, ◌==◌, if◌then◌else◌,
}

pub record U128 : Type 0 where
  pub hi : ℕ
  pub lo : ℕ

-- The portable branch of `Mul64`; the other two are the compilers' own 128-bit product.
pub mul64 : ℕ → ℕ → U128
mul64 a b =
    let a_lo = a % 2 ^ 32 in
    let a_hi = a / 2 ^ 32 in
    let b_lo = b % 2 ^ 32 in
    let b_hi = b / 2 ^ 32 in
    let lolo = a_lo * b_lo % 2 ^ 64 in
    let lohi = a_lo * b_hi % 2 ^ 64 in
    let hilo = a_hi * b_lo % 2 ^ 64 in
    let hihi = a_hi * b_hi % 2 ^ 64 in
    let cross = (lolo / 2 ^ 32 + lohi % 2 ^ 32 + hilo % 2 ^ 32) % 2 ^ 64 in
    record {
      lo = lolo % 2 ^ 32 + cross * 2 ^ 32 % 2 ^ 64;
      hi = (hihi + lohi / 2 ^ 32 + hilo / 2 ^ 32 + cross / 2 ^ 32) % 2 ^ 64;
    }

pub less_equal128 : U128 → U128 → Bool
less_equal128 x y = ltb x.hi y.hi || (x.hi == y.hi && leb x.lo y.lo)

abbrev pub benefit_percent_num : ℕ
benefit_percent_num = 65

abbrev pub benefit_percent_den : ℕ
benefit_percent_den = 100

abbrev pub prefix_percent : ℕ
prefix_percent = 5

abbrev pub prefix_cap_bytes : ℕ
prefix_cap_bytes = 256 * 2 ^ 20

abbrev pub prefix_floor_bytes : ℕ
prefix_floor_bytes = 2 ^ 20

abbrev pub prefix_floor_blocks : ℕ
prefix_floor_blocks = 256

abbrev pub early_stop_eval_stride : ℕ
early_stop_eval_stride = 4 * 2 ^ 20

pub early_stop_prefix_bytes : ℕ → ℕ → ℕ
early_stop_prefix_bytes old_len block_size =
    let block_floor = block_size * prefix_floor_blocks in
    let floor_bytes =
      if ltb prefix_floor_bytes block_floor then block_floor else prefix_floor_bytes in
    let pct = old_len / 100 * prefix_percent + old_len % 100 * prefix_percent / 100 in
    let prefix = if ltb pct floor_bytes then floor_bytes else pct in
    if ltb prefix_cap_bytes prefix then prefix_cap_bytes else prefix

pub projected_rejected : ℕ → ℕ → ℕ → ℕ → Bool
projected_rejected matched_bytes scanned_bytes old_len new_file_bytes =
    if scanned_bytes == 0
    then false
    else less_equal128 (mul64 matched_bytes (old_len * benefit_percent_den % 2 ^ 64))
        (mul64 new_file_bytes (scanned_bytes * 35 % 2 ^ 64))

pub benefit_rejected : ℕ → ℕ → Bool
benefit_rejected download_bytes new_file_bytes =
    leb (new_file_bytes * benefit_percent_num % 2 ^ 64)
      (download_bytes * benefit_percent_den % 2 ^ 64)
