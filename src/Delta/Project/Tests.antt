-- ===== src/Delta/Project/Tests.antt =====
-- The benefit tests decide the comparisons of the whole numbers, wherever the factors that the
-- code folds in 64 bits do not wrap.
use fast_clone.Prelude.{
  ℕ, ◌*◌, ◌/◌, ◌%◌, ◌^◌, ◌≤◌, ◌<◌, ◌≡◌, ◌↔◌, true, ap, ◌∙◌, arith, min, max, leb→le, le→leb,
}
use fast_clone.Delta.Project.{mul64, early_stop_prefix_bytes, projected_rejected, benefit_rejected}
use fast_clone.Delta.Project.Product.{to_nat, mul64_lem, mul64_low, less_equal128_lem}

-- Five per cent of the old file, at least a mebibyte and 256 blocks, at most 256 mebibytes.
pub early_stop_prefix_bytes_lem :
    (old_len block_size : ℕ)
    → early_stop_prefix_bytes old_len block_size
      ≡ min (256 * 2 ^ 20) (max (max (2 ^ 20) (256 * block_size)) (old_len * 5 / 100))
unfolding early_stop_prefix_bytes
early_stop_prefix_bytes_lem old_len block_size = ground arith

-- Where the products do not wrap at 2^64, a plan is rejected exactly when its download is at
-- least 65% of the new file.
pub benefit_rejected_lem :
    (download_bytes new_file_bytes : ℕ)
    → download_bytes * 100 < 2 ^ 64
    → new_file_bytes * 65 < 2 ^ 64
    → (benefit_rejected download_bytes new_file_bytes ≡ true)
      ↔ (new_file_bytes * 65 ≤ download_bytes * 100)
unfolding benefit_rejected
benefit_rejected_lem d n h k = (
  (λ e. omega (arith, leb→le (n * 65 % 2 ^ 64) (d * 100 % 2 ^ 64) e)),
  (λ e. le→leb (n * 65 % 2 ^ 64) (d * 100 % 2 ^ 64) (omega arith)),
)

-- Where the factors that the code folds do not wrap at 2^64, the projection stops the scan
-- exactly when some bytes were scanned and the matched share of them, taken of the old file, is
-- at most 35% of the new file.
pub projected_rejected_lem :
    (matched scanned old_len new_file : ℕ)
    → matched < 2 ^ 64
    → new_file < 2 ^ 64
    → old_len * 100 < 2 ^ 64
    → scanned * 35 < 2 ^ 64
    → (projected_rejected matched scanned old_len new_file ≡ true)
      ↔ ((0 < scanned) × (matched * (old_len * 100) ≤ new_file * (scanned * 35)))
unfolding projected_rejected
projected_rejected_lem m s o n hm hn ho hs =
    let left : to_nat (mul64 m (o * 100 % 2 ^ 64)) ≡ m * (o * 100) =
      mul64_lem m (o * 100 % 2 ^ 64) hm (omega arith) ∙ ap (◌*◌ m) (omega arith) in
    let right : to_nat (mul64 n (s * 35 % 2 ^ 64)) ≡ n * (s * 35) =
      mul64_lem n (s * 35 % 2 ^ 64) hn (omega arith) ∙ ap (◌*◌ n) (omega arith) in
    let order =
      less_equal128_lem (mul64 m (o * 100 % 2 ^ 64)) (mul64 n (s * 35 % 2 ^ 64)) (mul64_low _ _)
        (mul64_low _ _) in
    ((λ e. ground (arith, order)), (λ e. ground (arith, order)))
