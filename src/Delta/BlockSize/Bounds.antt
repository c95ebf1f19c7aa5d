-- ===== src/Delta/BlockSize/Bounds.antt =====
-- The range of the block sizes and of the checksum lengths.
use fast_clone.Prelude.{ℕ, ◌+◌, ◌%◌, ◌≤◌, ◌<◌, ◌≡◌, arith}
use fast_clone.Delta.BlockSize.{
  isqrt64, min_block, max_block, block_align, choose_block_size, choose_strong_len,
}

-- A block size is a multiple of 1 KiB from 2 KiB to 128 KiB.
pub choose_block_size_bounds :
    (file_size : ℕ)
    → (min_block ≤ choose_block_size file_size)
      × (choose_block_size file_size ≤ max_block)
      × (choose_block_size file_size % block_align ≡ 0)
unfolding choose_block_size
choose_block_size_bounds file_size = ground arith

-- Where the square root of the file size is above 1024 and at most 128 KiB, the block size is at
-- least the root and less than 1 KiB above it.
pub choose_block_size_root :
    (file_size : ℕ)
    → 1024 < isqrt64 file_size
    → isqrt64 file_size ≤ max_block
    → (isqrt64 file_size ≤ choose_block_size file_size)
      × (choose_block_size file_size < isqrt64 file_size + block_align)
unfolding choose_block_size
choose_block_size_root file_size lo hi = ground arith

-- The significant bytes of a strong checksum are 8, 12 or 16, and never fewer for more blocks.
pub choose_strong_len_mono :
    (m n : ℕ)
    → m ≤ n
    → (8 ≤ choose_strong_len m)
      × (choose_strong_len m ≤ choose_strong_len n)
      × (choose_strong_len n ≤ 16)
unfolding choose_strong_len
choose_strong_len_mono m n h = ground arith
