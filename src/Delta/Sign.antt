-- ===== src/Delta/Sign.antt =====
-- `GenerateSignatures` of FastClone/delta.cpp. The strong hash, XXH3, is a parameter; a buffer
-- of `len` bytes is a list.
pub mod Blocks
use fast_clone.Prelude.{
  ℕ, zero, suc, ◌+◌, ◌-◌, ◌*◌, ◌/◌, ◌%◌, ◌^◌, List, [], ◌∷◌, length, take, drop, min, if◌then◌else◌,
  ◌==◌,
}
use fast_clone.Delta.Signature.{BlockSig, SignatureSet}
use fast_clone.Delta.Weak.{weak_init, weak_value}
use fast_clone.Delta.BlockSize.{choose_block_size, choose_strong_len}

module _ (strong_hash : List ℕ → List ℕ) where
  unfoldable pub sign_block : List ℕ → ℕ → ℕ → BlockSig
  sign_block bytes block_size i =
      let off = i * block_size in
      let blen = min block_size (length bytes - off) % 2 ^ 32 in
      let block = take blen (drop off bytes) in
      record { weak = weak_value (weak_init block); strong = strong_hash block }

  -- The loop over the blocks, from index `i` on.
  unfoldable pub sign_blocks : List ℕ → ℕ → ℕ → ℕ → List BlockSig
  sign_blocks bytes block_size i zero = []
  sign_blocks bytes block_size i (suc n) =
      sign_block bytes block_size i ∷ sign_blocks bytes block_size (i + 1) n

  unfoldable pub generate_signatures : List ℕ → SignatureSet
  generate_signatures bytes =
      let len = length bytes in
      let block_size = choose_block_size len in
      let block_count = (len + block_size - 1) % 2 ^ 64 / block_size % 2 ^ 32 in
      if len == 0
      then record { file_size = 0; block_size = 0; block_count = 0; strong_len = 0; blocks = [] }
      else record {
        file_size = len;
        block_size = block_size;
        block_count = block_count;
        strong_len = choose_strong_len block_count;
        blocks = sign_blocks bytes block_size 0 block_count;
      }
