-- ===== src/Delta/Signature.antt =====
-- The signature of a file, FastClone/delta.h: a weak and a strong checksum for each block.
use fast_clone.Prelude.{ℕ, List}

pub record BlockSig : Type 0 where
  pub weak : ℕ
  pub strong : List ℕ

pub record SignatureSet : Type 0 where
  pub file_size : ℕ
  pub block_size : ℕ
  pub block_count : ℕ
  pub strong_len : ℕ
  pub blocks : List BlockSig
