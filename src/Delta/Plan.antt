-- ===== src/Delta/Plan.antt =====
-- The plan of FastClone/delta.h: which bytes of the new file are copied from the old one, and
-- which are fetched. The children hold the candidate table, the scan and the emission.
pub mod Candidates
pub mod Scan
pub mod Emit
pub mod Build
use fast_clone.Prelude.{
  ℕ, ◌+◌, ◌-◌, ◌*◌, ◌%◌, ◌^◌, min, List, [], ◌∷◌, Bool, zero, suc, Option, some, none, get_elem?,
}
use fast_clone.Delta.Signature.{BlockSig, SignatureSet}

pub record CopyOp : Type 0 where
  pub src_offset_old : ℕ
  pub dest_offset_new : ℕ
  pub len : ℕ

pub record MissOp : Type 0 where
  pub dest_offset_new : ℕ
  pub len : ℕ

pub record DeltaStats : Type 0 where
  pub scanned_bytes : ℕ
  pub matched_bytes : ℕ
  pub strong_computations : ℕ
  pub weak_candidate_hits : ℕ
  pub early_stopped : Bool

pub record DeltaPlan : Type 0 where
  pub copies : List CopyOp
  pub misses : List MissOp
  pub download_bytes : ℕ
  pub new_file_bytes : ℕ
  pub stats : DeltaStats

pub record BuildOptions : Type 0 where
  pub enable_early_stop : Bool
  pub prefix_bytes_override : ℕ

-- An element of a vector; the code reads none outside it.
module _ {ℓ} {A : Type ℓ} where
  abbrev pub nth : A → List A → ℕ → A
  nth a [] i = a
  nth a (x ∷ xs) zero = x
  nth a (x ∷ xs) (suc i) = nth a xs i

abbrev pub block_at : SignatureSet → ℕ → BlockSig
block_at sig i = nth (record { weak = 0; strong = [] }) sig.blocks i

-- `blockLen`: the offset is 64 bits wide, and so is the difference.
unfoldable pub block_len : SignatureSet → ℕ → ℕ
block_len sig i =
    min sig.block_size ((sig.file_size + 2 ^ 64 - i * sig.block_size) % 2 ^ 64) % 2 ^ 32
