-- ===== src/Delta/Plan/Candidates.antt =====
-- The bucket-contiguous candidate table that `BuildPlan` of FastClone/delta.cpp sets up: counts,
-- prefix sums, and the filling from the last block down.
use fast_clone.Prelude.{
  ℕ, zero, suc, ◌+◌, ◌-◌, ◌%◌, ◌^◌, List, [], ◌∷◌, Bool, set, take, drop, replicate, if◌then◌else◌,
  ◌==◌,
}
use fast_clone.Delta.Signature.{SignatureSet}
use fast_clone.Delta.Weak.{bucket_of}
use fast_clone.Delta.Plan.{nth, block_at, block_len}

pub record Entry : Type 0 where
  pub weak : ℕ
  pub block_index : ℕ

abbrev pub buckets : ℕ
buckets = 2 ^ 16

pub record Candidates : Type 0 where
  pub bucket_start : List ℕ
  pub entries : List Entry

pub bump : List ℕ → ℕ → List ℕ
bump xs k = set xs k ((nth 0 xs k + 1) % 2 ^ 32)

unfoldable pub is_full : SignatureSet → ℕ → Bool
unfolding block_len
is_full sig i = block_len sig i == sig.block_size

unfoldable pub bucket_at : SignatureSet → ℕ → ℕ
bucket_at sig i = bucket_of (block_at sig i).weak

pub count_loop : SignatureSet → ℕ → ℕ → List ℕ → List ℕ
count_loop sig i zero starts = starts
count_loop sig i (suc n) starts =
    count_loop sig (i + 1) n (if is_full sig i then bump starts (bucket_at sig i + 1) else starts)

pub count_full : SignatureSet → ℕ → ℕ → ℕ → ℕ
count_full sig i zero full = full
count_full sig i (suc n) full =
    count_full sig (i + 1) n (if is_full sig i then (full + 1) % 2 ^ 32 else full)

pub sums_from : ℕ → List ℕ → List ℕ
sums_from before [] = []
sums_from before (x ∷ xs) = let here = (x + before) % 2 ^ 32 in here ∷ sums_from here xs

pub prefix_sums : List ℕ → List ℕ
prefix_sums [] = []
prefix_sums (x ∷ xs) = x ∷ sums_from x xs

-- Index `ii` runs from the last block down to the first.
pub fill_loop : SignatureSet → ℕ → List ℕ → List Entry → List Entry
fill_loop sig zero fill_pos entries = entries
fill_loop sig (suc ii) fill_pos entries =
    let b = bucket_at sig ii in
    let entry : Entry = record { weak = (block_at sig ii).weak; block_index = ii } in
    fill_loop sig ii (if is_full sig ii then bump fill_pos b else fill_pos)
      (if is_full sig ii then set entries (nth 0 fill_pos b) entry else entries)

unfoldable pub candidates : SignatureSet → Candidates
candidates sig =
    let starts = prefix_sums (count_loop sig 0 sig.block_count (replicate (buckets + 1) 0)) in
    let blank =
      replicate (count_full sig 0 sig.block_count 0) (record { weak = 0; block_index = 0 }) in
    record {
      bucket_start = starts;
      entries = fill_loop sig sig.block_count (take buckets starts) blank;
    }

-- The entries `[bucketStart[b], bucketStart[b + 1])`.
unfoldable pub bucket_entries : Candidates → ℕ → List Entry
bucket_entries c b =
    let k_start = nth 0 c.bucket_start b in
    take (nth 0 c.bucket_start (b + 1) - k_start) (drop k_start c.entries)
