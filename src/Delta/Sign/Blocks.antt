-- ===== src/Delta/Sign/Blocks.antt =====
-- `GenerateSignatures` cuts a file into blocks that cover it, and signs each.
use native.Mathlib.Nat.{div-add-mod, mod-lt, mul-le-mul_right}
use mathlib.Core.Path.{subst}
use fast_clone.Prelude.{
  ℕ, zero, suc, ◌+◌, ◌*◌, ◌-◌, ◌/◌, ◌%◌, ◌^◌, ◌≤◌, ◌<◌, ◌≡◌, refl, ap, sym, ◌∙◌, List, [], ◌∷◌,
  length, take, drop, min, arith, if_holds, length-drop, ◌==◌, ==_iff, some,
}
use fast_clone.Delta.Signature.{SignatureSet}
use fast_clone.Delta.BlockSize.{choose_block_size}
use fast_clone.Delta.BlockSize.Bounds.{choose_block_size_bounds}
use fast_clone.Delta.Plan.{DeltaPlan, BuildOptions, nth, block_at}
use fast_clone.Delta.Plan.Build.{build_plan}
use fast_clone.Delta.Plan.Build.Rebuild.{IsSignature, NoCollision, PlanOk, block, build_plan-PlanOk}
use fast_clone.Delta.Sign.{sign_block, sign_blocks, generate_signatures}

-- Dividing upwards gives the least number of pieces that cover the whole.
pub blocks_lem :
    (len size : ℕ)
    → 0 < size
    → let n = (len + size - 1) / size in (len ≤ n * size) × ((i : ℕ) → i < n → i * size < len)
blocks_lem len size pos =
    let n = (len + size - 1) / size in
    let parts = div-add-mod (len + size - 1) size in
    let rest = mod-lt (len + size - 1) pos in
    (
      omega arith,
      λ i h. let below : suc i * size ≤ n * size = mul-le-mul_right size h in omega arith,
    )

-- There are no more blocks than bytes.
pub block_count_bound : (len size : ℕ) → 0 < size → (len + size - 1) / size ≤ len + size
block_count_bound len size pos =
    let parts = div-add-mod (len + size - 1) size in
    let wide : 1 * ((len + size - 1) / size) ≤ size * ((len + size - 1) / size) =
      mul-le-mul_right ((len + size - 1) / size) pos in
    omega arith

pos_factor : (n size len : ℕ) → len ≤ n * size → 0 < len → 0 < n
pos_factor zero size len h pos = omega arith
pos_factor (suc n) size len h pos = omega arith

-- The code's 64 and 32 bits hold the count.
pub no_wrap :
    (len size : ℕ)
    → len < 2 ^ 31
    → 0 < size
    → size ≤ 131072
    → (len + size - 1) % 2 ^ 64 / size % 2 ^ 32 ≡ (len + size - 1) / size
no_wrap len size small pos narrow =
    let count = block_count_bound len size pos in
    let inner : (len + size - 1) % 2 ^ 64 ≡ len + size - 1 = omega arith in
    ap (λ k. k / size % 2 ^ 32) inner ∙ omega arith

take-min : (n : ℕ) (xs : List ℕ) → take (min n (length xs)) xs ≡ take n xs
take-min zero xs =
    let none_left : min 0 (length xs) ≡ 0 = omega arith in ap (λ k. take k xs) none_left
take-min (suc n) [] =
    let none_left : min (suc n) 0 ≡ 0 = omega arith in ap (λ k. take k []) none_left
take-min (suc n) (x ∷ xs) =
    let one_off : min (suc n) (suc (length xs)) ≡ suc (min n (length xs)) = omega arith in
    ap (λ k. take k (x ∷ xs)) one_off ∙ ap (◌∷◌ x) (take-min n xs)

module _ (strong_hash : List ℕ → List ℕ) where
  sign_blocks-strong :
      (bytes : List ℕ) (size j n i : ℕ)
      → size < 2 ^ 32
      → i < n
      → (nth (record { weak = 0; strong = [] }) (sign_blocks strong_hash bytes size j n) i).strong
        ≡ strong_hash (take size (drop ((j + i) * size) bytes))
  unfolding sign_blocks sign_block
  sign_blocks-strong bytes size j zero i narrow h = absurd (omega arith)
  sign_blocks-strong bytes size j (suc n) zero narrow h =
      let cut = length-drop (j * size) bytes in
      ap (λ k. strong_hash (take k (drop (j * size) bytes))) (omega arith)
      ∙ ap strong_hash (take-min size (drop (j * size) bytes))
      ∙ ap (λ k. strong_hash (take size (drop (k * size) bytes))) (omega arith)
  sign_blocks-strong bytes size j (suc n) (suc i) narrow h =
      sign_blocks-strong bytes size (j + 1) n i narrow (omega arith)
      ∙ ap (λ k. strong_hash (take size (drop (k * size) bytes))) (omega arith)

  -- The signature of a file of 1 to 2^31 - 1 bytes is well formed: it has the file's size, its
  -- block size is positive and fits 32 bits, it has a block at least, every block starts inside
  -- the file, and together the blocks cover it.
  pub generate_signatures-IsSignature :
      (new : List ℕ)
      → 0 < length new
      → length new < 2 ^ 31
      → IsSignature (generate_signatures strong_hash new) new
  unfolding generate_signatures
  generate_signatures-IsSignature new pos small =
      let len = length new in
      let size = choose_block_size len in
      let bounds = choose_block_size_bounds len in
      let size_pos : 0 < size = omega arith in
      let n = (len + size - 1) / size in
      let lem = blocks_lem len size size_pos in
      let same = no_wrap len size small size_pos (omega arith) in
      if_holds (λ (s : SignatureSet). IsSignature s new) (len == 0) _ _
        (λ h. absurd (let zero_len = (==_iff len 0).0 h in omega arith))
        (λ _. record {
          file_size_is = refl;
          small = omega arith;
          narrow = omega arith;
          block_size_pos = size_pos;
          block_count_pos = subst (λ k. 0 < k) (sym same) (pos_factor n size len lem.0 pos);
          covered = λ i h. lem.1 i (subst (λ k. i < k) same h);
          whole = subst (λ k. len ≤ k * size) (sym same) lem.0;
        })

  -- A signed block's checksum is the strong hash of its bytes.
  generate_signatures-strong :
      (new : List ℕ) (i : ℕ)
      → 0 < length new
      → i < (generate_signatures strong_hash new).block_count
      → (block_at (generate_signatures strong_hash new) i).strong
        ≡ strong_hash (block (generate_signatures strong_hash new) new i)
  unfolding generate_signatures
  generate_signatures-strong new i pos =
      let len = length new in
      let size = choose_block_size len in
      let bounds = choose_block_size_bounds len in
      if_holds
        (λ (s : SignatureSet).
          i < s.block_count → (block_at s i).strong ≡ strong_hash (block s new i))
        (len == 0) _ _ (λ h. absurd (let zero_len = (==_iff len 0).0 h in omega arith))
        (λ _ h.
          sign_blocks-strong new size 0 ((len + size - 1) % 2 ^ 64 / size % 2 ^ 32) i (omega arith)
            h
          ∙ ap (λ k. strong_hash (take size (drop (k * size) new))) (omega arith))

  -- The bytes of the strong hash that the plan compares tell every window of the old file from
  -- every block of the new one that differs from it.
  unfoldable pub TellsApart : List ℕ → List ℕ → Type 0
  TellsApart old new =
      let sig = generate_signatures strong_hash new in
      (i p : ℕ)
      → i < sig.block_count
      → p + sig.block_size ≤ length old
      → take sig.strong_len (strong_hash (take sig.block_size (drop p old)))
        ≡ take sig.strong_len (strong_hash (block sig new i))
      → take sig.block_size (drop p old) ≡ block sig new i

  pub no_collision :
      (old new : List ℕ)
      → TellsApart old new
      → 0 < length new
      → NoCollision strong_hash (generate_signatures strong_hash new) old new
  unfolding TellsApart NoCollision
  no_collision old new apart pos i p below inside same =
      let sig = generate_signatures strong_hash new in
      apart i p below inside
        (same ∙ ap (take sig.strong_len) (generate_signatures-strong new i pos below))

  -- A delta transfer rebuilds the file. For a new file of 1 to 2^31 - 1 bytes, an old one below
  -- 2^63 bytes, and a strong hash whose compared bytes tell each window of the old file from
  -- each block of the new one that differs from it, `BuildPlan` on the generated signatures ends
  -- with a plan, and the plan is either given up, empty and counted as a download of the whole
  -- file, or its copies and fetched ranges cover the new file once, end to end, every copy
  -- holding the new file's bytes, and the download is the sum of the fetched ranges.
  pub delta_rebuilds :
      (old new : List ℕ) (opt : BuildOptions)
      → 0 < length new
      → length new < 2 ^ 31
      → length old < 2 ^ 63
      → TellsApart old new
      → (plan : DeltaPlan) × (build_plan strong_hash (generate_signatures strong_hash new) old opt
          ≡ some plan)
        × PlanOk old new plan
  unfolding TellsApart
  delta_rebuilds old new opt pos small room apart =
      let sig = generate_signatures strong_hash new in
      build_plan-PlanOk strong_hash sig old new (generate_signatures-IsSignature new pos small) room
        (no_collision old new apart pos) opt
