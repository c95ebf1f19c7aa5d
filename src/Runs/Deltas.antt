-- ===== src/Runs/Deltas.antt =====
-- Runs of FastClone/delta.cpp.
use fast_clone.Prelude.{
  ◌++◌, ℕ, zero, suc, ◌+◌, ◌*◌, ◌^◌, ◌≤◌, ◌<◌, ◌≡◌, refl, ap, sym, ◌∙◌, List, [], ◌∷◌, true, length,
  take, drop, replicate, All, All-take, All-drop, some, ok, arith, if_holds, ◌==◌, ==_iff,
}
use mathlib.Core.Path.{ap₂}
use fast_clone.Wire.Bytes.{IsByte, le_bytes, le_value}
use fast_clone.Wire.Bytes.RoundTrip.{le_bytes-le_value}
use fast_clone.Delta.Signature.{SignatureSet}
use fast_clone.Delta.Weak.{weak_init, weak_roll}
use fast_clone.Delta.Weak.Rolling.{weak_roll_lem}
use fast_clone.Delta.BlockSize.{
  isqrt64, lower_bit, sqrt_loop, choose_block_size, choose_strong_len, max_block, block_align,
}
use fast_clone.Delta.BlockSize.Isqrt.{IsRoot, isqrt64-IsRoot}
use fast_clone.Delta.BlockSize.Bounds.{choose_block_size_root, choose_strong_len_mono}
use fast_clone.Delta.Plan.{DeltaPlan, BuildOptions}
use fast_clone.Delta.Plan.Emit.{Emitted, flush_miss}
use fast_clone.Delta.Plan.Emit.Tiles.{miss_bytes}
use fast_clone.Delta.Plan.Emit.LongRun.{flush_miss_long_run}
use fast_clone.Delta.Plan.Build.{build_plan}
use fast_clone.Delta.Plan.Build.Rebuild.{IsSignature, PlanOk, block, build_plan-PlanOk}
use fast_clone.Delta.Stream.{StreamHash, new_signer, update_all, finish}
use fast_clone.Delta.Stream.Fed.{Fed, begun, more}
use fast_clone.Delta.Stream.Blocks.{join}
use fast_clone.Delta.Stream.Whole.{streaming_signer_lem}
use fast_clone.Delta.Sign.{generate_signatures}
use fast_clone.Delta.Sign.Blocks.{
  generate_signatures-IsSignature, TellsApart, no_collision, delta_rebuilds,
}

-- A strong hash without collisions: the length of a block, and its bytes as one number.
abbrev exact_hash : List ℕ → List ℕ
exact_hash xs = length xs ∷ le_value xs ∷ []

head_or : ℕ → List ℕ → ℕ
head_or a [] = a
head_or a (x ∷ xs) = x

exact_hash_injective :
    (xs ys : List ℕ) → All IsByte xs → All IsByte ys → exact_hash xs ≡ exact_hash ys → xs ≡ ys
unfolding head_or
exact_hash_injective xs ys bx by same =
    sym (le_bytes-le_value xs bx)
    ∙ ap₂ le_bytes (ap (head_or 0) same) (ap (λ l. head_or 0 (drop 1 l)) same)
    ∙ le_bytes-le_value ys by

strong_len_holds_exact :
    (new : List ℕ) → 0 < length new → 2 ≤ (generate_signatures exact_hash new).strong_len
unfolding generate_signatures
strong_len_holds_exact new pos =
    if_holds (λ (s : SignatureSet). 2 ≤ s.strong_len) (length new == 0) _ _
      (λ h. absurd (let zero_len = (==_iff (length new) 0).0 h in omega arith))
      (λ _. strong_len_two _)
  where
    strong_len_two : (n : ℕ) → 2 ≤ choose_strong_len n
    strong_len_two n = let mono = choose_strong_len_mono n n (omega arith) in omega arith

take_exact : (k : ℕ) (xs : List ℕ) → 2 ≤ k → take k (exact_hash xs) ≡ exact_hash xs
take_exact zero xs h = absurd (omega arith)
take_exact (suc zero) xs h = absurd (omega arith)
take_exact (suc (suc k)) xs h = ap (λ l. length xs ∷ le_value xs ∷ l) (take_none k)
  where
    take_none : (n : ℕ) → Path (List ℕ) (take n []) []
    take_none zero = refl
    take_none (suc n) = refl

exact_hash-TellsApart :
    (old new : List ℕ)
    → 0 < length new
    → All IsByte old
    → All IsByte new
    → TellsApart exact_hash old new
unfolding TellsApart
exact_hash-TellsApart old new pos bo bn i p below inside same =
    let sig = generate_signatures exact_hash new in
    let wide = strong_len_holds_exact new pos in
    exact_hash_injective (take sig.block_size (drop p old)) (block sig new i)
      (All-take IsByte sig.block_size (drop p old) (All-drop IsByte p old bo))
      (All-take IsByte sig.block_size (drop (i * sig.block_size) new)
        (All-drop IsByte (i * sig.block_size) new bn))
      (sym (take_exact sig.strong_len (take sig.block_size (drop p old)) wide)
        ∙ same
        ∙ take_exact sig.strong_len (block sig new i) wide)

All-replicate : (n b : ℕ) → IsByte b → All IsByte (replicate n b)
All-replicate zero b h = tt
All-replicate (suc n) b h = (h, All-replicate n b h)

-- A full block of sevens, and the same with one byte more.
abbrev old_file : List ℕ
old_file = replicate 2048 7

abbrev new_file : List ℕ
new_file = 1 ∷ replicate 2048 7

abbrev options : BuildOptions
options = record { enable_early_stop = true; prefix_bytes_override = 0 }

files_apart : TellsApart exact_hash old_file new_file
files_apart =
    exact_hash-TellsApart old_file new_file (omega arith) (All-replicate 2048 7 (omega arith))
      (omega arith, All-replicate 2048 7 (omega arith))

delta_rebuilds_example :
    (plan : DeltaPlan) × (build_plan exact_hash
        (generate_signatures exact_hash new_file)
        old_file
        options
      ≡ some plan)
    × PlanOk old_file new_file plan
delta_rebuilds_example =
    delta_rebuilds exact_hash old_file new_file options (omega arith) (omega arith) (omega arith)
      files_apart

build_plan-PlanOk_example :
    (plan : DeltaPlan) × (build_plan exact_hash
        (generate_signatures exact_hash new_file)
        old_file
        options
      ≡ some plan)
    × PlanOk old_file new_file plan
build_plan-PlanOk_example =
    build_plan-PlanOk exact_hash (generate_signatures exact_hash new_file) old_file new_file
      (generate_signatures-IsSignature exact_hash new_file (omega arith) (omega arith))
      (omega arith) (no_collision exact_hash old_file new_file files_apart (omega arith)) options

generate_signatures-IsSignature_example :
    IsSignature (generate_signatures exact_hash new_file) new_file
generate_signatures-IsSignature_example =
    generate_signatures-IsSignature exact_hash new_file (omega arith) (omega arith)

weak_roll_lem_example :
    weak_roll (weak_init (1 ∷ 2 ∷ 3 ∷ [])) 1 255 3 ≡ weak_init (2 ∷ 3 ∷ 255 ∷ [])
weak_roll_lem_example = weak_roll_lem 1 255 (2 ∷ 3 ∷ []) (omega arith)

isqrt64-IsRoot_example : IsRoot (isqrt64 99) 99
isqrt64-IsRoot_example = isqrt64-IsRoot 99 (omega arith)

root_is_3000 : isqrt64 9000000 ≡ 3000
unfolding isqrt64 lower_bit sqrt_loop
root_is_3000 = refl

choose_block_size_root_example :
    (isqrt64 9000000 ≤ choose_block_size 9000000)
    × (choose_block_size 9000000 < isqrt64 9000000 + block_align)
choose_block_size_root_example = choose_block_size_root 9000000 root_low root_high
  where
    root_low : 1024 < isqrt64 9000000
    root_low = omega (arith, root_is_3000)

    root_high : isqrt64 9000000 ≤ max_block
    root_high = omega (arith, root_is_3000)

abbrev long_run : Emitted
long_run = record {
  copies = [];
  misses = [];
  download_bytes = 0;
  run_start = 0;
  run_bytes = 2 ^ 32 + 5;
  in_run = true;
}

flush_miss_long_run_example :
    ((flush_miss long_run).download_bytes ≡ 0 + (2 ^ 32 + 5))
    × (miss_bytes (flush_miss long_run).misses + 2 ^ 32 ≤ miss_bytes [] + (2 ^ 32 + 5))
flush_miss_long_run_example = flush_miss_long_run long_run refl (omega arith) (omega arith)

-- States that keep the bytes.
abbrev plain_hash : StreamHash
plain_hash = record {
  State = List ℕ;
  reset = [];
  feed = λ s piece. s ++ piece;
  canonical = exact_hash;
  raw = λ s. s;
}

Fed-bytes : (s bytes : List ℕ) → Fed plain_hash s bytes → s ≡ bytes
Fed-bytes _ _ begun = refl
Fed-bytes _ _ (more s bytes piece fed) = ap (λ xs. xs ++ piece) (Fed-bytes s bytes fed)

abbrev file_pieces : List (List ℕ)
file_pieces = (1 ∷ 2 ∷ []) ∷ [] ∷ (3 ∷ []) ∷ []

streaming_signer_lem_example :
    finish plain_hash
      (update_all plain_hash (new_signer plain_hash (length (join file_pieces))) file_pieces)
    ≡ ok (record {
      sig = generate_signatures exact_hash (join file_pieces);
      file_hash = join file_pieces;
    })
unfolding join
streaming_signer_lem_example =
    streaming_signer_lem plain_hash exact_hash (λ bytes. bytes)
      (λ s bytes fed. ap exact_hash (Fed-bytes s bytes fed)) Fed-bytes file_pieces (omega arith)
      (omega arith)
