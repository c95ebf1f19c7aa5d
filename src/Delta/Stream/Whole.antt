-- ===== src/Delta/Stream/Whole.antt =====
-- The streaming signer from its construction to `Finish`.
use mathlib.Core.Path.{subst}
use fast_clone.Prelude.{
  ℕ, ◌+◌, ◌-◌, ◌/◌, ◌%◌, ◌^◌, ◌*◌, ◌<◌, ◌≤◌, ◌≡◌, refl, sym, List, arith, length, ok, if_holds,
  ◌==◌, ==_iff,
}
use fast_clone.Entry.{Hash256}
use fast_clone.Delta.Signature.{SignatureSet}
use fast_clone.Delta.BlockSize.{choose_block_size}
use fast_clone.Delta.BlockSize.Bounds.{choose_block_size_bounds}
use fast_clone.Delta.Sign.{generate_signatures}
use fast_clone.Delta.Sign.Blocks.{blocks_lem, no_wrap}
use fast_clone.Delta.Stream.{StreamHash, new_signer, update_all, finish}
use fast_clone.Delta.Stream.Fed.{Fed}
use fast_clone.Delta.Stream.Blocks.{join, Setting}
use fast_clone.Delta.Stream.Session.{update_all-SessionOk, finish-SessionOk, new_signer-SessionOk}

module _ (h : StreamHash) (strong_hash : List ℕ → List ℕ) (file_hash : List ℕ → Hash256)
    (canonical_is : (s : h.State) (bytes : List ℕ)
      → Fed h s bytes
      → h.canonical s ≡ strong_hash bytes)
    (raw_is : (s : h.State) (bytes : List ℕ) → Fed h s bytes → h.raw s ≡ file_hash bytes) where
  -- However a file of 1 to 2^31 - 1 bytes is cut into pieces, empty ones included, the streaming
  -- signer that is made for its size, fed the pieces and finished returns the signatures that
  -- `GenerateSignatures` makes of the whole file, and the whole file's hash. It is assumed that
  -- a digest of a hash state is the hash of the bytes that the state was fed since its reset.
  pub streaming_signer_lem :
      (pieces : List (List ℕ))
      → 0 < length (join pieces)
      → length (join pieces) < 2 ^ 31
      → finish h (update_all h (new_signer h (length (join pieces))) pieces)
        ≡ ok (record {
          sig = generate_signatures strong_hash (join pieces);
          file_hash = file_hash (join pieces);
        })
  unfolding generate_signatures
  streaming_signer_lem pieces pos small =
      let bytes = join pieces in
      let size = choose_block_size (length bytes) in
      let bounds = choose_block_size_bounds (length bytes) in
      let size_pos : 0 < size = omega arith in
      let count = (length bytes + size - 1) % 2 ^ 64 / size % 2 ^ 32 in
      let cover = blocks_lem (length bytes) size size_pos in
      let same = no_wrap (length bytes) size small size_pos (omega arith) in
      let narrow : size ≤ 131072 = omega arith in
      let fits : count < 2 ^ 32 = omega arith in
      let starts : (i : ℕ) → i < count → i * size < length bytes =
        λ i k. cover.1 i (subst (λ c. i < c) same k) in
      let whole : length bytes ≤ count * size =
        subst (λ c. length bytes ≤ c * size) (sym same) cover.0 in
      let v : Setting = record {
        h = h;
        strong_hash = strong_hash;
        file_hash = file_hash;
        canonical_is = canonical_is;
        raw_is = raw_is;
        bytes = bytes;
        size = size;
        count = count;
        small = small;
        size_pos = size_pos;
        size_bound = narrow;
        count_bound = fits;
        starts = starts;
        whole = whole;
      } in
      let first = new_signer-SessionOk v pos refl refl in
      let last = update_all-SessionOk v (new_signer h (length bytes)) pieces first in
      if_holds
        (λ (s : SignatureSet).
          finish h (update_all h (new_signer h (length bytes)) pieces)
          ≡ ok (record { sig = s; file_hash = file_hash bytes }))
        (length bytes == 0) _ _
        (λ none_left. absurd (let zero_len = (==_iff (length bytes) 0).0 none_left in omega arith))
        (λ _. finish-SessionOk v (update_all h (new_signer h (length bytes)) pieces) last)
