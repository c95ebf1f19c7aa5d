-- ===== src/Delta/Stream.antt =====
-- `StreamingSigner` of FastClone/delta.cpp: the signature and the hash of a file that arrives in
-- pieces. The states of XXH3 are a parameter; that it cannot allocate one is not modelled.
pub mod Fed
pub mod Blocks
pub mod Session
pub mod Whole
use fast_clone.Prelude.{
  ℕ, zero, suc, ◌+◌, ◌-◌, ◌*◌, ◌/◌, ◌%◌, ◌^◌, min, Bool, true, false, ◌||◌, if◌then◌else◌, ltb, leb,
  ◌==◌, List, [], ◌∷◌, ◌++◌, length, take, drop, Result, ok, throw,
}
use fast_clone.Entry.{Hash256}
use fast_clone.Delta.Signature.{BlockSig, SignatureSet}
use fast_clone.Delta.BlockSize.{choose_block_size, choose_strong_len}

-- XXH3_128bits: its states, the canonical digest of a block and the raw digest of a file.
pub record StreamHash : Type 1 where
  pub State : Type 0
  pub reset : State
  pub feed : State → List ℕ → State
  pub canonical : State → List ℕ
  pub raw : State → Hash256

pub record StreamingResult : Type 0 where
  pub sig : SignatureSet
  pub file_hash : Hash256

-- The sums of the weak checksum and the position in the block.
pub record WeakSums : Type 0 where
  pub s1 : ℕ
  pub s2 : ℕ
  pub j : ℕ

abbrev pub no_sums : WeakSums
no_sums = record { s1 = 0; s2 = 0; j = 0 }

pub add_bytes : List ℕ → WeakSums → WeakSums
add_bytes [] w = w
add_bytes (x ∷ xs) w = add_bytes xs (record {
  s1 = (w.s1 + x) % 2 ^ 32;
  s2 = (w.s2 + (w.j + 1) % 2 ^ 32 * x % 2 ^ 32) % 2 ^ 32;
  j = (w.j + 1) % 2 ^ 32;
})

module _ (h : StreamHash) where
  pub record Signer : Type 0 where
    pub file_size : ℕ
    pub block_size : ℕ
    pub block_count : ℕ
    pub strong_len : ℕ
    pub consumed : ℕ
    pub cur_block_index : ℕ
    pub cur_block_filled : ℕ
    pub cur_block_len : ℕ
    pub weak : WeakSums
    pub block_state : h.State
    pub file_state : h.State
    pub blocks : List BlockSig

  unfoldable pub new_signer : ℕ → Signer
  new_signer file_size =
      let block_size = choose_block_size file_size in
      let block_count = (file_size + block_size - 1) % 2 ^ 64 / block_size % 2 ^ 32 in
      let empty = file_size == 0 in
      record {
        file_size = file_size;
        block_size = if empty then 0 else block_size;
        block_count = if empty then 0 else block_count;
        strong_len = if empty then 0 else choose_strong_len block_count;
        consumed = 0;
        cur_block_index = 0;
        cur_block_filled = 0;
        cur_block_len = if empty then 0 else min block_size file_size % 2 ^ 32;
        weak = no_sums;
        block_state = h.reset;
        file_state = h.reset;
        blocks = [];
      }

  -- The bytes of a piece that belong to the current block.
  pub feed_block : Signer → List ℕ → Signer
  feed_block s piece = record s {
    weak = add_bytes piece s.weak;
    block_state = if ltb 0 (length piece) then h.feed s.block_state piece else s.block_state;
    cur_block_filled = (s.cur_block_filled + length piece) % 2 ^ 32;
  }

  -- The current block is full: its signature is kept, and the next block begins.
  pub close_block : Signer → Signer
  close_block s =
      let index = (s.cur_block_index + 1) % 2 ^ 32 in
      let more = ltb index s.block_count in
      let bs : BlockSig = record {
        weak = s.weak.s2 % 2 ^ 16 * 2 ^ 16 + s.weak.s1 % 2 ^ 16;
        strong = h.canonical s.block_state;
      } in
      record s {
        blocks = s.blocks ++ (bs ∷ []);
        weak = no_sums;
        cur_block_filled = 0;
        cur_block_index = index;
        cur_block_len =
            if more
            then min s.block_size ((s.file_size + 2 ^ 64 - index * s.block_size) % 2 ^ 64) % 2 ^ 32
            else s.cur_block_len;
        block_state = if more then h.reset else s.block_state;
      }

  abbrev pub span : Signer → List ℕ → ℕ
  span s bytes = min ((s.cur_block_len + 2 ^ 32 - s.cur_block_filled) % 2 ^ 32) (length bytes)

  pub take_piece : Signer → List ℕ → Signer
  take_piece s bytes =
      let fed = feed_block s (take (span s bytes) bytes) in
      if fed.cur_block_filled == fed.cur_block_len then close_block fed else fed

  -- The loop of `Update`: each round takes a byte at least.
  pub consume : ℕ → Signer → List ℕ → Signer
  consume zero s bytes = s
  consume (suc fuel) s bytes =
      let later = consume fuel (take_piece s bytes) (drop (span s bytes) bytes) in
      if (length bytes == 0) || leb s.block_count s.cur_block_index then s else later

  unfoldable pub update : Signer → List ℕ → Signer
  update s bytes =
      consume (length bytes)
        (record s {
          file_state = if ltb 0 (length bytes) then h.feed s.file_state bytes else s.file_state;
          consumed = (s.consumed + length bytes) % 2 ^ 64;
        })
        bytes

  unfoldable pub finish : Signer → Result StreamingResult
  finish s =
      if s.consumed == s.file_size
      then ok (record {
        sig = record {
          file_size = s.file_size;
          block_size = s.block_size;
          block_count = s.block_count;
          strong_len = s.strong_len;
          blocks = s.blocks;
        };
        file_hash = h.raw s.file_state;
      })
      else throw "StreamingSigner: fed byte count does not match fileSize"

  unfoldable pub update_all : Signer → List (List ℕ) → Signer
  update_all s [] = s
  update_all s (bytes ∷ chunks) = update_all (update s bytes) chunks
